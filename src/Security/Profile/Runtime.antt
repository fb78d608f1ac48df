-- ===== src/Security/Profile/Runtime.antt =====
-- The container-runtime profile: which writes it grants.
use docker_socket_proxy.Common.{
  true, not, List, [], ◌∷◌, ◌≡◌, ◌≢◌, ◌↔◌, ◌⊎◌, inl, inr, refl, sym, arith, Member, keep, Str,
  codes, str_eq, contains, ends_with, split, cons_first,
}
use mathlib.Core.List.{cons-ne-nil}
use docker_socket_proxy.Config.{container_runtime}
use docker_socket_proxy.Error.{ok}
use docker_socket_proxy.Security.Pattern.{segments}
use docker_socket_proxy.Security.Rule
use docker_socket_proxy.Security.Rule.{RuleSet}
use mathlib.Core.Path.{subst}
use docker_socket_proxy.Security.Rule.Laws.{Covers, Applies}
use docker_socket_proxy.Security.Rules
use docker_socket_proxy.Security.Rules.Laws.{RulesApply, add_iff}
use docker_socket_proxy.Security.Profile.{
  read_methods, write_methods, readable_endpoints, mutating_endpoints, runtime_endpoints,
  runtime_exempt, for_profile, retain_writes,
}
use docker_socket_proxy.Security.Filter.{check}
use docker_socket_proxy.Security.Filter.Decision.{check_iff}
use docker_socket_proxy.Security.Profile.Apart.{
  apart, apart_patterns, apart_lists, apart_lists_sound,
}

-- the write denial that is left
kept : List Str
kept = keep (λ e. not (contains runtime_exempt e)) mutating_endpoints

pattern_code : Unit {0}
unfolding apart_lists apart_patterns apart segments split cons_first str_eq ends_with contains kept
pattern_code = tt

kept-apart : apart_lists runtime_endpoints kept ≡ true
unfolding pattern_code
kept-apart = refl

kept-ne-nil : kept ≢ []
unfolding pattern_code
kept-ne-nil = cc

runtime_deny :
    (for_profile container_runtime).deny ≡ record { methods = write_methods; endpoints = kept } ∷ []
unfolding for_profile Rules.push_rule retain_writes Rule.new Rule.add Rule.extend Rule.insert_all
    Rule.insert Rule.is_inert contains str_eq kept
runtime_deny = refl

runtime_allow :
    (for_profile container_runtime).allow
    ≡ Rules.add
        (Rules.add (Rules.add [] read_methods readable_endpoints) write_methods runtime_endpoints)
        (codes "GET" ∷ [])
        (codes "/exec/*/json" ∷ [])
unfolding for_profile
runtime_allow = refl

runtime_exclude : (for_profile container_runtime).exclude ≡ []
unfolding for_profile
runtime_exclude = refl

read_not_write : (m : Str) → Member m read_methods → ¬ Member m write_methods
read_not_write m h k = ground arith

get_not_write : (m : Str) → m ≡ codes "GET" → ¬ Member m write_methods
get_not_write m h k = ground arith

pub sole_rule :
    (ms es : List Str) (m path : Str)
    → RulesApply (record { methods = ms; endpoints = es } ∷ []) m path
    → Applies ms es m path
sole_rule ms es m path (rule, inl e, a) =
    subst (λ (r : RuleSet). Applies r.methods r.endpoints m path) e a
sole_rule ms es m path (rule, inr no_rule, a) = absurd no_rule

module _ (m path : Str) where
  pub Applies-method : {ms es : List Str} → ms ≢ [] → Applies ms es m path → Member m ms
  Applies-method n a = elim a.on_method [ inl e ↦ absurd (n e) | inr k ↦ k ]

  Applies-Covers : {ms es : List Str} → es ≢ [] → Applies ms es m path → Covers es path
  Applies-Covers n a = elim a.on_path [ inl e ↦ absurd (n e) | inr c ↦ c ]

  -- The three allowances of the profile.
  abbrev pub Allowed : Type 0
  Allowed =
      (Member m read_methods × Covers readable_endpoints path)
      ⊎ (Member m write_methods × Covers runtime_endpoints path)
      ⊎ ((m ≡ codes "GET") × Covers (codes "/exec/*/json" ∷ []) path)

  pub both :
      {x y : Str} {ms es : List Str}
      → Applies (x ∷ ms) (y ∷ es) m path ↔ (Member m (x ∷ ms) × Covers (y ∷ es) path)
  both {x} {y} {ms} {es} = (
    (λ a. (Applies-method (cons-ne-nil x ms) a, Applies-Covers (cons-ne-nil y es) a)),
    (λ h. record { active = inl (cons-ne-nil x ms); on_method = inr h.0; on_path = inr h.1 }),
  )

  allow_iff :
      RulesApply
        (Rules.add
          (Rules.add (Rules.add [] read_methods readable_endpoints) write_methods runtime_endpoints)
          (codes "GET" ∷ [])
          (codes "/exec/*/json" ∷ []))
        m
        path
      ↔ Allowed
  allow_iff = (to, from)
    where
      to :
          RulesApply
            (Rules.add
              (Rules.add
                (Rules.add [] read_methods readable_endpoints)
                write_methods
                runtime_endpoints)
              (codes "GET" ∷ [])
              (codes "/exec/*/json" ∷ []))
            m
            path
          → Allowed
      to a = elim ((add_iff _ _ _ m path).0 a) [
        | inr get ↦
            let (g, c) = both.0 get in
            inr (inr (elim g [ inl e ↦ e | inr no_more ↦ absurd no_more ], c))
        | inl b ↦ elim ((add_iff _ _ _ m path).0 b) [
          | inr write ↦ inr (inl (both.0 write))
          | inl c ↦ elim ((add_iff _ _ _ m path).0 c) [
            | inr read ↦ inl (both.0 read)
            | inl no_rule ↦ absurd no_rule.1
          ]
        ]
      ]

      from :
          Allowed
          → RulesApply
              (Rules.add
                (Rules.add
                  (Rules.add [] read_methods readable_endpoints)
                  write_methods
                  runtime_endpoints)
                (codes "GET" ∷ [])
                (codes "/exec/*/json" ∷ []))
              m
              path
      from (inl read) =
          (add_iff _ _ _ m path).1
            (inl ((add_iff _ _ _ m path).1 (inl ((add_iff _ _ _ m path).1 (inr (both.1 read))))))
      from (inr (inl write)) =
          (add_iff _ _ _ m path).1 (inl ((add_iff _ _ _ m path).1 (inr (both.1 write))))
      from (inr (inr (get, c))) = (add_iff _ _ _ m path).1 (inr (both.1 (inl get, c)))

  runtime_denied :
      RulesApply (for_profile container_runtime).deny m path
      → Member m write_methods × Covers kept path
  runtime_denied a =
      let only = sole_rule _ _ m path (subst (λ rs. RulesApply rs m path) runtime_deny a) in
      (Applies-method (cons-ne-nil _ _) only, Applies-Covers kept-ne-nil only)

  not_denied : Allowed → ¬ (Member m write_methods × Covers kept path)
  not_denied (inl read) d = read_not_write m read.0 d.0
  not_denied (inr (inl write)) d =
      apart_lists_sound runtime_endpoints kept path kept-apart write.1 d.1
  not_denied (inr (inr (get, c))) d = get_not_write m get d.0

  pub runtime_iff : (check (for_profile container_runtime) m path ≡ ok tt) ↔ Allowed
  runtime_iff = (
    (λ h.
        allow_iff.0
          (subst (λ rs. RulesApply rs m path) runtime_allow ((check_iff _ m path).0 h).2)),
    (λ granted. (check_iff _ m path).1 (
      (λ a. (subst (λ rs. RulesApply rs m path) runtime_exclude a).1),
      (λ a. not_denied granted (runtime_denied a)),
      subst (λ rs. RulesApply rs m path) (sym runtime_allow) (allow_iff.1 granted),
    )),
  )
