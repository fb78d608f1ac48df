-- ===== src/Security/Profile/Grants.antt =====
-- What each built-in profile grants before any rule is added.
use mathlib.Core.Path.{subst}
use docker_socket_proxy.Common.{
  List, [], ◌∷◌, ◌++◌, ◌≡◌, ◌⊎◌, ◌↔◌, inl, inr, refl, sym, arith, Member, Str, codes, str_eq,
  contains,
}
use mathlib.Core.List.{cons-ne-nil}
use docker_socket_proxy.Config.{SecurityProfile, default, read_only, container_runtime}
use docker_socket_proxy.Error.{ok}
use docker_socket_proxy.Security.Rule
use docker_socket_proxy.Security.Rule.{RuleSet}
use docker_socket_proxy.Security.Rule.Laws.{Covers}
use docker_socket_proxy.Security.Rules
use docker_socket_proxy.Security.Rules.Laws.{RulesApply, add_iff}
use docker_socket_proxy.Security.Profile.{
  read_methods, write_methods, readable_endpoints, mutating_endpoints, runtime_endpoints,
  for_profile,
}
use docker_socket_proxy.Security.Profile.Runtime.{sole_rule, Applies-method, both, runtime_iff}
use docker_socket_proxy.Security.Filter.{check}
use docker_socket_proxy.Security.Filter.Decision.{check_iff}

abbrev pub Reads : Str → Str → Type 0
Reads method path = Member method read_methods × Covers readable_endpoints path

-- The profiles, as the README describes them.
abbrev pub Grants : SecurityProfile → Str → Str → Type 0
Grants SecurityProfile.none method path = ⊥
Grants default method path = Reads method path
Grants read_only method path = Reads method path
Grants container_runtime method path =
    Reads method path
    ⊎ (Member method write_methods × Covers runtime_endpoints path)
    ⊎ ((method ≡ codes "GET") × Covers (codes "/exec/*/json" ∷ []) path)

abbrev pub all_writes : List Str
all_writes = write_methods ++ codes "PATCH" ∷ []

profile_code : Unit {0}
unfolding for_profile Rules.push_rule Rule.new Rule.add Rule.extend Rule.insert_all Rule.insert
    Rule.is_inert contains str_eq
profile_code = tt

default_deny :
    (for_profile default).deny
    ≡ record { methods = write_methods; endpoints = mutating_endpoints } ∷ []
unfolding profile_code
default_deny = refl

read_only_deny : (for_profile read_only).deny ≡ record { methods = all_writes; endpoints = [] } ∷ []
unfolding profile_code
read_only_deny = refl

reads_allow :
    ((for_profile default).allow ≡ Rules.add [] read_methods readable_endpoints)
    × ((for_profile read_only).allow ≡ Rules.add [] read_methods readable_endpoints)
unfolding for_profile
reads_allow = (refl, refl)

none_allow : (for_profile SecurityProfile.none).allow ≡ []
unfolding for_profile
none_allow = refl

no_exclude : ((for_profile default).exclude ≡ []) × ((for_profile read_only).exclude ≡ [])
unfolding for_profile
no_exclude = (refl, refl)

module _ (m path : Str) where
  read_not_write : Member m read_methods → ¬ Member m all_writes
  read_not_write h k = ground arith

  read_not_write3 : Member m read_methods → ¬ Member m write_methods
  read_not_write3 h k = ground arith

  add_nil_iff :
      (x y : Str) (ms es : List Str)
      → RulesApply (Rules.add [] (x ∷ ms) (y ∷ es)) m path
        ↔ (Member m (x ∷ ms) × Covers (y ∷ es) path)
  add_nil_iff x y ms es = (
    (λ a. elim ((add_iff [] (x ∷ ms) (y ∷ es) m path).0 a) [
      | inl e ↦ absurd e.1
      | inr b ↦ (both m path).0 b
    ]),
    (λ h. (add_iff [] (x ∷ ms) (y ∷ es) m path).1 (inr ((both m path).1 h))),
  )

  default_iff : (check (for_profile default) m path ≡ ok tt) ↔ Reads m path
  default_iff = (
    (λ h.
        (add_nil_iff _ _ _ _).0
          (subst (λ rs. RulesApply rs m path) reads_allow.0 ((check_iff _ m path).0 h).2)),
    (λ r. (check_iff _ m path).1 (
      (λ a. (subst (λ rs. RulesApply rs m path) no_exclude.0 a).1),
      (λ a. read_not_write3 r.0 (
          Applies-method m path (cons-ne-nil _ _)
            (sole_rule _ _ m path (subst (λ rs. RulesApply rs m path) default_deny a)))),
      subst (λ rs. RulesApply rs m path) (sym reads_allow.0) ((add_nil_iff _ _ _ _).1 r),
    )),
  )

  read_only_iff : (check (for_profile read_only) m path ≡ ok tt) ↔ Reads m path
  read_only_iff = (
    (λ h.
        (add_nil_iff _ _ _ _).0
          (subst (λ rs. RulesApply rs m path) reads_allow.1 ((check_iff _ m path).0 h).2)),
    (λ r. (check_iff _ m path).1 (
      (λ a. (subst (λ rs. RulesApply rs m path) no_exclude.1 a).1),
      (λ a. read_not_write r.0 (
          Applies-method m path (cons-ne-nil _ _)
            (sole_rule _ _ m path (subst (λ rs. RulesApply rs m path) read_only_deny a)))),
      subst (λ rs. RulesApply rs m path) (sym reads_allow.1) ((add_nil_iff _ _ _ _).1 r),
    )),
  )

  -- The filter of a built-in profile allows a method on a path exactly when the profile grants them:
  -- reads of the readable endpoints but under `none`, and under the container runtime also writes of
  -- its endpoints and the state of an exec.
  pub for_profile_iff :
      (profile : SecurityProfile)
      → (check (for_profile profile) m path ≡ ok tt) ↔ Grants profile m path
  for_profile_iff SecurityProfile.none = (
    (λ h. (subst (λ rs. RulesApply rs m path) none_allow ((check_iff _ m path).0 h).2).1),
    (λ h. absurd h),
  )
  for_profile_iff default = default_iff
  for_profile_iff read_only = read_only_iff
  for_profile_iff container_runtime = runtime_iff m path

-- The read-only denial covers every write, on any endpoint.
pub read_only_denies :
    (method path : Str)
    → Member method all_writes
    → RulesApply (for_profile read_only).deny method path
read_only_denies method path m =
    subst (λ rs. RulesApply rs method path) (sym read_only_deny)
      (
        record { methods = all_writes; endpoints = [] },
        inl refl,
        record { active = inl (cons-ne-nil _ _); on_method = inr m; on_path = inl refl },
      )
