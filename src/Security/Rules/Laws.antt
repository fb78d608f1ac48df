-- ===== src/Security/Rules/Laws.antt =====
-- When a list of rules matches, and what pushing a rule adds.
use docker_socket_proxy.Common.{
  Bool, true, false, ◌||◌, List, [], ◌∷◌, Option, some, ◌≡◌, ◌⊎◌, ◌↔◌, inl, inr, refl, sym, ap, ◌∙◌,
  arith, Bool-cases, Member, any, any-eq-true, any_of_Member, Str, any-append,
}
use docker_socket_proxy.Security.Rule
use docker_socket_proxy.Security.Rule.{RuleSet, flatten, insert_all, is_inert}
use docker_socket_proxy.Security.Rule.Laws.{Covers, Applies, insert_all_iff}
use docker_socket_proxy.Security.Rule.Laws
use docker_socket_proxy.Security.Rules.{RuleList, matches, push_rule, push, add}

-- Some rule of the list applies.
abbrev pub RulesApply : RuleList → Str → Str → Type 0
RulesApply rules method path =
    (rule : RuleSet) × Member rule rules × Applies rule.methods rule.endpoints method path

pub matches_iff :
    (rules : RuleList) (method path : Str)
    → (matches rules method path ≡ true) ↔ RulesApply rules method path
unfolding matches
matches_iff rules method path = (
  (λ h.
      let (rule, m, q) = any-eq-true (λ r. Rule.matches r method path) rules h in
      (rule, m, (Laws.matches_iff rule method path).0 q)),
  (λ a.
      any_of_Member (λ r. Rule.matches r method path) rules a.0 a.1
        ((Laws.matches_iff a.0 method path).1 a.2)),
)

insert_all-nil_iff : (xs : List Str) → (insert_all [] xs ≡ []) ↔ (xs ≡ [])
insert_all-nil_iff xs = (to xs, from xs)
  where
    to : (xs : List Str) → insert_all [] xs ≡ [] → xs ≡ []
    to [] e = refl
    to (x ∷ xs) e = absurd (rw e at ((insert_all_iff [] (x ∷ xs) x).1 (inr (inl refl))))

    from : (xs : List Str) → xs ≡ [] → insert_all [] xs ≡ []
    from xs e = rw e (unfold insert_all in refl)

-- Applying depends on the two sides as sets.
SameItems : List Str → List Str → Type 0
SameItems xs ys = ((xs ≡ []) ↔ (ys ≡ [])) × ((y : Str) → Member y xs ↔ Member y ys)

insert_all-SameItems : (xs : List Str) → SameItems (insert_all [] xs) xs
unfolding SameItems
insert_all-SameItems xs = (
  insert_all-nil_iff xs,
  λ y. (
    (λ m. elim ((insert_all_iff [] xs y).0 m) [ inl no_item ↦ absurd no_item | inr found ↦ found ]),
    (λ m. (insert_all_iff [] xs y).1 (inr m)),
  ),
)

SameItems-sym : (xs ys : List Str) → SameItems xs ys → SameItems ys xs
unfolding SameItems
SameItems-sym xs ys (e, h) = ((e.1, e.0), λ y. ((h y).1, (h y).0))

Applies-SameItems :
    (ms ms' es es' : List Str) (method path : Str)
    → SameItems ms ms'
    → SameItems es es'
    → Applies ms es method path
    → Applies ms' es' method path
unfolding SameItems
Applies-SameItems ms ms' es es' method path (me, m) (ee, e) a = record {
  active = elim a.active [ inl n ↦ inl (λ q. n (me.1 q)) | inr n ↦ inr (λ q. n (ee.1 q)) ];
  on_method = elim a.on_method [ inl q ↦ inl (me.0 q) | inr q ↦ inr ((m method).0 q) ];
  on_path = elim a.on_path [ inl q ↦ inl (ee.0 q) | inr c ↦ inr (c.0, (e c.0).0 c.1, c.2) ];
}

Applies-extend_iff :
    (methods endpoints : Option (List Str)) (method path : Str)
    → let rule = Rule.extend Rule.empty methods endpoints in
      Applies rule.methods rule.endpoints method path
      ↔ Applies (flatten methods) (flatten endpoints) method path
unfolding Rule.extend
Applies-extend_iff methods endpoints method path =
    let m = insert_all-SameItems (flatten methods) in
    let e = insert_all-SameItems (flatten endpoints) in
    (
      Applies-SameItems (insert_all [] (flatten methods)) (flatten methods)
          (insert_all [] (flatten endpoints)) (flatten endpoints) method path m e,
      Applies-SameItems (flatten methods) (insert_all [] (flatten methods)) (flatten endpoints)
          (insert_all [] (flatten endpoints)) method path (SameItems-sym _ _ m)
          (SameItems-sym _ _ e),
    )

inert-matches :
    (rule : RuleSet) (method path : Str)
    → is_inert rule ≡ true
    → Rule.matches rule method path ≡ false
unfolding Rule.matches
inert-matches rule method path h = rw h

or_false : (a : Bool) → a ≡ (a || false)
or_false true = refl
or_false false = refl

matches-push_rule :
    (rules : RuleList) (rule : RuleSet) (method path : Str)
    → matches (push_rule rules rule) method path
      ≡ (matches rules method path || Rule.matches rule method path)
unfolding matches push_rule
matches-push_rule rules rule method path = elim (Bool-cases (is_inert rule)) [
  | inl inert ↦ rw (inert, inert-matches rule method path inert) (or_false _)
  | inr live ↦
      rw (live, any-append (λ r. Rule.matches r method path) rules (rule ∷ []))
        (ap (λ b. any (λ r. Rule.matches r method path) rules || b) (sym (or_false _)))
]

or_iff : (a b : Bool) → ((a || b) ≡ true) ↔ ((a ≡ true) ⊎ (b ≡ true))
or_iff a b = ground arith

push_rule_iff :
    (rules : RuleList) (rule : RuleSet) (method path : Str)
    → RulesApply (push_rule rules rule) method path
      ↔ (RulesApply rules method path ⊎ Applies rule.methods rule.endpoints method path)
push_rule_iff rules rule method path = (
  (λ a.
      elim ((or_iff _ _).0
        (sym (matches-push_rule rules rule method path) ∙ (matches_iff _ method path).1 a)) [
          | inl old ↦ inl ((matches_iff rules method path).0 old)
          | inr fresh ↦ inr ((Laws.matches_iff rule method path).0 fresh)
        ]),
  (λ h. (matches_iff (push_rule rules rule) method path).0 (
      matches-push_rule rules rule method path
      ∙ (or_iff _ _).1 (elim h [
        | inl old ↦ inl ((matches_iff rules method path).1 old)
        | inr fresh ↦ inr ((Laws.matches_iff rule method path).1 fresh)
      ]))),
)

-- A pushed rule is evaluated on its own: the list matches if it did before, or if the new rule does.
pub push_iff :
    (rules : RuleList) (methods endpoints : Option (List Str)) (method path : Str)
    → RulesApply (push rules methods endpoints) method path
      ↔ (RulesApply rules method path ⊎ Applies (flatten methods) (flatten endpoints) method path)
unfolding push
push_iff rules methods endpoints method path =
    let step = push_rule_iff rules (Rule.extend Rule.empty methods endpoints) method path in
    let same = Applies-extend_iff methods endpoints method path in
    (
      (λ a. elim (step.0 a) [ inl old ↦ inl old | inr fresh ↦ inr (same.0 fresh) ]),
      (λ h. step.1 (elim h [ inl old ↦ inl old | inr fresh ↦ inr (same.1 fresh) ])),
    )

-- So is a rule that the built-in profiles add.
pub add_iff :
    (rules : RuleList) (methods endpoints : List Str) (method path : Str)
    → RulesApply (add rules methods endpoints) method path
      ↔ (RulesApply rules method path ⊎ Applies methods endpoints method path)
unfolding add Rule.new Rule.add
add_iff rules methods endpoints method path =
    unfold push in push_iff rules (some methods) (some endpoints) method path
