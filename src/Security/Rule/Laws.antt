-- ===== src/Security/Rule/Laws.antt =====
-- When a rule set matches, and what merging methods and endpoints into it keeps.
use docker_socket_proxy.Common.{
  Bool, true, false, ◌&&◌, ◌||◌, List, [], ◌∷◌, ◌++◌, Option, ◌≡◌, ◌≢◌, ◌⊎◌, ◌↔◌, inl, inr, refl,
  sym, arith, Bool-cases, Member, any, any-eq-true, any_of_Member, Member-append,
  Member-append_left, Member-append_right, is_empty, Str, contains, contains_iff,
}
use docker_socket_proxy.Security.Pattern.{matches_pattern}
use docker_socket_proxy.Security.Pattern.Matches.{Matches, matches_pattern_iff}
use docker_socket_proxy.Security.Rule.{
  RuleSet, is_inert, matches, insert, insert_all, flatten, extend,
}

-- Some pattern of the list matches the path.
abbrev pub Covers : List Str → Str → Type 0
Covers endpoints path = (e : Str) × Member e endpoints × Matches e path

-- A side that is empty is a wildcard; with both sides empty nothing matches.
pub record Applies (methods endpoints : List Str) (method path : Str) : Type 0 where
  pub active : (methods ≢ []) ⊎ (endpoints ≢ [])
  pub on_method : (methods ≡ []) ⊎ Member method methods
  pub on_path : (endpoints ≡ []) ⊎ Covers endpoints path

is_empty_iff : (xs : List Str) → (is_empty xs ≡ true) ↔ (xs ≡ [])
is_empty_iff [] = ((λ _. refl), (λ _. refl))
is_empty_iff (x ∷ xs) = ((λ h. cc), (λ h. cc))

any_matches_iff :
    (endpoints : List Str) (path : Str)
    → (any (λ p. matches_pattern p path) endpoints ≡ true) ↔ Covers endpoints path
any_matches_iff endpoints path = (
  (λ h.
      let (e, m, q) = any-eq-true (λ p. matches_pattern p path) endpoints h in
      (e, m, (matches_pattern_iff e path).0 q)),
  (λ c.
      any_of_Member (λ p. matches_pattern p path) endpoints c.0 c.1
        ((matches_pattern_iff c.0 path).1 c.2)),
)

matches-parts :
    (rule : RuleSet) (method path : Str)
    → (matches rule method path ≡ true) ↔ (
        (is_empty rule.methods && is_empty rule.endpoints ≡ false)
        × (is_empty rule.methods || contains rule.methods method ≡ true)
        × (is_empty rule.endpoints || any (λ p. matches_pattern p path) rule.endpoints ≡ true))
unfolding matches is_inert
matches-parts rule method path = ground arith

or_empty : (xs : List Str) (b : Bool) → (is_empty xs || b ≡ true) → (xs ≡ []) ⊎ (b ≡ true)
or_empty [] b h = inl refl
or_empty (x ∷ xs) b h = inr h

active-of_parts :
    (xs ys : List Str) → (is_empty xs && is_empty ys ≡ false) ↔ ((xs ≢ []) ⊎ (ys ≢ []))
active-of_parts xs ys = ground (arith, is_empty_iff xs, is_empty_iff ys)

-- A rule set matches exactly when it is not empty on both sides, the method is listed or no method
-- is, and some endpoint matches the path or no endpoint is given.
pub matches_iff :
    (rule : RuleSet) (method path : Str)
    → (matches rule method path ≡ true) ↔ Applies rule.methods rule.endpoints method path
matches_iff rule method path = (to, from)
  where
    to : matches rule method path ≡ true → Applies rule.methods rule.endpoints method path
    to h =
        let (live, on_method, on_path) = (matches-parts rule method path).0 h in
        record {
          active = (active-of_parts rule.methods rule.endpoints).0 live;
          on_method = ground (arith, is_empty_iff rule.methods, contains_iff rule.methods method);
          on_path = elim (or_empty rule.endpoints _ on_path) [
            | inl none_given ↦ inl none_given
            | inr some_match ↦ inr ((any_matches_iff rule.endpoints path).0 some_match)
          ];
        }

    on_endpoints :
        (rule.endpoints ≡ []) ⊎ Covers rule.endpoints path
        → (is_empty rule.endpoints || any (λ p. matches_pattern p path) rule.endpoints ≡ true)
    on_endpoints (inl e) = rw e
    on_endpoints (inr c) = ground (arith, (any_matches_iff rule.endpoints path).1 c)

    from : Applies rule.methods rule.endpoints method path → matches rule method path ≡ true
    from a = (matches-parts rule method path).1 (
      (active-of_parts rule.methods rule.endpoints).1 a.active,
      ground (arith, is_empty_iff rule.methods, contains_iff rule.methods method, a.on_method),
      on_endpoints a.on_path,
    )

-- No item stands twice.
abbrev pub Distinct : List Str → Type 0
Distinct [] = Unit
Distinct (x ∷ xs) = ¬ Member x xs × Distinct xs

Distinct-append_one :
    (xs : List Str) (x : Str) → Distinct xs → ¬ Member x xs → Distinct (xs ++ x ∷ [])
Distinct-append_one [] x h n = ((λ m. m), tt)
Distinct-append_one (y ∷ ys) x (new_y, h) n = (
  (λ m. elim (Member-append y ys (x ∷ []) m) [
    | inl before ↦ new_y before
    | inr last ↦ elim last [ inl e ↦ n (inl (sym e)) | inr no_more ↦ no_more ]
  ]),
  Distinct-append_one ys x h (λ m. n (inr m)),
)

insert-Distinct : (xs : List Str) (x : Str) → Distinct xs → Distinct (insert xs x)
unfolding insert
insert-Distinct xs x h = elim (Bool-cases (contains xs x)) [
  | inl old ↦ rw old h
  | inr fresh ↦ rw fresh (Distinct-append_one xs x h (λ m. cc ((contains_iff xs x).1 m)))
]

insert-Member : (xs : List Str) (x y : Str) → Member y xs ⊎ (y ≡ x) → Member y (insert xs x)
unfolding insert
insert-Member xs x y h = elim (Bool-cases (contains xs x)) [
  | inl old ↦ rw old (elim h [ inl m ↦ m | inr e ↦ rw e ((contains_iff xs x).0 old) ])
  | inr fresh ↦ rw fresh (elim h [
    | inl m ↦ Member-append_left y xs (x ∷ []) m
    | inr e ↦ Member-append_right y xs (x ∷ []) (inl e)
  ])
]

Member-insert : (xs : List Str) (x y : Str) → Member y (insert xs x) → Member y xs ⊎ (y ≡ x)
unfolding insert
Member-insert xs x y m = elim (Bool-cases (contains xs x)) [
  | inl old ↦ inl (rw old at m)
  | inr fresh ↦ elim (Member-append y xs (x ∷ []) (rw fresh at m)) [
    | inl before ↦ inl before
    | inr last ↦ elim last [ inl e ↦ inr e | inr no_more ↦ absurd no_more ]
  ]
]

-- Inserting a list of items adds those, and keeps what was there.
pub insert_all_iff :
    (xs ys : List Str) (y : Str) → Member y (insert_all xs ys) ↔ (Member y xs ⊎ Member y ys)
unfolding insert_all
insert_all_iff xs [] y = ((λ m. inl m), (λ h. elim h [ inl m ↦ m | inr m ↦ absurd m ]))
insert_all_iff xs (z ∷ ys) y = (
  (λ m. elim ((insert_all_iff (insert xs z) ys y).0 m) [
    | inl before ↦ elim (Member-insert xs z y before) [ inl m ↦ inl m | inr e ↦ inr (inl e) ]
    | inr after ↦ inr (inr after)
  ]),
  (λ h. (insert_all_iff (insert xs z) ys y).1 (elim h [
    | inl m ↦ inl (insert-Member xs z y (inl m))
    | inr m ↦ elim m [ inl e ↦ inl (insert-Member xs z y (inr e)) | inr later ↦ inr later ]
  ])),
)

insert_all-Distinct : (xs ys : List Str) → Distinct xs → Distinct (insert_all xs ys)
unfolding insert_all
insert_all-Distinct xs [] h = h
insert_all-Distinct xs (y ∷ ys) h = insert_all-Distinct (insert xs y) ys (insert-Distinct xs y h)

-- Extending a rule set whose methods and endpoints hold no repetition keeps them so, and its methods
-- and endpoints are the old and the new ones.
extend_lem :
    (rule : RuleSet) (methods endpoints : Option (List Str))
    → Distinct rule.methods
    → Distinct rule.endpoints
    → Distinct (extend rule methods endpoints).methods
      × Distinct (extend rule methods endpoints).endpoints
      × ((m : Str)
          → Member m (extend rule methods endpoints).methods
            ↔ (Member m rule.methods ⊎ Member m (flatten methods)))
      × ((e : Str)
          → Member e (extend rule methods endpoints).endpoints
            ↔ (Member e rule.endpoints ⊎ Member e (flatten endpoints)))
unfolding extend
extend_lem rule methods endpoints hm he = (
  insert_all-Distinct rule.methods (flatten methods) hm,
  insert_all-Distinct rule.endpoints (flatten endpoints) he,
  insert_all_iff rule.methods (flatten methods),
  insert_all_iff rule.endpoints (flatten endpoints),
)
