-- ===== src/Policy/Report/Laws.antt =====
-- Which values are warned about.
use docker_socket_proxy.Common.{
  codes, contains_iff, arith, to_ascii_uppercase, if◌then◌else◌, Bool, true, false, List, [], ◌∷◌,
  Option, ◌≡◌, ◌⊎◌, ◌↔◌, inl, inr, refl, ap, ◌∙◌, Bool-cases, Member, Member-append,
  Member-append_left, Member-append_right, Str,
}
use docker_socket_proxy.Security.Rule.{flatten}
use docker_socket_proxy.DockerApi.{methods, is_known_method, matches_known_path}
use docker_socket_proxy.Policy.Report.{
  Warning, unknown_method, unknown_endpoint, method_hint, report_methods, report_endpoints,
  report_unknown,
}

-- One warning for each item that a test does not know.
unknowns : (Str → Bool) → (Str → Warning) → List Str → List Warning
unknowns known warn [] = []
unknowns known warn (x ∷ xs) =
    let rest = unknowns known warn xs in if known x then rest else warn x ∷ rest

unknowns_iff :
    (known : Str → Bool) (warn : Str → Warning) (xs : List Str) (w : Warning)
    → Member w (unknowns known warn xs)
      ↔ ((x : Str) × Member x xs × (known x ≡ false) × (w ≡ warn x))
unfolding unknowns
unknowns_iff known warn [] w = ((λ k. absurd k), (λ h. absurd h.1))
unknowns_iff known warn (x ∷ xs) w = elim (Bool-cases (known x)) [
  | inl on ↦ rw on (
    (λ k. let (y, there, off, e) = (unknowns_iff known warn xs w).0 k in (y, inr there, off, e)),
    (λ (y, k, off, e). elim k [
      | inl same ↦ absurd (clash y same on off)
      | inr there ↦ (unknowns_iff known warn xs w).1 (y, there, off, e)
    ]),
  )
  | inr off ↦ rw off (
    (λ k. elim k [
      | inl e ↦ (x, inl refl, off, e)
      | inr later ↦
          let (y, there, q, e) = (unknowns_iff known warn xs w).0 later in (y, inr there, q, e)
    ]),
    (λ (y, k, q, e). elim k [
      | inl same ↦ inl (e ∙ ap warn same)
      | inr there ↦ inr ((unknowns_iff known warn xs w).1 (y, there, q, e))
    ]),
  )
]
  where
    clash : (y : Str) → y ≡ x → known x ≡ true → known y ≡ false → ⊥
    clash y e p q = cc

report_methods-unknowns :
    (source : Str) (ms : List Str)
    → report_methods source ms
      ≡ unknowns is_known_method (λ m. unknown_method source m (method_hint m)) ms
unfolding report_methods unknowns
report_methods-unknowns source [] = refl
report_methods-unknowns source (m ∷ ms) = rw (report_methods-unknowns source ms)

report_endpoints-unknowns :
    (source : Str) (es : List Str)
    → report_endpoints source es ≡ unknowns matches_known_path (unknown_endpoint source) es
unfolding report_endpoints unknowns
report_endpoints-unknowns source [] = refl
report_endpoints-unknowns source (e ∷ es) = rw (report_endpoints-unknowns source es)

-- The hint for a method that is not known: whether it only differs from one in case.
pub data HintFor (method : Str) : Str → Type 0 where
  wrong_case :
      Member (to_ascii_uppercase method) methods
      → HintFor method (codes "HTTP methods are case-sensitive, so this matches no request")
  no_method :
      ¬ Member (to_ascii_uppercase method) methods
      → HintFor method (codes "not a method the Docker API uses")

is_known_method_iff : (m : Str) → (is_known_method m ≡ true) ↔ Member m methods
unfolding is_known_method
is_known_method_iff m = contains_iff methods m

not_known_iff : (m : Str) → (is_known_method m ≡ false) ↔ (¬ Member m methods)
not_known_iff m = ground (arith, is_known_method_iff m)

method_hint-HintFor : (m : Str) → HintFor m (method_hint m)
unfolding method_hint
method_hint-HintFor m = elim (Bool-cases (is_known_method (to_ascii_uppercase m))) [
  | inl is ↦ rw is (wrong_case ((is_known_method_iff (to_ascii_uppercase m)).0 is))
  | inr off ↦ rw off (no_method ((not_known_iff (to_ascii_uppercase m)).0 off))
]

HintFor-unique : (m hint other : Str) → HintFor m hint → HintFor m other → hint ≡ other
HintFor-unique m _ _ (wrong_case is) (wrong_case same) = refl
HintFor-unique m _ _ (wrong_case is) (no_method off) = absurd (off is)
HintFor-unique m _ _ (no_method off) (wrong_case is) = absurd (off is)
HintFor-unique m _ _ (no_method off) (no_method same) = refl

method_warnings :
    (source : Str) (ms : List Str) (w : Warning)
    → Member w (unknowns is_known_method (λ m. unknown_method source m (method_hint m)) ms) ↔ (
        (m : Str) × (hint : Str) × Member m ms
        × (¬ Member m methods)
        × HintFor m hint
        × (w ≡ unknown_method source m hint))
method_warnings source ms w =
    let found = unknowns_iff is_known_method (λ m. unknown_method source m (method_hint m)) ms w in
    (
      (λ k.
          let (m, there, off, e) = found.0 k in
          (m, method_hint m, there, (not_known_iff m).0 off, method_hint-HintFor m, e)),
      (λ (m, hint, there, off, fits, e). found.1 (
        m,
        there,
        (not_known_iff m).1 off,
        e
            ∙ ap (unknown_method source m)
                (HintFor-unique m hint (method_hint m) fits (method_hint-HintFor m)),
      )),
    )

-- What is logged of a rule: each of its methods that is not one of the known ones, with the hint that
-- only its case is wrong or that it is no method, each of its endpoints that is not known, and nothing
-- else.
pub report_unknown_iff :
    (source : Str) (given_methods given_endpoints : Option (List Str)) (w : Warning)
    → Member w (report_unknown source given_methods given_endpoints) ↔ (
        ((m : Str) × (hint : Str) × Member m (flatten given_methods)
          × (¬ Member m methods)
          × HintFor m hint
          × (w ≡ unknown_method source m hint))
        ⊎ ((e : Str) × Member e (flatten given_endpoints)
            × (matches_known_path e ≡ false)
            × (w ≡ unknown_endpoint source e)))
unfolding report_unknown
report_unknown_iff source given_methods given_endpoints w =
    let of_method = method_warnings source (flatten given_methods) w in
    let of_endpoint =
      unknowns_iff matches_known_path (unknown_endpoint source) (flatten given_endpoints) w in
    rw
      (
        report_methods-unknowns source (flatten given_methods),
        report_endpoints-unknowns source (flatten given_endpoints),
      )
      (
        (λ k.
            elim (Member-append w
              (unknowns is_known_method (λ m. unknown_method source m (method_hint m))
                (flatten given_methods))
              _ k) [ inl now ↦ inl (of_method.0 now) | inr later ↦ inr (of_endpoint.0 later) ]),
        (λ h. elim h [
          | inl m ↦ Member-append_left w _ _ (of_method.1 m)
          | inr e ↦
              Member-append_right w
                (unknowns is_known_method (λ m. unknown_method source m (method_hint m))
                  (flatten given_methods))
                _ (of_endpoint.1 e)
        ]),
      )
