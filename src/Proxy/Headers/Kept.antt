-- ===== src/Proxy/Headers/Kept.antt =====
-- Which headers a hop keeps, and which upgrade it offers.
use docker_socket_proxy.Common.{
  ℕ, Bool, true, false, ◌||◌, List, [], ◌∷◌, ◌≡◌, ◌⊎◌, ◌↔◌, inl, inr, refl, sym, ap, ◌∙◌, arith,
  Bool-cases, if◌then◌else◌, Member, Str, codes, str_eq, str_eq_iff, contains_iff,
  to_ascii_lowercase, ascii_lower,
}
use docker_socket_proxy.Http.{Headers}
use docker_socket_proxy.Proxy.Headers.{
  hop_by_hop_headers, is_hop_by_hop, request_headers, response_headers,
}

ascii_lower_idem : (c : ℕ) → ascii_lower (ascii_lower c) ≡ ascii_lower c
unfolding ascii_lower
ascii_lower_idem c = ground arith

to_ascii_lowercase_idem :
    (s : Str) → to_ascii_lowercase (to_ascii_lowercase s) ≡ to_ascii_lowercase s
to_ascii_lowercase_idem [] = unfold to_ascii_lowercase in refl
to_ascii_lowercase_idem (c ∷ s) = cc (
  lower-cons c s,
  lower-cons (ascii_lower c) (to_ascii_lowercase s),
  to_ascii_lowercase_idem s,
  ascii_lower_idem c,
)
  where
    lower-cons :
        (c : ℕ) (s : Str) → to_ascii_lowercase (c ∷ s) ≡ ascii_lower c ∷ to_ascii_lowercase s
    lower-cons c s = unfold to_ascii_lowercase in refl

-- A header that ends at this hop: one of the fixed ones, or one that `Connection` lists.
pub data EndsHere (listed : List Str) (name : Str) : Type 0 where
  fixed : Member (to_ascii_lowercase name) hop_by_hop_headers → EndsHere listed name
  named : Member (to_ascii_lowercase name) listed → EndsHere listed name

or_iff : (a b : Bool) → ((a || b) ≡ true) ↔ ((a ≡ true) ⊎ (b ≡ true))
or_iff a b = ground arith

is_hop_by_hop_iff :
    (name : Str) (listed : List Str) → (is_hop_by_hop name listed ≡ true) ↔ EndsHere listed name
unfolding is_hop_by_hop
is_hop_by_hop_iff name listed = (
  (λ h. elim ((or_iff _ _).0 h) [
    | inl is_fixed ↦ fixed ((contains_iff hop_by_hop_headers (to_ascii_lowercase name)).0 is_fixed)
    | inr is_named ↦ named ((contains_iff listed (to_ascii_lowercase name)).0 is_named)
  ]),
  (λ e. (or_iff _ _).1 (elim e [
    | fixed m ↦ inl ((contains_iff hop_by_hop_headers (to_ascii_lowercase name)).1 m)
    | named m ↦ inr ((contains_iff listed (to_ascii_lowercase name)).1 m)
  ])),
)

is_hop_by_hop-lower :
    (name : Str) (listed : List Str)
    → is_hop_by_hop (to_ascii_lowercase name) listed ≡ is_hop_by_hop name listed
unfolding is_hop_by_hop
is_hop_by_hop-lower name listed = rw (to_ascii_lowercase_idem name)

-- A header that the proxy does not pass to the daemon.
abbrev pub IsDropped : List Str → Str → Type 0
IsDropped listed name = (to_ascii_lowercase name ≡ codes "host") ⊎ EndsHere listed name

is_dropped : List Str → Str → Bool
is_dropped listed name =
    str_eq (to_ascii_lowercase name) (codes "host")
    || is_hop_by_hop (to_ascii_lowercase name) listed

is_dropped_iff :
    (listed : List Str) (name : Str) → (is_dropped listed name ≡ true) ↔ IsDropped listed name
unfolding is_dropped
is_dropped_iff listed name = (
  (λ h. elim ((or_iff _ _).0 h) [
    | inl host ↦ inl ((str_eq_iff (to_ascii_lowercase name) (codes "host")).0 host)
    | inr hop ↦
        inr ((is_hop_by_hop_iff name listed).0 (sym (is_hop_by_hop-lower name listed) ∙ hop))
  ]),
  (λ d. (or_iff _ _).1 (elim d [
    | inl host ↦ inl ((str_eq_iff (to_ascii_lowercase name) (codes "host")).1 host)
    | inr ends ↦ inr (is_hop_by_hop-lower name listed ∙ (is_hop_by_hop_iff name listed).1 ends)
  ])),
)

-- Dropping the entries whose name a test holds of.
drop_named : (Str → Bool) → Headers → Headers
drop_named test [] = []
drop_named test ((k, v) ∷ hs) =
    let rest = drop_named test hs in if test k then rest else (k, v) ∷ rest

drop_named_iff :
    (test : Str → Bool) (hs : Headers) (k v : Str)
    → Member (k, v) (drop_named test hs) ↔ (Member (k, v) hs × (test k ≡ false))
unfolding drop_named
drop_named_iff test [] k v = ((λ m. absurd m), (λ h. h.0))
drop_named_iff test ((j, w) ∷ hs) k v = elim (Bool-cases (test j)) [
  | inl hit ↦ rw hit (
    (λ m. let (there, ok_k) = (drop_named_iff test hs k v).0 m in (inr there, ok_k)),
    (λ h. elim h.0 [
      | inl e ↦ absurd (clash (ap (λ p. p.0) e) hit h.1)
      | inr there ↦ (drop_named_iff test hs k v).1 (there, h.1)
    ]),
  )
  | inr miss ↦ rw miss (
    (λ m. elim m [
      | inl e ↦ (inl e, same_test (ap (λ p. p.0) e) miss)
      | inr later ↦ let (there, ok_k) = (drop_named_iff test hs k v).0 later in (inr there, ok_k)
    ]),
    (λ h. elim h.0 [
      | inl e ↦ inl e
      | inr there ↦ inr ((drop_named_iff test hs k v).1 (there, h.1))
    ]),
  )
]
  where
    clash : k ≡ j → test j ≡ true → test k ≡ false → ⊥
    clash e p q = cc

    same_test : k ≡ j → test j ≡ false → test k ≡ false
    same_test e p = cc

request_headers-drop_named :
    (listed : List Str) (hs : Headers)
    → request_headers listed hs ≡ drop_named (is_dropped listed) hs
unfolding request_headers drop_named is_dropped
request_headers-drop_named listed [] = refl
request_headers-drop_named listed ((k, v) ∷ hs) = rw (request_headers-drop_named listed hs)

response_headers-drop_named :
    (listed : List Str) (hs : Headers)
    → response_headers listed hs ≡ drop_named (λ k. is_hop_by_hop k listed) hs
unfolding response_headers drop_named
response_headers-drop_named listed [] = refl
response_headers-drop_named listed ((k, v) ∷ hs) = rw (response_headers-drop_named listed hs)

not_iff : {P : Type 0} (b : Bool) → ((b ≡ true) ↔ P) → ((b ≡ false) ↔ (¬ P))
not_iff true e = ((λ h. cc), (λ n. absurd (n (e.0 refl))))
not_iff false e = ((λ _ p. cc (e.1 p)), (λ _. refl))

-- A header reaches the daemon exactly when the client sent it and it is neither `Host` nor ends at
-- this hop; its value is unchanged.
pub request_headers_iff :
    (listed : List Str) (hs : Headers) (k v : Str)
    → Member (k, v) (request_headers listed hs) ↔ (Member (k, v) hs × ¬ IsDropped listed k)
request_headers_iff listed hs k v =
    let dropped = not_iff _ (is_dropped_iff listed k) in
    let found = drop_named_iff (is_dropped listed) hs k v in
    rw (request_headers-drop_named listed hs)
      ((λ m. ((found.0 m).0, dropped.0 (found.0 m).1)), (λ h. found.1 (h.0, dropped.1 h.1)))

-- A header of the daemon's answer is relayed exactly when it does not end at this hop.
pub response_headers_iff :
    (listed : List Str) (hs : Headers) (k v : Str)
    → Member (k, v) (response_headers listed hs) ↔ (Member (k, v) hs × ¬ EndsHere listed k)
response_headers_iff listed hs k v =
    let dropped = not_iff _ (is_hop_by_hop_iff k listed) in
    let found = drop_named_iff (λ k. is_hop_by_hop k listed) hs k v in
    rw (response_headers-drop_named listed hs)
      ((λ m. ((found.0 m).0, dropped.0 (found.0 m).1)), (λ h. found.1 (h.0, dropped.1 h.1)))
