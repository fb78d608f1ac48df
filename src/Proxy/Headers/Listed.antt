-- ===== src/Proxy/Headers/Listed.antt =====
-- The names that `Connection` lists.
use docker_socket_proxy.Common.{
  not, List, [], ◌∷◌, ◌++◌, none, some, ◌≡◌, ◌≢◌, ◌↔◌, inl, inr, refl, sym, ap, ◌∙◌, Option-cases,
  map, keep, is_empty, Member, Str, codes, split, trim, to_ascii_lowercase, ascii_lower,
  Member-append, Member-append_left, Member-append_right,
}
use mathlib.Core.List.{cons-ne-nil}
use mathlib.Core.Path.{subst}
use docker_socket_proxy.Http.{HeaderMaps}
use docker_socket_proxy.Proxy.Headers.{tokens, listed_in, connection_specific_headers}

Member-map :
    (f : Str → Str) (xs : List Str) (y : Str)
    → Member y (map f xs) ↔ ((x : Str) × Member x xs × (y ≡ f x))
Member-map f [] y = ((λ m. absurd m), (λ h. absurd h.1))
Member-map f (x ∷ xs) y = (
  (λ m. elim m [
    | inl e ↦ (x, inl refl, e)
    | inr later ↦ let (z, there, e) = (Member-map f xs y).0 later in (z, inr there, e)
  ]),
  (λ (z, m, e). elim m [
    | inl first ↦ inl (e ∙ ap f first)
    | inr there ↦ inr ((Member-map f xs y).1 (z, there, e))
  ]),
)

Member-keep :
    (xs : List Str) (y : Str)
    → Member y (keep (λ t. not (is_empty t)) xs) ↔ (Member y xs × (y ≢ []))
Member-keep [] y = ((λ m. absurd m), (λ h. h.0))
Member-keep ([] ∷ xs) y = (
  (λ m. let (there, n) = (Member-keep xs y).0 m in (inr there, n)),
  (λ (m, n). elim m [ inl e ↦ absurd (n e) | inr there ↦ (Member-keep xs y).1 (there, n) ]),
)
Member-keep ((c ∷ s) ∷ xs) y = (
  (λ m. elim m [
    | inl e ↦ (inl e, λ z. cons-ne-nil c s (sym e ∙ z))
    | inr later ↦ let (there, n) = (Member-keep xs y).0 later in (inr there, n)
  ]),
  (λ (m, n). elim m [ inl e ↦ inl e | inr there ↦ inr ((Member-keep xs y).1 (there, n)) ]),
)

tokens_iff :
    (value t : Str)
    → Member t (tokens value) ↔ (
        (piece : Str) × Member piece (split b',' value)
        × (t ≡ to_ascii_lowercase (trim piece))
        × (t ≢ []))
unfolding tokens
tokens_iff value t =
    let found = Member-map (λ token. to_ascii_lowercase (trim token)) (split b',' value) t in
    let filled =
      Member-keep (map (λ token. to_ascii_lowercase (trim token)) (split b',' value)) t in
    (
      (λ m. let (there, n) = filled.0 m in let (piece, is, e) = found.0 there in (piece, is, e, n)),
      (λ (piece, is, e, n). filled.1 (found.1 (piece, is, e), n)),
    )

connection_lower : to_ascii_lowercase (codes "connection") ≡ codes "connection"
unfolding to_ascii_lowercase ascii_lower
connection_lower = refl

module _ (http : HeaderMaps) where
  open http use {HeaderMap, iter, get, get_all, to_str, get_all_iff, to_str_same}

  -- A non-empty token of a readable `Connection` field, trimmed and in lower case.
  pub record IsListed (hs : HeaderMap) (token : Str) : Type 0 where
    pub value : Str
    pub field : Member (codes "connection", value) (iter hs)
    pub readable : to_str value ≡ some value
    pub piece : Str
    pub is_piece : Member piece (split b',' value)
    pub is_token : token ≡ to_ascii_lowercase (trim piece)
    pub is_filled : token ≢ []

  listed_in_unreadable :
      (v : Str) (vs : List Str) → to_str v ≡ none → listed_in http (v ∷ vs) ≡ listed_in http vs
  unfolding listed_in
  listed_in_unreadable v vs h = rw (h, listed_in)

  listed_in_readable :
      (v text : Str) (vs : List Str)
      → to_str v ≡ some text
      → listed_in http (v ∷ vs) ≡ tokens text ++ listed_in http vs
  unfolding listed_in
  listed_in_readable v text vs h = rw (h, listed_in)

  listed_in_iff :
      (values : List Str) (t : Str)
      → Member t (listed_in http values) ↔ (
          (value : Str) × Member value values
          × (to_str value ≡ some value)
          × Member t (tokens value))
  listed_in_iff [] t = ((λ m. absurd (unfold listed_in in m)), (λ h. absurd h.1))
  listed_in_iff (v ∷ vs) t = elim (Option-cases (to_str v)) [
    | inl unreadable ↦ rw (listed_in_unreadable v vs unreadable) (
      (λ m. let (w, there, r, k) = (listed_in_iff vs t).0 m in (w, inr there, r, k)),
      (λ (w, m, r, k). elim m [
        | inl e ↦ absurd (clash w e unreadable r)
        | inr there ↦ (listed_in_iff vs t).1 (w, there, r, k)
      ]),
    )
    | inr (text, readable) ↦
        let same = sym (to_str_same v text readable) in
        rw (listed_in_readable v text vs readable) (
          (λ m. elim (Member-append t (tokens text) (listed_in http vs) m) [
            | inl now ↦ (v, inl refl, readable ∙ ap some (sym same), rw same now)
            | inr later ↦
                let (w, there, r, k) = (listed_in_iff vs t).0 later in (w, inr there, r, k)
          ]),
          (λ (w, m, r, k). elim m [
            | inl e ↦
                Member-append_left t (tokens text) (listed_in http vs)
                  (subst (λ x. Member t (tokens x)) (e ∙ same) k)
            | inr there ↦
                Member-append_right t (tokens text) (listed_in http vs)
                  ((listed_in_iff vs t).1 (w, there, r, k))
          ]),
        )
  ]
    where
      clash : (w : Str) → w ≡ v → to_str v ≡ none → to_str w ≡ some w → ⊥
      clash w e p q = cc

  -- The headers that `Connection` names are the tokens of its fields.
  connection_specific_headers_iff :
      (hs : HeaderMap) (token : Str)
      → Member token (connection_specific_headers http hs) ↔ IsListed hs token
  unfolding connection_specific_headers
  connection_specific_headers_iff hs token = (
    (λ m.
        let (value, there, readable, is) =
          (listed_in_iff (get_all hs (codes "connection")) token).0 m in
        let (piece, is_piece, is_token, filled) = (tokens_iff value token).0 is in
        record {
          value = value;
          field = (get_all_iff hs (codes "connection") value connection_lower).0 there;
          readable = readable;
          piece = piece;
          is_piece = is_piece;
          is_token = is_token;
          is_filled = filled;
        }),
    (λ l. (listed_in_iff (get_all hs (codes "connection")) token).1 (
      l.value,
      (get_all_iff hs (codes "connection") l.value connection_lower).1 l.field,
      l.readable,
      (tokens_iff l.value token).1 (l.piece, l.is_piece, l.is_token, l.is_filled),
    )),
  )
