-- ===== src/Security/Body/Levels.antt =====
-- The restricted fields of a create body, at its top level and in its HostConfig.
use mathlib.Core.Path.{subst}
use docker_socket_proxy.Common.{
  true, false, List, [], ◌∷◌, Option, none, some, ◌≡◌, ◌⊎◌, ◌↔◌, inl, inr, refl, sym, ap, ◌∙◌,
  arith, Option-cases, Member, Str, codes, str_eq,
}
use docker_socket_proxy.Error.{ok, >>_iff, guard_iff}
use docker_socket_proxy.Security.Body.{
  string, object, Json, shape_object, shape_str, is_some_and, and_then, restricted_keys, set_shape,
  meaningfully_set, check_keys, has_host_network, check_level, levels, check_levels,
}
use docker_socket_proxy.Security.Body.Shapes.{
  IsUnset, set_shape_iff, shape_object_iff, shape_str_iff, and_then_iff, some_and-false_iff,
  same_some, none_is, is_host, holds, not_true,
}

module _ (json : Json) where
  open json use {Value, Object, from_slice, shape, get, keys}

  -- The field is absent, or explicitly unset.
  abbrev pub Unset : Object → Str → Type 0
  Unset o key = (get o key ≡ none) ⊎ ((v : Value) × (get o key ≡ some v) × IsUnset (shape v))

  abbrev pub HostNetwork : Object → Type 0
  HostNetwork o =
      (v : Value) × (get o (codes "NetworkMode") ≡ some v) × (shape v ≡ string (codes "host"))

  -- One level sets nothing that escapes the container.
  abbrev pub IsConfined : Object → Type 0
  IsConfined o = ((key : Str) → Member key restricted_keys → Unset o key) × ¬ HostNetwork o

  pub Unset-iff :
      (o : Object) (key : Str)
      → (is_some_and (get o key) (meaningfully_set json) ≡ false) ↔ Unset o key
  unfolding meaningfully_set
  Unset-iff o key = (
    (λ h. elim ((some_and-false_iff (get o key) (λ v. set_shape (shape v))).0 h) [
      | inl missing ↦ inl missing
      | inr found ↦ inr (found.0, found.1, (set_shape_iff (shape found.0)).0 found.2)
    ]),
    (λ u. (some_and-false_iff (get o key) (λ v. set_shape (shape v))).1 (elim u [
      | inl missing ↦ inl missing
      | inr found ↦ inr (found.0, found.1, (set_shape_iff (shape found.0)).1 found.2)
    ])),
  )

  check_keys-cons :
      (o : Object) (k : Str) (ks : List Str)
      → (check_keys json o (k ∷ ks) ≡ ok tt)
        ↔ ((is_some_and (get o k) (meaningfully_set json) ≡ false) × (check_keys json o ks ≡ ok tt))
  unfolding check_keys
  check_keys-cons o k ks = ground arith

  pub check_keys_iff :
      (o : Object) (ks : List Str)
      → (check_keys json o ks ≡ ok tt) ↔ ((key : Str) → Member key ks → Unset o key)
  check_keys_iff o [] = ((λ _ key m. absurd m), (λ _. unfold check_keys in refl))
  check_keys_iff o (k ∷ ks) = (
    (λ h key m.
        let (now, later) = (check_keys-cons o k ks).0 h in
        elim m [
          | inl e ↦ subst (Unset o) (sym e) ((Unset-iff o k).0 now)
          | inr there ↦ (check_keys_iff o ks).0 later key there
        ]),
    (λ h.
        (check_keys-cons o k ks).1
          ((Unset-iff o k).1 (h k (inl refl)), (check_keys_iff o ks).1 (λ key m. h key (inr m)))),
  )

  pub has_host_network_iff : (o : Object) → (has_host_network json o ≡ true) ↔ HostNetwork o
  unfolding has_host_network
  has_host_network_iff o = (to, from)
    where
      mode : Option Str
      mode = and_then (get o (codes "NetworkMode")) (λ v. shape_str (shape v))

      to : is_some_and mode (λ m. str_eq m (codes "host")) ≡ true → HostNetwork o
      to h = elim (Option-cases mode) [
        | inl missing ↦ absurd (none_is mode missing h)
        | inr (m, found) ↦
            let (v, here, text) = (and_then_iff _ _ m).0 found in
            (
              v,
              here,
              (shape_str_iff (shape v) (codes "host")).0 (text ∙ ap some (is_host mode m found h)),
            )
      ]

      from : HostNetwork o → is_some_and mode (λ m. str_eq m (codes "host")) ≡ true
      from (v, here, text) = holds mode (
          (and_then_iff _ _ (codes "host")).1
            (v, here, (shape_str_iff (shape v) (codes "host")).1 text))

  pub check_level_iff : (o : Object) → (check_level json o ≡ ok tt) ↔ IsConfined o
  unfolding check_level
  check_level_iff o = (
    (λ h.
        let (keys_fine, network_fine) = (>>_iff _ _).0 h in
        (
          (check_keys_iff o restricted_keys).0 keys_fine,
          (λ host. cc ((has_host_network_iff o).1 host, (guard_iff _ _).0 network_fine)),
        )),
    (λ c. (>>_iff _ _).1 (
      (check_keys_iff o restricted_keys).1 c.0,
      (guard_iff _ _).1 (not_true _ (λ h. c.1 ((has_host_network_iff o).0 h))),
    )),
  )

  unfoldable pub HostIsConfined : Object → Type 0
  HostIsConfined o =
      (v : Value) (host : Object)
      → get o (codes "HostConfig") ≡ some v
      → shape v ≡ object host
      → IsConfined host

  check_levels-cons :
      (o : Object) (rest : List Object)
      → (check_levels json (o ∷ rest) ≡ ok tt)
        ↔ ((check_level json o ≡ ok tt) × (check_levels json rest ≡ ok tt))
  unfolding check_levels
  check_levels-cons o rest = >>_iff (check_level json o) (check_levels json rest)

  check_levels-nil : check_levels json [] ≡ ok tt
  unfolding check_levels
  check_levels-nil = refl

  pub levels_of_none :
      (o : Object)
      → and_then (get o (codes "HostConfig")) (λ v. shape_object (shape v)) ≡ none
      → levels json o ≡ o ∷ []
  unfolding levels
  levels_of_none o e = rw (e, levels)

  pub levels_of_some :
      (o host : Object)
      → and_then (get o (codes "HostConfig")) (λ v. shape_object (shape v)) ≡ some host
      → levels json o ≡ o ∷ host ∷ []
  unfolding levels
  levels_of_some o host e = rw (e, levels)

  pub field_object_iff :
      (o inner : Object) (key : Str)
      → (and_then (get o key) (λ v. shape_object (shape v)) ≡ some inner)
        ↔ ((v : Value) × (get o key ≡ some v) × (shape v ≡ object inner))
  field_object_iff o inner key = (
    (λ h.
        let (v, here, is) = (and_then_iff _ _ inner).0 h in
        (v, here, (shape_object_iff (shape v) inner).0 is)),
    (λ h. (and_then_iff _ _ inner).1 (h.0, h.1, (shape_object_iff (shape h.0) inner).1 h.2)),
  )

  -- What holds of the object in a field, if there is one.
  pub field_cases :
      (P : Object → Type 0) (o : Object) (key : Str)
      → ((and_then (get o key) (λ v. shape_object (shape v)) ≡ none)
          × ((v : Value) (inner : Object) → get o key ≡ some v → shape v ≡ object inner → P inner))
        ⊎ ((inner : Object) × (and_then (get o key) (λ v. shape_object (shape v)) ≡ some inner)
            × (((v : Value) (other : Object)
                  → get o key ≡ some v
                  → shape v ≡ object other
                  → P other)
                ↔ P inner))
  field_cases P o key = elim (Option-cases (and_then (get o key) (λ v. shape_object (shape v)))) [
    | inl missing ↦
        inl
          (missing, λ v inner here is. cc (missing, (field_object_iff o inner key).1 (v, here, is)))
    | inr (inner, found) ↦
        let (v, here, is) = (field_object_iff o inner key).0 found in
        inr (
          inner,
          found,
          (
            (λ h. h v inner here is),
            (λ p w other there is_other.
                let second = (field_object_iff o other key).1 (w, there, is_other) in
                subst P (same_some found second) p),
          ),
        )
  ]

  pub check_levels_iff :
      (o : Object) → (check_levels json (levels json o) ≡ ok tt) ↔ (IsConfined o × HostIsConfined o)
  unfolding HostIsConfined
  check_levels_iff o = elim (field_cases IsConfined o (codes "HostConfig")) [
    | inl (missing, free) ↦ rw (levels_of_none o missing) (
      (λ h. ((check_level_iff o).0 ((check_levels-cons o []).0 h).0, free)),
      (λ c. (check_levels-cons o []).1 ((check_level_iff o).1 c.0, check_levels-nil)),
    )
    | inr (host, found, inner_iff) ↦ rw (levels_of_some o host found) (
      (λ h.
          let (top, rest) = (check_levels-cons o (host ∷ [])).0 h in
          (
            (check_level_iff o).0 top,
            inner_iff.1 ((check_level_iff host).0 ((check_levels-cons host []).0 rest).0),
          )),
      (λ c. (check_levels-cons o (host ∷ [])).1 (
        (check_level_iff o).1 c.0,
        (check_levels-cons host []).1
            ((check_level_iff host).1 (inner_iff.0 c.1), check_levels-nil),
      )),
    )
  ]
