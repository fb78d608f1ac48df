-- ===== src/Security/Body/Refused/Fields.antt =====
-- The error with which the fields of a create body are refused, by the first fault.
use mathlib.Core.Path.{subst}
use docker_socket_proxy.Security.Body.Shapes.{same_some}
use docker_socket_proxy.Common.{
  Bool, true, false, List, [], ◌∷◌, ◌++◌, none, some, ◌≡◌, ◌≢◌, ◌⊎◌, ◌↔◌, inl, inr, refl, arith,
  Option-cases, if◌then◌else◌, Str, codes, Member,
}
use docker_socket_proxy.Error.{ProxyError, Result, forbidden, ok, err, >>-err_iff}
use docker_socket_proxy.Security.Body.{
  Json, object, is_some_and, meaningfully_set, restricted_keys, check_keys, check_level, levels,
  check_levels, and_then, shape_object,
}
use docker_socket_proxy.Security.Body.Levels.{
  Unset, HostNetwork, IsConfined, Unset-iff, has_host_network_iff, check_level_iff, check_keys_iff,
  levels_of_none, levels_of_some, field_object_iff,
}

-- The first of the names for which `P` fails, and the error that it is reported with.
abbrev pub FirstFault : (Str → Type 0) → (Str → ProxyError) → List Str → ProxyError → Type 0
FirstFault P fault [] e = ⊥
FirstFault P fault (k ∷ ks) e = (¬ P k × (e ≡ fault k)) ⊎ (P k × FirstFault P fault ks e)

abbrev pub not_permitted : Str → ProxyError
not_permitted key = forbidden (codes "container create field is not permitted: " ++ key)

abbrev pub requires_image : ProxyError
requires_image = forbidden (codes "container create requires Image")

abbrev pub label_missing : Str → ProxyError
label_missing label = forbidden (codes "container create requires label: " ++ label)

module _ (json : Json) where
  open json use {Value, Object, from_slice, shape, get, keys}

  -- What one level is refused for: its first restricted field that is set, or the host network.
  abbrev pub LevelFault : Object → ProxyError → Type 0
  LevelFault o e =
      FirstFault (Unset json o) not_permitted restricted_keys e
      ⊎ (((key : Str) → Member key restricted_keys → Unset json o key)
          × HostNetwork json o
          × (e ≡ not_permitted (codes "NetworkMode")))

  check_keys-cons_err :
      (o : Object) (k : Str) (ks : List Str) (e : ProxyError)
      → (check_keys json o (k ∷ ks) ≡ err e) ↔ (
          ((is_some_and (get o k) (meaningfully_set json) ≡ true) × (e ≡ not_permitted k))
          ⊎ ((is_some_and (get o k) (meaningfully_set json) ≡ false)
              × (check_keys json o ks ≡ err e)))
  unfolding check_keys
  check_keys-cons_err o k ks e = ground arith

  set_iff :
      (o : Object) (k : Str)
      → (is_some_and (get o k) (meaningfully_set json) ≡ true) ↔ (¬ Unset json o k)
  set_iff o k = ground (arith, Unset-iff json o k)

  check_keys-err_iff :
      (o : Object) (ks : List Str) (e : ProxyError)
      → (check_keys json o ks ≡ err e) ↔ FirstFault (Unset json o) not_permitted ks e
  check_keys-err_iff o [] e = ((λ h. unfold check_keys in cc), (λ h. absurd h))
  check_keys-err_iff o (k ∷ ks) e = (
    (λ h. elim ((check_keys-cons_err o k ks e).0 h) [
      | inl (is, same) ↦ inl ((set_iff o k).0 is, same)
      | inr (is, later) ↦ inr ((Unset-iff json o k).0 is, (check_keys-err_iff o ks e).0 later)
    ]),
    (λ h. (check_keys-cons_err o k ks e).1 (elim h [
      | inl (is, same) ↦ inl ((set_iff o k).1 is, same)
      | inr (is, later) ↦ inr ((Unset-iff json o k).1 is, (check_keys-err_iff o ks e).1 later)
    ])),
  )

  network-err_iff :
      (b : Bool) (e : ProxyError)
      → (◌≡◌ {A = Result (Unit {0})}
          (if b then err (not_permitted (codes "NetworkMode")) else ok tt)
          (err e))
        ↔ ((b ≡ true) × (e ≡ not_permitted (codes "NetworkMode")))
  network-err_iff true e = ((λ h. (refl, cc)), (λ h. cc (h.1)))
  network-err_iff false e = ((λ h. cc), (λ h. cc (h.0)))

  check_level-err_iff :
      (o : Object) (e : ProxyError) → (check_level json o ≡ err e) ↔ LevelFault o e
  unfolding check_level
  check_level-err_iff o e = (
    (λ h. elim ((>>-err_iff _ _ e).0 h) [
      | inl keyed ↦ inl ((check_keys-err_iff o restricted_keys e).0 keyed)
      | inr (fine, networked) ↦
          let (is, same) = (network-err_iff _ e).0 networked in
          inr (
            (check_keys_iff json o restricted_keys).0 fine,
            (has_host_network_iff json o).0 is,
            same,
          )
    ]),
    (λ h. (>>-err_iff _ _ e).1 (elim h [
      | inl first ↦ inl ((check_keys-err_iff o restricted_keys e).1 first)
      | inr (fine, host, same) ↦ inr (
        (check_keys_iff json o restricted_keys).1 fine,
        (network-err_iff _ e).1 ((has_host_network_iff json o).1 host, same),
      )
    ])),
  )

  -- the level that is nested in HostConfig, if it is an object
  abbrev pub HostFault : Object → ProxyError → Type 0
  HostFault o e =
      (v : Value) × (host : Object) × (get o (codes "HostConfig") ≡ some v)
      × (shape v ≡ object host)
      × LevelFault host e

  levels-cons_err :
      (o : Object) (rest : List Object) (e : ProxyError)
      → (check_levels json (o ∷ rest) ≡ err e) ↔ (
          (check_level json o ≡ err e)
          ⊎ ((check_level json o ≡ ok tt) × (check_levels json rest ≡ err e)))
  unfolding check_levels
  levels-cons_err o rest e = >>-err_iff (check_level json o) (check_levels json rest) e

  levels-nil_err : (e : ProxyError) → check_levels json [] ≢ err e
  unfolding check_levels
  levels-nil_err e h = cc

  one_level : (o : Object) (e : ProxyError) → (check_levels json (o ∷ []) ≡ err e) ↔ LevelFault o e
  one_level o e = (
    (λ h. elim ((levels-cons_err o [] e).0 h) [
      | inl top ↦ (check_level-err_iff o e).0 top
      | inr (fine, later) ↦ absurd (levels-nil_err e later)
    ]),
    (λ h. (levels-cons_err o [] e).1 (inl ((check_level-err_iff o e).1 h))),
  )

  host_of :
      (o host : Object) (e : ProxyError)
      → and_then (get o (codes "HostConfig")) (λ v. shape_object (shape v)) ≡ some host
      → LevelFault host e ↔ HostFault o e
  host_of o host e found = (
    (λ h. let (v, here, is) = (field_object_iff json o host _).0 found in (v, host, here, is, h)),
    (λ (v, other, here, is, h).
        subst (λ x. LevelFault x e)
          (same_some ((field_object_iff json o other _).1 (v, here, is)) found) h),
  )

  no_host :
      (o : Object) (e : ProxyError)
      → and_then (get o (codes "HostConfig")) (λ v. shape_object (shape v)) ≡ none
      → ¬ HostFault o e
  no_host o e missing (v, host, here, is, h) =
      cc (missing, (field_object_iff json o host _).1 (v, here, is))

  pub check_levels-err_iff :
      (o : Object) (e : ProxyError)
      → (check_levels json (levels json o) ≡ err e)
        ↔ (LevelFault o e ⊎ (IsConfined json o × HostFault o e))
  check_levels-err_iff o e =
      elim (Option-cases (and_then (get o (codes "HostConfig")) (λ v. shape_object (shape v)))) [
        | inl missing ↦ rw (levels_of_none json o missing) (
          (λ h. inl ((one_level o e).0 h)),
          (λ h. elim h [
            | inl top ↦ (one_level o e).1 top
            | inr (fine, host) ↦ absurd (no_host o e missing host)
          ]),
        )
        | inr (host, found) ↦ rw (levels_of_some json o host found) (
          (λ h. elim ((levels-cons_err o (host ∷ []) e).0 h) [
            | inl top ↦ inl ((check_level-err_iff o e).0 top)
            | inr (fine, later) ↦ inr (
              (check_level_iff json o).0 fine,
              (host_of o host e found).0 ((one_level host e).0 later),
            )
          ]),
          (λ h. (levels-cons_err o (host ∷ []) e).1 (elim h [
            | inl top ↦ inl ((check_level-err_iff o e).1 top)
            | inr (fine, inner) ↦ inr (
              (check_level_iff json o).1 fine,
              (one_level host e).1 ((host_of o host e found).1 inner),
            )
          ])),
        )
      ]
