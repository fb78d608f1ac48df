-- ===== src/Security/Body/Labels.antt =====
-- The labels of a create body.
use mathlib.Core.Path.{subst}
use docker_socket_proxy.Common.{
  Bool, true, false, ◌&&◌, List, [], ◌∷◌, Option, none, some, ◌≡◌, ◌≢◌, ◌↔◌, inl, inr, refl, sym,
  arith, Member, any-eq-true, any_of_Member, Str, codes, starts_with,
}
use docker_socket_proxy.Error.{ok}
use docker_socket_proxy.Security.Body.{
  object, Json, shape_object, and_then, is_none, required_labels, is_dagster, check_labels,
  check_given_labels,
}
use docker_socket_proxy.Security.Body.Levels.{field_cases}

module _ (json : Json) where
  open json use {Value, Object, from_slice, shape, get, keys}

  -- A caller that uses Dagster's labels carries both required ones.
  abbrev pub HasLabels : Object → Type 0
  HasLabels labels =
      (key : Str)
      → Member key (keys labels)
      → starts_with key (codes "dagster/") ≡ true
      → (label : Str) → Member label required_labels
      → get labels label ≢ none

  pub is_dagster_iff :
      (labels : Object)
      → (is_dagster json labels ≡ true)
        ↔ ((key : Str) × Member key (keys labels) × (starts_with key (codes "dagster/") ≡ true))
  unfolding is_dagster
  is_dagster_iff labels = (
    any-eq-true (λ key. starts_with key (codes "dagster/")) (keys labels),
    (λ h. any_of_Member (λ key. starts_with key (codes "dagster/")) (keys labels) h.0 h.1 h.2),
  )

  check_labels-cons :
      (labels : Object) (l : Str) (ls : List Str)
      → (check_labels json labels (l ∷ ls) ≡ ok tt) ↔ (
          ((is_dagster json labels && is_none (get labels l)) ≡ false)
          × (check_labels json labels ls ≡ ok tt))
  unfolding check_labels
  check_labels-cons labels l ls = ground arith

  check_labels_iff :
      (labels : Object) (ls : List Str)
      → (check_labels json labels ls ≡ ok tt) ↔ (
          (is_dagster json labels ≡ true)
          → (label : Str) → Member label ls
          → get labels label ≢ none)
  check_labels_iff labels [] = ((λ _ _ label m. absurd m), (λ _. unfold check_labels in refl))
  check_labels_iff labels (l ∷ ls) = (
    (λ h dagster label m.
        let (now, later) = (check_labels-cons labels l ls).0 h in
        elim m [
          | inl e ↦ subst (λ x. get labels x ≢ none) (sym e) (ground arith)
          | inr there ↦ (check_labels_iff labels ls).0 later dagster label there
        ]),
    (λ h. (check_labels-cons labels l ls).1 (
      present (is_dagster json labels) (get labels l) (λ d. h d l (inl refl)),
      (check_labels_iff labels ls).1 (λ d label m. h d label (inr m)),
    )),
  )
    where
      present : (d : Bool) (o : Option Value) → (d ≡ true → o ≢ none) → (d && is_none o) ≡ false
      present true none h = absurd (h refl refl)
      present true (some v) h = refl
      present false o h = refl

  HasLabels-iff :
      (labels : Object) → (check_labels json labels required_labels ≡ ok tt) ↔ HasLabels labels
  HasLabels-iff labels = (
    (λ h key m starts.
        (check_labels_iff labels required_labels).0 h ((is_dagster_iff labels).1 (key, m, starts))),
    (λ h.
        (check_labels_iff labels required_labels).1
          (λ d. let (key, m, starts) = (is_dagster_iff labels).0 d in h key m starts)),
  )

  pub check_given_labels_iff :
      (o : Object)
      → (check_given_labels json (and_then (get o (codes "Labels")) (λ v. shape_object (shape v)))
          ≡ ok tt)
        ↔ ((v : Value) (labels : Object)
            → get o (codes "Labels") ≡ some v
            → shape v ≡ object labels
            → HasLabels labels)
  unfolding check_given_labels
  check_given_labels_iff o = elim (field_cases json HasLabels o (codes "Labels")) [
    | inl (missing, free) ↦ rw missing ((λ _. free), (λ _. refl))
    | inr (labels, found, inner_iff) ↦ rw found (
      (λ h. inner_iff.1 ((HasLabels-iff labels).0 h)),
      (λ h. (HasLabels-iff labels).1 (inner_iff.0 h)),
    )
  ]
