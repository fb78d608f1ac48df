-- ===== src/Security/Body/Refused/Required.antt =====
-- The error with which the labels and the image of a create body are refused.
use mathlib.Core.Path.{subst}
use docker_socket_proxy.Security.Body.Shapes.{same_some}
use docker_socket_proxy.Security.Body.Refused.Fields.{FirstFault, label_missing, requires_image}
use docker_socket_proxy.Common.{
  Bool, true, false, List, [], ◌∷◌, Option, none, some, ◌≡◌, ◌≢◌, ◌⊎◌, ◌↔◌, inl, inr, refl, arith,
  Option-cases, Str, codes, Member, starts_with, ◌&&◌,
}
use docker_socket_proxy.Error.{ProxyError, ok, err}
use docker_socket_proxy.Security.Body.Labels.{is_dagster_iff}
use docker_socket_proxy.Security.Body.{
  is_none, required_labels, is_dagster, check_labels, check_given_labels, Json, object, check_image,
  and_then, shape_object,
}
use docker_socket_proxy.Security.Body.Levels.{field_object_iff}

module _ (json : Json) where
  open json use {Value, Object, from_slice, shape, get, keys}

  abbrev pub UsesDagster : Object → Type 0
  UsesDagster labels =
      (key : Str) × Member key (keys labels) × (starts_with key (codes "dagster/") ≡ true)

  check_labels-cons_err :
      (labels : Object) (l : Str) (ls : List Str) (e : ProxyError)
      → (check_labels json labels (l ∷ ls) ≡ err e) ↔ (
          ((is_dagster json labels ≡ true) × (get labels l ≡ none) × (e ≡ label_missing l))
          ⊎ (((is_dagster json labels && is_none (get labels l)) ≡ false)
              × (check_labels json labels ls ≡ err e)))
  unfolding check_labels
  check_labels-cons_err labels l ls e = ground arith

  present : (d : Bool) (o : Option Value) → d ≡ true → (d && is_none o) ≡ false → o ≢ none
  present d o dagster h n = ground arith

  absent : (d : Bool) (o : Option Value) → o ≢ none → (d && is_none o) ≡ false
  absent d none n = absurd (n refl)
  absent true (some v) n = refl
  absent false (some v) n = refl

  check_labels-err_iff :
      (labels : Object) (ls : List Str) (e : ProxyError)
      → (check_labels json labels ls ≡ err e) ↔ (
          (is_dagster json labels ≡ true)
          × FirstFault (λ l. get labels l ≢ none) label_missing ls e)
  check_labels-err_iff labels [] e = ((λ h. unfold check_labels in cc), (λ h. absurd (h.1)))
  check_labels-err_iff labels (l ∷ ls) e = (
    (λ h. elim ((check_labels-cons_err labels l ls e).0 h) [
      | inl (dagster, missing, same) ↦ (dagster, inl ((λ n. n missing), same))
      | inr (fine, later) ↦
          let (dagster, fault) = (check_labels-err_iff labels ls e).0 later in
          (dagster, inr (present _ _ dagster fine, fault))
    ]),
    (λ (dagster, h). (check_labels-cons_err labels l ls e).1 (elim h [
      | inl (missing, same) ↦ inl (dagster, missing_is labels l missing, same)
      | inr (there, fault) ↦
          inr (absent _ _ there, (check_labels-err_iff labels ls e).1 (dagster, fault))
    ])),
  )
    where
      missing_is : (labels : Object) (l : Str) → ¬ (get labels l ≢ none) → get labels l ≡ none
      missing_is labels l h = elim (Option-cases (get labels l)) [
        | inl is ↦ is
        | inr (v, found) ↦ absurd (h (λ n. cc))
      ]

  -- Labels of Dagster without a required one.
  abbrev pub LabelFault : Object → ProxyError → Type 0
  LabelFault o e =
      (v : Value) × (labels : Object) × (get o (codes "Labels") ≡ some v)
      × (shape v ≡ object labels)
      × UsesDagster labels
      × FirstFault (λ l. get labels l ≢ none) label_missing required_labels e

  pub check_given_labels-err_iff :
      (o : Object) (e : ProxyError)
      → (check_given_labels json (and_then (get o (codes "Labels")) (λ v. shape_object (shape v)))
          ≡ err e)
        ↔ LabelFault o e
  unfolding check_given_labels
  check_given_labels-err_iff o e =
      elim (Option-cases (and_then (get o (codes "Labels")) (λ v. shape_object (shape v)))) [
        | inl missing ↦ rw missing (
          (λ h. cc),
          (λ (v, labels, here, is, _, _).
              cc (missing, (field_object_iff json o labels _).1 (v, here, is))),
        )
        | inr (labels, found) ↦ rw found (
          (λ h.
              let (dagster, fault) = (check_labels-err_iff labels required_labels e).0 h in
              let (v, here, is) = (field_object_iff json o labels _).0 found in
              (v, labels, here, is, (is_dagster_iff json labels).0 dagster, fault)),
          (λ (v, other, here, is, dagster, fault).
              subst (λ x. check_labels json x required_labels ≡ err e)
                (same_some ((field_object_iff json o other _).1 (v, here, is)) found)
                ((check_labels-err_iff other required_labels e).1
                  ((is_dagster_iff json other).1 dagster, fault))),
        )
      ]

  pub check_image-err_iff :
      (m : Option Str) (e : ProxyError)
      → (check_image m ≡ err e) ↔ (¬ (check_image m ≡ ok tt) × (e ≡ requires_image))
  unfolding check_image
  check_image-err_iff none e = ((λ h. ((λ n. cc), cc)), (λ h. cc (h.1)))
  check_image-err_iff (some []) e = ((λ h. ((λ n. cc), cc)), (λ h. cc (h.1)))
  check_image-err_iff (some (c ∷ s)) e = ((λ h. cc), (λ h. absurd (h.0 refl)))
