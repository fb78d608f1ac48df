-- ===== src/Security/Body/Refused.antt =====
-- The error with which the inspection of a container-create body refuses it: the first fault, in the
-- order of the code.
pub mod Fields
pub mod Required
use docker_socket_proxy.Common.{
  none, some, ◌≡◌, ◌≢◌, ◌⊎◌, ◌↔◌, inl, inr, refl, Option-cases, Str, codes, arith,
}
use docker_socket_proxy.Error.{ProxyError, forbidden, err, >>-err_iff, >>=-eq-err}
use docker_socket_proxy.Security.Body.{
  Json, object, shape_object, check_object, parse_object, check_create_body,
}
use docker_socket_proxy.Security.Body.Shapes.{shape_object_iff}
use docker_socket_proxy.Security.Body.Levels.{IsConfined, HostIsConfined, check_levels_iff}
use docker_socket_proxy.Security.Body.Permitted.{HasImage, HasImage-iff, parse_object_iff}
use docker_socket_proxy.Security.Body.Refused.Fields.{
  requires_image, LevelFault, HostFault, check_levels-err_iff,
}
use docker_socket_proxy.Security.Body.Refused.Required.{
  LabelFault, check_image-err_iff, check_given_labels-err_iff,
}

module _ (json : Json) where
  open json use {Value, Object, from_slice, shape}

  -- What an object is refused for, each where everything before it is fine.
  pub data ObjectFault (o : Object) (e : ProxyError) : Type 0 where
    no_image : ¬ HasImage json o → e ≡ requires_image → ObjectFault o e
    at_top : HasImage json o → LevelFault json o e → ObjectFault o e
    in_host_config : HasImage json o → IsConfined json o → HostFault json o e → ObjectFault o e
    in_labels :
        HasImage json o
        → IsConfined json o
        → HostIsConfined json o
        → LabelFault json o e
        → ObjectFault o e

  check_object-err_iff :
      (o : Object) (e : ProxyError) → (check_object json o ≡ err e) ↔ ObjectFault o e
  unfolding check_object
  check_object-err_iff o e = (
    (λ h. elim ((>>-err_iff _ _ e).0 h) [
      | inl imageless ↦
          let (bad, same) = (check_image-err_iff json _ e).0 imageless in
          no_image (λ has. bad ((HasImage-iff json o).1 has)) same
      | inr (image, rest) ↦ elim ((>>-err_iff _ _ e).0 rest) [
        | inl level ↦ elim ((check_levels-err_iff json o e).0 level) [
          | inl top ↦ at_top ((HasImage-iff json o).0 image) top
          | inr (fine, host) ↦ in_host_config ((HasImage-iff json o).0 image) fine host
        ]
        | inr (fine, labels) ↦
            let (top, host) = (check_levels_iff json o).0 fine in
            in_labels ((HasImage-iff json o).0 image) top host
              ((check_given_labels-err_iff json o e).0 labels)
      ]
    ]),
    (λ h. (>>-err_iff _ _ e).1 (elim h [
      | no_image bad same ↦
          inl ((check_image-err_iff json _ e).1 ((λ n. bad ((HasImage-iff json o).0 n)), same))
      | at_top image top ↦ inr (
        (HasImage-iff json o).1 image,
        (>>-err_iff _ _ e).1 (inl ((check_levels-err_iff json o e).1 (inl top))),
      )
      | in_host_config image fine host ↦ inr (
        (HasImage-iff json o).1 image,
        (>>-err_iff _ _ e).1 (inl ((check_levels-err_iff json o e).1 (inr (fine, host)))),
      )
      | in_labels image top host labels ↦ inr (
        (HasImage-iff json o).1 image,
        (>>-err_iff _ _ e).1 (
            inr (
              (check_levels_iff json o).1 (top, host),
              (check_given_labels-err_iff json o e).1 labels,
            )),
      )
    ])),
  )

  -- What a body is refused for.
  pub data BodyFault (body : Str) (e : ProxyError) : Type 0 where
    no_json :
        from_slice body ≡ none
        → e ≡ forbidden (codes "container create body must be valid JSON")
        → BodyFault body e
    no_object :
        (v : Value)
        → from_slice body ≡ some v
        → ((o : Object) → shape v ≢ object o)
        → e ≡ forbidden (codes "container create body must be an object")
        → BodyFault body e
    of_object :
        (v : Value) (o : Object)
        → from_slice body ≡ some v
        → shape v ≡ object o
        → ObjectFault o e
        → BodyFault body e

  parse_object-err :
      (body : Str) (e : ProxyError) → parse_object json body ≡ err e → BodyFault body e
  unfolding parse_object
  parse_object-err body e h = elim (Option-cases (from_slice body)) [
    | inl missing ↦ no_json missing (ground arith)
    | inr (v, found) ↦ elim (Option-cases (shape_object (shape v))) [
      | inl plain ↦
          no_object v found (λ o is. cc (plain, (shape_object_iff (shape v) o).1 is)) (ground arith)
      | inr (o, is) ↦ absurd (ground arith)
    ]
  ]

  not_shape : (v : Value) → ((o : Object) → shape v ≢ object o) → shape_object (shape v) ≡ none
  not_shape v n = elim (Option-cases (shape_object (shape v))) [
    | inl plain ↦ plain
    | inr (o, is) ↦ absurd (n o ((shape_object_iff (shape v) o).0 is))
  ]

  parse_object-no_json :
      (body : Str)
      → from_slice body ≡ none
      → parse_object json body ≡ err (forbidden (codes "container create body must be valid JSON"))
  unfolding parse_object
  parse_object-no_json body missing = ground arith

  parse_object-no_object :
      (body : Str) (v : Value)
      → from_slice body ≡ some v
      → shape_object (shape v) ≡ none
      → parse_object json body ≡ err (forbidden (codes "container create body must be an object"))
  unfolding parse_object
  parse_object-no_object body v found plain = ground arith

  -- A create body is refused with an error exactly when that error names its first fault: the body
  -- is no JSON; it is no object; it names no image; its first restricted field that is set, or the
  -- host network, at the top level and then in its HostConfig; the first required label that is
  -- missing where labels of Dagster are used.
  pub check_create_body-err_iff :
      (body : Str) (e : ProxyError) → (check_create_body json body ≡ err e) ↔ BodyFault body e
  unfolding check_create_body
  check_create_body-err_iff body e = (
    (λ h. elim (>>=-eq-err (parse_object json body) _ h) [
      | inl early ↦ parse_object-err body e early
      | inr (o, parsed, bad) ↦
          let (v, found, is) = (parse_object_iff json body o).0 parsed in
          of_object v o found is ((check_object-err_iff o e).0 bad)
    ]),
    (λ h. elim h [
      | no_json missing same ↦ rw (parse_object-no_json body missing, same) refl
      | no_object v found plain same ↦
          rw (parse_object-no_object body v found (not_shape v plain), same) refl
      | of_object v o found is bad ↦
          rw ((parse_object_iff json body o).1 (v, found, is)) ((check_object-err_iff o e).1 bad)
    ]),
  )
