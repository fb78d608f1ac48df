-- ===== src/Security/Body/Permitted.antt =====
-- The inspection of a container-create body against what it means to permit.
use docker_socket_proxy.Common.{[], some, ◌≡◌, ◌≢◌, ◌↔◌, inl, inr, arith, Option-cases, Str, codes}
use docker_socket_proxy.Error.{ok, >>=-eq-ok, >>_iff}
use docker_socket_proxy.Security.Body.{
  string, object, Json, shape_str, and_then, check_image, check_object, parse_object,
  check_create_body,
}
use docker_socket_proxy.Security.Body.Shapes.{
  shape_object_iff, shape_str_iff, and_then_iff, check_image_iff,
}
use docker_socket_proxy.Security.Body.Levels.{IsConfined, HostIsConfined, check_levels_iff}
use docker_socket_proxy.Security.Body.Labels.{HasLabels, check_given_labels_iff}

module _ (json : Json) where
  open json use {Value, Object, from_slice, shape, get, keys}

  pub record IsPermitted (o : Object) : Type 0 where
    pub image :
        (v : Value) × (s : Str) × (get o (codes "Image") ≡ some v) × (shape v ≡ string s) × (s ≢ [])
    pub confined : IsConfined json o
    pub host_confined :
        (v : Value) (host : Object)
        → get o (codes "HostConfig") ≡ some v
        → shape v ≡ object host
        → IsConfined json host
    pub labelled :
        (v : Value) (labels : Object)
        → get o (codes "Labels") ≡ some v
        → shape v ≡ object labels
        → HasLabels json labels

  unfoldable pub HasImage : Object → Type 0
  HasImage o =
      (v : Value) × (s : Str) × (get o (codes "Image") ≡ some v) × (shape v ≡ string s) × (s ≢ [])

  pub HasImage-iff :
      (o : Object)
      → (check_image (and_then (get o (codes "Image")) (λ v. shape_str (shape v))) ≡ ok tt)
        ↔ HasImage o
  unfolding HasImage
  HasImage-iff o = (
    (λ h.
        let (s, found, n) = (check_image_iff _).0 h in
        let (v, here, text) = (and_then_iff _ _ s).0 found in
        (v, s, here, (shape_str_iff (shape v) s).0 text, n)),
    (λ (v, s, here, text, n).
        (check_image_iff _).1
          (s, (and_then_iff _ _ s).1 (v, here, (shape_str_iff (shape v) s).1 text), n)),
  )

  check_object_iff : (o : Object) → (check_object json o ≡ ok tt) ↔ IsPermitted o
  unfolding check_object HasImage HostIsConfined
  check_object_iff o = (
    (λ h.
        let (image, rest) = (>>_iff _ _).0 h in
        let (inside, labels) = (>>_iff _ _).0 rest in
        let (top, host) = (check_levels_iff json o).0 inside in
        record {
          image = (HasImage-iff o).0 image;
          confined = top;
          host_confined = host;
          labelled = (check_given_labels_iff json o).0 labels;
        }),
    (λ p. (>>_iff _ _).1 (
      (HasImage-iff o).1 p.image,
      (>>_iff _ _).1 (
        (check_levels_iff json o).1 (p.confined, p.host_confined),
        (check_given_labels_iff json o).1 p.labelled,
      ),
    )),
  )

  pub parse_object_iff :
      (body : Str) (o : Object)
      → (parse_object json body ≡ ok o)
        ↔ ((v : Value) × (from_slice body ≡ some v) × (shape v ≡ object o))
  unfolding parse_object
  parse_object_iff body o = (
    (λ h. elim (Option-cases (from_slice body)) [
      | inl failed ↦ cc
      | inr (v, found) ↦ (v, found, (shape_object_iff (shape v) o).0 (ground arith))
    ]),
    (λ (v, found, is). ground arith),
  )

  -- A create body is let through exactly when it parses to a JSON object that is permitted: it names
  -- an image, neither it nor its HostConfig sets a restricted field or the host network, and labels
  -- of Dagster come with the two required ones.
  pub check_create_body_iff :
      (body : Str)
      → (check_create_body json body ≡ ok tt) ↔ (
          (v : Value) × (o : Object) × (from_slice body ≡ some v)
          × (shape v ≡ object o)
          × IsPermitted o)
  unfolding check_create_body
  check_create_body_iff body = (
    (λ h.
        let (o, parsed, fine) = >>=-eq-ok (parse_object json body) _ h in
        let (v, found, is) = (parse_object_iff body o).0 parsed in
        (v, o, found, is, (check_object_iff o).0 fine)),
    (λ (v, o, found, is, p).
        rw ((parse_object_iff body o).1 (v, found, is)) ((check_object_iff o).1 p)),
  )
