-- ===== src/Security/Body.antt =====
-- src/security.rs: the inspection of container-create bodies, `check_body` and `check_request`.
-- JSON is serde_json's: its values, maps and parser are the interface `Json`.
pub mod Shapes
pub mod Levels
pub mod Labels
pub mod Permitted
pub mod Refused
use docker_socket_proxy.Common.{
  Bool, true, false, not, ◌&&◌, List, [], ◌∷◌, ◌++◌, Option, none, some, if◌then◌else◌, any,
  is_empty, Member, Str, codes, str_eq, starts_with, ◌≢◌, ◌↔◌,
}
use docker_socket_proxy.Error.{forbidden, Result, ok, err, ◌>>=◌, ◌>>◌}
use docker_socket_proxy.Security.Profile.{SecurityFilter}
use docker_socket_proxy.Security.Normalize.{BodyRule, container_create, check_head}

-- The variants of `serde_json::Value`; a number's value is never read.
pub data Shape (V O : Type 0) : Type 0 where
  null number : Shape V O
  bool : Bool → Shape V O
  string : Str → Shape V O
  array : List V → Shape V O
  object : O → Shape V O

-- What the program uses of serde_json, and that `get` finds exactly the keys of a map.
pub record Json : Type 1 where
  pub Value : Type 0
  pub Object : Type 0
  pub from_slice : Str → Option Value
  pub shape : Value → Shape Value Object
  pub get : Object → Str → Option Value
  pub keys : Object → List Str
  pub keys_get : (o : Object) (k : Str) → Member k (keys o) ↔ (get o k ≢ none)

-- `Value::as_object` and `Value::as_str`, by the variant
abbrev pub shape_object : {V O : Type 0} → Shape V O → Option O
shape_object (object o) = some o
shape_object _ = none

abbrev pub shape_str : {V O : Type 0} → Shape V O → Option Str
shape_str (string s) = some s
shape_str _ = none

-- `Option::is_some_and`, `Option::and_then`, `Option::is_none`
abbrev pub is_some_and : {A : Type 0} → Option A → (A → Bool) → Bool
is_some_and none p = false
is_some_and (some a) p = p a

abbrev pub and_then : {A B : Type 0} → Option A → (A → Option B) → Option B
and_then none f = none
and_then (some a) f = f a

abbrev pub is_none : {A : Type 0} → Option A → Bool
is_none none = true
is_none (some a) = false

abbrev pub restricted_keys : List Str
restricted_keys =
    codes "Privileged"
    ∷ codes "CapAdd"
    ∷ codes "SecurityOpt"
    ∷ codes "Devices"
    ∷ codes "DeviceRequests"
    ∷ codes "PidMode"
    ∷ codes "IpcMode"
    ∷ codes "UsernsMode"
    ∷ []

abbrev pub required_labels : List Str
required_labels = codes "dagster/run_id" ∷ codes "dagster/job_name" ∷ []

unfoldable pub set_shape : {V O : Type 0} → Shape V O → Bool
set_shape null = false
set_shape (bool false) = false
set_shape (array values) = not (is_empty values)
set_shape (string text) = not (is_empty text)
set_shape _ = true

-- `Image` must be there and not be empty
unfoldable pub check_image : Option Str → Result (Unit {0})
check_image none = err (forbidden (codes "container create requires Image"))
check_image (some image) =
    if is_empty image then err (forbidden (codes "container create requires Image")) else ok tt

module _ (json : Json) where
  open json use {Value, Object, from_slice, shape, get, keys}

  abbrev pub as_object : Value → Option Object
  as_object v = shape_object (shape v)

  abbrev pub as_str : Value → Option Str
  as_str v = shape_str (shape v)

  unfoldable pub meaningfully_set : Value → Bool
  meaningfully_set v = set_shape (shape v)

  -- the loop over the restricted keys at one level
  unfoldable pub check_keys : Object → List Str → Result (Unit {0})
  check_keys o [] = ok tt
  check_keys o (key ∷ rest) =
      let next = check_keys o rest in
      if is_some_and (get o key) meaningfully_set
      then err (forbidden (codes "container create field is not permitted: " ++ key))
      else next

  unfoldable pub has_host_network : Object → Bool
  has_host_network o =
      is_some_and (and_then (get o (codes "NetworkMode")) as_str)
        (λ mode. str_eq mode (codes "host"))

  unfoldable pub check_level : Object → Result (Unit {0})
  check_level o = do
    check_keys o restricted_keys
    if has_host_network o
        then err (forbidden (codes "container create field is not permitted: NetworkMode"))
        else ok tt

  -- the object itself, and its nested HostConfig
  unfoldable pub levels : Object → List Object
  levels o = elim (and_then (get o (codes "HostConfig")) as_object) [
    | none ↦ o ∷ []
    | some host ↦ o ∷ host ∷ []
  ]

  unfoldable pub check_levels : List Object → Result (Unit {0})
  check_levels [] = ok tt
  check_levels (o ∷ rest) = do check_level o; check_levels rest

  unfoldable pub is_dagster : Object → Bool
  is_dagster labels = any (λ key. starts_with key (codes "dagster/")) (keys labels)

  unfoldable pub check_labels : Object → List Str → Result (Unit {0})
  check_labels labels [] = ok tt
  check_labels labels (label ∷ rest) =
      let next = check_labels labels rest in
      if is_dagster labels && is_none (get labels label)
      then err (forbidden (codes "container create requires label: " ++ label))
      else next

  -- `if let Some(labels) = …`
  unfoldable pub check_given_labels : Option Object → Result (Unit {0})
  check_given_labels none = ok tt
  check_given_labels (some labels) = check_labels labels required_labels

  -- the checks once the body is known to be an object
  unfoldable pub check_object : Object → Result (Unit {0})
  check_object o = do
    check_image (and_then (get o (codes "Image")) as_str)
    check_levels (levels o)
    check_given_labels (and_then (get o (codes "Labels")) as_object)

  -- `ok_or_else` on the parse and on `as_object`
  unfoldable pub parse_object : Str → Result Object
  parse_object body = elim (from_slice body) [
    | none ↦ err (forbidden (codes "container create body must be valid JSON"))
    | some value ↦ elim (as_object value) [
      | none ↦ err (forbidden (codes "container create body must be an object"))
      | some o ↦ ok o
    ]
  ]

  unfoldable pub check_create_body : Str → Result (Unit {0})
  check_create_body body = do o ← parse_object body; check_object o

  unfoldable pub check_body : BodyRule → Str → Result (Unit {0})
  check_body BodyRule.none body = ok tt
  check_body container_create body = check_create_body body

  unfoldable pub check_request : SecurityFilter → Str → Str → Str → Result (Unit {0})
  check_request f method path body = do rule ← check_head f method path; check_body rule body
