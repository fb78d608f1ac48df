-- ===== src/Tests/Requests.antt =====
-- Whole decisions at concrete requests, with a small stand-in for serde_json.
use docker_socket_proxy.Common.{
  some, Str, codes, ◌≡◌, ◌↔◌, refl, str_eq, starts_with, has_byte, split, first_part,
}
use docker_socket_proxy.Error.{ok, err, bad_request}
use docker_socket_proxy.Config.{default, container_runtime}
use docker_socket_proxy.Security.Profile.{for_profile}
use docker_socket_proxy.Security.Normalize.{normalize_path, check_head}
use docker_socket_proxy.Security.Percent.{
  accept_byte, decode_loop, escape, from_str_radix, hex_value, is_utf8, lead, radix_digits,
  utf8_from, percent_decode,
}
use docker_socket_proxy.Security.Filter.Decision.{Permits}
use docker_socket_proxy.Security.Body.{object, check_create_body, check_request}
use docker_socket_proxy.Security.Body.Permitted.{IsPermitted, check_create_body_iff}
use docker_socket_proxy.Security.Request.{IsCreate, PermitsBody, check_request_iff}
use docker_socket_proxy.Security.Request.Statuses.{IsClientError, check_request-status}
use docker_socket_proxy.Security.Body.Refused.{BodyFault, check_create_body-err_iff}
use docker_socket_proxy.Security.Body.Refused.Fields.{not_permitted}
use docker_socket_proxy.Tests.Unit.Bodies
use docker_socket_proxy.Tests.Fixtures.{json, create_body}

code : Unit {0}
unfolding str_eq starts_with has_byte split first_part percent_decode normalize_path check_head
    accept_byte decode_loop escape from_str_radix hex_value is_utf8 lead radix_digits utf8_from
code = tt

broken_escape :
    check_head (for_profile default) (codes "GET") (codes "/info%zz")
    ≡ err (bad_request (codes "invalid percent-encoding in path"))
unfolding code
broken_escape = refl

check_create_body_iff_example : (check_create_body json create_body ≡ ok tt) ↔ (
    (v : json.Value) × (o : json.Object) × (json.from_slice create_body ≡ some v)
    × (json.shape v ≡ object o)
    × IsPermitted json o)
check_create_body_iff_example = check_create_body_iff json create_body

check_create_body-err_iff_example :
    (check_create_body Bodies.json Bodies.cap_add ≡ err (not_permitted (codes "CapAdd")))
    ↔ BodyFault Bodies.json Bodies.cap_add (not_permitted (codes "CapAdd"))
check_create_body-err_iff_example =
    check_create_body-err_iff Bodies.json Bodies.cap_add (not_permitted (codes "CapAdd"))

check_request_iff_example :
    (check_request json
        (for_profile container_runtime)
        (codes "POST")
        (codes "/containers/create")
        create_body
      ≡ ok tt)
    ↔ ((normalized : Str) × (normalize_path (codes "/containers/create") ≡ ok normalized)
        × Permits (for_profile container_runtime) (codes "POST") normalized
        × (IsCreate (codes "POST") normalized → PermitsBody json create_body))
check_request_iff_example =
    check_request_iff json (for_profile container_runtime) (codes "POST")
      (codes "/containers/create") create_body

refuses :
    check_request json (for_profile default) (codes "GET") (codes "/info%zz") create_body
    ≡ err (bad_request (codes "invalid percent-encoding in path"))
unfolding code check_request
refuses = refl

check_request-status_example :
    IsClientError (bad_request (codes "invalid percent-encoding in path"))
check_request-status_example =
    check_request-status json (for_profile default) (codes "GET") (codes "/info%zz") create_body
      (bad_request (codes "invalid percent-encoding in path")) refuses
