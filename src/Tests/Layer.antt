-- ===== src/Tests/Layer.antt =====
-- The enforcement layer at a concrete request, with a small stand-in for http-body-util.
use docker_socket_proxy.Security.Version.{strip_api_version, strip_v}
use docker_socket_proxy.Security.Segments.{push_segment, remove_dot_segments, render, resolve}
use docker_socket_proxy.Security.Rules.{push_rule}
use docker_socket_proxy.Security.Rule.{add, extend, insert, insert_all, is_inert, matches, new}
use docker_socket_proxy.Security.Pattern.{matches_pattern, segments}
use docker_socket_proxy.Common.{
  ◌≢◌, inr, true, ◌↔◌, cons_first, contains, [], none, false, codes, ◌≡◌, refl, str_eq, starts_with,
  ends_with, has_byte, split, first_part,
}
use docker_socket_proxy.Config.{default}
use docker_socket_proxy.Http.{Headers, Request}
use docker_socket_proxy.Observability.{zeroed, record_allowed}
use docker_socket_proxy.Security.Profile.{for_profile}
use docker_socket_proxy.Security.Percent.{decode_loop, is_utf8, lead, utf8_from, percent_decode}
use docker_socket_proxy.Security.Normalize.{body_rule, normalize_path, check_head}
use docker_socket_proxy.Security.Filter.{check}
use docker_socket_proxy.Middleware.{
  after_head, declared_length, forward, oversized_declaration, stream, too_long, Collected,
  collected, SecurityService, Trail, served, call,
}
use docker_socket_proxy.Middleware.Admission.{Admitted}
use docker_socket_proxy.Middleware.Enforcement.{Served, call-served}
use docker_socket_proxy.Middleware.Accounting.{Counted, call-Counted}
use docker_socket_proxy.Middleware.Admission.{streamed}
use docker_socket_proxy.Middleware.Completeness.{call-serves}
use docker_socket_proxy.Error.{ok}
use docker_socket_proxy.Security.Request.{IsCreate}
use docker_socket_proxy.Security.Filter.Decision.{Permits, check_iff}
use docker_socket_proxy.Tests.Fixtures.{json, http, bodies}

-- an inner service that answers with the body that it is given
abbrev pub service : SecurityService Headers Collected Collected
service = record {
  inner = λ request. request.body;
  filter = for_profile default;
  max_body_bytes = 4;
}

abbrev pub request : Request Headers Collected
request = record {
  method = codes "GET";
  path = codes "/info";
  query = none;
  headers = [];
  on_upgrade = false;
  body = collected (codes "abc");
}

abbrev pub trail : Trail
trail = record { metrics = zeroed; log = [] }

abbrev counted_trail : Trail
counted_trail = record { metrics = record_allowed zeroed; log = [] }

unfoldable pub layer_code : Unit {0}
unfolding str_eq starts_with ends_with has_byte split first_part percent_decode normalize_path
    check_head check for_profile call cons_first contains matches_pattern segments decode_loop
    is_utf8 lead utf8_from add extend insert insert_all is_inert matches new
    docker_socket_proxy.Security.Rules.add docker_socket_proxy.Security.Rules.matches push_rule
    push_segment remove_dot_segments render resolve strip_api_version strip_v after_head
    declared_length forward oversized_declaration stream too_long body_rule
layer_code = tt

runs :
    call json http bodies service request trail ≡ (served (collected (codes "abc")), counted_trail)
unfolding layer_code
runs = refl

call-served_example :
    (body : Collected) × Admitted json http bodies service request body
    × Served json http bodies service request trail (collected (codes "abc")) counted_trail body
call-served_example =
    call-served json http bodies service request trail counted_trail (collected (codes "abc")) runs

call-Counted_example :
    Counted json http bodies service request trail (call json http bodies service request trail)
call-Counted_example = call-Counted json http bodies service request trail

normalizes : normalize_path (codes "/info") ≡ ok (codes "/info")
unfolding layer_code
normalizes = refl

permits_info : Permits (for_profile default) (codes "GET") (codes "/info")
permits_info =
    (check_iff (for_profile default) (codes "GET") (codes "/info")).0 (unfold layer_code in refl)

not_post : codes "GET" ≢ codes "POST"
not_post e = cc

no-IsCreate : (false ≡ true) ↔ IsCreate (codes "GET") (codes "/info")
no-IsCreate = ((λ h. cc), (λ h. absurd (not_post (h.0))))

admits : Admitted json http bodies service request (bodies.limited 4 request.body)
admits = record {
  normalized = codes "/info";
  is_normalized = normalizes;
  permitted = permits_info;
  create = false;
  create_iff = no-IsCreate;
  body_for = streamed refl;
}

call-serves_example :
    call json http bodies service request trail
    ≡ (served (bodies.limited 4 request.body), counted_trail)
call-serves_example =
    call-serves json http bodies service request trail (bodies.limited 4 request.body) admits
      (inr (unfold layer_code in refl))
