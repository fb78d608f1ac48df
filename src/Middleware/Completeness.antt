-- ===== src/Middleware/Completeness.antt =====
-- Which requests the enforcement layer lets through.
use docker_socket_proxy.Common.{Bool, true, false, none, ◌≡◌, ◌⊎◌, ◌↔◌, inl, inr, refl, sym}
use docker_socket_proxy.Error.{ok}
use docker_socket_proxy.Http.{HeaderMaps, Request}
use docker_socket_proxy.Observability.{record_allowed}
use docker_socket_proxy.Security.Normalize.{BodyRule, container_create, body_rule, check_head}
use docker_socket_proxy.Security.Body.{Json, check_body}
use docker_socket_proxy.Security.Body.Permitted.{check_create_body_iff}
use docker_socket_proxy.Security.Request.{IsCreate, check_head_iff, body_rule_iff, rule_cases}
use docker_socket_proxy.Middleware.{
  Bodies, Trail, served, SecurityService, oversized_declaration, forward, stream, after_inspection,
  inspect, after_head, call,
}
use docker_socket_proxy.Middleware.Admission.{Admitted, BodyFor, streamed, inspected}

module _ (json : Json) (http : HeaderMaps) (bodies : Bodies) {R : Type 0} where
  open http use {HeaderMap}
  open bodies use {Body, limited, collect, from_bytes}

  -- A request that is admitted with a body, because the policy permits it and it either creates no
  -- container and that body is its own under the limit, or creates one and that body is the bytes
  -- that passed inspection, is handed with that body to the inner service, answered with its answer
  -- and counted as allowed. Where it creates no container, it must not declare a length above the limit.
  pub call-serves :
      (service : SecurityService HeaderMap Body R) (request : Request HeaderMap Body)
      (trail : Trail) (body : Body) (admitted : Admitted json http bodies service request body)
      → IsCreate request.method admitted.normalized
        ⊎ (oversized_declaration http request.headers service.max_body_bytes ≡ none)
      → call json http bodies service request trail ≡ (
        served (service.inner (record request { body = body })),
        record trail { metrics = record_allowed trail.metrics },
      )
  unfolding call after_head stream inspect after_inspection forward check_body
  call-serves service request trail body admitted small =
      go admitted.create admitted.body_for admitted.create_iff small
    where
      head :
          (rule : BodyRule)
          → rule ≡ body_rule request.method admitted.normalized
          → check_head service.filter request.method request.path ≡ ok rule
      head rule is =
          (check_head_iff service.filter request.method request.path rule).1
            (admitted.normalized, admitted.is_normalized, admitted.permitted, is)

      plain_rule :
          ((false ≡ true) ↔ IsCreate request.method admitted.normalized)
          → body_rule request.method admitted.normalized ≡ BodyRule.none
      plain_rule is = elim (rule_cases (body_rule request.method admitted.normalized)) [
        | inl none_owed ↦ none_owed
        | inr create ↦ cc (is.1 ((body_rule_iff request.method admitted.normalized).0 create))
      ]

      go :
          (create : Bool)
          → BodyFor json bodies service.max_body_bytes request.body create body
          → ((create ≡ true) ↔ IsCreate request.method admitted.normalized)
          → IsCreate request.method admitted.normalized
            ⊎ (oversized_declaration http request.headers service.max_body_bytes ≡ none)
          → call json http bodies service request trail ≡ (
            served (service.inner (record request { body = body })),
            record trail { metrics = record_allowed trail.metrics },
          )
      go false (streamed same) is (inl create) = cc (is.1 create)
      go false (streamed same) is (inr fits) =
          rw (head BodyRule.none (sym (plain_rule is)), fits) (cc)
      go true (inspected bytes read permitted same) is _ =
          rw
            (
              head container_create
                  (sym ((body_rule_iff request.method admitted.normalized).1 (is.0 refl))),
              read,
              (check_create_body_iff json bytes).1 permitted,
            )
            (cc)
