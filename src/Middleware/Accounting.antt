-- ===== src/Middleware/Accounting.antt =====
-- What the enforcement layer counts and logs.
use docker_socket_proxy.Common.{◌+◌, ◌%◌, ◌^◌, [], ◌∷◌, ◌++◌, Option, none, some, ◌≡◌, refl, Str}
use docker_socket_proxy.Error.{ProxyError, Result, ok, err, ErrorResponse, into_response, display}
use docker_socket_proxy.Http.{HeaderMaps, Request}
use docker_socket_proxy.Observability.{record_allowed, record_denied}
use docker_socket_proxy.Security.Normalize.{BodyRule, container_create, check_head}
use docker_socket_proxy.Security.Body.{Json}
use docker_socket_proxy.Middleware.{
  Collected, collected, length_limit, read_error, Bodies, Event, Trail, Reply, refused, served,
  SecurityService, refuse, forward, rejected_by_layer, denied_by_policy, stream, after_inspection,
  inspect, after_head, call,
}

module _ (json : Json) (http : HeaderMaps) (bodies : Bodies) {R : Type 0} where
  open http use {HeaderMap}
  open bodies use {Body, limited, collect, from_bytes}

  -- What a request leaves behind: one counter goes up by one, wrapping at 2 ^ 64, and the other stays;
  -- a refusal is logged with its reason.
  pub data Counted (service : SecurityService HeaderMap Body R) (request : Request HeaderMap Body)
      (trail : Trail) : Reply R × Trail → Type 0 where
    counted_allowed :
        {r : R} {trail' : Trail}
        → trail'.metrics.allowed ≡ (trail.metrics.allowed + 1) % 2 ^ 64
        → trail'.metrics.denied ≡ trail.metrics.denied
        → trail'.log ≡ trail.log
        → Counted service request trail (served r, trail')
    counted_denied :
        {answer : ErrorResponse} {trail' : Trail} (e : ProxyError) (entry : Event)
        → answer ≡ into_response e
        → trail'.metrics.denied ≡ (trail.metrics.denied + 1) % 2 ^ 64
        → trail'.metrics.allowed ≡ trail.metrics.allowed
        → trail'.log ≡ trail.log ++ entry ∷ []
        → entry.method ≡ request.method
        → entry.path ≡ request.path
        → entry.reason ≡ display e
        → Counted service request trail (refused answer, trail')

  module _ (service : SecurityService HeaderMap Body R) (request : Request HeaderMap Body)
      (trail : Trail) where
    refuse-Counted :
        (message : Str) (e : ProxyError)
        → Counted service request trail (refuse json http bodies message service request trail e)
    unfolding refuse record_denied
    refuse-Counted message e = counted_denied e _ refl refl refl refl refl refl refl

    forward-Counted :
        (body : Body)
        → Counted service request trail (forward json http bodies service request trail body)
    unfolding forward record_allowed
    forward-Counted body = counted_allowed refl refl refl

    after_inspection-Counted :
        (bytes : Str) (result : Result (Unit {0}))
        → Counted service request trail
            (after_inspection json http bodies service request trail bytes result)
    unfolding after_inspection
    after_inspection-Counted bytes (err e) = refuse-Counted denied_by_policy e
    after_inspection-Counted bytes (ok u) = forward-Counted (from_bytes bytes)

    inspect-Counted :
        (rule : BodyRule) (found : Collected)
        → Counted service request trail (inspect json http bodies service request trail rule found)
    unfolding inspect
    inspect-Counted rule (collected bytes) = after_inspection-Counted bytes _
    inspect-Counted rule length_limit = refuse-Counted rejected_by_layer _
    inspect-Counted rule (read_error e) = refuse-Counted rejected_by_layer _

    stream-Counted :
        (o : Option ProxyError)
        → Counted service request trail (stream json http bodies service request trail o)
    unfolding stream
    stream-Counted (some e) = refuse-Counted rejected_by_layer e
    stream-Counted none = forward-Counted _

    after_head-Counted :
        (head : Result BodyRule)
        → Counted service request trail (after_head json http bodies service request trail head)
    unfolding after_head
    after_head-Counted (err e) = refuse-Counted denied_by_policy e
    after_head-Counted (ok BodyRule.none) = stream-Counted _
    after_head-Counted (ok container_create) = inspect-Counted container_create _

    -- Every request moves exactly one counter by one, up to 2 ^ 64: the inner service's answer goes with
    -- `allowed` and an unchanged log, a refusal with `denied` and one more line that names its reason.
    pub call-Counted : Counted service request trail (call json http bodies service request trail)
    unfolding call
    call-Counted = after_head-Counted (check_head service.filter request.method request.path)
