-- ===== src/Middleware/Interleaving.antt =====
-- src/middleware.rs: the futures that `SecurityService::call` returns, polled in any order. A future
-- gives way to others before it starts, while it collects a body, and while the inner service answers;
-- it can be dropped there, by a timeout or a client that leaves. The counters are atomic and the log
-- takes whole lines, so what a future does between two such points is one step.
pub mod Agreement
pub mod Enforced
pub mod Effect
pub mod Counts
pub mod Progress
use docker_socket_proxy.Common.{ℕ, ◌+◌, Bool, true, false, List, [], ◌∷◌, Option, none, some, Str}
use docker_socket_proxy.Error.{ProxyError, Result, ok, err}
use docker_socket_proxy.Http.{HeaderMaps, Request}
use docker_socket_proxy.Observability.{record_allowed, zeroed}
use docker_socket_proxy.Security.Normalize.{BodyRule, container_create, check_head}
use docker_socket_proxy.Security.Body.{Json, check_body}
use docker_socket_proxy.Middleware.{
  Collected, collected, length_limit, read_error, Bodies, Trail, Reply, refused, served,
  SecurityService, oversized_declaration, body_error, refuse, rejected_by_layer, denied_by_policy,
}

-- Where a future stands; a dropped one remembers whether it had been counted as allowed.
pub data Phase (B R : Type 0) : Type 0 where
  arrived collecting : Phase B R
  calling : B → Phase B R
  finished : Reply R → Phase B R
  dropped : (counted : Bool) → Phase B R

pub record Task (H B R : Type 0) : Type 0 where
  pub request : Request H B
  pub phase : Phase B R

-- A future that is dropped does nothing more; the inner service may have been called.
unfoldable pub abandon : {B R : Type 0} → Phase B R → Phase B R
abandon arrived = dropped false
abandon collecting = dropped false
abandon (calling body) = dropped true
abandon (finished reply) = finished reply
abandon (dropped counted) = dropped counted

module _ (json : Json) (http : HeaderMaps) (bodies : Bodies) {R : Type 0} where
  open http use {HeaderMap}
  open bodies use {Body, limited, collect, from_bytes}

  module _ (service : SecurityService HeaderMap Body R) where
    unfoldable pub refusing :
        Str → Request HeaderMap Body → Trail → ProxyError → Phase Body R × Trail
    refusing message request trail e =
        let (reply, after) = refuse json http bodies message service request trail e in
        (finished reply, after)

    -- count the request as allowed, and call the inner service
    unfoldable pub call_inner : Trail → Body → Phase Body R × Trail
    call_inner trail body = (calling body, record trail { metrics = record_allowed trail.metrics })

    unfoldable pub on_inspected :
        Request HeaderMap Body → Trail → Str → Result (Unit {0}) → Phase Body R × Trail
    on_inspected request trail bytes (err denial) = refusing denied_by_policy request trail denial
    on_inspected request trail bytes (ok u) = call_inner trail (from_bytes bytes)

    unfoldable pub on_collected : Request HeaderMap Body → Trail → Collected → Phase Body R × Trail
    on_collected request trail (collected bytes) =
        on_inspected request trail bytes (check_body json container_create bytes)
    on_collected request trail length_limit =
        refusing rejected_by_layer request trail (body_error service.max_body_bytes none)
    on_collected request trail (read_error e) =
        refusing rejected_by_layer request trail (body_error service.max_body_bytes (some e))

    unfoldable pub on_declared :
        Request HeaderMap Body → Trail → Option ProxyError → Phase Body R × Trail
    on_declared request trail (some e) = refusing rejected_by_layer request trail e
    on_declared request trail none = call_inner trail (limited service.max_body_bytes request.body)

    unfoldable pub on_head : Request HeaderMap Body → Trail → Result BodyRule → Phase Body R × Trail
    on_head request trail (err denial) = refusing denied_by_policy request trail denial
    on_head request trail (ok BodyRule.none) =
        on_declared request trail
          (oversized_declaration http request.headers service.max_body_bytes)
    on_head request trail (ok container_create) = (collecting, trail)

    -- One poll of a future that finds what it waits for ready, from the point where it waits to the
    -- next.
    unfoldable pub resume : Request HeaderMap Body → Phase Body R → Trail → Phase Body R × Trail
    resume request arrived trail =
        on_head request trail (check_head service.filter request.method request.path)
    resume request collecting trail =
        on_collected request trail (collect (limited service.max_body_bytes request.body))
    resume request (calling body) trail =
        (finished (served (service.inner (record request { body = body }))), trail)
    resume request (finished reply) trail = (finished reply, trail)
    resume request (dropped counted) trail = (dropped counted, trail)

    -- One poll: a body that is still coming in, or an inner service that has not answered, is `Pending`
    -- and leaves the future where it was. A future that has just arrived waits for nothing.
    unfoldable pub attempt :
        (ready : Bool) → Request HeaderMap Body → Phase Body R → Trail → Phase Body R × Trail
    attempt true request phase trail = resume request phase trail
    attempt false request arrived trail = resume request arrived trail
    attempt false request phase trail = (phase, trail)

    -- The polls of one future, each with the counters and the log that it finds.
    unfoldable pub poll_all :
        Request HeaderMap Body → List (Bool × Trail) → Phase Body R → Phase Body R
    poll_all request [] phase = phase
    poll_all request ((ready, trail) ∷ polls) phase =
        poll_all request polls (attempt ready request phase trail).0

    -- One step of the server: a request comes in, or one of the futures is polled or dropped.
    pub data Step
        : List (Task HeaderMap Body R) → Trail → List (Task HeaderMap Body R) → Trail → Type 0 where
      accepted :
          {tasks : List (Task HeaderMap Body R)} {trail : Trail} (request : Request HeaderMap Body)
          → Step tasks trail (record { request = request; phase = arrived } ∷ tasks) trail
      polled :
          {tasks : List (Task HeaderMap Body R)} {trail : Trail} (task : Task HeaderMap Body R)
          → Step
              (task ∷ tasks)
              trail
              (record task { phase = (resume task.request task.phase trail).0 } ∷ tasks)
              (resume task.request task.phase trail).1
      -- a poll that returns `Pending`
      pending :
          {tasks : List (Task HeaderMap Body R)} {trail : Trail} (task : Task HeaderMap Body R)
          → Step (task ∷ tasks) trail (task ∷ tasks) trail
      abandoned :
          {tasks : List (Task HeaderMap Body R)} {trail : Trail} (task : Task HeaderMap Body R)
          → Step (task ∷ tasks) trail (record task { phase = abandon task.phase } ∷ tasks) trail
      later :
          {tasks tasks' : List (Task HeaderMap Body R)} {trail trail' : Trail}
          (task : Task HeaderMap Body R)
          → Step tasks trail tasks' trail'
          → Step (task ∷ tasks) trail (task ∷ tasks') trail'

    -- What the server reaches from its start, without requests, counts or log lines.
    pub data Reached : List (Task HeaderMap Body R) → Trail → Type 0 where
      started : Reached [] (record { metrics = zeroed; log = [] })
      stepped :
          {tasks tasks' : List (Task HeaderMap Body R)} {trail trail' : Trail}
          → Reached tasks trail
          → Step tasks trail tasks' trail'
          → Reached tasks' trail'
