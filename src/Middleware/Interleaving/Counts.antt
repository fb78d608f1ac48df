-- ===== src/Middleware/Interleaving/Counts.antt =====
-- What futures polled in any order count and log.
use docker_socket_proxy.Common.{List, Option, none, some, length-append, Str, refl, arith}
use docker_socket_proxy.Error.{ProxyError, Result, ok, err}
use docker_socket_proxy.Http.{HeaderMaps, Request}
use docker_socket_proxy.Security.Normalize.{BodyRule, container_create}
use docker_socket_proxy.Security.Body.{Json}
use docker_socket_proxy.Middleware.{
  Collected, collected, length_limit, read_error, Bodies, Trail, SecurityService, refuse,
}
use docker_socket_proxy.Middleware.Interleaving.{
  Phase, arrived, collecting, calling, finished, dropped, Task, abandon, refusing, call_inner,
  on_inspected, on_collected, on_declared, on_head, resume, Step, accepted, polled, abandoned,
  pending, later, Reached, started, stepped,
}
use docker_socket_proxy.Middleware.Interleaving.Effect.{
  counts_allowed, counts_denied, allowed_in, denied_in, Effect, quiet, more_allowed, more_denied,
  Shows, Effect-Shows, Effect-front, Effect-behind,
}

module _ (json : Json) (http : HeaderMaps) (bodies : Bodies) {R : Type 0} where
  open http use {HeaderMap}
  open bodies use {Body, limited, collect, from_bytes}

  module _ (service : SecurityService HeaderMap Body R) where
    -- What a future does that had neither been counted nor refused.
    FirstEffect : Trail → Phase Body R × Trail → Type 0
    FirstEffect trail outcome =
        Effect 0 0 trail (counts_allowed outcome.0) (counts_denied outcome.0) outcome.1

    module _ (request : Request HeaderMap Body) (trail : Trail) where
      refusing-FirstEffect :
          (message : Str) (e : ProxyError)
          → FirstEffect trail (refusing json http bodies service message request trail e)
      unfolding refusing refuse FirstEffect
      refusing-FirstEffect message e = more_denied refl refl refl (length-append trail.log _)

      call_inner-FirstEffect :
          (body : Body) → FirstEffect trail (call_inner json http bodies service trail body)
      unfolding call_inner FirstEffect
      call_inner-FirstEffect body = more_allowed refl refl refl refl

      on_inspected-FirstEffect :
          (bytes : Str) (result : Result (Unit {0}))
          → FirstEffect trail (on_inspected json http bodies service request trail bytes result)
      unfolding on_inspected
      on_inspected-FirstEffect bytes (err denial) = refusing-FirstEffect _ denial
      on_inspected-FirstEffect bytes (ok u) = call_inner-FirstEffect (from_bytes bytes)

      on_collected-FirstEffect :
          (found : Collected)
          → FirstEffect trail (on_collected json http bodies service request trail found)
      unfolding on_collected
      on_collected-FirstEffect (collected bytes) = on_inspected-FirstEffect bytes _
      on_collected-FirstEffect length_limit = refusing-FirstEffect _ _
      on_collected-FirstEffect (read_error e) = refusing-FirstEffect _ _

      on_declared-FirstEffect :
          (o : Option ProxyError)
          → FirstEffect trail (on_declared json http bodies service request trail o)
      unfolding on_declared
      on_declared-FirstEffect (some e) = refusing-FirstEffect _ e
      on_declared-FirstEffect none = call_inner-FirstEffect _

      on_head-FirstEffect :
          (head : Result BodyRule)
          → FirstEffect trail (on_head json http bodies service request trail head)
      unfolding on_head FirstEffect
      on_head-FirstEffect (err denial) = refusing-FirstEffect _ denial
      on_head-FirstEffect (ok BodyRule.none) = on_declared-FirstEffect _
      on_head-FirstEffect (ok container_create) = quiet refl refl refl

      resume-Effect :
          (phase : Phase Body R)
          → let outcome = resume json http bodies service request phase trail in
            Effect
              (counts_allowed phase)
              (counts_denied phase)
              trail
              (counts_allowed outcome.0)
              (counts_denied outcome.0)
              outcome.1
      unfolding resume FirstEffect
      resume-Effect arrived = on_head-FirstEffect _
      resume-Effect collecting = on_collected-FirstEffect _
      resume-Effect (calling body) = quiet refl refl refl
      resume-Effect (finished reply) = quiet refl refl refl
      resume-Effect (dropped counted) = quiet refl refl refl

    abandon-Effect :
        (phase : Phase Body R) (trail : Trail)
        → Effect
            (counts_allowed phase)
            (counts_denied phase)
            trail
            (counts_allowed (abandon phase))
            (counts_denied (abandon phase))
            trail
    unfolding abandon
    abandon-Effect arrived trail = quiet refl refl refl
    abandon-Effect collecting trail = quiet refl refl refl
    abandon-Effect (calling body) trail = quiet refl refl refl
    abandon-Effect (finished reply) trail = quiet refl refl refl
    abandon-Effect (dropped counted) trail = quiet refl refl refl

    Step-Effect :
        {tasks tasks' : List (Task HeaderMap Body R)} {trail trail' : Trail}
        → Step json http bodies service tasks trail tasks' trail'
        → Effect
            (allowed_in tasks)
            (denied_in tasks)
            trail
            (allowed_in tasks')
            (denied_in tasks')
            trail'
    Step-Effect (accepted request) = quiet (omega arith) (omega arith) refl
    Step-Effect {trail = trail} (polled {tasks = tasks} task) =
        Effect-behind (allowed_in tasks) (denied_in tasks)
          (resume-Effect task.request trail task.phase)
    Step-Effect (pending task) = quiet refl refl refl
    Step-Effect {trail = trail} (abandoned {tasks = tasks} task) =
        Effect-behind (allowed_in tasks) (denied_in tasks) (abandon-Effect task.phase trail)
    Step-Effect (later task step) =
        Effect-front (counts_allowed task.phase) (counts_denied task.phase) (Step-Effect step)

    -- However requests come in and their futures are polled and dropped, the counter of allowed
    -- requests is the number of futures that called the inner service, the counter of denied requests
    -- the number of those that refused, both up to 2 ^ 64, and the log has one line for each refusal.
    pub Reached-Shows :
        (tasks : List (Task HeaderMap Body R)) (trail : Trail)
        → Reached json http bodies service tasks trail
        → Shows trail (allowed_in tasks) (denied_in tasks)
    Reached-Shows _ _ started = (refl, refl, refl)
    Reached-Shows _ _ (stepped before step) =
        Effect-Shows (Step-Effect step) (Reached-Shows _ _ before)
