-- ===== src/Middleware/Interleaving/Enforced.antt =====
-- What futures polled in any order hand to the inner service.
use docker_socket_proxy.Common.{List, Option, none, some, All, Str, ◌≡◌, refl}
use docker_socket_proxy.Error.{ProxyError, Result, ok, err}
use docker_socket_proxy.Http.{HeaderMaps, Request}
use docker_socket_proxy.Security.Normalize.{BodyRule, container_create, check_head}
use docker_socket_proxy.Security.Body.{Json, check_body}
use docker_socket_proxy.Middleware.Admission.{Admitted, head-Admitted, body-Admitted}
use docker_socket_proxy.Middleware.{
  refuse, Collected, collected, length_limit, read_error, Bodies, Trail, refused, served,
  SecurityService,
}
use docker_socket_proxy.Middleware.Interleaving.{
  Phase, arrived, collecting, calling, finished, dropped, Task, abandon, refusing, call_inner,
  on_inspected, on_collected, on_declared, on_head, resume, Step, accepted, polled, abandoned,
  pending, later, Reached, started, stepped,
}

module _ (json : Json) (http : HeaderMaps) (bodies : Bodies) {R : Type 0} where
  open http use {HeaderMap}
  open bodies use {Body, limited, collect, from_bytes}

  module _ (service : SecurityService HeaderMap Body R) where
    -- A future that has called the inner service did so with an admitted body.
    abbrev pub Passes : Request HeaderMap Body → Phase Body R → Type 0
    Passes request arrived = Unit
    Passes request collecting =
        check_head service.filter request.method request.path ≡ ok container_create
    Passes request (calling body) = Admitted json http bodies service request body
    Passes request (finished (refused answer)) = Unit
    Passes request (finished (served r)) =
        (body : Body) × Admitted json http bodies service request body
        × (r ≡ service.inner (record request { body = body }))
    Passes request (dropped counted) = Unit

    module _ (request : Request HeaderMap Body) (trail : Trail) where
      refusing-Passes :
          (message : Str) (e : ProxyError)
          → Passes request (refusing json http bodies service message request trail e).0
      unfolding refusing refuse
      refusing-Passes message e = tt

      on_inspected-Passes :
          (bytes : Str) (result : Result (Unit {0}))
          → check_head service.filter request.method request.path ≡ ok container_create
          → collect (limited service.max_body_bytes request.body) ≡ collected bytes
          → check_body json container_create bytes ≡ result
          → Passes request (on_inspected json http bodies service request trail bytes result).0
      unfolding on_inspected call_inner
      on_inspected-Passes bytes (err e) head read is = refusing-Passes _ e
      on_inspected-Passes bytes (ok u) head read is =
          body-Admitted json http bodies service request bytes head read is

      on_collected-Passes :
          (found : Collected)
          → check_head service.filter request.method request.path ≡ ok container_create
          → collect (limited service.max_body_bytes request.body) ≡ found
          → Passes request (on_collected json http bodies service request trail found).0
      unfolding on_collected
      on_collected-Passes (collected bytes) head read = on_inspected-Passes bytes _ head read refl
      on_collected-Passes length_limit head read = refusing-Passes _ _
      on_collected-Passes (read_error e) head read = refusing-Passes _ _

      on_declared-Passes :
          (o : Option ProxyError)
          → check_head service.filter request.method request.path ≡ ok BodyRule.none
          → Passes request (on_declared json http bodies service request trail o).0
      unfolding on_declared call_inner
      on_declared-Passes (some e) head = refusing-Passes _ e
      on_declared-Passes none head = head-Admitted json http bodies service request head

      on_head-Passes :
          (head : Result BodyRule)
          → check_head service.filter request.method request.path ≡ head
          → Passes request (on_head json http bodies service request trail head).0
      unfolding on_head
      on_head-Passes (err e) is = refusing-Passes _ e
      on_head-Passes (ok BodyRule.none) is = on_declared-Passes _ is
      on_head-Passes (ok container_create) is = is

      pub resume-Passes :
          (phase : Phase Body R)
          → Passes request phase
          → Passes request (resume json http bodies service request phase trail).0
      unfolding resume
      resume-Passes arrived passes = on_head-Passes _ refl
      resume-Passes collecting passes = on_collected-Passes _ passes refl
      resume-Passes (calling body) passes = (body, passes, refl)
      resume-Passes (finished reply) passes = passes
      resume-Passes (dropped counted) passes = tt

    abandon-Passes :
        (request : Request HeaderMap Body) (phase : Phase Body R)
        → Passes request phase
        → Passes request (abandon phase)
    unfolding abandon
    abandon-Passes request arrived passes = tt
    abandon-Passes request collecting passes = tt
    abandon-Passes request (calling body) passes = tt
    abandon-Passes request (finished reply) passes = passes
    abandon-Passes request (dropped counted) passes = tt

    abbrev pub AllPass : List (Task HeaderMap Body R) → Type 0
    AllPass tasks = All (λ task. Passes task.request task.phase) tasks

    Step-AllPass :
        {tasks tasks' : List (Task HeaderMap Body R)} {trail trail' : Trail}
        → Step json http bodies service tasks trail tasks' trail'
        → AllPass tasks
        → AllPass tasks'
    Step-AllPass (accepted request) passes = (tt, passes)
    Step-AllPass {trail = trail} (polled task) (now, rest) =
        (resume-Passes task.request trail task.phase now, rest)
    Step-AllPass (pending task) passes = passes
    Step-AllPass (abandoned task) (now, rest) = (abandon-Passes task.request task.phase now, rest)
    Step-AllPass (later task step) (now, rest) = (now, Step-AllPass step rest)

    -- However requests come in and their futures are polled and dropped, each future that waits for
    -- the inner service or has its answer called it with a body with which its request is admitted:
    -- the policy permits the normalised path, and the body is the request's own under the limit or,
    -- for a create request, the bytes that passed inspection.
    pub Reached-AllPass :
        (tasks : List (Task HeaderMap Body R)) (trail : Trail)
        → Reached json http bodies service tasks trail
        → AllPass tasks
    Reached-AllPass _ _ started = tt
    Reached-AllPass _ _ (stepped before step) = Step-AllPass step (Reached-AllPass _ _ before)
