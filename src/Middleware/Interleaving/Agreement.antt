-- ===== src/Middleware/Interleaving/Agreement.antt =====
-- Futures polled in any order answer as `call` does alone.
use docker_socket_proxy.Common.{List, Option, none, some, All, Str, ◌≡◌, refl, ap}
use docker_socket_proxy.Error.{ProxyError, Result, ok, err}
use docker_socket_proxy.Http.{HeaderMaps, Request}
use docker_socket_proxy.Security.Normalize.{BodyRule, container_create, check_head}
use docker_socket_proxy.Security.Body.{Json}
use docker_socket_proxy.Middleware.{
  Collected, collected, length_limit, read_error, Bodies, Trail, SecurityService, refuse, forward,
  stream, after_inspection, inspect, after_head, call,
}
use docker_socket_proxy.Middleware.Interleaving.{
  Phase, arrived, collecting, calling, finished, dropped, Task, abandon, refusing, call_inner,
  on_inspected, on_collected, on_declared, on_head, resume, Step, accepted, polled, abandoned,
  pending, later, Reached, started, stepped,
}

module _ (json : Json) (http : HeaderMaps) (bodies : Bodies) {R : Type 0} where
  open http use {HeaderMap}
  open bodies use {Body, limited, collect, from_bytes}

  module _ (service : SecurityService HeaderMap Body R) where
    -- Where a future stands, it is where `call` passes, whatever was counted and logged meanwhile: a
    -- finished one has the answer of `call`, and one that waits for the inner service has called it
    -- with the body with which `call` does.
    abbrev pub Agrees : Request HeaderMap Body → Phase Body R → Type 0
    Agrees request arrived = Unit
    Agrees request collecting =
        check_head service.filter request.method request.path ≡ ok container_create
    Agrees request (calling body) =
        (trail : Trail)
        → call json http bodies service request trail
          ≡ forward json http bodies service request trail body
    Agrees request (finished reply) =
        (trail : Trail) → (call json http bodies service request trail).0 ≡ reply
    Agrees request (dropped counted) = Unit

    module _ (request : Request HeaderMap Body) (trail : Trail) where
      refusing-Agrees :
          (message : Str) (e : ProxyError)
          → ((t : Trail)
              → call json http bodies service request t
                ≡ refuse json http bodies message service request t e)
          → Agrees request (refusing json http bodies service message request trail e).0
      unfolding refusing refuse
      refusing-Agrees message e h t = ap (λ outcome. outcome.0) (h t)

      on_inspected-Agrees :
          (bytes : Str) (result : Result (Unit {0}))
          → ((t : Trail)
              → call json http bodies service request t
                ≡ after_inspection json http bodies service request t bytes result)
          → Agrees request (on_inspected json http bodies service request trail bytes result).0
      unfolding on_inspected after_inspection call_inner
      on_inspected-Agrees bytes (err denial) h = refusing-Agrees _ denial h
      on_inspected-Agrees bytes (ok u) h = h

      on_collected-Agrees :
          (found : Collected)
          → ((t : Trail)
              → call json http bodies service request t
                ≡ inspect json http bodies service request t container_create found)
          → Agrees request (on_collected json http bodies service request trail found).0
      unfolding on_collected inspect
      on_collected-Agrees (collected bytes) h = on_inspected-Agrees bytes _ h
      on_collected-Agrees length_limit h = refusing-Agrees _ _ h
      on_collected-Agrees (read_error e) h = refusing-Agrees _ _ h

      on_declared-Agrees :
          (o : Option ProxyError)
          → ((t : Trail)
              → call json http bodies service request t
                ≡ stream json http bodies service request t o)
          → Agrees request (on_declared json http bodies service request trail o).0
      unfolding on_declared stream call_inner
      on_declared-Agrees (some e) h = refusing-Agrees _ e h
      on_declared-Agrees none h = h

      on_head-Agrees :
          (head : Result BodyRule)
          → check_head service.filter request.method request.path ≡ head
          → ((t : Trail)
              → call json http bodies service request t
                ≡ after_head json http bodies service request t head)
          → Agrees request (on_head json http bodies service request trail head).0
      unfolding on_head after_head
      on_head-Agrees (err denial) is h = refusing-Agrees _ denial h
      on_head-Agrees (ok BodyRule.none) is h = on_declared-Agrees _ h
      on_head-Agrees (ok container_create) is h = is

      resume-Agrees :
          (phase : Phase Body R)
          → Agrees request phase
          → Agrees request (resume json http bodies service request phase trail).0
      unfolding resume
      resume-Agrees arrived agrees = on_head-Agrees _ refl (λ t. unfold call in refl)
      resume-Agrees collecting agrees =
          on_collected-Agrees _ (λ t. unfold call after_head in rw agrees refl)
      resume-Agrees (calling body) agrees =
          λ t. unfold forward in ap (λ outcome. outcome.0) (agrees t)
      resume-Agrees (finished reply) agrees = agrees
      resume-Agrees (dropped counted) agrees = tt

    abandon-Agrees :
        (request : Request HeaderMap Body) (phase : Phase Body R)
        → Agrees request phase
        → Agrees request (abandon phase)
    unfolding abandon
    abandon-Agrees request arrived agrees = tt
    abandon-Agrees request collecting agrees = tt
    abandon-Agrees request (calling body) agrees = tt
    abandon-Agrees request (finished reply) agrees = agrees
    abandon-Agrees request (dropped counted) agrees = tt

    -- Each of the futures agrees with `call`.
    abbrev pub AllAgree : List (Task HeaderMap Body R) → Type 0
    AllAgree tasks = All (λ task. Agrees task.request task.phase) tasks

    Step-AllAgree :
        {tasks tasks' : List (Task HeaderMap Body R)} {trail trail' : Trail}
        → Step json http bodies service tasks trail tasks' trail'
        → AllAgree tasks
        → AllAgree tasks'
    Step-AllAgree (accepted request) agrees = (tt, agrees)
    Step-AllAgree {trail = trail} (polled task) (now, rest) =
        (resume-Agrees task.request trail task.phase now, rest)
    Step-AllAgree (pending task) agrees = agrees
    Step-AllAgree (abandoned task) (now, rest) = (abandon-Agrees task.request task.phase now, rest)
    Step-AllAgree (later task step) (now, rest) = (now, Step-AllAgree step rest)

    -- However requests come in and their futures are polled and dropped, each that finishes has the
    -- answer that `call` gives its request alone, and each that waits for the inner service has called
    -- it, as `call` does, with the body that `call` hands on.
    pub Reached-AllAgree :
        (tasks : List (Task HeaderMap Body R)) (trail : Trail)
        → Reached json http bodies service tasks trail
        → AllAgree tasks
    Reached-AllAgree _ _ started = tt
    Reached-AllAgree _ _ (stepped before step) = Step-AllAgree step (Reached-AllAgree _ _ before)
