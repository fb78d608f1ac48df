-- ===== src/Tests/Overlap.antt =====
-- One upgraded session from its request to the drain.
use docker_socket_proxy.Common.{
  ℕ, ◌≤◌, true, List, [], ◌∷◌, Option, none, some, All, Member, map, codes, ◌≡◌, ◌⊎◌, inl, refl,
}
use docker_socket_proxy.Config.{default}
use docker_socket_proxy.Http.{Headers, Request}
use docker_socket_proxy.Observability.{zeroed, record_allowed}
use docker_socket_proxy.Security.Profile.{for_profile}
use docker_socket_proxy.Middleware.{Collected, collected, served}
use docker_socket_proxy.Middleware.Interleaving.{
  call_inner, on_declared, on_head, resume, arrived, calling, finished,
}
use docker_socket_proxy.Proxy.Drain.{drain_upgrades}
use docker_socket_proxy.Proxy.Handler.{
  build_request, after_send, relay_response, relay_status, switch_protocols, Upstream, Sent,
  received, upstream_request,
}
use docker_socket_proxy.Proxy.Overlap.{
  start_built, after_answer, start_handler, Handling, sending, Shared, register, answer, Future,
  poll, accepted, polled, answered, registered, Reached, started, stepped,
}
use docker_socket_proxy.Proxy.Overlap.Permitted.{requests_of, Reached-permitted}
use docker_socket_proxy.Proxy.Overlap.Tracked.{IsSettled, settled-drained}
use docker_socket_proxy.Proxy.Router.{if_built, sent_by, layer_service, SecurityLayer}
use docker_socket_proxy.Proxy.Handler.Made.{Made}
use docker_socket_proxy.Security.Filter.Decision.{Permits}
use docker_socket_proxy.Tests.Layer.{layer_code}
use docker_socket_proxy.Tests.Fixtures.{json, http, bodies, timer}

abbrev security : SecurityLayer
security = record { filter = for_profile default; max_body_bytes = 4 }

abbrev request : Request Headers Collected
request = record {
  method = codes "GET";
  path = codes "/info";
  query = none;
  headers = [];
  on_upgrade = true;
  body = collected (codes "abc");
}

abbrev upstream : Upstream Collected
upstream = upstream_request http (record request { body = bodies.limited 4 request.body })

-- the socket switches protocols
abbrev switches : Sent Headers Collected
switches = received record { status = 101; headers = []; body = collected [] }

abbrev sent_state : Shared Collected
sent_state = record {
  trail = record { metrics = record_allowed zeroed; log = [] };
  sent = upstream ∷ [];
  spawned = [];
  upgrade_tasks = [];
}

code : Unit {0}
unfolding layer_code poll answer call_inner on_declared on_head resume after_send relay_response
    build_request start_built if_built sent_by relay_status switch_protocols after_answer
    start_handler layer_service register
code = tt

sent-Reached :
    Reached json http bodies security
      (record { request = request; phase = finished (served (sending upstream)) } ∷ [])
      sent_state
unfolding code
sent-Reached =
    stepped
      (stepped (stepped started (accepted request))
        (polled (record { request = request; phase = arrived })))
      (polled (record { request = request; phase = calling (bodies.limited 4 request.body) }))

abbrev spliced_state : Handling Collected × Shared Collected
spliced_state = answer http request switches (sending upstream) sent_state

abbrev last_state : Handling Collected × Shared Collected
last_state = register http spliced_state.0 spliced_state.1

abbrev last_futures : List (Future json http bodies)
last_futures = record { request = request; phase = finished (served last_state.0) } ∷ []

last-Reached : Reached json http bodies security last_futures last_state.1
last-Reached =
    stepped (stepped sent-Reached (answered request (sending upstream) switches))
      (registered request spliced_state.0)

last-IsSettled : All (λ future. IsSettled future.phase) last_futures
unfolding code
last-IsSettled = (tt, tt)

session_spawned : Member upstream last_state.1.spawned
unfolding code
session_spawned = inl refl

Reached-permitted_example :
    All
      (Made http
        (Permits (for_profile default))
        (requests_of json http bodies security last_futures))
      last_state.1.sent
Reached-permitted_example =
    Reached-permitted json http bodies security last_futures last_state.1 last-Reached

-- a session that never ends
abbrev task_of : Upstream Collected → Option ℕ
task_of u = none

settled-drained_example :
    Member none (drain_upgrades timer 0 (map task_of last_state.1.upgrade_tasks)).1
    ⊎ ((end : ℕ) × (◌≡◌ {A = Option ℕ} none (some end))
        × (end ≤ (drain_upgrades timer 0 (map task_of last_state.1.upgrade_tasks)).0))
settled-drained_example =
    settled-drained json http bodies security timer task_of 0 last_futures last_state.1 upstream
      last-Reached last-IsSettled session_spawned
