-- ===== src/Proxy/Overlap.antt =====
-- src/proxy.rs behind src/middleware.rs: the futures of many requests, each with the layer outside and
-- `proxy_handler` inside, polled in any order on shared state. The handler gives way while the socket
-- answers and while it waits for the lock on the upgraded sessions; it can be dropped there, by the
-- timeout or a client that leaves.
pub mod Permitted
pub mod Changes
pub mod Tracked
use docker_socket_proxy.Common.{Bool, true, false, List, [], ◌∷◌, ◌++◌, Option, none, some}
use docker_socket_proxy.Error.{Result, ok, err}
use docker_socket_proxy.Http.{HeaderMaps, Request}
use docker_socket_proxy.Observability.{zeroed}
use docker_socket_proxy.Security.Body.{Json}
use docker_socket_proxy.Middleware.{Bodies, Trail, refused, served, SecurityService}
use docker_socket_proxy.Middleware.Interleaving.{
  Phase, arrived, collecting, calling, finished, dropped, Task, resume,
}
use docker_socket_proxy.Proxy.Handler.{
  Upstream, Sent, Relayed, relayed, spliced, upstream_request, after_send, build_request,
  build_response,
}
use docker_socket_proxy.Proxy.Router.{SecurityLayer, layer_service, sent_by}

-- Where a handler stands: it waits for the socket's answer; it has spawned the copying of a spliced
-- session and waits for the lock to register it; it has responded; or it was dropped, with the session
-- that it had spawned and not registered.
pub data Handling (B : Type 0) : Type 0 where
  sending : Upstream B → Handling B
  registering : Upstream B → Relayed B → Handling B
  responded : Result (Relayed B) → Handling B
  gone : Option (Upstream B) → Handling B

-- What the futures share: the counters and the log, what went to the socket, and the spliced sessions,
-- those spawned and those in `AppState::upgrade_tasks`. A session is named by its request.
pub record Shared (B : Type 0) : Type 0 where
  pub trail : Trail
  pub sent : List (Upstream B)
  pub spawned : List (Upstream B)
  pub upgrade_tasks : List (Upstream B)

-- A handler that is dropped does nothing more; a session that it spawned copies on.
unfoldable pub drop_handler : {B : Type 0} → Handling B → Handling B
drop_handler (sending u) = gone none
drop_handler (registering u response) = gone (some u)
drop_handler (responded result) = responded result
drop_handler (gone session) = gone session

unfoldable pub drop_future : {B : Type 0} → Phase B (Handling B) → Phase B (Handling B)
drop_future arrived = dropped false
drop_future collecting = dropped false
drop_future (calling body) = dropped true
drop_future (finished (refused answer)) = finished (refused answer)
drop_future (finished (served handler)) = finished (served (drop_handler handler))
drop_future (dropped counted) = dropped counted

unfoldable pub start_built : {B : Type 0} → Result (Unit {0}) → Upstream B → Handling B
start_built (ok built) u = sending u
start_built (err e) u = responded (err e)

module _ (http : HeaderMaps) where
  open http use {HeaderMap}

  -- the first poll of `proxy_handler` sends the request, if it can be built
  unfoldable pub start_handler : {B : Type 0} → Request HeaderMap B → Handling B
  start_handler request =
      start_built (build_request http (upstream_request http request))
        (upstream_request http request)

  -- `switch_protocols` spawns the copying and then waits for the lock; every other answer ends the
  -- handler
  unfoldable pub after_answer :
      {B : Type 0} → Upstream B → Result (Relayed B) → Shared B → Handling B × Shared B
  after_answer u (err e) shared = (responded (err e), shared)
  after_answer u (ok (relayed response)) shared =
      (responded (build_response http (relayed response)), shared)
  after_answer u (ok (spliced status headers)) shared =
      (registering u (spliced status headers), record shared { spawned = u ∷ shared.spawned })

  -- the lock was free: `upgrade_tasks.push(handle)`, and the answer is built
  unfoldable pub register : {B : Type 0} → Handling B → Shared B → Handling B × Shared B
  register (sending u) shared = (sending u, shared)
  register (registering u response) shared = (
    responded (build_response http response),
    record shared { upgrade_tasks = shared.upgrade_tasks ++ u ∷ [] },
  )
  register (responded result) shared = (responded result, shared)
  register (gone session) shared = (gone session, shared)

  -- the socket answered, or the send failed
  unfoldable pub answer :
      {B : Type 0}
      → Request HeaderMap B
      → Sent HeaderMap B
      → Handling B
      → Shared B
      → Handling B × Shared B
  answer request outcome (sending u) shared =
      after_answer u (after_send http request.on_upgrade outcome) shared
  answer request outcome (registering u response) shared = (registering u response, shared)
  answer request outcome (responded result) shared = (responded result, shared)
  answer request outcome (gone session) shared = (gone session, shared)

module _ (json : Json) (http : HeaderMaps) (bodies : Bodies) where
  open http use {HeaderMap}
  open bodies use {Body}

  abbrev pub Future : Type 0
  Future = Task HeaderMap Body (Handling Body)

  module _ (security : SecurityLayer) where
    abbrev pub guarded_handler : SecurityService HeaderMap Body (Handling Body)
    guarded_handler = layer_service security (start_handler http)

    -- one poll of the layer; the poll that starts the handler sends its request
    unfoldable pub poll :
        Request HeaderMap Body
        → Phase Body (Handling Body)
        → Shared Body
        → Phase Body (Handling Body) × Shared Body
    poll request (calling body) shared = (
      (resume json http bodies guarded_handler request (calling body) shared.trail).0,
      record shared {
        sent = sent_by json http bodies (record request { body = body }) ++ shared.sent;
      },
    )
    poll request phase shared =
        let (next, trail) = resume json http bodies guarded_handler request phase shared.trail in
        (next, record shared { trail = trail })

    -- One step of the server.
    pub data Step : List Future → Shared Body → List Future → Shared Body → Type 0 where
      accepted :
          {futures : List Future} {shared : Shared Body} (request : Request HeaderMap Body)
          → Step futures shared (record { request = request; phase = arrived } ∷ futures) shared
      polled :
          {futures : List Future} {shared : Shared Body} (future : Future)
          → Step
              (future ∷ futures)
              shared
              (record future { phase = (poll future.request future.phase shared).0 } ∷ futures)
              (poll future.request future.phase shared).1
      -- a poll that returns `Pending`
      pending :
          {futures : List Future} {shared : Shared Body} (future : Future)
          → Step (future ∷ futures) shared (future ∷ futures) shared
      answered :
          {futures : List Future} {shared : Shared Body} (request : Request HeaderMap Body)
          (handler : Handling Body) (outcome : Sent HeaderMap Body)
          → Step
              (record { request = request; phase = finished (served handler) } ∷ futures)
              shared
              (record {
                request = request;
                phase = finished (served (answer http request outcome handler shared).0);
              }
                ∷ futures)
              (answer http request outcome handler shared).1
      registered :
          {futures : List Future} {shared : Shared Body} (request : Request HeaderMap Body)
          (handler : Handling Body)
          → Step
              (record { request = request; phase = finished (served handler) } ∷ futures)
              shared
              (record {
                request = request;
                phase = finished (served (register http handler shared).0);
              }
                ∷ futures)
              (register http handler shared).1
      abandoned :
          {futures : List Future} {shared : Shared Body} (future : Future)
          → Step
              (future ∷ futures)
              shared
              (record future { phase = drop_future future.phase } ∷ futures)
              shared
      later :
          {futures futures' : List Future} {shared shared' : Shared Body} (future : Future)
          → Step futures shared futures' shared'
          → Step (future ∷ futures) shared (future ∷ futures') shared'

    -- What the server reaches from its start.
    pub data Reached : List Future → Shared Body → Type 0 where
      started : Reached [] (record {
        trail = record { metrics = zeroed; log = [] };
        sent = [];
        spawned = [];
        upgrade_tasks = [];
      })
      stepped :
          {futures futures' : List Future} {shared shared' : Shared Body}
          → Reached futures shared
          → Step futures shared futures' shared'
          → Reached futures' shared'
