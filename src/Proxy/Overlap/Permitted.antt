-- ===== src/Proxy/Overlap/Permitted.antt =====
-- What overlapping requests send to the Docker socket.
use docker_socket_proxy.Common.{List, [], ◌∷◌, ◌++◌, All, All-map, Member, inl, inr, ◌≡◌, refl}
use docker_socket_proxy.Error.{Result, ok, err}
use docker_socket_proxy.Http.{HeaderMaps, Request}
use docker_socket_proxy.Security.Body.{Json}
use docker_socket_proxy.Security.Normalize.{container_create, check_head}
use docker_socket_proxy.Middleware.{Bodies, Trail, refused, served}
use docker_socket_proxy.Middleware.Admission.{Admitted}
use docker_socket_proxy.Middleware.Interleaving.{
  Phase, arrived, collecting, calling, finished, dropped, resume,
}
use docker_socket_proxy.Middleware.Interleaving.Enforced.{Passes, resume-Passes}
use docker_socket_proxy.Proxy.Handler.{Upstream, Sent, Relayed, relayed, spliced}
use docker_socket_proxy.Proxy.Handler.Made.{Made, Made-map}
use docker_socket_proxy.Security.Filter.Decision.{Permits}
use docker_socket_proxy.Proxy.Overlap.{
  Handling, sending, registering, responded, gone, Shared, drop_future, register, after_answer,
  answer, Future, guarded_handler, poll, Step, accepted, polled, pending, answered, registered,
  abandoned, later, Reached, started, stepped,
}
use docker_socket_proxy.Proxy.Router.{SecurityLayer, layer_service, sent_by}
use docker_socket_proxy.Proxy.Router.Guarded.{Admitted-Made, sent_by_cases}

-- What the handler does once it has sent its request sends nothing more.
after_answer-sent :
    (http : HeaderMaps) {B : Type 0} (u : Upstream B) (result : Result (Relayed B)) (s : Shared B)
    → (after_answer http u result s).1.sent ≡ s.sent
unfolding after_answer
after_answer-sent http u (err e) s = refl
after_answer-sent http u (ok (relayed response)) s = refl
after_answer-sent http u (ok (spliced status headers)) s = refl

answer-sent :
    (http : HeaderMaps) {B : Type 0} (request : Request http.HeaderMap B)
    (outcome : Sent http.HeaderMap B) (handler : Handling B) (s : Shared B)
    → (answer http request outcome handler s).1.sent ≡ s.sent
unfolding answer
answer-sent http request outcome (sending u) s = after_answer-sent http u _ s
answer-sent http request outcome (registering u response) s = refl
answer-sent http request outcome (responded result) s = refl
answer-sent http request outcome (gone session) s = refl

register-sent :
    (http : HeaderMaps) {B : Type 0} (handler : Handling B) (s : Shared B)
    → (register http handler s).1.sent ≡ s.sent
unfolding register
register-sent http (sending u) s = refl
register-sent http (registering u response) s = refl
register-sent http (responded result) s = refl
register-sent http (gone session) s = refl

module _ (json : Json) (http : HeaderMaps) (bodies : Bodies) (security : SecurityLayer) where
  open http use {HeaderMap}
  open bodies use {Body}

  -- A future that is about to call the handler was admitted with that body.
  abbrev pub Awaits : Request HeaderMap Body → Phase Body (Handling Body) → Type 0
  Awaits request arrived = Unit
  Awaits request collecting =
      check_head security.filter request.method request.path ≡ ok container_create
  Awaits request (calling body) =
      Admitted json http bodies (guarded_handler json http bodies security) request body
  Awaits request (finished reply) = Unit
  Awaits request (dropped counted) = Unit

  Passes-Awaits :
      (request : Request HeaderMap Body) (phase : Phase Body (Handling Body))
      → Passes json http bodies (guarded_handler json http bodies security) request phase
      → Awaits request phase
  Passes-Awaits request arrived passes = tt
  Passes-Awaits request collecting passes = unfold layer_service in passes
  Passes-Awaits request (calling body) passes = passes
  Passes-Awaits request (finished reply) passes = tt
  Passes-Awaits request (dropped counted) passes = tt

  -- What was sent was made of these requests.
  abbrev pub MadeOf : List (Request HeaderMap Body) → Shared Body → Type 0
  MadeOf requests shared = All (Made http (Permits security.filter) requests) shared.sent

  -- One poll of an awaiting future.
  resume-Awaits :
      (request : Request HeaderMap Body) (phase : Phase Body (Handling Body)) (trail : Trail)
      → Passes json http bodies (guarded_handler json http bodies security) request phase
      → Awaits request
          (resume json http bodies
            (guarded_handler json http bodies security)
            request
            phase
            trail).0
  resume-Awaits request phase trail passes = Passes-Awaits request _ (
      resume-Passes json http bodies (guarded_handler json http bodies security) request trail phase
        passes)

  sends-MadeOf :
      (request : Request HeaderMap Body) (body : Body) (requests : List (Request HeaderMap Body))
      (sent : List (Upstream Body))
      → Awaits request (calling body)
      → Member request requests
      → All (Made http (Permits security.filter) requests) sent
      → All
          (Made http (Permits security.filter) requests)
          (sent_by json http bodies (record request { body = body }) ++ sent)
  sends-MadeOf request body requests sent awaits listed made =
      elim (sent_by_cases json http bodies (record request { body = body })) [
        | inl nothing ↦ rw nothing made
        | inr one ↦ rw one (
          unfold layer_service in
              Admitted-Made json http bodies (guarded_handler json http bodies security) request
                body requests awaits listed,
          made,
        )
      ]

  poll-Awaits :
      (request : Request HeaderMap Body) (phase : Phase Body (Handling Body)) (s : Shared Body)
      (requests : List (Request HeaderMap Body))
      → Awaits request phase
      → Member request requests
      → MadeOf requests s
      → Awaits request (poll json http bodies security request phase s).0
        × MadeOf requests (poll json http bodies security request phase s).1
  unfolding poll
  poll-Awaits request arrived s requests awaits listed made =
      (resume-Awaits request arrived s.trail tt, made)
  poll-Awaits request collecting s requests awaits listed made =
      (resume-Awaits request collecting s.trail (unfold layer_service in awaits), made)
  poll-Awaits request (calling body) s requests awaits listed made =
      (unfold resume in tt, sends-MadeOf request body requests s.sent awaits listed made)
  poll-Awaits request (finished reply) s requests awaits listed made = (unfold resume in tt, made)
  poll-Awaits request (dropped counted) s requests awaits listed made = (unfold resume in tt, made)

  abandon-Awaits :
      (request : Request HeaderMap Body) (phase : Phase Body (Handling Body))
      → Awaits request (drop_future phase)
  unfolding drop_future
  abandon-Awaits request arrived = tt
  abandon-Awaits request collecting = tt
  abandon-Awaits request (calling body) = tt
  abandon-Awaits request (finished (refused answer)) = tt
  abandon-Awaits request (finished (served handler)) = tt
  abandon-Awaits request (dropped counted) = tt

  abbrev pub requests_of : List (Future json http bodies) → List (Request HeaderMap Body)
  requests_of [] = []
  requests_of (future ∷ futures) = future.request ∷ requests_of futures

  abbrev pub AllAwait : List (Future json http bodies) → Type 0
  AllAwait futures = All (λ future. Awaits future.request future.phase) futures

  -- No future is forgotten.
  Step-requests :
      {futures futures' : List (Future json http bodies)} {shared shared' : Shared Body}
      → Step json http bodies security futures shared futures' shared'
      → (request : Request HeaderMap Body) → Member request (requests_of futures)
      → Member request (requests_of futures')
  Step-requests (accepted request) r m = inr m
  Step-requests (polled future) r m = m
  Step-requests (pending future) r m = m
  Step-requests (answered request handler outcome) r m = m
  Step-requests (registered request handler) r m = m
  Step-requests (abandoned future) r m = m
  Step-requests (later future step) r (inl e) = inl e
  Step-requests (later future step) r (inr m) = inr (Step-requests step r m)

  -- What the steps keep, of requests among which those of the futures are.
  Step-Kept :
      {futures futures' : List (Future json http bodies)} {shared shared' : Shared Body}
      → Step json http bodies security futures shared futures' shared'
      → (requests : List (Request HeaderMap Body))
      → ((request : Request HeaderMap Body)
          → Member request (requests_of futures')
          → Member request requests)
      → AllAwait futures
      → MadeOf requests shared
      → AllAwait futures' × MadeOf requests shared'
  Step-Kept (accepted request) requests among awaits made = ((tt, awaits), made)
  Step-Kept {shared = s} (polled future) requests among (now, awaits) made =
      let (next, sent) =
        poll-Awaits future.request future.phase s requests now (among future.request (inl refl))
          made in
      ((next, awaits), sent)
  Step-Kept (pending future) requests among awaits made = (awaits, made)
  Step-Kept {shared = s} (answered request handler outcome) requests among (now, awaits) made =
      ((tt, awaits), rw (answer-sent http request outcome handler s) made)
  Step-Kept {shared = s} (registered request handler) requests among (now, awaits) made =
      ((tt, awaits), rw (register-sent http handler s) made)
  Step-Kept (abandoned future) requests among (now, awaits) made =
      ((abandon-Awaits future.request future.phase, awaits), made)
  Step-Kept (later future step) requests among (now, awaits) made =
      let (next, sent) = Step-Kept step requests (λ r m. among r (inr m)) awaits made in
      ((now, next), sent)

  pub Reached-Kept :
      {futures : List (Future json http bodies)} {shared : Shared Body}
      → Reached json http bodies security futures shared
      → AllAwait futures × MadeOf (requests_of futures) shared
  Reached-Kept started = (tt, tt)
  Reached-Kept (stepped {futures} {futures'} {shared} {shared'} before step) =
      let (awaits, made) = Reached-Kept before in
      Step-Kept step (requests_of futures') (λ r m. m) awaits
        (All-map _ _ shared.sent
          (λ u.
            Made-map http _ _ (requests_of futures) (requests_of futures') u (λ m p fits. fits)
              (Step-requests step))
          made)

  -- However requests overlap, and whatever the socket answers and the clients drop, each request that
  -- reaches the Docker socket was made of one that a client sent, whose own path normalises to a path
  -- that the policy permits with its method.
  pub Reached-permitted :
      (futures : List (Future json http bodies)) (shared : Shared Body)
      → Reached json http bodies security futures shared
      → All (Made http (Permits security.filter) (requests_of futures)) shared.sent
  Reached-permitted futures shared reached = (Reached-Kept reached).1
