-- ===== src/Proxy/Overlap/Tracked.antt =====
-- Which spliced sessions a shutdown finds.
use docker_socket_proxy.Common.{
  ℕ, ◌≤◌, map, some, ◌⊎◌, Member-map, List, [], ◌∷◌, none, All, Member, ◌≡◌, ◌↔◌, inl, inr, refl,
  ap, ◌∙◌,
}
use docker_socket_proxy.Error.{Result, ok, err}
use docker_socket_proxy.Http.{HeaderMaps, Request}
use docker_socket_proxy.Security.Body.{Json}
use docker_socket_proxy.Middleware.{Bodies, Trail, refused, served}
use docker_socket_proxy.Middleware.Interleaving.{
  Phase, arrived, collecting, calling, finished, dropped, resume,
}
use docker_socket_proxy.Middleware.Interleaving.Enforced.{Passes, resume-Passes}
use docker_socket_proxy.Proxy.Handler.{Upstream, upstream_request, build_request}
use docker_socket_proxy.Proxy.Drain.{Timer, drain_upgrades}
use docker_socket_proxy.Proxy.Drain.Bound.{drain_upgrades-awaits}
use docker_socket_proxy.Proxy.Overlap.{
  Handling, sending, registering, responded, gone, Shared, start_handler, start_built, answer,
  Future, guarded_handler, poll, Step, accepted, polled, pending, answered, registered, abandoned,
  later, Reached, started, stepped,
}
use docker_socket_proxy.Proxy.Overlap.Changes.{
  holds, held_by, held, Change, stays, Change-front, Change-behind, Tracks, Change-Tracks,
  answer-Change, register-Change, drop_future-held_by,
}
use docker_socket_proxy.Proxy.Overlap.Permitted.{Awaits, Reached-Kept}
use docker_socket_proxy.Proxy.Router.{SecurityLayer, layer_service}

-- A handler that is not done holds the shutdown up: axum waits for it. One that was dropped while it
-- waited for the lock left its session unregistered.
abbrev pub IsSettled : {B : Type 0} → Phase B (Handling B) → Type 0
IsSettled arrived = ⊥
IsSettled collecting = ⊥
IsSettled (calling body) = ⊥
IsSettled (finished (refused answer)) = Unit
IsSettled (finished (served (sending u))) = ⊥
IsSettled (finished (served (registering u response))) = ⊥
IsSettled (finished (served (responded result))) = Unit
IsSettled (finished (served (gone none))) = Unit
IsSettled (finished (served (gone (some u)))) = ⊥
IsSettled (dropped counted) = Unit

IsSettled-held_by :
    {B : Type 0} (phase : Phase B (Handling B)) → IsSettled phase → held_by phase ≡ []
IsSettled-held_by arrived settled = absurd settled
IsSettled-held_by collecting settled = absurd settled
IsSettled-held_by (calling body) settled = absurd settled
IsSettled-held_by (finished (refused answer)) settled = refl
IsSettled-held_by (finished (served (sending u))) settled = absurd settled
IsSettled-held_by (finished (served (registering u response))) settled = absurd settled
IsSettled-held_by (finished (served (responded result))) settled = refl
IsSettled-held_by (finished (served (gone none))) settled = refl
IsSettled-held_by (finished (served (gone (some u)))) settled = absurd settled
IsSettled-held_by (dropped counted) settled = refl

-- A handler that starts holds no session.
start_built-holds :
    {B : Type 0} (built : Result (Unit {0})) (u : Upstream B) → holds (start_built built u) ≡ []
unfolding start_built
start_built-holds (ok b) u = refl
start_built-holds (err e) u = refl

module _ (json : Json) (http : HeaderMaps) (bodies : Bodies) (security : SecurityLayer) where
  open http use {HeaderMap}
  open bodies use {Body}

  -- The layer holds no session.
  Passes-held_by :
      (request : Request HeaderMap Body) (phase : Phase Body (Handling Body))
      → Passes json http bodies (guarded_handler json http bodies security) request phase
      → held_by phase ≡ []
  unfolding layer_service start_handler
  Passes-held_by request arrived passes = refl
  Passes-held_by request collecting passes = refl
  Passes-held_by request (calling body) passes = refl
  Passes-held_by request (finished (refused answer)) passes = refl
  Passes-held_by request (finished (served handler)) (body, admitted, is) =
      ap holds is
      ∙ start_built-holds
          (build_request http (upstream_request http (record request { body = body }))) _
  Passes-held_by request (dropped counted) passes = refl

  resume-held_by :
      (request : Request HeaderMap Body) (phase : Phase Body (Handling Body)) (trail : Trail)
      → Passes json http bodies (guarded_handler json http bodies security) request phase
      → held_by
          (resume json http bodies
            (guarded_handler json http bodies security)
            request
            phase
            trail).0
        ≡ []
  resume-held_by request phase trail passes = Passes-held_by request _ (
      resume-Passes json http bodies (guarded_handler json http bodies security) request trail phase
        passes)

  poll-Change :
      (request : Request HeaderMap Body) (phase : Phase Body (Handling Body)) (s : Shared Body)
      → Awaits json http bodies security request phase
      → Change
          (held_by phase)
          s
          (held_by (poll json http bodies security request phase s).0)
          (poll json http bodies security request phase s).1
  unfolding poll
  poll-Change request arrived s awaits = stays (resume-held_by request arrived s.trail tt) refl refl
  poll-Change request collecting s awaits =
      stays (resume-held_by request collecting s.trail (unfold layer_service in awaits)) refl refl
  poll-Change request (calling body) s awaits =
      stays
        (unfold resume layer_service start_handler in
          start_built-holds
            (build_request http (upstream_request http (record request { body = body }))) _)
        refl refl
  poll-Change request (finished reply) s awaits = stays (unfold resume in refl) refl refl
  poll-Change request (dropped counted) s awaits = stays (unfold resume in refl) refl refl

  Step-Change :
      {futures futures' : List (Future json http bodies)} {shared shared' : Shared Body}
      → Step json http bodies security futures shared futures' shared'
      → All (λ future. Awaits json http bodies security future.request future.phase) futures
      → Change (held futures) shared (held futures') shared'
  Step-Change (accepted request) awaits = stays refl refl refl
  Step-Change {shared = s} (polled {futures = rest} future) (now, awaits) =
      Change-behind (held rest) (poll-Change future.request future.phase s now)
  Step-Change (pending future) awaits = stays refl refl refl
  Step-Change {shared = s} (answered {futures = rest} request handler outcome) awaits =
      Change-behind (held rest) (answer-Change http request outcome handler s)
  Step-Change {shared = s} (registered {futures = rest} request handler) awaits =
      Change-behind (held rest) (register-Change http handler s)
  Step-Change (abandoned {futures = rest} future) awaits =
      Change-behind (held rest) (stays (drop_future-held_by future.phase) refl refl)
  Step-Change (later future step) (now, awaits) =
      Change-front (held_by future.phase) (Step-Change step awaits)

  -- However requests overlap, the spliced sessions are those in `upgrade_tasks` and those whose
  -- handler waits for the lock or was dropped while it did.
  pub Reached-Tracks :
      (futures : List (Future json http bodies)) (shared : Shared Body)
      → Reached json http bodies security futures shared
      → Tracks (held futures) shared
  Reached-Tracks _ _ started = λ u. ((λ m. inl m), (λ m. elim m [ inl k ↦ k | inr k ↦ k ]))
  Reached-Tracks _ _ (stepped before step) =
      Change-Tracks (Step-Change step (Reached-Kept json http bodies security before).0)
        (Reached-Tracks _ _ before)

  settled-held :
      (futures : List (Future json http bodies))
      → All (λ future. IsSettled future.phase) futures
      → held futures ≡ []
  settled-held [] settled = refl
  settled-held (future ∷ futures) (now, settled) =
      rw (IsSettled-held_by future.phase now, settled-held futures settled) refl

  -- Once every handler is done, and none was dropped while it waited for the lock, the spliced sessions
  -- are the registered ones.
  settled-registered :
      (futures : List (Future json http bodies)) (shared : Shared Body) (u : Upstream Body)
      → Reached json http bodies security futures shared
      → All (λ future. IsSettled future.phase) futures
      → Member u shared.spawned ↔ Member u shared.upgrade_tasks
  settled-registered futures shared u reached settled =
      let tracks : Tracks [] shared =
        rw (settled-held futures settled) at (Reached-Tracks futures shared reached) in
      (
        (λ m. elim ((tracks u).0 m) [ inl k ↦ k | inr none_held ↦ absurd none_held ]),
        (λ m. (tracks u).1 (inl m)),
      )

  -- Once every handler is done, and none was dropped while it waited for the lock, the drain awaits
  -- each spliced session: when the drain is over, the session has ended, or it outlasted its window and
  -- is among those given up.
  pub settled-drained :
      (timer : Timer) (task_of : Upstream Body → timer.Task) (now : ℕ)
      (futures : List (Future json http bodies)) (shared : Shared Body) (u : Upstream Body)
      → Reached json http bodies security futures shared
      → All (λ future. IsSettled future.phase) futures
      → Member u shared.spawned
      → Member (task_of u) (drain_upgrades timer now (map task_of shared.upgrade_tasks)).1
        ⊎ ((end : ℕ) × (timer.ends (task_of u) ≡ some end)
            × (end ≤ (drain_upgrades timer now (map task_of shared.upgrade_tasks)).0))
  settled-drained timer task_of now futures shared u reached settled m =
      drain_upgrades-awaits timer now (map task_of shared.upgrade_tasks) (task_of u) (
        Member-map task_of u shared.upgrade_tasks
          ((settled-registered futures shared u reached settled).0 m))
