-- ===== src/Proxy/Overlap/Changes.antt =====
-- What a step does to the spliced sessions: those spawned, those registered, and those that a handler
-- holds in between.
use docker_socket_proxy.Common.{
  List, [], ◌∷◌, ◌++◌, none, some, Member, Member-append, Member-append_left, Member-append_right,
  ◌≡◌, ◌⊎◌, ◌↔◌, inl, inr, refl,
}
use docker_socket_proxy.Error.{Result, ok, err}
use docker_socket_proxy.Http.{HeaderMaps, Request}
use docker_socket_proxy.Middleware.{refused, served}
use docker_socket_proxy.Middleware.Interleaving.{
  Phase, arrived, collecting, calling, finished, dropped, Task,
}
use docker_socket_proxy.Proxy.Handler.{Upstream, Sent, Relayed, relayed, spliced}
use docker_socket_proxy.Proxy.Overlap.{
  Handling, sending, registering, responded, gone, Shared, drop_handler, drop_future, register,
  after_answer, answer,
}

-- The session that a handler has spawned and not registered.
abbrev pub holds : {B : Type 0} → Handling B → List (Upstream B)
holds (sending u) = []
holds (registering u response) = u ∷ []
holds (responded result) = []
holds (gone none) = []
holds (gone (some u)) = u ∷ []

abbrev pub held_by : {B : Type 0} → Phase B (Handling B) → List (Upstream B)
held_by arrived = []
held_by collecting = []
held_by (calling body) = []
held_by (finished (refused answer)) = []
held_by (finished (served handler)) = holds handler
held_by (dropped counted) = []

abbrev pub held : {H B : Type 0} → List (Task H B (Handling B)) → List (Upstream B)
held [] = []
held (future ∷ futures) = held_by future.phase ++ held futures

-- The second list has the items of the first and one more.
abbrev Extends : {A : Type 0} → A → List A → List A → Type 0
Extends {A} x xs ys = (y : A) → Member y ys ↔ ((y ≡ x) ⊎ Member y xs)

Extends-front :
    {A : Type 0} (x : A) (zs xs ys : List A) → Extends x xs ys → Extends x (zs ++ xs) (zs ++ ys)
Extends-front x zs xs ys h y = (
  (λ m. elim (Member-append y zs ys m) [
    | inl front ↦ inr (Member-append_left y zs xs front)
    | inr behind ↦ elim ((h y).0 behind) [
      | inl e ↦ inl e
      | inr k ↦ inr (Member-append_right y zs xs k)
    ]
  ]),
  (λ m. elim m [
    | inl e ↦ Member-append_right y zs ys ((h y).1 (inl e))
    | inr k ↦ elim (Member-append y zs xs k) [
      | inl front ↦ Member-append_left y zs ys front
      | inr behind ↦ Member-append_right y zs ys ((h y).1 (inr behind))
    ]
  ]),
)

Extends-behind :
    {A : Type 0} (x : A) (xs ys zs : List A) → Extends x xs ys → Extends x (xs ++ zs) (ys ++ zs)
Extends-behind x xs ys zs h y = (
  (λ m. elim (Member-append y ys zs m) [
    | inl front ↦ elim ((h y).0 front) [
      | inl e ↦ inl e
      | inr k ↦ inr (Member-append_left y xs zs k)
    ]
    | inr behind ↦ inr (Member-append_right y xs zs behind)
  ]),
  (λ m. elim m [
    | inl e ↦ Member-append_left y ys zs ((h y).1 (inl e))
    | inr k ↦ elim (Member-append y xs zs k) [
      | inl front ↦ Member-append_left y ys zs ((h y).1 (inr front))
      | inr behind ↦ Member-append_right y ys zs behind
    ]
  ]),
)

-- Registering puts a session last.
Extends-snoc : {A : Type 0} (x : A) (xs : List A) → Extends x xs (xs ++ x ∷ [])
Extends-snoc x xs y = (
  (λ m. elim (Member-append y xs (x ∷ []) m) [
    | inl front ↦ inr front
    | inr last ↦ elim last [ inl e ↦ inl e | inr no_more ↦ absurd no_more ]
  ]),
  (λ m. elim m [
    | inl e ↦ Member-append_right y xs (x ∷ []) (inl e)
    | inr k ↦ Member-append_left y xs (x ∷ []) k
  ]),
)

Extends-cons : {A : Type 0} (x : A) (xs : List A) → Extends x xs (x ∷ xs)
Extends-cons x xs y = ((λ m. m), (λ m. m))

pub data Change {B : Type 0} (hs : List (Upstream B)) (s : Shared B) (hs' : List (Upstream B))
    (s' : Shared B) : Type 0 where
  stays :
      hs' ≡ hs → s'.spawned ≡ s.spawned → s'.upgrade_tasks ≡ s.upgrade_tasks → Change hs s hs' s'
  spawns :
      (u : Upstream B)
      → Extends u hs hs'
      → s'.spawned ≡ u ∷ s.spawned
      → s'.upgrade_tasks ≡ s.upgrade_tasks
      → Change hs s hs' s'
  registers :
      (u : Upstream B)
      → Extends u hs' hs
      → s'.spawned ≡ s.spawned
      → s'.upgrade_tasks ≡ s.upgrade_tasks ++ u ∷ []
      → Change hs s hs' s'

module _ {B : Type 0} {hs hs' : List (Upstream B)} {s s' : Shared B} where
  pub Change-front :
      (zs : List (Upstream B)) → Change hs s hs' s' → Change (zs ++ hs) s (zs ++ hs') s'
  Change-front zs (stays eh es er) = stays (rw eh refl) es er
  Change-front zs (spawns u eh es er) = spawns u (Extends-front u zs hs hs' eh) es er
  Change-front zs (registers u eh es er) = registers u (Extends-front u zs hs' hs eh) es er

  pub Change-behind :
      (zs : List (Upstream B)) → Change hs s hs' s' → Change (hs ++ zs) s (hs' ++ zs) s'
  Change-behind zs (stays eh es er) = stays (rw eh refl) es er
  Change-behind zs (spawns u eh es er) = spawns u (Extends-behind u hs hs' zs eh) es er
  Change-behind zs (registers u eh es er) = registers u (Extends-behind u hs' hs zs eh) es er

-- The sessions spawned are those registered and those held.
abbrev pub Tracks : {B : Type 0} → List (Upstream B) → Shared B → Type 0
Tracks {B} hs s = (u : Upstream B) → Member u s.spawned ↔ (Member u s.upgrade_tasks ⊎ Member u hs)

pub Change-Tracks :
    {B : Type 0} {hs hs' : List (Upstream B)} {s s' : Shared B}
    → Change hs s hs' s'
    → Tracks hs s
    → Tracks hs' s'
Change-Tracks (stays eh es er) tracks v = rw (eh, es, er) (tracks v)
Change-Tracks (spawns u eh es er) tracks v =
    rw (es, er)
      (
        (λ m. elim m [
          | inl e ↦ inr ((eh v).1 (inl e))
          | inr old ↦ elim ((tracks v).0 old) [
            | inl there ↦ inl there
            | inr k ↦ inr ((eh v).1 (inr k))
          ]
        ]),
        (λ m. elim m [
          | inl there ↦ inr ((tracks v).1 (inl there))
          | inr k ↦ elim ((eh v).0 k) [ inl e ↦ inl e | inr old ↦ inr ((tracks v).1 (inr old)) ]
        ]),
      )
Change-Tracks {s = s} (registers u eh es er) tracks v =
    let more = Extends-snoc u s.upgrade_tasks v in
    rw (es, er)
      (
        (λ m. elim ((tracks v).0 m) [
          | inl there ↦ inl (more.1 (inr there))
          | inr k ↦ elim ((eh v).0 k) [ inl e ↦ inl (more.1 (inl e)) | inr still ↦ inr still ]
        ]),
        (λ m. elim m [
          | inl there ↦ elim (more.0 there) [
            | inl e ↦ (tracks v).1 (inr ((eh v).1 (inl e)))
            | inr before ↦ (tracks v).1 (inl before)
          ]
          | inr k ↦ (tracks v).1 (inr ((eh v).1 (inr k)))
        ]),
      )

-- What the handler's own steps do.
after_answer-Change :
    (http : HeaderMaps) {B : Type 0} (u : Upstream B) (result : Result (Relayed B)) (s : Shared B)
    → Change [] s (holds (after_answer http u result s).0) (after_answer http u result s).1
unfolding after_answer
after_answer-Change http u (err e) s = stays refl refl refl
after_answer-Change http u (ok (relayed response)) s = stays refl refl refl
after_answer-Change http u (ok (spliced status headers)) s = spawns u (Extends-cons u []) refl refl

pub answer-Change :
    (http : HeaderMaps) {B : Type 0} (request : Request http.HeaderMap B)
    (outcome : Sent http.HeaderMap B) (handler : Handling B) (s : Shared B)
    → Change
        (holds handler)
        s
        (holds (answer http request outcome handler s).0)
        (answer http request outcome handler s).1
unfolding answer
answer-Change http request outcome (sending u) s = after_answer-Change http u _ s
answer-Change http request outcome (registering u response) s = stays refl refl refl
answer-Change http request outcome (responded result) s = stays refl refl refl
answer-Change http request outcome (gone session) s = stays refl refl refl

pub register-Change :
    (http : HeaderMaps) {B : Type 0} (handler : Handling B) (s : Shared B)
    → Change (holds handler) s (holds (register http handler s).0) (register http handler s).1
unfolding register
register-Change http (sending u) s = stays refl refl refl
register-Change http (registering u response) s = registers u (Extends-cons u []) refl refl
register-Change http (responded result) s = stays refl refl refl
register-Change http (gone session) s = stays refl refl refl

-- Dropping a future changes nothing of its session.
drop_handler-holds :
    {B : Type 0} (handler : Handling B) → holds (drop_handler handler) ≡ holds handler
unfolding drop_handler
drop_handler-holds (sending u) = refl
drop_handler-holds (registering u response) = refl
drop_handler-holds (responded result) = refl
drop_handler-holds (gone session) = refl

pub drop_future-held_by :
    {B : Type 0} (phase : Phase B (Handling B)) → held_by (drop_future phase) ≡ held_by phase
unfolding drop_future
drop_future-held_by arrived = refl
drop_future-held_by collecting = refl
drop_future-held_by (calling body) = refl
drop_future-held_by (finished (refused answer)) = refl
drop_future-held_by (finished (served handler)) = drop_handler-holds handler
drop_future-held_by (dropped counted) = refl
