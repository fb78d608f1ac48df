-- ===== src/Middleware/Interleaving/Progress.antt =====
-- Futures that are polled finish.
use docker_socket_proxy.Common.{
  ℕ, zero, suc, ◌≤◌, Bool, true, false, List, [], ◌∷◌, arith, Option, none, some, Str, ◌≡◌, ◌≢◌,
  ◌⊎◌, inl, inr, refl,
}
use docker_socket_proxy.Error.{ProxyError, Result, ok, err}
use docker_socket_proxy.Http.{HeaderMaps, Request}
use docker_socket_proxy.Security.Normalize.{BodyRule, container_create}
use docker_socket_proxy.Security.Body.{Json}
use docker_socket_proxy.Middleware.{
  Collected, collected, length_limit, read_error, Bodies, Trail, Reply, SecurityService,
}
use docker_socket_proxy.Middleware.Interleaving.{
  Phase, arrived, collecting, calling, finished, dropped, refusing, call_inner, on_inspected,
  on_collected, on_declared, on_head, resume, attempt, poll_all,
}

-- A future that finishes within so many polls.
data Within {B R : Type 0} : ℕ → Phase B R → Type 0 where
  has_finished : {n : ℕ} {reply : Reply R} → Within n (finished reply)
  has_called : {n : ℕ} {body : B} → Within (suc n) (calling body)
  collects : {n : ℕ} → Within (suc (suc n)) collecting
  arrives : {n : ℕ} → Within (suc (suc (suc n))) arrived

-- The polls that found ready what the future waited for.
abbrev pub ready_polls : List (Bool × Trail) → ℕ
ready_polls [] = 0
ready_polls ((true, trail) ∷ polls) = suc (ready_polls polls)
ready_polls ((false, trail) ∷ polls) = ready_polls polls

module _ (json : Json) (http : HeaderMaps) (bodies : Bodies) {R : Type 0} where
  open http use {HeaderMap}
  open bodies use {Body, limited, collect, from_bytes}

  module _ (service : SecurityService HeaderMap Body R) (request : Request HeaderMap Body) where
    refusing-Within :
        (n : ℕ) (trail : Trail) (message : Str) (e : ProxyError)
        → Within n (refusing json http bodies service message request trail e).0
    unfolding refusing
    refusing-Within n trail message e = has_finished

    call_inner-Within :
        (n : ℕ) (trail : Trail) (body : Body)
        → Within (suc n) (call_inner json http bodies service trail body).0
    unfolding call_inner
    call_inner-Within n trail body = has_called

    on_inspected-Within :
        (n : ℕ) (trail : Trail) (bytes : Str) (result : Result (Unit {0}))
        → Within (suc n) (on_inspected json http bodies service request trail bytes result).0
    unfolding on_inspected
    on_inspected-Within n trail bytes (err e) = refusing-Within (suc n) trail _ e
    on_inspected-Within n trail bytes (ok u) = call_inner-Within n trail _

    on_collected-Within :
        (n : ℕ) (trail : Trail) (found : Collected)
        → Within (suc n) (on_collected json http bodies service request trail found).0
    unfolding on_collected
    on_collected-Within n trail (collected bytes) = on_inspected-Within n trail bytes _
    on_collected-Within n trail length_limit = refusing-Within (suc n) trail _ _
    on_collected-Within n trail (read_error e) = refusing-Within (suc n) trail _ _

    on_declared-Within :
        (n : ℕ) (trail : Trail) (o : Option ProxyError)
        → Within (suc n) (on_declared json http bodies service request trail o).0
    unfolding on_declared
    on_declared-Within n trail (some e) = refusing-Within (suc n) trail _ e
    on_declared-Within n trail none = call_inner-Within n trail _

    on_head-Within :
        (n : ℕ) (trail : Trail) (head : Result BodyRule)
        → Within (suc (suc n)) (on_head json http bodies service request trail head).0
    unfolding on_head
    on_head-Within n trail (err e) = refusing-Within (suc (suc n)) trail _ e
    on_head-Within n trail (ok BodyRule.none) = on_declared-Within (suc n) trail _
    on_head-Within n trail (ok container_create) = collects

    resume-Within :
        (n : ℕ) (trail : Trail) (phase : Phase Body R)
        → Within (suc n) phase
        → Within n (resume json http bodies service request phase trail).0
    unfolding resume
    resume-Within n trail _ has_finished = has_finished
    resume-Within n trail _ has_called = has_finished
    resume-Within (suc n) trail _ collects = on_collected-Within n trail _
    resume-Within (suc (suc n)) trail _ arrives = on_head-Within n trail _

    Within-finished :
        (phase : Phase Body R) → Within 0 phase → (reply : Reply R) × (phase ≡ finished reply)
    Within-finished (finished reply) within = (reply, refl)
    Within-finished arrived within = elim within [ ]
    Within-finished collecting within = elim within [ ]
    Within-finished (calling body) within = elim within [ ]
    Within-finished (dropped counted) within = elim within [ ]

    Within-start :
        (phase : Phase Body R) → Within 3 phase ⊎ ((counted : Bool) × (phase ≡ dropped counted))
    Within-start arrived = inl arrives
    Within-start collecting = inl collects
    Within-start (calling body) = inl has_called
    Within-start (finished reply) = inl has_finished
    Within-start (dropped counted) = inr (counted, refl)

    Within-suc : (n : ℕ) (phase : Phase Body R) → Within n phase → Within (suc n) phase
    Within-suc n _ has_finished = has_finished
    Within-suc n _ has_called = has_called
    Within-suc n _ collects = collects
    Within-suc n _ arrives = arrives

    -- A poll that is `Pending` keeps what was reached.
    pending-Within :
        (n : ℕ) (trail : Trail) (phase : Phase Body R)
        → Within n phase
        → Within n (attempt json http bodies service false request phase trail).0
    unfolding attempt
    pending-Within n trail _ has_finished = has_finished
    pending-Within n trail _ has_called = has_called
    pending-Within n trail _ collects = collects
    pending-Within (suc n) trail _ arrives = Within-suc n _ (resume-Within n trail _ arrives)

    ready-Within :
        (n : ℕ) (trail : Trail) (phase : Phase Body R)
        → Within (suc n) phase
        → Within n (attempt json http bodies service true request phase trail).0
    unfolding attempt
    ready-Within n trail phase within = resume-Within n trail phase within

    finishes :
        (polls : List (Bool × Trail)) (n : ℕ) (phase : Phase Body R)
        → Within n phase
        → n ≤ ready_polls polls
        → (reply : Reply R) × (poll_all json http bodies service request polls phase
            ≡ finished reply)
    unfolding poll_all
    finishes [] zero phase within enough = Within-finished phase within
    finishes [] (suc n) phase within enough = absurd (omega arith)
    finishes ((true, trail) ∷ polls) zero phase within enough =
        finishes polls zero _ (ready-Within zero trail phase (Within-suc zero phase within))
          (omega arith)
    finishes ((true, trail) ∷ polls) (suc n) phase within enough =
        finishes polls n _ (ready-Within n trail phase within) (omega arith)
    finishes ((false, trail) ∷ polls) n phase within enough =
        finishes polls n _ (pending-Within n trail phase within) enough

    -- A future that was not dropped has finished once three of its polls found ready what it waited for,
    -- however many others were `Pending`, and whatever the other futures did to the counters and the
    -- log before each of them.
    pub poll_all-finishes :
        (phase : Phase Body R) (polls : List (Bool × Trail))
        → ((counted : Bool) → phase ≢ dropped counted)
        → 3 ≤ ready_polls polls
        → (reply : Reply R) × (poll_all json http bodies service request polls phase
            ≡ finished reply)
    poll_all-finishes phase polls kept enough = elim (Within-start phase) [
      | inl start ↦ finishes polls 3 phase start enough
      | inr (counted, is) ↦ absurd (kept counted is)
    ]
