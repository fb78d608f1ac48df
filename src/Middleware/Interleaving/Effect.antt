-- ===== src/Middleware/Interleaving/Effect.antt =====
-- What a step of one future counts and logs, in numbers.
use docker_socket_proxy.Common.{
  ℕ, ◌+◌, ◌%◌, ◌^◌, true, false, List, [], ◌∷◌, length, ◌≡◌, ap, ◌∙◌, arith,
}
use docker_socket_proxy.Observability.{Metrics, record_allowed, record_denied}
use docker_socket_proxy.Middleware.{Trail, refused, served}
use docker_socket_proxy.Middleware.Interleaving.{
  Phase, arrived, collecting, calling, finished, dropped, Task,
}

-- A future counts as allowed once it has called the inner service, and as denied once it has refused.
abbrev pub counts_allowed : {B R : Type 0} → Phase B R → ℕ
counts_allowed arrived = 0
counts_allowed collecting = 0
counts_allowed (calling body) = 1
counts_allowed (finished (served r)) = 1
counts_allowed (finished (refused answer)) = 0
counts_allowed (dropped true) = 1
counts_allowed (dropped false) = 0

abbrev pub counts_denied : {B R : Type 0} → Phase B R → ℕ
counts_denied arrived = 0
counts_denied collecting = 0
counts_denied (calling body) = 0
counts_denied (finished (served r)) = 0
counts_denied (finished (refused answer)) = 1
counts_denied (dropped counted) = 0

abbrev pub allowed_in : {H B R : Type 0} → List (Task H B R) → ℕ
allowed_in [] = 0
allowed_in (task ∷ tasks) = counts_allowed task.phase + allowed_in tasks

abbrev pub denied_in : {H B R : Type 0} → List (Task H B R) → ℕ
denied_in [] = 0
denied_in (task ∷ tasks) = counts_denied task.phase + denied_in tasks

-- What a step adds to the futures counted as allowed and as denied, and does to counters and log.
pub data Effect (a d : ℕ) (t : Trail) (a' d' : ℕ) (t' : Trail) : Type 0 where
  quiet : a' ≡ a → d' ≡ d → t' ≡ t → Effect a d t a' d' t'
  more_allowed :
      a' ≡ a + 1
      → d' ≡ d
      → t'.metrics ≡ record_allowed t.metrics
      → t'.log ≡ t.log
      → Effect a d t a' d' t'
  more_denied :
      a' ≡ a
      → d' ≡ d + 1
      → t'.metrics ≡ record_denied t.metrics
      → length t'.log ≡ length t.log + 1
      → Effect a d t a' d' t'

-- The counters and the log show so many allowed and denied.
abbrev pub Shows : Trail → ℕ → ℕ → Type 0
Shows trail a d =
    (trail.metrics.allowed ≡ a % 2 ^ 64)
    × (trail.metrics.denied ≡ d % 2 ^ 64)
    × (length trail.log ≡ d)

-- Counting one more after wrapping round, or before.
wraps : (n : ℕ) → (n % 2 ^ 64 + 1) % 2 ^ 64 ≡ (n + 1) % 2 ^ 64
wraps n = omega arith

pub Effect-Shows :
    {a d a' d' : ℕ} {t t' : Trail} → Effect a d t a' d' t' → Shows t a d → Shows t' a' d'
unfolding record_allowed record_denied
Effect-Shows (quiet ea ed et) shows = rw (ea, ed, et) shows
Effect-Shows (more_allowed ea ed em el) (sa, sd, sl) =
    rw (ea, ed)
      (
        ap (λ (m : Metrics). m.allowed) em ∙ ap (λ n. (n + 1) % 2 ^ 64) sa ∙ wraps _,
        ap (λ (m : Metrics). m.denied) em ∙ sd,
        ap length el ∙ sl,
      )
Effect-Shows (more_denied ea ed em el) (sa, sd, sl) =
    rw (ea, ed)
      (
        ap (λ (m : Metrics). m.allowed) em ∙ sa,
        ap (λ (m : Metrics). m.denied) em ∙ ap (λ n. (n + 1) % 2 ^ 64) sd ∙ wraps _,
        el ∙ ap (λ n. n + 1) sl,
      )

pub Effect-front :
    {a d a' d' : ℕ} {t t' : Trail} (n m : ℕ)
    → Effect a d t a' d' t'
    → Effect (n + a) (m + d) t (n + a') (m + d') t'
Effect-front n m (quiet ea ed et) = quiet (omega arith) (omega arith) et
Effect-front n m (more_allowed ea ed em el) = more_allowed (omega arith) (omega arith) em el
Effect-front n m (more_denied ea ed em el) = more_denied (omega arith) (omega arith) em el

pub Effect-behind :
    {a d a' d' : ℕ} {t t' : Trail} (n m : ℕ)
    → Effect a d t a' d' t'
    → Effect (a + n) (d + m) t (a' + n) (d' + m) t'
Effect-behind n m (quiet ea ed et) = quiet (omega arith) (omega arith) et
Effect-behind n m (more_allowed ea ed em el) = more_allowed (omega arith) (omega arith) em el
Effect-behind n m (more_denied ea ed em el) = more_denied (omega arith) (omega arith) em el
