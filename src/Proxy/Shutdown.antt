-- ===== src/Proxy/Shutdown.antt =====
-- src/proxy.rs, `shutdown_signal`. A signal handler is installed and hears its signal at some time, or
-- never, or it fails to install; of two signals at the same time `select!` picks one.
use docker_socket_proxy.Common.{
  refl, sym, ap, Bool-cases, ℕ, ◌≤◌, Option, none, some, ltb, if◌then◌else◌, Str, ◌≡◌, ◌↔◌, inl,
  inr, arith,
}

pub data Signal : Type 0 where
  sigint sigterm : Signal

pub data Listener : Type 0 where
  heard : Option ℕ → Listener
  not_installed : Str → Listener

-- `pending().await` after a failure parks the branch for ever
unfoldable pub branch : Listener → Option ℕ
branch (heard time) = time
branch (not_installed e) = none

-- `select!`: the branch that is ready first
unfoldable pub select : (first : Signal) → Option ℕ → Option ℕ → Option (Signal × ℕ)
select first none none = none
select first (some i) none = some (sigint, i)
select first none (some t) = some (sigterm, t)
select first (some i) (some t) =
    if ltb i t then some (sigint, i) else if ltb t i then some (sigterm, t) else some (first, i)

unfoldable pub shutdown_signal : (first : Signal) → Listener → Listener → Option (Signal × ℕ)
shutdown_signal first interrupt terminate = select first (branch interrupt) (branch terminate)

-- A listener that was installed and hears its signal at the given time.
abbrev pub Hears : Listener → ℕ → Type 0
Hears listener time = listener ≡ heard (some time)

branch_iff : (l : Listener) (time : ℕ) → (branch l ≡ some time) ↔ Hears l time
unfolding branch
branch_iff l time = ground arith

-- The listener of a signal.
abbrev pub listener_of : (interrupt terminate : Listener) → Signal → Listener
listener_of interrupt terminate sigint = interrupt
listener_of interrupt terminate sigterm = terminate

-- What the wait comes to: the earliest signal that an installed handler hears, or no end, where none
-- hears any.
pub data Waited (interrupt terminate : Listener) : Option (Signal × ℕ) → Type 0 where
  ended :
      (signal : Signal) (time : ℕ)
      → Hears (listener_of interrupt terminate signal) time
      → ((other : Signal) (later : ℕ)
          → Hears (listener_of interrupt terminate other) later
          → time ≤ later)
      → Waited interrupt terminate (some (signal, time))
  parked :
      ((signal : Signal) (time : ℕ) → ¬ Hears (listener_of interrupt terminate signal) time)
      → Waited interrupt terminate none

heard_at : {t u : ℕ} → heard (some t) ≡ heard (some u) → t ≡ u
heard_at e = cc

-- The listener that is ready first.
earliest :
    (first : Signal) (i t : Option ℕ) (interrupt terminate : Listener)
    → ((time : ℕ) → (i ≡ some time) ↔ Hears interrupt time)
    → ((time : ℕ) → (t ≡ some time) ↔ Hears terminate time)
    → Waited interrupt terminate (select first i t)
unfolding select
earliest first none none interrupt terminate on_int on_term =
    parked (λ signal time h. silent signal h)
  where
    silent : {time : ℕ} (signal : Signal) → ¬ Hears (listener_of interrupt terminate signal) time
    silent {time} sigint h = cc ((on_int time).1 h)
    silent {time} sigterm h = cc ((on_term time).1 h)
earliest first (some i) none interrupt terminate on_int on_term =
    ended sigint i ((on_int i).0 refl) least
  where
    least :
        (other : Signal) (later : ℕ)
        → Hears (listener_of interrupt terminate other) later
        → i ≤ later
    least sigint later h = ground (arith, (on_int later).1 h)
    least sigterm later h = cc ((on_term later).1 h)
earliest first none (some t) interrupt terminate on_int on_term =
    ended sigterm t ((on_term t).0 refl) least
  where
    least :
        (other : Signal) (later : ℕ)
        → Hears (listener_of interrupt terminate other) later
        → t ≤ later
    least sigint later h = cc ((on_int later).1 h)
    least sigterm later h = ground (arith, (on_term later).1 h)
earliest first (some i) (some t) interrupt terminate on_int on_term = elim (Bool-cases (ltb i t)) [
  | inl before ↦
      rw before (ended sigint i ((on_int i).0 refl) (least i (omega arith) (ground arith)))
  | inr not_before ↦ rw not_before (elim (Bool-cases (ltb t i)) [
    | inl after ↦
        rw after (ended sigterm t ((on_term t).0 refl) (least t (ground arith) (omega arith)))
    | inr together ↦
        rw together
          (ended first i (at_once first (ground arith)) (least i (omega arith) (ground arith)))
  ])
]
  where
    least :
        (time : ℕ)
        → time ≤ i
        → time ≤ t
        → (other : Signal) (later : ℕ) → Hears (listener_of interrupt terminate other) later
        → time ≤ later
    least time fi ft sigint later h = ground (arith, (on_int later).1 h)
    least time fi ft sigterm later h = ground (arith, (on_term later).1 h)

    at_once : (signal : Signal) → i ≡ t → Hears (listener_of interrupt terminate signal) i
    at_once sigint same = (on_int i).0 refl
    at_once sigterm same = (on_term i).0 (ap some (sym same))

-- The wait ends with the earliest signal that an installed handler hears, and it never ends where none
-- hears any: a handler that failed to install never ends it, nor do two.
pub shutdown_signal-Waited :
    (first : Signal) (interrupt terminate : Listener)
    → Waited interrupt terminate (shutdown_signal first interrupt terminate)
unfolding shutdown_signal
shutdown_signal-Waited first interrupt terminate =
    earliest first (branch interrupt) (branch terminate) interrupt terminate (branch_iff interrupt)
      (branch_iff terminate)
