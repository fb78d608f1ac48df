-- ===== src/Proxy/Drain/Bound.antt =====
-- How long draining takes, and whom it abandons.
use mathlib.Core.Path.{subst}
use docker_socket_proxy.Common.{
  ℕ, ◌+◌, ◌*◌, ◌≤◌, List, [], ◌∷◌, none, some, ◌≡◌, ◌⊎◌, inl, inr, sym, ap, ◌∙◌, arith, Bool-cases,
  length, Member, All,
}
use docker_socket_proxy.Proxy.Drain.{Timer, drain_timeout, drain_upgrades}

module _ (timer : Timer) where
  open timer use {
    Task, ends, timeout, timeout_begins, timeout_bounded, timeout_elapsed, timeout_hung,
    timeout_ended,
  }

  -- Draining ends, after at most five seconds for each task.
  pub drain_upgrades-bounds :
      (now : ℕ) (tasks : List Task)
      → (now ≤ (drain_upgrades timer now tasks).0)
        × ((drain_upgrades timer now tasks).0 ≤ now + 5 * length tasks)
  unfolding drain_upgrades
  drain_upgrades-bounds now [] = ground arith
  drain_upgrades-bounds now (task ∷ rest) = ground (
    arith,
    timeout_begins now drain_timeout task,
    timeout_bounded now drain_timeout task,
    drain_upgrades-bounds (timeout now drain_timeout task).0 rest,
  )

  -- The windows add up: tasks that never end take five seconds each, and are all abandoned.
  drain_upgrades-hung :
      (now : ℕ) (tasks : List Task)
      → All (λ task. ends task ≡ none) tasks
      → drain_upgrades timer now tasks ≡ (now + 5 * length tasks, tasks)
  unfolding drain_upgrades
  drain_upgrades-hung now [] h = ground arith
  drain_upgrades-hung now (task ∷ rest) (h, hs) =
      let late = timeout_hung now drain_timeout task h in
      let whole : (timeout now drain_timeout task).0 ≡ now + 5 = omega (
        arith,
        timeout_bounded now drain_timeout task,
        (timeout_elapsed now drain_timeout task late).0,
      ) in
      rw (late, drain_upgrades-hung (timeout now drain_timeout task).0 rest hs, whole)
        (ground arith)

  -- The task never ends, or ends no sooner than five seconds after the given time.
  abbrev pub AbandonedFrom : ℕ → Task → Type 0
  AbandonedFrom now task =
      (ends task ≡ none) ⊎ ((end : ℕ) × (ends task ≡ some end) × (now + 5 ≤ end))

  AbandonedFrom-earlier :
      (now next : ℕ) (task : Task) → now ≤ next → AbandonedFrom next task → AbandonedFrom now task
  AbandonedFrom-earlier now next task le (inl e) = inl e
  AbandonedFrom-earlier now next task le (inr (end, e, lt)) = inr (end, e, ground arith)

  -- A task is abandoned only if it is one of those drained and never ends, or ends no sooner than five
  -- seconds after the drain begins.
  drain_upgrades-abandoned :
      (now : ℕ) (tasks : List Task) (task : Task)
      → Member task (drain_upgrades timer now tasks).1
      → Member task tasks × AbandonedFrom now task
  unfolding drain_upgrades
  drain_upgrades-abandoned now [] task m = absurd m
  drain_upgrades-abandoned now (t ∷ rest) task m =
      let after = (timeout now drain_timeout t).0 in
      let later = drain_upgrades-abandoned after rest task in
      let earlier = AbandonedFrom-earlier now after task (timeout_begins now drain_timeout t) in
      elim (Bool-cases (timeout now drain_timeout t).1) [
        | inl outlasted ↦ elim (rw outlasted at m) [
          | inl e ↦ (
            inl e,
            subst (AbandonedFrom now) (sym e) (timeout_elapsed now drain_timeout t outlasted).1,
          )
          | inr k ↦ (inr (later k).0, earlier (later k).1)
        ]
        | inr awaited ↦ let k = later (rw awaited at m) in (inr k.0, earlier k.1)
      ]

  -- When the drain is over, each task drained has ended, or is abandoned.
  pub drain_upgrades-awaits :
      (now : ℕ) (tasks : List Task) (task : Task)
      → Member task tasks
      → Member task (drain_upgrades timer now tasks).1
        ⊎ ((end : ℕ) × (ends task ≡ some end) × (end ≤ (drain_upgrades timer now tasks).0))
  unfolding drain_upgrades
  drain_upgrades-awaits now [] task m = absurd m
  drain_upgrades-awaits now (t ∷ rest) task (inl same) =
      let after = (timeout now drain_timeout t).0 in
      elim (Bool-cases (timeout now drain_timeout t).1) [
        | inl outlasted ↦ rw outlasted (inl (inl same))
        | inr awaited ↦
            let (end, ended, in_time) = timeout_ended now drain_timeout t awaited in
            let later = (drain_upgrades-bounds after rest).0 in
            rw awaited (inr (end, ap ends same ∙ ended, omega arith))
      ]
  drain_upgrades-awaits now (t ∷ rest) task (inr m) =
      let later = drain_upgrades-awaits (timeout now drain_timeout t).0 rest task m in
      elim (Bool-cases (timeout now drain_timeout t).1) [
        | inl outlasted ↦ rw outlasted (elim later [ inl k ↦ inl (inr k) | inr ended ↦ inr ended ])
        | inr awaited ↦ rw awaited later
      ]
