-- ===== src/Proxy/Drain.antt =====
-- src/proxy.rs, `drain_upgrades`. Tasks and `tokio::time::timeout` are the interface `Timer`.
pub mod Bound
use docker_socket_proxy.Common.{
  ℕ, ◌+◌, ◌≤◌, Bool, true, false, List, [], ◌∷◌, Option, none, some, if◌then◌else◌, ◌≡◌, ◌⊎◌,
}

-- Times count seconds from the start of the drain. `timeout now window task` is the time at which the
-- wait begun at `now` is over, and whether the window elapsed before the task ended.
pub record Timer : Type 1 where
  pub Task : Type 0
  pub ends : Task → Option ℕ
  pub timeout : ℕ → ℕ → Task → ℕ × Bool
  pub timeout_begins : (now window : ℕ) (task : Task) → now ≤ (timeout now window task).0
  pub timeout_bounded : (now window : ℕ) (task : Task) → (timeout now window task).0 ≤ now + window
  pub timeout_elapsed :
      (now window : ℕ) (task : Task)
      → (timeout now window task).1 ≡ true
      → (now + window ≤ (timeout now window task).0)
        × ((ends task ≡ none) ⊎ ((end : ℕ) × (ends task ≡ some end) × (now + window ≤ end)))
  pub timeout_ended :
      (now window : ℕ) (task : Task)
      → (timeout now window task).1 ≡ false
      → (end : ℕ) × (ends task ≡ some end) × (end ≤ (timeout now window task).0)
  pub timeout_hung :
      (now window : ℕ) (task : Task) → ends task ≡ none → (timeout now window task).1 ≡ true

abbrev pub drain_timeout : ℕ
drain_timeout = 5

module _ (timer : Timer) where
  open timer use {Task, timeout}

  -- the time after the loop, and the tasks that outlasted their window
  unfoldable pub drain_upgrades : ℕ → List Task → ℕ × List Task
  drain_upgrades now [] = (now, [])
  drain_upgrades now (task ∷ rest) =
      let waited = timeout now drain_timeout task in
      let later = drain_upgrades waited.0 rest in
      if waited.1 then (later.0, task ∷ later.1) else later
