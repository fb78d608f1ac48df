-- ===== src/Main.antt =====
-- src/main.rs. Parsing the command line, creating the runtime and the logging backend are parameters.
use docker_socket_proxy.Common.{
  ℕ, Bool, true, false, List, Option, none, some, if◌then◌else◌, Str, codes, starts_with, ◌≡◌, ◌⊎◌,
  ◌↔◌, inl, inr, refl, arith, Bool-cases,
}
use docker_socket_proxy.Config.{Config, LogFormat, IpAddr}
use docker_socket_proxy.Error.{Result, ok, err, >>=-eq-ok}
use docker_socket_proxy.Observability.{
  Exchange, response, broken, timed_out, probe_target, probe_request, probe,
}
use docker_socket_proxy.Policy.Environment.{Env}
use docker_socket_proxy.Policy.Loader.{Host, value}
use docker_socket_proxy.Proxy.Drain.{Timer, drain_upgrades}
use docker_socket_proxy.Proxy.Serve.{Setup, prepare, Network, bound, ran, serve}

-- The world around `main`: whether the runtime could be created, and how an exchange with an address
-- and a port, in which a text is written, ends.
pub record System : Type 0 where
  pub runtime_error : Option Str
  pub exchange : IpAddr → ℕ → Str → Exchange
  pub from_utf8_lossy : Str → Str

-- `init_logging`: the filter and the format of the log
unfoldable pub init_logging : Config → Str × LogFormat
init_logging config = (config.log_level, config.log_format)

-- `observability::probe` on the configured address
unfoldable pub probe_config : System → Config → Option Str
probe_config system config =
    probe system.from_utf8_lossy
      (system.exchange (probe_target config.bind) config.port (probe_request config.port))

abbrev pub code_of_error : Option Str → ℕ
code_of_error none = 0
code_of_error (some e) = 1

abbrev pub code_of_result : {A : Type 0} → Result A → ℕ
code_of_result (ok a) = 0
code_of_result (err e) = 1

-- without a runtime the process exits with 1
abbrev pub with_runtime : Option Str → ℕ → ℕ
with_runtime (some e) code = 1
with_runtime none code = code

module _ (system : System) (host : Host) (timer : Timer) where
  open timer use {Task}

  -- inside the runtime
  unfoldable pub block_on : Network Task → Config → Env → ℕ
  block_on network config env =
      if config.health_check
      then code_of_error (probe_config system config)
      else code_of_result (serve host timer network config env)

  -- the exit code
  unfoldable pub main : Network Task → Config → Env → ℕ
  main network config env = with_runtime system.runtime_error (block_on network config env)

with_runtime_iff :
    (o : Option Str) (code : ℕ) → (with_runtime o code ≡ 0) ↔ ((o ≡ none) × (code ≡ 0))
with_runtime_iff none code = ((λ h. (refl, h)), (λ h. h.1))
with_runtime_iff (some e) code = ((λ h. absurd (omega arith)), (λ h. cc (h.0)))

branch_iff :
    {A : Type 0} (b : Bool) (o : Option Str) (r : Result A)
    → ((if b then code_of_error o else code_of_result r) ≡ 0)
      ↔ (((b ≡ true) × (o ≡ none)) ⊎ ((b ≡ false) × ((a : A) × (r ≡ ok a))))
branch_iff true none r = ((λ _. inl (refl, refl)), (λ _. refl))
branch_iff true (some e) r =
    ((λ h. absurd (omega arith)), (λ h. elim h [ inl both ↦ cc (both.1) | inr both ↦ cc (both.0) ]))
branch_iff false o (ok a) = ((λ _. inr (refl, (a, refl))), (λ _. refl))
branch_iff false o (err e) = (
  (λ h. absurd (omega arith)),
  (λ h. elim h [ inl both ↦ cc (both.0) | inr (_, (a, same)) ↦ cc ]),
)

-- The proxy at the probed address answered with status 200.
abbrev pub IsHealthy : System → Config → Type 0
IsHealthy system config =
    (bytes : Str) × (system.exchange (probe_target config.bind) config.port
        (probe_request config.port)
      ≡ response bytes)
    × (starts_with (system.from_utf8_lossy bytes) (codes "HTTP/1.1 200") ≡ true)

probe_iff :
    (lossy : Str → Str) (ended : Exchange)
    → (probe lossy ended ≡ none) ↔ (
        (bytes : Str) × (ended ≡ response bytes)
        × (starts_with (lossy bytes) (codes "HTTP/1.1 200") ≡ true))
unfolding probe
probe_iff lossy (response bytes) =
    elim (Bool-cases (starts_with (lossy bytes) (codes "HTTP/1.1 200"))) [
      | inl healthy ↦ ((λ _. (bytes, refl, healthy)), (λ _. rw healthy))
      | inr other ↦ ((λ h. cc (rw other at h)), (λ (b, e, healthy). cc))
    ]
probe_iff lossy (broken e) = ((λ h. cc), (λ h. cc (h.1)))
probe_iff lossy timed_out = ((λ h. cc), (λ h. cc (h.1)))

module _ (system : System) (host : Host) (timer : Timer) where
  open timer use {Task}

  -- The policy was loaded, the listener bound, and the server ran until it was shut down.
  abbrev pub RanToTheEnd : Network Task → Config → Env → Type 0
  RanToTheEnd network config env =
      (setup : Setup) × (prepare host config env ≡ ok setup)
      × (network.bind setup.bind setup.port ≡ value tt)
      × ((tasks : List Task) × (network.run setup ≡ value tasks))

  bound_iff :
      (network : Network Task) (setup : Setup)
      → (bound network setup ≡ ok tt) ↔ (network.bind setup.bind setup.port ≡ value tt)
  unfolding bound
  bound_iff network setup = ground arith

  ran_iff :
      (network : Network Task) (setup : Setup) (tasks : List Task)
      → (ran network setup ≡ ok tasks) ↔ (network.run setup ≡ value tasks)
  unfolding ran
  ran_iff network setup tasks = ground arith

  serve_iff :
      (network : Network Task) (config : Config) (env : Env)
      → ((out : ℕ × List Task) × (serve host timer network config env ≡ ok out))
        ↔ RanToTheEnd network config env
  unfolding serve
  serve_iff network config env = (
    (λ (out, h).
        let (setup, prepared, rest) = >>=-eq-ok (prepare host config env) _ h in
        let (u, listening, later) = >>=-eq-ok (bound network setup) _ rest in
        let (tasks, served, _) = >>=-eq-ok (ran network setup) _ later in
        (
          setup,
          prepared,
          (bound_iff network setup).0 listening,
          (tasks, (ran_iff network setup tasks).0 served),
        )),
    (λ (setup, prepared, listening, (tasks, served)). (
      drain_upgrades timer 0 tasks,
      rw (prepared, (bound_iff network setup).1 listening, (ran_iff network setup tasks).1 served),
    )),
  )

  -- The process exits with 0 exactly when the runtime was created and, with `--health-check`, the
  -- probed proxy answered 200, or without it the policy was loaded, the listener bound, and the server
  -- ran until it was shut down.
  pub main_iff :
      (network : Network Task) (config : Config) (env : Env)
      → (main system host timer network config env ≡ 0) ↔ (
          (system.runtime_error ≡ none)
          × (((config.health_check ≡ true) × IsHealthy system config)
              ⊎ ((config.health_check ≡ false) × RanToTheEnd network config env)))
  unfolding main block_on probe_config
  main_iff network config env =
      let exits =
        with_runtime_iff system.runtime_error (block_on system host timer network config env) in
      let branches =
        branch_iff config.health_check (probe_config system config)
          (serve host timer network config env) in
      let healthy =
        probe_iff system.from_utf8_lossy
          (system.exchange (probe_target config.bind) config.port (probe_request config.port)) in
      let served = serve_iff network config env in
      (
        (λ h.
            let (created, code) = exits.0 h in
            (
              created,
              elim (branches.0 code) [
                | inl (on, probed) ↦ inl (on, healthy.0 probed)
                | inr (off, done) ↦ inr (off, served.0 done)
              ],
            )),
        (λ (created, how). exits.1 (
          created,
          branches.1 (elim how [
            | inl (on, probed) ↦ inl (on, healthy.1 probed)
            | inr (off, done) ↦ inr (off, served.1 done)
          ]),
        )),
      )
