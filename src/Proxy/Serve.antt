-- ===== src/Proxy/Serve.antt =====
-- src/proxy.rs, `serve`. Binding the listener and running axum's server are parameters.
use docker_socket_proxy.Common.{ℕ, List, codes, ◌++◌, Option, none, some, ltb, if◌then◌else◌, Str}
use docker_socket_proxy.Config.{Config, IpAddr}
use docker_socket_proxy.Error.{docker, internal, Result, ok, err, ◌>>=◌, ◌>>◌}
use docker_socket_proxy.Security.Profile.{SecurityFilter}
use docker_socket_proxy.Policy.Environment.{Env}
use docker_socket_proxy.Policy.Loader.{Host, Answer, value, failed, load}
use docker_socket_proxy.Proxy.Drain.{Timer, drain_upgrades}
use docker_socket_proxy.Observability.{Metrics, zeroed}

pub record Setup : Type 0 where
  pub filter : SecurityFilter
  pub max_body_bytes : ℕ
  pub metrics : Metrics
  pub docker_socket : Str
  pub timeout : Option ℕ
  pub bind : IpAddr
  pub port : ℕ

-- `(timeout_secs > 0).then(…)`
unfoldable pub request_timeout : ℕ → Option ℕ
request_timeout secs = if ltb 0 secs then some secs else none

unfoldable pub prepare : Host → Config → Env → Result Setup
prepare host config env = do
  filter ← load host config.allowlist config.profile env
  ok (record {
    filter = filter;
    max_body_bytes = config.max_body_bytes;
    metrics = zeroed;
    docker_socket = config.socket;
    timeout = request_timeout config.timeout_secs;
    bind = config.bind;
    port = config.port;
  })

-- The listener and the server: what binding and serving come to, the text of an address, and the
-- spliced connections that are left when serving ends.
pub record Network (Task : Type 0) : Type 0 where
  pub bind : IpAddr → ℕ → Answer (Unit {0})
  pub run : Setup → Answer (List Task)
  pub addr_text : IpAddr → ℕ → Str

unfoldable pub bound : {Task : Type 0} → Network Task → Setup → Result (Unit {0})
bound network setup = elim (network.bind setup.bind setup.port) [
  | value u ↦ ok tt
  | failed e ↦ err (
      docker (
        codes "failed to bind to "
        ++ (network.addr_text setup.bind setup.port ++ (codes ": " ++ e))))
]

unfoldable pub ran : {Task : Type 0} → Network Task → Setup → Result (List Task)
ran network setup = elim (network.run setup) [
  | value tasks ↦ ok tasks
  | failed e ↦ err (internal e)
]

module _ (host : Host) (timer : Timer) where
  open timer use {Task}

  -- `Ok(())` comes with what the drain did: its length, and the connections that outlasted it
  unfoldable pub serve : Network Task → Config → Env → Result (ℕ × List Task)
  serve network config env = do
    setup ← prepare host config env
    bound network setup
    tasks ← ran network setup
    ok (drain_upgrades timer 0 tasks)
