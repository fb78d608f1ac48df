-- ===== src/Observability.antt =====
-- src/observability.rs: the counters, their rendering, the health report and the probe.
pub mod Rendered
pub mod Scraped
use docker_socket_proxy.Common.{
  has_byte, ◌&&◌, ℕ, zero, suc, ◌+◌, ◌/◌, ◌%◌, ◌^◌, Bool, true, false, List, [], ◌∷◌, ◌++◌, Option,
  none, some, ltb, ◌==◌, if◌then◌else◌, Str, codes, starts_with, first_part, ends_with,
}
use docker_socket_proxy.Config.{IpAddr, v4, v6}
use mathlib.Core.List.{reverse, tail}

-- the two `AtomicU64`
pub record Metrics : Type 0 where
  pub allowed : ℕ
  pub denied : ℕ

abbrev pub zeroed : Metrics
zeroed = record { allowed = 0; denied = 0 }

-- `fetch_add` wraps round
unfoldable pub record_allowed : Metrics → Metrics
record_allowed m = record m { allowed = (m.allowed + 1) % 2 ^ 64 }

unfoldable pub record_denied : Metrics → Metrics
record_denied m = record m { denied = (m.denied + 1) % 2 ^ 64 }

-- A number in decimal; a 64-bit number has at most 20 digits.
unfoldable pub decimal_digits : ℕ → ℕ → Str
decimal_digits zero n = []
decimal_digits (suc f) n =
    let front = decimal_digits f (n / 10) in
    if ltb n 10 then (48 + n) ∷ [] else front ++ (48 + n % 10) ∷ []

unfoldable pub decimal : ℕ → Str
decimal n = decimal_digits 20 n

abbrev line_feed : Str
line_feed = 10 ∷ []

-- the comment lines, and the names of the two samples
abbrev pub comment_lines : Str
comment_lines =
    codes "# HELP docker_socket_proxy_requests_total Requests by policy outcome."
    ++ (line_feed ++ (codes "# TYPE docker_socket_proxy_requests_total counter" ++ line_feed))

abbrev pub allowed_sample : Str
allowed_sample = codes "docker_socket_proxy_requests_total{outcome=\"allowed\"} "

abbrev pub denied_sample : Str
denied_sample = codes "docker_socket_proxy_requests_total{outcome=\"denied\"} "

unfoldable pub render : Metrics → Str
render m =
    comment_lines
    ++ (allowed_sample
        ++ (decimal m.allowed ++ 10 ∷ (denied_sample ++ (decimal m.denied ++ line_feed))))

pub record Report : Type 0 where
  pub status : ℕ
  pub content_type : Str
  pub body : Str

unfoldable pub metrics : Metrics → Report
metrics m = record {
  status = 200;
  content_type = codes "text/plain; version=0.0.4";
  body = render m;
}

-- What `health` logs where the Docker socket does not accept a connection; the error and the socket's
-- path stand beside the message.
unfoldable pub health_warnings : (connected : Bool) → List Str
health_warnings true = []
health_warnings false = codes "health check could not reach the Docker socket" ∷ []

-- `connected`: whether the Docker socket accepted a connection
unfoldable pub health : Bool → Report
health true = record {
  status = 200;
  content_type = codes "application/health+json";
  body = codes "{\"status\":\"pass\"}";
}
health false = record {
  status = 503;
  content_type = codes "application/health+json";
  body = codes "{\"status\":\"fail\"}";
}

-- A wildcard bind is probed over loopback.
unfoldable pub probe_target : IpAddr → IpAddr
probe_target (v4 a) = if a == 0 then v4 0x7F000001 else v4 a
probe_target (v6 a) = if a == 0 then v6 1 else v6 a

abbrev line_end : Str
line_end = 13 ∷ 10 ∷ []

-- what the probe writes
unfoldable pub probe_request : ℕ → Str
probe_request port =
    codes "GET /healthz HTTP/1.1"
    ++ (line_end
        ++ (codes "Host: localhost:"
            ++ (decimal port
                ++ (line_end ++ (codes "Connection: close" ++ (line_end ++ line_end))))))

-- How the exchange with the proxy ended.
pub data Exchange : Type 0 where
  response : Str → Exchange
  broken : Str → Exchange
  timed_out : Exchange

-- `lines().next()`: up to the first line feed, less a carriage return before it
unfoldable pub first_line : Str → Option Str
first_line [] = none
first_line (c ∷ s) =
    let line = first_part 10 (c ∷ s) in
    some (if has_byte (c ∷ s) 10 && ends_with line 13 then reverse (tail (reverse line)) else line)

unfoldable pub line_or : Option Str → Str
line_or none = codes "empty response"
line_or (some line) = line

-- `none` is success. `lossy` is `String::from_utf8_lossy`.
unfoldable pub probe : (Str → Str) → Exchange → Option Str
probe lossy (response bytes) =
    let head = lossy bytes in
    if starts_with head (codes "HTTP/1.1 200") then none else some (line_or (first_line head))
probe lossy (broken e) = some e
probe lossy timed_out = some (codes "no response within 5s")
