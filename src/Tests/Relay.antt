-- ===== src/Tests/Relay.antt =====
-- Headers, answers and draining at concrete inputs.
use docker_socket_proxy.Common.{
  ascii_lower, cons_first, contains, is_space, is_space2, is_space3, split, str_eq,
  to_ascii_lowercase, trim, trim_end, trim_front, trim_start, ℕ, List, ◌+◌, ◌*◌, ◌≤◌, [], ◌∷◌,
  Option, none, some, Member, Str, codes, ◌≡◌, ◌⊎◌, ◌↔◌, true, refl,
}
use docker_socket_proxy.Error.{ok, err, too_large, into_response}
use docker_socket_proxy.Http.{Headers, Request}
use docker_socket_proxy.Proxy.Headers.{
  is_hop_by_hop, listed_in, tokens, connection_specific_headers, response_headers,
}
use docker_socket_proxy.Proxy.Headers.Kept.{IsDropped}
use docker_socket_proxy.Proxy.Headers.Upgrade.{IsOffer, upstream_headers_iff}
use docker_socket_proxy.Proxy.Handler.{
  build_response, build_request, headers_of, Relayed, after_send, relay_response, relay_status,
  send_error, last, is_length_limit_error, Response, Sent, received, failed, relayed, Upstream,
  upstream_request, proxy_handler,
}
use docker_socket_proxy.Proxy.Handler.Answered.{IsSpliced, Passes, Accepts, proxy_handler-headers}
use docker_socket_proxy.Proxy.Handler.Outcome.{
  Failure, Answers, proxy_handler-Answers, proxy_handler-status,
}
use docker_socket_proxy.Tests.Fixtures.{http, timer}
use docker_socket_proxy.Proxy.Drain.{drain_upgrades}
use docker_socket_proxy.Proxy.Drain.Bound.{drain_upgrades-bounds}

abbrev sent_headers : Headers
sent_headers =
    (codes "host", codes "proxy")
    ∷ (codes "connection", codes "Upgrade, x-private")
    ∷ (codes "upgrade", codes "tcp")
    ∷ (codes "x-private", codes "1")
    ∷ (codes "accept", codes "a/b")
    ∷ []

abbrev request : Request Headers Str
request = record {
  method = codes "POST";
  path = codes "/exec/a/start";
  query = none;
  headers = sent_headers;
  on_upgrade = true;
  body = [];
}

abbrev answer : Response Headers Str
answer = record { status = 204; headers = []; body = codes "x" }

abbrev answers : Upstream Str → Sent Headers Str
answers upstream = received answer

abbrev fails : Upstream Str → Sent Headers Str
fails upstream = failed (last true) (codes "limit")

abbrev sessions : List (Option ℕ)
sessions = some 9 ∷ none ∷ []

code : Unit {0}
unfolding proxy_handler response_headers drain_upgrades after_send relay_response relay_status
    connection_specific_headers ascii_lower cons_first contains is_space is_space2 is_space3 split
    str_eq to_ascii_lowercase trim trim_end trim_front trim_start build_response build_request
    is_hop_by_hop listed_in tokens send_error is_length_limit_error
code = tt

relays : proxy_handler http answers request ≡ ok (relayed answer)
unfolding code
relays = refl

too_long :
    proxy_handler http fails request
    ≡ err (too_large (codes "request body exceeded the configured limit"))
unfolding code
too_long = refl

-- an answer that lists a header of its own
abbrev listing : Response Headers Str
listing = record {
  status = 200;
  headers =
      (codes "connection", codes "x-private")
      ∷ (codes "x-private", codes "1")
      ∷ (codes "x-public", codes "2")
      ∷ [];
  body = [];
}

abbrev lists : Upstream Str → Sent Headers Str
lists upstream = received listing

abbrev public_part : Relayed Str
public_part =
    relayed record { status = 200; headers = (codes "x-public", codes "2") ∷ []; body = [] }

strips : proxy_handler http lists request ≡ ok public_part
unfolding code
strips = refl

proxy_handler-headers_example :
    Member (codes "x-private", codes "1") (headers_of http public_part) ↔ (
      Passes http listing (codes "x-private") (codes "1")
      ⊎ (IsSpliced public_part × Accepts http listing (codes "x-private") (codes "1")))
proxy_handler-headers_example =
    proxy_handler-headers http lists request public_part listing (codes "x-private") (codes "1")
      strips refl

upstream_headers_iff_example :
    Member (codes "upgrade", codes "tcp") (upstream_request http request).headers ↔ (
      (Member (codes "upgrade", codes "tcp") sent_headers
        × ¬ IsDropped (connection_specific_headers http sent_headers) (codes "upgrade"))
      ⊎ IsOffer http sent_headers (codes "upgrade") (codes "tcp"))
upstream_headers_iff_example = upstream_headers_iff http request (codes "upgrade") (codes "tcp")

proxy_handler-Answers_example :
    (resp : Response Headers Str) × (answers (upstream_request http request) ≡ received resp)
    × Answers http true resp (relayed answer)
proxy_handler-Answers_example = proxy_handler-Answers http answers request (relayed answer) relays

drain_upgrades-bounds_example :
    (7 ≤ (drain_upgrades timer 7 sessions).0) × ((drain_upgrades timer 7 sessions).0 ≤ 7 + 5 * 2)
drain_upgrades-bounds_example = drain_upgrades-bounds timer 7 sessions

proxy_handler-status_example :
    Failure http fails request
      (into_response (too_large (codes "request body exceeded the configured limit"))).status
proxy_handler-status_example =
    proxy_handler-status http fails request
      (too_large (codes "request body exceeded the configured limit")) too_long
