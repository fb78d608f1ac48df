-- ===== src/Tests/Interleaving.antt =====
-- Two polls of the future of a concrete request.
use docker_socket_proxy.Common.{
  some, codes, true, false, arith, arith, [], ◌∷◌, ◌≡◌, ◌≢◌, List, Bool,
}
use docker_socket_proxy.Http.{Headers}
use docker_socket_proxy.Middleware.{Collected, Trail, Reply}
use docker_socket_proxy.Middleware.Interleaving.{
  poll_all, Phase, arrived, finished, dropped, Task, resume, accepted, polled, Reached, started,
  stepped,
}
use docker_socket_proxy.Middleware.Interleaving.Agreement.{AllAgree, Reached-AllAgree}
use docker_socket_proxy.Middleware.Interleaving.Enforced.{AllPass, Reached-AllPass}
use docker_socket_proxy.Middleware.Interleaving.Effect.{Shows, allowed_in, denied_in}
use docker_socket_proxy.Middleware.Interleaving.Counts.{Reached-Shows}
use docker_socket_proxy.Middleware.Interleaving.Progress.{poll_all-finishes}
use docker_socket_proxy.Observability.{render}
use docker_socket_proxy.Observability.Scraped.{sample_of, sample_of-render}
use docker_socket_proxy.Tests.Fixtures.{json, http, bodies}
use docker_socket_proxy.Tests.Layer.{service, request, trail}

abbrev after_poll : Phase Collected Collected × Trail
after_poll = resume json http bodies service request arrived trail

abbrev tasks : List (Task Headers Collected Collected)
tasks = record { request = request; phase = after_poll.0 } ∷ []

polled_once : Reached json http bodies service tasks after_poll.1
polled_once =
    stepped (stepped started (accepted request))
      (polled (record { request = request; phase = arrived }))

Reached-AllAgree_example : AllAgree json http bodies service tasks
Reached-AllAgree_example = Reached-AllAgree json http bodies service tasks after_poll.1 polled_once

Reached-AllPass_example : AllPass json http bodies service tasks
Reached-AllPass_example = Reached-AllPass json http bodies service tasks after_poll.1 polled_once

Reached-Shows_example : Shows after_poll.1 (allowed_in tasks) (denied_in tasks)
Reached-Shows_example = Reached-Shows json http bodies service tasks after_poll.1 polled_once

kept : (counted : Bool) → ◌≢◌ {A = Phase Collected Collected} arrived (dropped counted)
kept counted e = cc

-- the last poll but one finds the inner service without an answer
abbrev polls : List (Bool × Trail)
polls = (true, trail) ∷ (true, trail) ∷ (false, trail) ∷ (true, trail) ∷ []

poll_all-finishes_example :
    (reply : Reply Collected) × (poll_all json http bodies service request polls arrived
      ≡ finished reply)
poll_all-finishes_example =
    poll_all-finishes json http bodies service request arrived polls kept (omega arith)

sample_of-render_example :
    (sample_of (codes "allowed") (render (record { allowed = 3; denied = 15 })) ≡ some 3)
    × (sample_of (codes "denied") (render (record { allowed = 3; denied = 15 })) ≡ some 15)
sample_of-render_example =
    sample_of-render (record { allowed = 3; denied = 15 }) (ground arith) (ground arith)
