-- ===== src/Lib.antt =====
-- A model of docker-socket-proxy: an HTTP proxy in front of the Docker socket that lets through
-- only what a policy allows, with the theorems that make it correct.
--
-- How the parts fit together. A request enters the enforcement layer (src/middleware.rs), which asks
-- the policy decision point (src/security.rs) about its head: the path is normalised and checked
-- against the exclude, deny and allow rules of a filter. A container-create request has its body
-- inspected too; every other body streams on under the size limit. What is admitted goes to the
-- handler (src/proxy.rs), which drops the headers that end at this hop, forwards the request to the
-- Docker socket and relays the answer or splices an upgraded connection. The filter is made once, at
-- start, by the policy loader (src/policy.rs) from a profile (src/config.rs), a file and the
-- environment; values that match nothing known (src/docker_api.rs) are warned about. Counters,
-- health and the probe are src/observability.rs, errors and their responses src/error.rs.
--
-- Which file models what:
--   Common, and the files under it: Boolean tests, lists, byte strings, trimming and splitting.
--   Config, Error: the types of src/config.rs and src/error.rs; `display` and `into_response`; the
--   configuration without arguments.
--   Http: the interface `HeaderMaps` to the crate http, and a request.
--   Security.Pattern `matches_pattern`; Security.Rule `RuleSet`; Security.Rules `RuleList`;
--   Security.Profile `SecurityFilter`, the endpoint tables and `for_profile`; Security.Filter
--   `check` and `endpoint_patterns`; Security.Percent `percent_decode`; Security.Segments
--   `remove_dot_segments`; Security.Version `strip_api_version`; Security.Normalize
--   `normalize_path`, `BodyRule` and `check_head`; Security.Body `check_create_body`, `check_body`
--   and `check_request`: src/security.rs.
--   Policy.Document `apply_document`; Policy.Environment `apply_environment` and `split_list`;
--   Policy.Report `report_unknown`; Policy.Compat `compatibility_filter`; Policy.Loader
--   `parse_document` and `PolicyLoader::load`: src/policy.rs.
--   DockerApi: src/docker_api.rs. Middleware: `SecurityService::call` and `oversized_declaration`;
--   Middleware.Interleaving: the futures of `call`, polled and dropped in any order.
--   Proxy.Headers, Proxy.Handler, Proxy.Router, Proxy.Drain, Proxy.Shutdown, Proxy.Serve: header
--   filtering, `proxy_handler` and `switch_protocols`, `build_router` with the layer around the
--   handler, `drain_upgrades`, `shutdown_signal`, and `serve`; Proxy.Assembly: the routers of `serve`
--   and of `test_router`; Proxy.Overlap: the futures of the layer and the handler, polled, answered and
--   dropped in any order: src/proxy.rs.
--   Observability: `Metrics`, `health`, `probe`. Main: `main`, src/main.rs.
--   Fuzz: the targets fuzz/fuzz_targets/path_normalizer.rs and fuzz/fuzz_targets/policy_parse.rs.
--   DockerApi.Shipped is about what tests/api_surface.rs checks.
--   Tests: the theorems at concrete inputs. Tests.Unit: the unit tests at the end of the source files,
--   tests/api_surface.rs and tests/examples.rs, one Boolean for each test function; JSON bodies are
--   read by a table of their texts, and policy documents are given as what they parse to.
-- The proofs of a part stand in the modules below it, named for what they show.
--
-- How state and operations correspond. A path, a method, a header and a body are lists of bytes. A
-- filter is the record of its three rule lists; the loader's mutations of it are functions from
-- filter to filter. A set of methods is a list without repetition, and the theorems speak of its
-- members only; a map of variables is the list of its entries. The counters and the audit log are a
-- record `Trail` that `call` takes and returns. `?` and early returns are the binds of `Result`.
--
-- What the requests of a router share is the record `World`: that trail, the requests that went
-- to the Docker socket, and the warnings of the health check. `serve_all` runs a list of requests through a router, one after the other. In
-- Middleware.Interleaving the futures of many requests share one trail: a step polls one from where it
-- waits to where it waits next, finds it still pending, or drops it, and the theorems are by induction on the steps.
-- Proxy.Overlap does the same with the handler inside the layer, the requests sent, and the spliced
-- sessions of `AppState::upgrade_tasks`.
--
-- Parameters. What serde_json, http, http-body-util, axum, tower-http, tokio's clock, signals and
-- listeners, the TOML and YAML parsers, the file system, the client of the Docker socket and the
-- inner service do is an argument: the records `Json`, `HeaderMaps`, `Bodies`, `Axum`, `Timer`,
-- `Network`, `System` and `Host`, and functions. `Json` asks that `get` finds exactly the keys of a
-- map; `HeaderMaps` that the values under a lower-case name are those of the map's entries, and that
-- `get` is the first of them, and its builders may refuse the parts of a message; `Bodies` that a
-- limited body is never collected past its limit, and that a body made of bytes is collected to
-- them; `Timer` that a timeout ends within its window and elapses exactly on a task that has not
-- ended by then; `Axum` that a route takes exactly its path, that a layer wraps the fallback, and
-- that a timeout drops the handler before or after it sent its request.
--
-- Bounds. Counters wrap at 2 ^ 64, as `fetch_add` does, and a declared length is read as a `u64`
-- with its overflow refused. A number is written in decimal with 20 digits at most, which is enough
-- for 64 bits. Nothing else runs on fuel: each loop is structural recursion on what it consumes.
--
-- Not modelled: parsing the command line (clap), the logging backend and the diagnostic lines of the
-- handler and the drain, socket I/O and the copying of upgraded bytes, which are calls of libraries
-- only; the unit test that connects to a closed port, and tests/integration.rs, which drives a running
-- server.
pub mod Common
pub mod Config
pub mod Error
pub mod Security
pub mod DockerApi
pub mod Policy
pub mod Http
pub mod Observability
pub mod Middleware
pub mod Proxy
pub mod Main
pub mod Fuzz
pub mod Tests
