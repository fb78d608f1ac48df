-- ===== src/Middleware/Enforcement.antt =====
-- What the enforcement layer lets through, and with which body.
use mathlib.Core.Path.{subst}
use docker_socket_proxy.Common.{◌≤◌, Bool, Option, none, some, ◌≡◌, refl, sym, ap, ◌∙◌, length, Str}
use docker_socket_proxy.Error.{ProxyError, Result, ok, err}
use docker_socket_proxy.Http.{HeaderMaps, Request}
use docker_socket_proxy.Observability.{record_allowed}
use docker_socket_proxy.Security.Normalize.{BodyRule, container_create, check_head}
use docker_socket_proxy.Security.Body.{Json, check_body}
use docker_socket_proxy.Middleware.Admission.{
  BodyFor, streamed, inspected, Admitted, head-Admitted, body-Admitted,
}
use docker_socket_proxy.Middleware.{
  Collected, collected, length_limit, read_error, Bodies, Trail, served, SecurityService, refuse,
  forward, rejected_by_layer, denied_by_policy, stream, after_inspection, inspect, after_head, call,
}

module _ (json : Json) (http : HeaderMaps) (bodies : Bodies) {R : Type 0} where
  open http use {HeaderMap}
  open bodies use {Body, limited, collect, from_bytes, collect-limited, collect-from_bytes}

  -- The inner service answered, once, to the request with this body, and it was counted as allowed.
  abbrev pub Served :
      SecurityService HeaderMap Body R → Request HeaderMap Body → Trail → R → Trail → Body → Type 0
  Served service request trail r trail' body =
      (r ≡ service.inner (record request { body = body }))
      × (trail' ≡ record trail { metrics = record_allowed trail.metrics })

  module _ (service : SecurityService HeaderMap Body R) (request : Request HeaderMap Body)
      (trail : Trail) where
    forward-served :
        (body : Body) (r : R) (trail' : Trail)
        → forward json http bodies service request trail body ≡ (served r, trail')
        → Served service request trail r trail' body
    unfolding forward
    forward-served body r trail' h = (cc (ap (λ p. p.0) h), sym (ap (λ p. p.1) h))

    refuse-served :
        (message : Str) (e : ProxyError) (r : R) (trail' : Trail)
        → refuse json http bodies message service request trail e ≡ (served r, trail')
        → ⊥
    unfolding refuse
    refuse-served message e r trail' h = cc (ap (λ p. p.0) h)

    stream-served :
        (o : Option ProxyError) (r : R) (trail' : Trail)
        → check_head service.filter request.method request.path ≡ ok BodyRule.none
        → stream json http bodies service request trail o ≡ (served r, trail')
        → (body : Body) × Admitted json http bodies service request body
          × Served service request trail r trail' body
    unfolding stream
    stream-served (some e) r trail' head h = absurd (refuse-served rejected_by_layer e r trail' h)
    stream-served none r trail' head h = (
      limited service.max_body_bytes request.body,
      head-Admitted json http bodies service request head,
      forward-served _ r trail' h,
    )

    inspect-served :
        (found : Collected) (r : R) (trail' : Trail)
        → check_head service.filter request.method request.path ≡ ok container_create
        → collect (limited service.max_body_bytes request.body) ≡ found
        → inspect json http bodies service request trail container_create found ≡ (served r, trail')
        → (body : Body) × Admitted json http bodies service request body
          × Served service request trail r trail' body
    unfolding inspect
    inspect-served length_limit r trail' head is h = absurd (refuse-served _ _ r trail' h)
    inspect-served (read_error e) r trail' head is h = absurd (refuse-served _ _ r trail' h)
    inspect-served (collected bytes) r trail' head is h =
        checked (check_body json container_create bytes) refl h
      where
        checked :
            (result : Result (Unit {0}))
            → check_body json container_create bytes ≡ result
            → after_inspection json http bodies service request trail bytes result
              ≡ (served r, trail')
            → (body : Body) × Admitted json http bodies service request body
              × Served service request trail r trail' body
        checked (err e) same k =
            absurd (refuse-served denied_by_policy e r trail' (unfold after_inspection in k))
        checked (ok u) same k = (
          from_bytes bytes,
          body-Admitted json http bodies service request bytes head is same,
          forward-served _ r trail' (unfold after_inspection in k),
        )

  -- A request reaches the inner service only if its normalised path is permitted and its body is
  -- either streamed under the limit or, for a create request, the bytes that passed inspection; it
  -- reaches it otherwise unchanged, and is counted as allowed.
  pub call-served :
      (service : SecurityService HeaderMap Body R) (request : Request HeaderMap Body)
      (trail trail' : Trail) (r : R)
      → call json http bodies service request trail ≡ (served r, trail')
      → (body : Body) × Admitted json http bodies service request body
        × Served service request trail r trail' body
  unfolding call after_head
  call-served service request trail trail' r h =
      decide (check_head service.filter request.method request.path) refl h
    where
      decide :
          (head : Result BodyRule)
          → check_head service.filter request.method request.path ≡ head
          → after_head json http bodies service request trail head ≡ (served r, trail')
          → (body : Body) × Admitted json http bodies service request body
            × Served service request trail r trail' body
      decide (err e) same k =
          absurd (refuse-served service request trail denied_by_policy e r trail' k)
      decide (ok BodyRule.none) same k = stream-served service request trail _ r trail' same k
      decide (ok container_create) same k =
          inspect-served service request trail _ r trail' same refl k

  -- No more bytes than the limit reach the inner service.
  Admitted-length :
      (service : SecurityService HeaderMap Body R) (request : Request HeaderMap Body) (body : Body)
      (bytes : Str)
      → Admitted json http bodies service request body
      → collect body ≡ collected bytes
      → length bytes ≤ service.max_body_bytes
  Admitted-length service request body bytes a e = within a.body_for
    where
      within :
          {create : Bool}
          → BodyFor json bodies service.max_body_bytes request.body create body
          → length bytes ≤ service.max_body_bytes
      within (streamed same) =
          collect-limited service.max_body_bytes request.body bytes
            (subst (λ b. collect b ≡ collected bytes) same e)
      within (inspected seen is permits same) =
          subst (λ (x : Str). length x ≤ service.max_body_bytes) (same_bytes seen bytes same)
            (collect-limited service.max_body_bytes request.body seen is)
        where
          same_bytes : (x y : Str) → body ≡ from_bytes x → x ≡ bytes
          same_bytes x y p = cc (collect-from_bytes x)

module _ (json : Json) (http : HeaderMaps) (bodies : Bodies) where
  open http use {HeaderMap}
  open bodies use {Body, collect}

  -- Where the inner service answers with the body that it is handed, such an answer, if it can be
  -- collected, has at most as many bytes as the limit.
  call-length :
      (service : SecurityService HeaderMap Body Body) (request : Request HeaderMap Body)
      (trail trail' : Trail) (body : Body) (bytes : Str)
      → service.inner ≡ (λ q. q.body)
      → call json http bodies service request trail ≡ (served body, trail')
      → collect body ≡ collected bytes
      → length bytes ≤ service.max_body_bytes
  call-length service request trail trail' body bytes echo h found =
      let (handed, admitted, (same, _)) =
        call-served json http bodies service request trail trail' body h in
      let reached : body ≡ handed =
        same ∙ ap (λ inner. inner (record request { body = handed })) echo in
      Admitted-length json http bodies service request handed bytes admitted
        (ap collect (sym reached) ∙ found)
