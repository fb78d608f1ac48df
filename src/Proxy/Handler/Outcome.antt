-- ===== src/Proxy/Handler/Outcome.antt =====
-- What the client of `proxy_handler` can be sent.
use mathlib.Core.Path.{subst}
use docker_socket_proxy.Common.{
  Str, false, none, ap, ℕ, List, Bool, true, ◌≡◌, ◌≢◌, ◌⊎◌, ◌↔◌, inl, inr, refl, ◌∙◌, arith,
  Bool-cases, Option-cases, ◌==◌,
}
use docker_socket_proxy.Error.{ProxyError, Result, ok, err, into_response, >>=-eq-ok, >>=-eq-err}
use docker_socket_proxy.Http.{Headers, HeaderMaps, Request}
use docker_socket_proxy.Proxy.Handler.{
  Chain, is_length_limit_error, Response, Sent, received, failed, Relayed, relayed, spliced,
  Upstream, upstream_request, relay_status, send_error, switch_protocols, relay_response,
  after_send, proxy_handler, build_request, build_response, status_of, headers_of,
}

relay_status_lem :
    (http : HeaderMaps) (s : ℕ) → (relay_status http s ≡ s) ⊎ (relay_status http s ≡ 500)
unfolding relay_status
relay_status_lem http s = elim (Option-cases (http.from_u16 s)) [
  | inl refused ↦ rw (refused, relay_status) (inr refl)
  | inr (code, read) ↦ rw (read, relay_status) (inl (http.from_u16_same s code read))
]

ok_inj : {A : Type 0} {a b : A} → ok a ≡ ok b → a ≡ b
ok_inj h = cc

err_ne_ok : {A : Type 0} {e : ProxyError} {a : A} → err e ≢ ok a
err_ne_ok h = cc

send_error_status :
    (chain : Chain) (text : Str)
    → (((into_response (send_error chain text)).status ≡ 502)
        ⊎ ((into_response (send_error chain text)).status ≡ 413))
      × (((into_response (send_error chain text)).status ≡ 413)
          ↔ (is_length_limit_error chain ≡ true))
unfolding send_error into_response
send_error_status chain text = elim (Bool-cases (is_length_limit_error chain)) [
  | inl limit ↦ rw limit (inr refl, ((λ _. refl), (λ _. refl)))
  | inr other ↦ rw other (inl refl, ((λ h. absurd (omega arith)), (λ h. cc)))
]

err_inj : {A : Type 0} {e f : ProxyError} → ◌≡◌ {A = Result A} (err e) (err f) → e ≡ f
err_inj h = cc

ok_ne_err : {A : Type 0} {e : ProxyError} {a : A} → ok a ≢ err e
ok_ne_err h = cc

failed_inj :
    {H B : Type 0} {c d : Chain} {t u : List ℕ}
    → ◌≡◌ {A = Sent H B} (failed c t) (failed d u)
    → c ≡ d
failed_inj h = cc

module _ (http : HeaderMaps) {B : Type 0} where
  open http use {HeaderMap}

  -- What a successful answer says of the socket's.
  pub data Answers (can_upgrade : Bool) (resp : Response HeaderMap B) : Relayed B → Type 0 where
    plain :
        {r : Response Headers B}
        → r.body ≡ resp.body
        → r.status ≢ 101
        → (r.status ≡ resp.status) ⊎ (r.status ≡ 500)
        → Answers can_upgrade resp (relayed r)
    switched :
        {status : ℕ} {headers : Headers}
        → can_upgrade ≡ true
        → resp.status ≡ 101
        → status ≡ 101
        → Answers can_upgrade resp (spliced status headers)

  relay_response-Answers :
      (can_upgrade : Bool) (resp : Response HeaderMap B) (out : Relayed B)
      → relay_response http can_upgrade resp ≡ ok out
      → Answers can_upgrade resp out
  unfolding relay_response switch_protocols
  relay_response-Answers can_upgrade resp out h =
      elim (Bool-cases (relay_status http resp.status == 101)) [
        | inl switching ↦ elim (Bool-cases can_upgrade) [
          | inl offer ↦
              subst (Answers can_upgrade resp) (ok_inj (rw (switching, offer) at h))
                (switched offer (ground (arith, relay_status_lem http resp.status)) (ground arith))
          | inr no_offer ↦ absurd (err_ne_ok (rw (switching, no_offer) at h))
        ]
        | inr not_switching ↦
            let which = relay_status_lem http resp.status in
            subst (Answers can_upgrade resp) (ok_inj (rw not_switching at h))
              (plain refl (ground arith) which)
      ]

  pub build_response-ok : (out built : Relayed B) → build_response http out ≡ ok built → out ≡ built
  unfolding build_response
  build_response-ok out built h =
      elim (Option-cases (http.response_error (status_of http out) (headers_of http out))) [
        | inl fine ↦ ok_inj (ground arith)
        | inr (e, refused) ↦ absurd (ground arith)
      ]

  -- Each success comes from an answer of the socket: a connection is spliced only where the client
  -- can upgrade and the socket answered 101, and any other answer carries the socket's body under its
  -- status, or under 500; a relayed answer is never a 101.
  pub proxy_handler-Answers :
      (send : Upstream B → Sent HeaderMap B) (request : Request HeaderMap B) (out : Relayed B)
      → proxy_handler http send request ≡ ok out
      → (resp : Response HeaderMap B) × (send (upstream_request http request) ≡ received resp)
        × Answers request.on_upgrade resp out
  unfolding proxy_handler
  proxy_handler-Answers send request out h =
      let (u, built, rest) = >>=-eq-ok (build_request http (upstream_request http request)) _ h in
      let (found, relays, same) =
        >>=-eq-ok (after_send http request.on_upgrade (send (upstream_request http request))) _
          rest in
      go (send (upstream_request http request)) refl
        (relays ∙ ap ok (build_response-ok found out same))
    where
      go :
          (s : Sent HeaderMap B)
          → send (upstream_request http request) ≡ s
          → after_send http request.on_upgrade s ≡ ok out
          → (resp : Response HeaderMap B) × (send (upstream_request http request) ≡ received resp)
            × Answers request.on_upgrade resp out
      go (received resp) is k =
          (resp, is, relay_response-Answers request.on_upgrade resp out (unfold after_send in k))
      go (failed chain e) is k = absurd (unfold after_send in cc)

  relay_response_status :
      (can_upgrade : Bool) (resp : Response HeaderMap B) (e : ProxyError)
      → relay_response http can_upgrade resp ≡ err e
      → (into_response e).status ≡ 502
  unfolding relay_response switch_protocols into_response
  relay_response_status can_upgrade resp e h =
      elim (Bool-cases (relay_status http resp.status == 101)) [
        | inl switching ↦ elim (Bool-cases can_upgrade) [
          | inl offer ↦ absurd (ok_ne_err (rw (switching, offer) at h))
          | inr no_offer ↦
              subst (λ x. (into_response x).status ≡ 502) (err_inj (rw (switching, no_offer) at h))
                refl
        ]
        | inr not_switching ↦ absurd (ok_ne_err (rw not_switching at h))
      ]

  build_request-err :
      (u : Upstream B) (e : ProxyError)
      → build_request http u ≡ err e
      → ((into_response e).status ≡ 500) × (http.request_error u.method u.target u.headers ≢ none)
  unfolding build_request into_response
  build_request-err u e h = elim (Option-cases (http.request_error u.method u.target u.headers)) [
    | inl fine ↦ absurd (ground arith)
    | inr (t, refused) ↦ (ground arith, λ n. cc)
  ]

  build_response-err :
      (out : Relayed B) (e : ProxyError)
      → build_response http out ≡ err e
      → ((into_response e).status ≡ 500)
        × (http.response_error (status_of http out) (headers_of http out) ≢ none)
  unfolding build_response into_response
  build_response-err out e h =
      elim (Option-cases (http.response_error (status_of http out) (headers_of http out))) [
        | inl fine ↦ absurd (ground arith)
        | inr (t, refused) ↦ (ground arith, λ n. cc)
      ]

  -- Why the handler failed: its request could not be built; sending failed, on the limit of the body
  -- or otherwise; the socket switched protocols for a client that cannot; its answer could not be
  -- built.
  pub data Failure (send : Upstream B → Sent HeaderMap B) (request : Request HeaderMap B)
      (status : ℕ) : Type 0 where
    no_request :
        (let u = upstream_request http request in
          http.request_error u.method u.target u.headers ≢ none)
        → status ≡ 500
        → Failure send request status
    over_limit :
        (chain : Chain) (text : Str)
        → send (upstream_request http request) ≡ failed chain text
        → is_length_limit_error chain ≡ true
        → status ≡ 413
        → Failure send request status
    not_sent :
        (chain : Chain) (text : Str)
        → send (upstream_request http request) ≡ failed chain text
        → is_length_limit_error chain ≡ false
        → status ≡ 502
        → Failure send request status
    no_offer :
        (resp : Response HeaderMap B)
        → send (upstream_request http request) ≡ received resp
        → resp.status ≡ 101
        → request.on_upgrade ≡ false
        → status ≡ 502
        → Failure send request status
    no_response :
        (resp : Response HeaderMap B) (out : Relayed B)
        → send (upstream_request http request) ≡ received resp
        → Answers request.on_upgrade resp out
        → http.response_error (status_of http out) (headers_of http out) ≢ none
        → status ≡ 500
        → Failure send request status

  relay_response-err :
      (can_upgrade : Bool) (resp : Response HeaderMap B) (e : ProxyError)
      → relay_response http can_upgrade resp ≡ err e
      → (resp.status ≡ 101) × (can_upgrade ≡ false)
  unfolding relay_response switch_protocols
  relay_response-err can_upgrade resp e h =
      elim (Bool-cases (relay_status http resp.status == 101)) [
        | inl switching ↦ elim (Bool-cases can_upgrade) [
          | inl offer ↦ absurd (ok_ne_err (rw (switching, offer) at h))
          | inr none_made ↦ (ground (arith, relay_status_lem http resp.status), none_made)
        ]
        | inr not_switching ↦ absurd (ok_ne_err (rw not_switching at h))
      ]

  after_send-Failure :
      (send : Upstream B → Sent HeaderMap B) (request : Request HeaderMap B) (e : ProxyError)
      (s : Sent HeaderMap B)
      → send (upstream_request http request) ≡ s
      → after_send http request.on_upgrade s ≡ err e
      → Failure send request (into_response e).status
  unfolding after_send
  after_send-Failure send request e (received resp) is h =
      let (switching, none_made) = relay_response-err request.on_upgrade resp e h in
      no_offer resp is switching none_made (relay_response_status request.on_upgrade resp e h)
  after_send-Failure send request e (failed chain text) is h =
      let same = err_inj {A = Relayed B} h in
      let (either, limit) = send_error_status chain text in
      rw (← same) (elim (Bool-cases (is_length_limit_error chain)) [
        | inl over ↦ over_limit chain text is over (limit.1 over)
        | inr other ↦
            not_sent chain text is other
              (elim either [ inl bad ↦ bad | inr large ↦ absurd (ground (arith, limit.0 large)) ])
      ])

  -- What the client gets of a failure of the handler: a 413 where sending failed on the limit of the
  -- body, a 502 where it failed otherwise or the socket switched protocols for a client that cannot,
  -- and a 500 where the request or the answer could not be built; there is no other failure.
  pub proxy_handler-status :
      (send : Upstream B → Sent HeaderMap B) (request : Request HeaderMap B) (e : ProxyError)
      → proxy_handler http send request ≡ err e
      → Failure send request (into_response e).status
  unfolding proxy_handler
  proxy_handler-status send request e h =
      elim (>>=-eq-err (build_request http (upstream_request http request)) _ h) [
        | inl refused ↦
            let (internal, why) = build_request-err (upstream_request http request) e refused in
            no_request why internal
        | inr (u, built, rest) ↦
            elim (>>=-eq-err
              (after_send http request.on_upgrade (send (upstream_request http request))) _ rest) [
                | inl early ↦ after_send-Failure send request e _ refl early
                | inr (out, relays, refused) ↦
                    let (internal, why) = build_response-err out e refused in
                    answered send request e out (send (upstream_request http request)) refl relays
                      why internal
              ]
      ]
    where
      answered :
          (send : Upstream B → Sent HeaderMap B) (request : Request HeaderMap B) (e : ProxyError)
          (out : Relayed B) (s : Sent HeaderMap B)
          → send (upstream_request http request) ≡ s
          → after_send http request.on_upgrade s ≡ ok out
          → http.response_error (status_of http out) (headers_of http out) ≢ none
          → (into_response e).status ≡ 500
          → Failure send request (into_response e).status
      answered send request e out (received resp) is k why internal =
          no_response resp out is
            (relay_response-Answers request.on_upgrade resp out (unfold after_send in k)) why
            internal
      answered send request e out (failed chain text) is k why internal =
          absurd (unfold after_send in cc)
