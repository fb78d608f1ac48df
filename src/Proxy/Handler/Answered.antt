-- ===== src/Proxy/Handler/Answered.antt =====
-- The headers of the answer that the client gets.
use mathlib.Core.Path.{subst}
use docker_socket_proxy.Common.{
  ℕ, ◌≢◌, Bool, ◌++◌, some, ◌≡◌, ◌⊎◌, ◌↔◌, ◌==◌, inl, inr, ◌∙◌, ap, Bool-cases, Member,
  Member-append, Member-append_left, Member-append_right, Str, codes,
}
use docker_socket_proxy.Error.{ProxyError, Result, ok, err, >>=-eq-ok}
use docker_socket_proxy.Http.{Headers, HeaderMaps, Request}
use docker_socket_proxy.Proxy.Headers.{
  connection_specific_headers, response_headers, upgrade_headers,
}
use docker_socket_proxy.Proxy.Headers.Kept.{EndsHere, response_headers_iff}
use docker_socket_proxy.Proxy.Headers.Upgrade.{Member-upgrade_headers}
use docker_socket_proxy.Proxy.Handler.{
  Response, Sent, received, Relayed, relayed, spliced, Upstream, headers_of, upstream_request,
  relay_status, switch_protocols, relay_response, after_send, build_request, proxy_handler,
}
use docker_socket_proxy.Proxy.Handler.Outcome.{build_response-ok}

-- Whether a connection is spliced.
abbrev pub IsSpliced : {B : Type 0} → Relayed B → Type 0
IsSpliced (relayed response) = ⊥
IsSpliced (spliced status headers) = Unit

err_ne_ok : {A : Type 0} {e : ProxyError} {a : A} → err e ≢ ok a
err_ne_ok h = cc

ok_inj : {A : Type 0} {a b : A} → ◌≡◌ {A = Result A} (ok a) (ok b) → a ≡ b
ok_inj h = cc

module _ (http : HeaderMaps) {B : Type 0} where
  open http use {HeaderMap, iter, get}

  -- A header of the socket's answer that does not end at this hop, of those that it names itself.
  abbrev pub Passes : Response HeaderMap B → Str → Str → Type 0
  Passes resp k v =
      Member (k, v) (iter resp.headers)
      × ¬ EndsHere (connection_specific_headers http resp.headers) k

  -- The upgrade that the socket accepted, offered anew.
  abbrev pub Accepts : Response HeaderMap B → Str → Str → Type 0
  Accepts resp k v =
      (protocol : Str) × (get resp.headers (codes "upgrade") ≡ some protocol)
      × (((k ≡ codes "connection") × (v ≡ codes "upgrade"))
          ⊎ ((k ≡ codes "upgrade") × (v ≡ protocol)))

  -- The headers of an answer, if it is one of this response.
  abbrev HasHeaders : Response HeaderMap B → Relayed B → Type 0
  HasHeaders resp out =
      (k v : Str)
      → Member (k, v) (headers_of http out) ↔ (Passes resp k v ⊎ (IsSpliced out × Accepts resp k v))

  kept : Response HeaderMap B → Headers
  kept resp = response_headers (connection_specific_headers http resp.headers) (iter resp.headers)

  relayed-HasHeaders :
      (resp : Response HeaderMap B) (status : ℕ)
      → HasHeaders resp
          (relayed (record { status = status; headers = kept resp; body = resp.body }))
  unfolding kept
  relayed-HasHeaders resp status k v =
      let passes =
        response_headers_iff (connection_specific_headers http resp.headers) (iter resp.headers) k
          v in
      ((λ m. inl (passes.0 m)), (λ h. elim h [ inl p ↦ passes.1 p | inr both ↦ absurd both.0 ]))

  spliced-HasHeaders :
      (resp : Response HeaderMap B) (status : ℕ)
      → HasHeaders resp
          (spliced status (kept resp ++ upgrade_headers (get resp.headers (codes "upgrade"))))
  unfolding kept
  spliced-HasHeaders resp status k v =
      let passes =
        response_headers_iff (connection_specific_headers http resp.headers) (iter resp.headers) k
          v in
      let accepts = Member-upgrade_headers (get resp.headers (codes "upgrade")) k v in
      let offer = upgrade_headers (get resp.headers (codes "upgrade")) in
      (
        (λ m. elim (Member-append (k, v) (kept resp) offer m) [
          | inl p ↦ inl (passes.0 p)
          | inr o ↦ inr (tt, accepts.0 o)
        ]),
        (λ h. elim h [
          | inl p ↦ Member-append_left (k, v) (kept resp) offer (passes.1 p)
          | inr both ↦ Member-append_right (k, v) (kept resp) offer (accepts.1 both.1)
        ]),
      )

  relay_response-HasHeaders :
      (can_upgrade : Bool) (resp : Response HeaderMap B) (out : Relayed B)
      → relay_response http can_upgrade resp ≡ ok out
      → HasHeaders resp out
  unfolding relay_response switch_protocols kept
  relay_response-HasHeaders can_upgrade resp out h =
      elim (Bool-cases (relay_status http resp.status == 101)) [
        | inl switching ↦ elim (Bool-cases can_upgrade) [
          | inl offer ↦
              subst (HasHeaders resp) (ok_inj (rw (switching, offer) at h))
                (spliced-HasHeaders resp (relay_status http resp.status))
          | inr no_offer ↦ absurd (err_ne_ok (rw (switching, no_offer) at h))
        ]
        | inr not_switching ↦
            subst (HasHeaders resp) (ok_inj (rw not_switching at h))
              (relayed-HasHeaders resp (relay_status http resp.status))
      ]

  -- The headers of the client's answer: those of the socket's answer that do not end at this hop, by
  -- the names that its own `Connection` fields list, and, where a connection is spliced, a fresh
  -- `Connection` and `Upgrade` with the protocol that the socket accepted.
  pub proxy_handler-headers :
      (send : Upstream B → Sent HeaderMap B) (request : Request HeaderMap B) (out : Relayed B)
      (resp : Response HeaderMap B) (k v : Str)
      → proxy_handler http send request ≡ ok out
      → send (upstream_request http request) ≡ received resp
      → Member (k, v) (headers_of http out) ↔ (Passes resp k v ⊎ (IsSpliced out × Accepts resp k v))
  unfolding proxy_handler after_send
  proxy_handler-headers send request out resp k v h is =
      let (u, built, rest) = >>=-eq-ok (build_request http (upstream_request http request)) _ h in
      let (found, relays, same) =
        >>=-eq-ok (after_send http request.on_upgrade (send (upstream_request http request))) _
          rest in
      relay_response-HasHeaders request.on_upgrade resp out
        (subst (λ sent. after_send http request.on_upgrade sent ≡ ok found) is relays
          ∙ ap ok (build_response-ok http found out same))
        k v
