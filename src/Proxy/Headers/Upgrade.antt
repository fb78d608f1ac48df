-- ===== src/Proxy/Headers/Upgrade.antt =====
-- The headers of the request to the daemon.
use docker_socket_proxy.Common.{
  List, Option, none, some, ◌≡◌, ◌⊎◌, ◌↔◌, inl, inr, refl, ap, ◌∙◌, Bool-cases, Member, Str, codes,
  contains, contains_iff, Member-append, Member-append_left, Member-append_right,
}
use docker_socket_proxy.Http.{HeaderMaps, Request}
use docker_socket_proxy.Proxy.Headers.{
  connection_specific_headers, requested_upgrade, request_headers, upgrade_headers,
}
use docker_socket_proxy.Proxy.Headers.Kept.{IsDropped, request_headers_iff}
use docker_socket_proxy.Proxy.Handler.{upstream_request}

pub Member-upgrade_headers :
    (o : Option Str) (k v : Str)
    → Member (k, v) (upgrade_headers o) ↔ (
        (protocol : Str) × (o ≡ some protocol)
        × (((k ≡ codes "connection") × (v ≡ codes "upgrade"))
            ⊎ ((k ≡ codes "upgrade") × (v ≡ protocol))))
unfolding upgrade_headers
Member-upgrade_headers none k v = ((λ m. absurd m), (λ h. cc (h.1)))
Member-upgrade_headers (some p) k v = (
  (λ m. elim m [
    | inl e ↦ (p, refl, inl (ap (λ x. x.0) e, ap (λ x. x.1) e))
    | inr later ↦ elim later [
      | inl e ↦ (p, refl, inr (ap (λ x. x.0) e, ap (λ x. x.1) e))
      | inr no_more ↦ absurd no_more
    ]
  ]),
  (λ (q, same, h). elim h [
    | inl both ↦ inl (λ i. (both.0 i, both.1 i))
    | inr both ↦ inr (inl (λ i. (both.0 i, (both.1 ∙ same_protocol q same) i)))
  ]),
)
  where
    same_protocol : (q : Str) → some p ≡ some q → q ≡ p
    same_protocol q e = cc

module _ (http : HeaderMaps) where
  open http use {HeaderMap, iter, get}

  -- The offer of an upgrade that the proxy makes on its own hop.
  abbrev pub IsOffer : HeaderMap → Str → Str → Type 0
  IsOffer hs k v =
      Member (codes "upgrade") (connection_specific_headers http hs)
      × ((protocol : Str) × (get hs (codes "upgrade") ≡ some protocol)
          × (((k ≡ codes "connection") × (v ≡ codes "upgrade"))
              ⊎ ((k ≡ codes "upgrade") × (v ≡ protocol))))

  requested_upgrade_iff :
      (hs : HeaderMap) (listed : List Str) (protocol : Str)
      → (requested_upgrade http hs listed ≡ some protocol)
        ↔ (Member (codes "upgrade") listed × (get hs (codes "upgrade") ≡ some protocol))
  unfolding requested_upgrade
  requested_upgrade_iff hs listed protocol = elim (Bool-cases (contains listed (codes "upgrade"))) [
    | inl offered ↦
        rw offered ((λ h. ((contains_iff listed (codes "upgrade")).0 offered, h)), (λ h. h.1))
    | inr bare ↦
        rw bare ((λ h. cc), (λ h. cc (bare, (contains_iff listed (codes "upgrade")).1 h.0)))
  ]

  upgrade_iff :
      (hs : HeaderMap) (k v : Str)
      → Member
          (k, v)
          (upgrade_headers (requested_upgrade http hs (connection_specific_headers http hs)))
        ↔ IsOffer hs k v
  upgrade_iff hs k v =
      let listed = connection_specific_headers http hs in
      let found = Member-upgrade_headers (requested_upgrade http hs listed) k v in
      (
        (λ m.
            let (p, offered, h) = found.0 m in
            let (names, is) = (requested_upgrade_iff hs listed p).0 offered in (names, (p, is, h))),
        (λ (names, (p, is, h)). found.1 (p, (requested_upgrade_iff hs listed p).1 (names, is), h)),
      )

  -- What the daemon receives: the client's headers that pass this hop, and a fresh `Connection` and
  -- `Upgrade` if the client offered an upgrade, that is, named it in `Connection` too.
  pub upstream_headers_iff :
      {B : Type 0} (request : Request HeaderMap B) (k v : Str)
      → Member (k, v) (upstream_request http request).headers ↔ (
          (Member (k, v) (iter request.headers)
            × ¬ IsDropped (connection_specific_headers http request.headers) k)
          ⊎ IsOffer request.headers k v)
  unfolding upstream_request
  upstream_headers_iff request k v =
      let listed = connection_specific_headers http request.headers in
      let plain = request_headers listed (iter request.headers) in
      let offer = upgrade_headers (requested_upgrade http request.headers listed) in
      (
        (λ m. elim (Member-append (k, v) plain offer m) [
          | inl p ↦ inl ((request_headers_iff listed (iter request.headers) k v).0 p)
          | inr o ↦ inr ((upgrade_iff request.headers k v).0 o)
        ]),
        (λ h. elim h [
          | inl p ↦
              Member-append_left (k, v) plain offer
                ((request_headers_iff listed (iter request.headers) k v).1 p)
          | inr o ↦ Member-append_right (k, v) plain offer ((upgrade_iff request.headers k v).1 o)
        ]),
      )
