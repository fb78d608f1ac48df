-- ===== src/Security/Request.antt =====
-- The whole decision on a request: path, policy and body.
pub mod Statuses
use docker_socket_proxy.Common.{
  ◌≡◌, ◌⊎◌, ◌↔◌, inl, inr, refl, arith, Bool-cases, if◌then◌else◌, Str, codes, str_eq_iff, [], ◌∷◌,
  ◌++◌, some, ◌==◌, ℕ,
}
use docker_socket_proxy.Error.{
  ProxyError, Result, ok, err, ◌>>=◌, >>=-eq-ok, >>=-eq-err, into_response,
}
use docker_socket_proxy.Security.Percent.{
  is_utf8, not_utf8, escape, accept_byte, decode_loop, percent_decode,
}
use docker_socket_proxy.Security.Profile.{SecurityFilter}
use docker_socket_proxy.Security.Filter.{check}
use docker_socket_proxy.Security.Filter.Decision.{Permits, check_iff}
use docker_socket_proxy.Security.Normalize.{
  BodyRule, container_create, body_rule, create_path, normalize_path, check_head,
}
use docker_socket_proxy.Security.Body.{Json, object, check_body, check_request}
use docker_socket_proxy.Security.Body.Permitted.{IsPermitted, check_create_body_iff}

-- A create request, on its normalised path.
abbrev pub IsCreate : Str → Str → Type 0
IsCreate method path = (method ≡ codes "POST") × (path ≡ create_path)

pub body_rule_iff :
    (method path : Str) → (body_rule method path ≡ container_create) ↔ IsCreate method path
unfolding body_rule
body_rule_iff method path =
    ground (arith, str_eq_iff method (codes "POST"), str_eq_iff path create_path)

-- The head is accepted exactly when the path can be normalised and the policy permits the result;
-- what it reports is whether this is a create request.
pub check_head_iff :
    (f : SecurityFilter) (method path : Str) (rule : BodyRule)
    → (check_head f method path ≡ ok rule) ↔ (
        (normalized : Str) × (normalize_path path ≡ ok normalized)
        × Permits f method normalized
        × (rule ≡ body_rule method normalized))
unfolding check_head
check_head_iff f method path rule = (
  (λ h.
      let (normalized, found, rest) = >>=-eq-ok (normalize_path path) _ h in
      let (u, allowed, same) = >>=-eq-ok (check f method normalized) _ rest in
      (normalized, found, (check_iff f method normalized).0 allowed, ground arith)),
  (λ (normalized, found, permits, same).
      rw (found, (check_iff f method normalized).1 permits, same)),
)

pub rule_cases : (r : BodyRule) → (r ≡ BodyRule.none) ⊎ (r ≡ container_create)
rule_cases BodyRule.none = inl refl
rule_cases container_create = inr refl

module _ (json : Json) where
  open json use {Value, Object, from_slice, shape}

  -- A body that may create a container.
  abbrev pub PermitsBody : Str → Type 0
  PermitsBody body =
      (v : Value) × (o : Object) × (from_slice body ≡ some v)
      × (shape v ≡ object o)
      × IsPermitted json o

  check_body_iff :
      (method path body : Str)
      → (check_body json (body_rule method path) body ≡ ok tt)
        ↔ (IsCreate method path → PermitsBody body)
  unfolding check_body
  check_body_iff method path body = elim (rule_cases (body_rule method path)) [
    | inl plain ↦
        rw plain ((λ _ create. cc (plain, (body_rule_iff method path).1 create)), (λ _. refl))
    | inr create ↦ rw create (
      (λ h _. (check_create_body_iff json body).0 h),
      (λ h. (check_create_body_iff json body).1 (h ((body_rule_iff method path).0 create))),
    )
  ]

  -- A request is let through exactly when its path normalises, the policy permits its method and
  -- normalised path and, if it creates a container, its body is permitted.
  pub check_request_iff :
      (f : SecurityFilter) (method path body : Str)
      → (check_request json f method path body ≡ ok tt) ↔ (
          (normalized : Str) × (normalize_path path ≡ ok normalized)
          × Permits f method normalized
          × (IsCreate method normalized → PermitsBody body))
  unfolding check_request
  check_request_iff f method path body = (
    (λ h.
        let (rule, head, rest) = >>=-eq-ok (check_head f method path) _ h in
        let (normalized, found, permits, same) = (check_head_iff f method path rule).0 head in
        (normalized, found, permits, (check_body_iff method normalized body).0 (rw same at rest))),
    (λ (normalized, found, permits, inspected).
        rw ((check_head_iff f method path _).1 (normalized, found, permits, refl))
          ((check_body_iff method normalized body).1 inspected)),
  )
