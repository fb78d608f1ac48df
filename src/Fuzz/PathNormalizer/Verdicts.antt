-- ===== src/Fuzz/PathNormalizer/Verdicts.antt =====
-- What the fuzz target can see of the code that it drives.
use docker_socket_proxy.Common.{All, All-append, false, true, ◌≡◌, ◌≢◌, refl, Str}
use docker_socket_proxy.Error.{Result, ok, err, >>=-eq-ok}
use docker_socket_proxy.Security.Profile.{SecurityFilter, deny_all}
use docker_socket_proxy.Security.Filter.{check}
use docker_socket_proxy.Security.Filter.Decision.{check_iff}
use docker_socket_proxy.Security.Normalize.{BodyRule, container_create, normalize_path, check_head}
use docker_socket_proxy.Security.Body.{Json, check_body, check_request}
use docker_socket_proxy.Policy.Document.{push_allow, push_deny, push_exclude}
use docker_socket_proxy.Fuzz.PathNormalizer.{
  is_ok, other_arm, fuzz_filter, assertion, path_normalizer,
}

module _ (json : Json) (lossy : Str → Str) where
  assertion-true :
      (filter : SecurityFilter) (method path : Str) (head : Result BodyRule)
      → check_head filter method path ≡ head
      → assertion json lossy filter method path head ≡ true
  unfolding assertion check_request check_body
  assertion-true filter method path (ok BodyRule.none) is = rw is
  assertion-true filter method path (ok container_create) is = refl
  assertion-true filter method path (err e) is = refl

  -- The assertion of the fuzz target holds on every input.
  path_normalizer-true : (input : Str) → (path_normalizer json lossy input).0 ≡ true
  unfolding path_normalizer
  path_normalizer-true input = assertion-true _ _ _ _ refl

-- The filter that the target builds refuses every request, since it excludes and denies what it
-- allows: no head is ever accepted, and the target's assertion is never reached.
fuzz_filter-refuses :
    (method pattern m path : Str)
    → (check (fuzz_filter method pattern) m path ≢ ok tt)
      × ((rule : BodyRule) → check_head (fuzz_filter method pattern) m path ≢ ok rule)
unfolding fuzz_filter push_allow push_deny push_exclude deny_all check_head
fuzz_filter-refuses method pattern m path = (refuses path, λ rule h. accepts rule h)
  where
    refuses : (path : Str) → check (fuzz_filter method pattern) m path ≢ ok tt
    refuses path h =
        let permits = (check_iff (fuzz_filter method pattern) m path).0 h in permits.0 permits.2

    accepts : (rule : BodyRule) → check_head (fuzz_filter method pattern) m path ≢ ok rule
    accepts rule h =
        let (normalized, _, rest) = >>=-eq-ok (normalize_path path) _ h in
        let (u, allowed, _) = >>=-eq-ok (check (fuzz_filter method pattern) m normalized) _ rest in
        refuses normalized allowed

refused_lem : (d : Result (Unit {0})) → d ≢ ok tt → is_ok d ≡ false
refused_lem (ok u) n = absurd (n refl)
refused_lem (err e) n = refl

module _ (json : Json) (lossy : Str → Str) where
  request-refused :
      (method pattern m path body : Str)
      → is_ok (check_request json (fuzz_filter method pattern) m path body) ≡ false
  unfolding check_request
  request-refused method pattern m path body = refused_lem _ (λ h.
      let (rule, head, _) = >>=-eq-ok (check_head (fuzz_filter method pattern) m path) _ h in
      (fuzz_filter-refuses method pattern m path).1 rule head)

  other_arm-refused :
      (method pattern m path : Str) (head : Result BodyRule)
      → All (λ d. is_ok d ≡ false) (other_arm json lossy (fuzz_filter method pattern) m path head)
  unfolding other_arm
  other_arm-refused method pattern m path (ok BodyRule.none) = tt
  other_arm-refused method pattern m path (ok container_create) =
      (request-refused method pattern m path _, tt)
  other_arm-refused method pattern m path (err e) = (request-refused method pattern m path _, tt)

  check-refused :
      (method pattern m path : Str) → is_ok (check (fuzz_filter method pattern) m path) ≡ false
  check-refused method pattern m path =
      refused_lem _ ((fuzz_filter-refuses method pattern m path).0)

  -- Every result that the target throws away is a refusal.
  path_normalizer-refuses :
      (input : Str) → All (λ d. is_ok d ≡ false) ((path_normalizer json lossy input).1)
  unfolding path_normalizer
  path_normalizer-refuses input = (
    check-refused _ _ _ _,
    All-append _ _ _ (other_arm-refused _ _ _ _ _)
        (check-refused _ _ _ _, (request-refused _ _ _ _ _, tt)),
  )
