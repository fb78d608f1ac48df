-- ===== src/Security/Filter/Decision.antt =====
-- `check` against the deny-overrides reading of a policy.
use docker_socket_proxy.Common.{◌≡◌, ◌↔◌, inl, inr, arith, Bool-cases, Str, codes}
use docker_socket_proxy.Error.{ProxyError, forbidden, ok, err}
use docker_socket_proxy.Security.Rules
use docker_socket_proxy.Security.Rules.Laws.{RulesApply}
use docker_socket_proxy.Security.Rules.Laws
use docker_socket_proxy.Security.Profile.{SecurityFilter}
use docker_socket_proxy.Security.Filter.{reason, check}

module _ (f : SecurityFilter) (method path : Str) where
  -- Some allowance applies, and neither an exclusion nor a denial does.
  abbrev pub Permits : Type 0
  Permits =
      ¬ RulesApply f.exclude method path
      × ¬ RulesApply f.deny method path
      × RulesApply f.allow method path

  -- The reason of a refusal names the first rule that decided.
  pub data Refused (e : ProxyError) : Type 0 where
    excluded :
        RulesApply f.exclude method path
        → e ≡ forbidden (reason (codes "excluded by policy: ") method path)
        → Refused e
    blocked :
        ¬ RulesApply f.exclude method path
        → RulesApply f.deny method path
        → e ≡ forbidden (reason (codes "blocked endpoint: ") method path)
        → Refused e
    not_allowed :
        ¬ RulesApply f.exclude method path
        → ¬ RulesApply f.deny method path
        → ¬ RulesApply f.allow method path
        → e ≡ forbidden (reason (codes "not allowed: ") method path)
        → Refused e

  -- `check` allows a method on a path exactly when some allow rule applies to them and no exclude and
  -- no deny rule does.
  pub check_iff : (check f method path ≡ ok tt) ↔ Permits
  unfolding check
  check_iff = ground (
    arith,
    Laws.matches_iff f.exclude method path,
    Laws.matches_iff f.deny method path,
    Laws.matches_iff f.allow method path,
  )

  check-eq-err : (e : ProxyError) → check f method path ≡ err e → Refused e
  unfolding check
  check-eq-err e h = elim (Bool-cases (Rules.matches f.exclude method path)) [
    | inl ex ↦ excluded ((Laws.matches_iff f.exclude method path).0 ex) (ground arith)
    | inr no_ex ↦ elim (Bool-cases (Rules.matches f.deny method path)) [
      | inl deny ↦
          blocked (λ a. cc ((Laws.matches_iff f.exclude method path).1 a))
            ((Laws.matches_iff f.deny method path).0 deny) (ground arith)
      | inr no_deny ↦
          not_allowed (λ a. cc ((Laws.matches_iff f.exclude method path).1 a))
            (λ a. cc ((Laws.matches_iff f.deny method path).1 a))
            (λ a. cc (h, (Laws.matches_iff f.allow method path).1 a, no_ex, no_deny)) (ground arith)
    ]
  ]

  Refused-check : (e : ProxyError) → Refused e → check f method path ≡ err e
  unfolding check
  Refused-check e (excluded ex same) = ground (arith, (Laws.matches_iff f.exclude method path).1 ex)
  Refused-check e (blocked no_ex deny same) = ground (
    arith,
    (Laws.matches_iff f.deny method path).1 deny,
    (Laws.matches_iff f.exclude method path).0,
  )
  Refused-check e (not_allowed no_ex no_deny no_allow same) = ground (
    arith,
    Laws.matches_iff f.exclude method path,
    Laws.matches_iff f.deny method path,
    Laws.matches_iff f.allow method path,
  )

  -- `check` refuses with an error exactly when that is the error of the first decision that goes
  -- against the request: excluded, blocked, or not allowed.
  pub check_err_iff : (e : ProxyError) → (check f method path ≡ err e) ↔ Refused e
  check_err_iff e = (check-eq-err e, Refused-check e)
