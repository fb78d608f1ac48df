-- ===== src/Policy/Compat/Laws.antt =====
-- What the filter of the section variables grants.
use mathlib.Core.Path.{subst}
use mathlib.Core.List.{cons-ne-nil}
use docker_socket_proxy.Common.{
  true, false, [], ◌∷◌, some, ◌≡◌, ◌≢◌, ◌⊎◌, ◌↔◌, inl, inr, sym, arith, Bool-cases, Member, Str,
  codes,
}
use docker_socket_proxy.Config.{SecurityProfile}
use docker_socket_proxy.Error.{ok}
use docker_socket_proxy.Security.Rule.Laws.{Applies}
use docker_socket_proxy.Security.Rules.Laws.{RulesApply, push_iff}
use docker_socket_proxy.Security.Profile.{SecurityFilter, deny_all}
use docker_socket_proxy.Security.Filter.{check}
use docker_socket_proxy.Security.Filter.Decision.{check_iff}
use docker_socket_proxy.Policy.Document.{push_allow}
use docker_socket_proxy.Policy.Environment.{Env}
use docker_socket_proxy.Policy.Compat.{
  granted, sections, operations, compat_endpoints, compat_methods, compatibility_filter,
}
use docker_socket_proxy.Policy.Compat.Endpoints.{SectionGrants, OperationGrants, endpoints_iff}

-- The filter that the variables make.
compat_policy : Env → SecurityFilter
compat_policy env = push_allow deny_all (some (compat_methods env)) (some (compat_endpoints env))

compatibility_filter_lem :
    (env : Env) (profile : SecurityProfile) (f : SecurityFilter)
    → compatibility_filter env profile ≡ ok (some f)
    → f ≡ compat_policy env
unfolding compatibility_filter compat_policy
compatibility_filter_lem env profile f h = ground arith

no_rules_iff : {A : Type 0} (method path : Str) → (RulesApply [] method path ⊎ A) ↔ A
no_rules_iff method path = ((λ h. elim h [ inl r ↦ absurd (r.1) | inr a ↦ a ]), (λ a. inr a))

compat_policy_iff :
    (env : Env) (method path : Str)
    → (check (compat_policy env) method path ≡ ok tt)
      ↔ Applies (compat_methods env) (compat_endpoints env) method path
unfolding compat_policy push_allow deny_all
compat_policy_iff env method path =
    let step = push_iff [] (some (compat_methods env)) (some (compat_endpoints env)) method path in
    let decision = check_iff (compat_policy env) method path in
    (
      (λ h. (no_rules_iff method path).0 (step.0 ((decision.0 h).2))),
      (λ a. decision.1 (λ r. absurd r.1, λ r. absurd r.1, step.1 (inr a))),
    )

methods_iff :
    (env : Env) (method : Str)
    → ((compat_methods env ≡ []) ⊎ Member method (compat_methods env))
      ↔ ((granted env (codes "POST") ≡ true) ⊎ (method ≡ codes "GET") ⊎ (method ≡ codes "HEAD"))
unfolding compat_methods
methods_iff env method = elim (Bool-cases (granted env (codes "POST"))) [
  | inl on ↦ ((λ _. inl on), (λ _. inl (rw on)))
  | inr off ↦ (
    (λ h. elim (rw off at h) [
      | inl q ↦ cc
      | inr (inl e) ↦ inr (inl e)
      | inr (inr (inl e)) ↦ inr (inr e)
      | inr (inr (inr n)) ↦ absurd n
    ]),
    (λ h.
        rw off
          (elim h [ inl on ↦ cc | inr (inl e) ↦ inr (inl e) | inr (inr e) ↦ inr (inr (inl e)) ])),
  )
]

-- Where the section variables make the filter and grant at least one endpoint, a request is allowed exactly when
-- POST is granted or the method is GET or HEAD, and a granted section or operation covers the path.
pub compat_iff :
    (env : Env) (profile : SecurityProfile) (f : SecurityFilter) (method path : Str)
    → compatibility_filter env profile ≡ ok (some f)
    → compat_endpoints env ≢ []
    → (check f method path ≡ ok tt) ↔ (
        ((granted env (codes "POST") ≡ true) ⊎ (method ≡ codes "GET") ⊎ (method ≡ codes "HEAD"))
        × (SectionGrants env sections path ⊎ OperationGrants env operations path))
compat_iff env profile f method path h some_endpoint =
    let decision = compat_policy_iff env method path in
    let same = compatibility_filter_lem env profile f h in
    (
      (λ allowed.
          let a = decision.0 (subst (λ g. check g method path ≡ ok tt) same allowed) in
          (
            (methods_iff env method).0 a.on_method,
            elim a.on_path [
              | inl q ↦ absurd (some_endpoint q)
              | inr c ↦ (endpoints_iff env path).0 c
            ],
          )),
      (λ (m, c).
          subst (λ g. check g method path ≡ ok tt) (sym same)
            (decision.1 record {
              active = inr some_endpoint;
              on_method = (methods_iff env method).1 m;
              on_path = inr ((endpoints_iff env path).1 c);
            })),
    )

-- Where the section variables make the filter, with no endpoint granted and POST not granted, GET and HEAD are allowed on every path: the
-- filter's one rule then has an empty endpoint side, which is a wildcard.
pub compat_open :
    (env : Env) (profile : SecurityProfile) (f : SecurityFilter) (method path : Str)
    → compatibility_filter env profile ≡ ok (some f)
    → compat_endpoints env ≡ []
    → granted env (codes "POST") ≡ false
    → (check f method path ≡ ok tt) ↔ ((method ≡ codes "GET") ⊎ (method ≡ codes "HEAD"))
unfolding compat_methods
compat_open env profile f method path h no_endpoint no_post =
    let decision = compat_policy_iff env method path in
    let same = compatibility_filter_lem env profile f h in
    let methods = methods_iff env method in
    (
      (λ allowed.
          elim (methods.0
            (decision.0 (subst (λ g. check g method path ≡ ok tt) same allowed)).on_method) [
              | inl on ↦ cc
              | inr m ↦ m
            ]),
      (λ m.
          subst (λ g. check g method path ≡ ok tt) (sym same)
            (decision.1 record {
              active = inl (rw no_post (cons-ne-nil (codes "GET") (codes "HEAD" ∷ [])));
              on_method = methods.1 (inr m);
              on_path = inl no_endpoint;
            })),
    )
