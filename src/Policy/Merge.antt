-- ===== src/Policy/Merge.antt =====
-- What a document and the environment add to a filter.
use docker_socket_proxy.Common.{Option, none, some, ◌≡◌, ◌⊎◌, ◌↔◌, inl, inr, refl, ◌∙◌, Str, codes}
use mathlib.Core.Path.{subst}
use docker_socket_proxy.Security.Rule.{flatten}
use docker_socket_proxy.Security.Rule.Laws.{Applies}
use docker_socket_proxy.Security.Rules.Laws.{RulesApply, push_iff}
use docker_socket_proxy.Security.Profile.{SecurityFilter}
use docker_socket_proxy.Policy.Document.{
  EndpointSet, PolicyDocument, push_allow, push_deny, push_exclude, apply_set, apply_document,
}
use docker_socket_proxy.Policy.Environment.{Env, env_methods, env_endpoints, apply_environment}

-- A section of the document applies as one rule.
abbrev pub SetApplies : Option EndpointSet → Str → Str → Type 0
SetApplies none method path = ⊥
SetApplies (some set) method path =
    Applies (flatten set.methods) (flatten set.endpoints) method path

-- The variables of one prefix apply as one rule.
abbrev pub EnvApplies : Env → Str → Str → Str → Type 0
EnvApplies env prefix method path =
    Applies (flatten (env_methods env prefix)) (flatten (env_endpoints env prefix)) method path

trans_iff : {A B C : Type 0} → A ↔ B → B ↔ C → A ↔ C
trans_iff f g = ((λ a. g.0 (f.0 a)), (λ c. f.1 (g.1 c)))

or_left_iff : {A B C : Type 0} → A ↔ B → (A ⊎ C) ↔ (B ⊎ C)
or_left_iff f = (
  (λ h. elim h [ inl a ↦ inl (f.0 a) | inr c ↦ inr c ]),
  (λ h. elim h [ inl b ↦ inl (f.1 b) | inr c ↦ inr c ]),
)

no_more_iff : {A : Type 0} → A ↔ (A ⊎ ⊥)
no_more_iff = ((λ a. inl a), (λ h. elim h [ inl a ↦ a | inr n ↦ absurd n ]))

module _ (method path : Str) where
  set_allow_iff :
      (o : Option EndpointSet) (f : SecurityFilter)
      → RulesApply (apply_set push_allow o f).allow method path
        ↔ (RulesApply f.allow method path ⊎ SetApplies o method path)
  unfolding apply_set push_allow
  set_allow_iff none f = no_more_iff
  set_allow_iff (some set) f = push_iff f.allow set.methods set.endpoints method path

  set_deny_iff :
      (o : Option EndpointSet) (f : SecurityFilter)
      → RulesApply (apply_set push_deny o f).deny method path
        ↔ (RulesApply f.deny method path ⊎ SetApplies o method path)
  unfolding apply_set push_deny
  set_deny_iff none f = no_more_iff
  set_deny_iff (some set) f = push_iff f.deny set.methods set.endpoints method path

  set_exclude_iff :
      (o : Option EndpointSet) (f : SecurityFilter)
      → RulesApply (apply_set push_exclude o f).exclude method path
        ↔ (RulesApply f.exclude method path ⊎ SetApplies o method path)
  unfolding apply_set push_exclude
  set_exclude_iff none f = no_more_iff
  set_exclude_iff (some set) f = push_iff f.exclude set.methods set.endpoints method path

-- A section leaves the two other lists and the profile alone.
set_allow_keeps :
    (o : Option EndpointSet) (f : SecurityFilter)
    → ((apply_set push_allow o f).deny ≡ f.deny) × ((apply_set push_allow o f).exclude ≡ f.exclude)
unfolding apply_set push_allow
set_allow_keeps none f = (refl, refl)
set_allow_keeps (some set) f = (refl, refl)

set_deny_keeps :
    (o : Option EndpointSet) (f : SecurityFilter)
    → ((apply_set push_deny o f).allow ≡ f.allow) × ((apply_set push_deny o f).exclude ≡ f.exclude)
unfolding apply_set push_deny
set_deny_keeps none f = (refl, refl)
set_deny_keeps (some set) f = (refl, refl)

set_exclude_keeps :
    (o : Option EndpointSet) (f : SecurityFilter)
    → ((apply_set push_exclude o f).allow ≡ f.allow) × ((apply_set push_exclude o f).deny ≡ f.deny)
unfolding apply_set push_exclude
set_exclude_keeps none f = (refl, refl)
set_exclude_keeps (some set) f = (refl, refl)

document_allow_iff :
    (f : SecurityFilter) (d : PolicyDocument) (method path : Str)
    → RulesApply (apply_document f d).allow method path ↔ (
        (RulesApply f.allow method path ⊎ SetApplies d.allow method path)
        ⊎ SetApplies d.include method path)
unfolding apply_document
document_allow_iff f d method path =
    let first = apply_set push_allow d.allow f in
    let second = apply_set push_allow d.include first in
    rw
      (
        (set_exclude_keeps d.exclude (apply_set push_deny d.deny second)).0,
        (set_deny_keeps d.deny second).0,
      )
      (trans_iff (set_allow_iff method path d.include first)
        (or_left_iff (set_allow_iff method path d.allow f)))

document_deny_iff :
    (f : SecurityFilter) (d : PolicyDocument) (method path : Str)
    → RulesApply (apply_document f d).deny method path
      ↔ (RulesApply f.deny method path ⊎ SetApplies d.deny method path)
unfolding apply_document
document_deny_iff f d method path =
    let first = apply_set push_allow d.allow f in
    let second = apply_set push_allow d.include first in
    rw ((set_exclude_keeps d.exclude (apply_set push_deny d.deny second)).1) (
      trans_iff (set_deny_iff method path d.deny second) (
        or_left_iff (
          subst (λ rs. RulesApply second.deny method path ↔ RulesApply rs method path)
            ((set_allow_keeps d.include first).0 ∙ (set_allow_keeps d.allow f).0)
            ((λ a. a), (λ a. a)))))

document_exclude_iff :
    (f : SecurityFilter) (d : PolicyDocument) (method path : Str)
    → RulesApply (apply_document f d).exclude method path
      ↔ (RulesApply f.exclude method path ⊎ SetApplies d.exclude method path)
unfolding apply_document
document_exclude_iff f d method path =
    let first = apply_set push_allow d.allow f in
    let second = apply_set push_allow d.include first in
    let third = apply_set push_deny d.deny second in
    trans_iff (set_exclude_iff method path d.exclude third) (
      or_left_iff (
        subst (λ rs. RulesApply third.exclude method path ↔ RulesApply rs method path)
          ((set_deny_keeps d.deny second).1
            ∙ (set_allow_keeps d.include first).1
            ∙ (set_allow_keeps d.allow f).1)
          ((λ a. a), (λ a. a))))

environment_allow_iff :
    (f : SecurityFilter) (env : Env) (method path : Str)
    → RulesApply (apply_environment f env).allow method path ↔ (
        (RulesApply f.allow method path ⊎ EnvApplies env (codes "ALLOW") method path)
        ⊎ EnvApplies env (codes "INCLUDE") method path)
unfolding apply_environment push_allow push_deny push_exclude
environment_allow_iff f env method path =
    trans_iff
      (push_iff _ (env_methods env (codes "INCLUDE")) (env_endpoints env (codes "INCLUDE")) method
        path)
      (or_left_iff (
        push_iff f.allow (env_methods env (codes "ALLOW")) (env_endpoints env (codes "ALLOW"))
          method path))

environment_deny_iff :
    (f : SecurityFilter) (env : Env) (method path : Str)
    → RulesApply (apply_environment f env).deny method path
      ↔ (RulesApply f.deny method path ⊎ EnvApplies env (codes "DENY") method path)
unfolding apply_environment push_allow push_deny push_exclude
environment_deny_iff f env method path =
    push_iff f.deny (env_methods env (codes "DENY")) (env_endpoints env (codes "DENY")) method path

environment_exclude_iff :
    (f : SecurityFilter) (env : Env) (method path : Str)
    → RulesApply (apply_environment f env).exclude method path
      ↔ (RulesApply f.exclude method path ⊎ EnvApplies env (codes "EXCLUDE") method path)
unfolding apply_environment push_allow push_deny push_exclude
environment_exclude_iff f env method path =
    push_iff f.exclude (env_methods env (codes "EXCLUDE")) (env_endpoints env (codes "EXCLUDE"))
      method path

-- The filter after a document and the environment have been merged into it.
abbrev pub merged : SecurityFilter → PolicyDocument → Env → SecurityFilter
merged f d env = apply_environment (apply_document f d) env

-- Each list of the merged filter applies exactly where the old one did, or where a section of the
-- document or the variables of a prefix that belong to that list do.
pub merged_iff :
    (f : SecurityFilter) (d : PolicyDocument) (env : Env) (method path : Str)
    → (RulesApply (merged f d env).allow method path ↔ (
        (((RulesApply f.allow method path ⊎ SetApplies d.allow method path)
            ⊎ SetApplies d.include method path)
          ⊎ EnvApplies env (codes "ALLOW") method path)
        ⊎ EnvApplies env (codes "INCLUDE") method path))
      × (RulesApply (merged f d env).deny method path ↔ (
          (RulesApply f.deny method path ⊎ SetApplies d.deny method path)
          ⊎ EnvApplies env (codes "DENY") method path))
      × (RulesApply (merged f d env).exclude method path ↔ (
          (RulesApply f.exclude method path ⊎ SetApplies d.exclude method path)
          ⊎ EnvApplies env (codes "EXCLUDE") method path))
merged_iff f d env method path =
    let g = apply_document f d in
    (
      trans_iff (environment_allow_iff g env method path)
          (or_left_iff (or_left_iff (document_allow_iff f d method path))),
      trans_iff (environment_deny_iff g env method path)
          (or_left_iff (document_deny_iff f d method path)),
      trans_iff (environment_exclude_iff g env method path)
          (or_left_iff (document_exclude_iff f d method path)),
    )
