-- ===== src/Policy/Compat/Endpoints.antt =====
-- Which paths the section and operation variables cover.
use mathlib.Core.Path.{subst}
use docker_socket_proxy.Common.{
  true, List, [], ◌∷◌, ◌++◌, slash, ◌≡◌, ◌⊎◌, ◌↔◌, inl, inr, refl, Bool-cases, Member,
  Member-append, Member-append_left, Member-append_right, Str,
}
use docker_socket_proxy.Security.Pattern.Matches.{Matches}
use docker_socket_proxy.Security.Rule.Laws.{Covers}
use docker_socket_proxy.Policy.Environment.{Env}
use docker_socket_proxy.Policy.Compat.{
  granted, sections, operations, section_endpoints, operation_endpoints, compat_endpoints,
}

-- A section that is granted covers its exact path and what lies under it.
pub SectionGrants : Env → List (Str × Str) → Str → Type 0
SectionGrants env table path =
    (entry : Str × Str) × Member entry table
    × (granted env entry.0 ≡ true)
    × (Matches entry.1 path ⊎ Matches (entry.1 ++ slash ∷ []) path)

-- An operation that is granted covers the paths of its table entry.
pub OperationGrants : Env → List (Str × List Str) → Str → Type 0
OperationGrants env table path =
    (entry : Str × List Str) × Member entry table
    × (granted env entry.0 ≡ true)
    × Covers entry.1 path

skip_section :
    (env : Env) (entry : Str × Str) (table : List (Str × Str)) (path : Str)
    → SectionGrants env table path
    → SectionGrants env (entry ∷ table) path
unfolding SectionGrants
skip_section env entry table path (e, m, on, how) = (e, inr m, on, how)

first_section :
    (env : Env) (name section : Str) (table : List (Str × Str)) (path : Str)
    → granted env name ≡ true
    → Matches section path ⊎ Matches (section ++ slash ∷ []) path
    → SectionGrants env ((name, section) ∷ table) path
unfolding SectionGrants
first_section env name section table path on how = ((name, section), inl refl, on, how)

section_endpoints-Covers :
    (env : Env) (table : List (Str × Str)) (path : Str)
    → Covers (section_endpoints env table) path
    → SectionGrants env table path
unfolding section_endpoints
section_endpoints-Covers env [] path (e, m, q) = absurd m
section_endpoints-Covers env ((name, section) ∷ rest) path (e, m, q) =
    let later : Member e (section_endpoints env rest)
        → SectionGrants env ((name, section) ∷ rest) path =
      λ k.
        skip_section env (name, section) rest path
          (section_endpoints-Covers env rest path (e, k, q)) in
    elim (Bool-cases (granted env name)) [
      | inl on ↦ elim (rw on at m) [
        | inl same ↦
            first_section env name section rest path on (inl (subst (λ x. Matches x path) same q))
        | inr (inl same) ↦
            first_section env name section rest path on (inr (subst (λ x. Matches x path) same q))
        | inr (inr k) ↦ later k
      ]
      | inr off ↦ later (rw off at m)
    ]

Member-section_endpoints :
    (env : Env) (table : List (Str × Str)) (entry : Str × Str)
    → Member entry table
    → granted env entry.0 ≡ true
    → Member entry.1 (section_endpoints env table)
      × Member (entry.1 ++ slash ∷ []) (section_endpoints env table)
unfolding section_endpoints
Member-section_endpoints env [] entry m on = absurd m
Member-section_endpoints env ((name, section) ∷ rest) entry (inl same) on =
    let here : granted env name ≡ true = cc in rw (here, same) (inl refl, inr (inl refl))
Member-section_endpoints env ((name, section) ∷ rest) entry (inr m) on =
    let (exact, under) = Member-section_endpoints env rest entry m on in
    elim (Bool-cases (granted env name)) [
      | inl here ↦ rw here (inr (inr exact), inr (inr under))
      | inr off ↦ rw off (exact, under)
    ]

skip_operation :
    (env : Env) (entry : Str × List Str) (table : List (Str × List Str)) (path : Str)
    → OperationGrants env table path
    → OperationGrants env (entry ∷ table) path
unfolding OperationGrants
skip_operation env entry table path (e, m, on, how) = (e, inr m, on, how)

first_operation :
    (env : Env) (name : Str) (paths : List Str) (table : List (Str × List Str)) (path : Str)
    → granted env name ≡ true
    → Covers paths path
    → OperationGrants env ((name, paths) ∷ table) path
unfolding OperationGrants
first_operation env name paths table path on c = ((name, paths), inl refl, on, c)

operation_endpoints-Covers :
    (env : Env) (table : List (Str × List Str)) (path : Str)
    → Covers (operation_endpoints env table) path
    → OperationGrants env table path
unfolding operation_endpoints
operation_endpoints-Covers env [] path (e, m, q) = absurd m
operation_endpoints-Covers env ((name, paths) ∷ rest) path (e, m, q) =
    let later : Member e (operation_endpoints env rest)
        → OperationGrants env ((name, paths) ∷ rest) path =
      λ k.
        skip_operation env (name, paths) rest path
          (operation_endpoints-Covers env rest path (e, k, q)) in
    elim (Bool-cases (granted env name)) [
      | inl on ↦ elim (Member-append e paths (operation_endpoints env rest) (rw on at m)) [
        | inl k ↦ first_operation env name paths rest path on (e, k, q)
        | inr k ↦ later k
      ]
      | inr off ↦ later (rw off at m)
    ]

Member-operation_endpoints :
    (env : Env) (table : List (Str × List Str)) (entry : Str × List Str) (e : Str)
    → Member entry table
    → granted env entry.0 ≡ true
    → Member e entry.1
    → Member e (operation_endpoints env table)
unfolding operation_endpoints
Member-operation_endpoints env [] entry e m on k = absurd m
Member-operation_endpoints env ((name, paths) ∷ rest) entry e (inl same) on k =
    let here : granted env name ≡ true = cc in
    rw here (Member-append_left e paths _ (subst (λ (x : Str × List Str). Member e x.1) same k))
Member-operation_endpoints env ((name, paths) ∷ rest) entry e (inr m) on k =
    let later = Member-operation_endpoints env rest entry e m on k in
    elim (Bool-cases (granted env name)) [
      | inl here ↦ rw here (Member-append_right e paths _ later)
      | inr off ↦ rw off later
    ]

Covers-sections :
    (env : Env) (path : Str) → SectionGrants env sections path → Covers (compat_endpoints env) path
unfolding SectionGrants compat_endpoints
Covers-sections env path (entry, m, on, how) =
    let (exact, under) = Member-section_endpoints env sections entry m on in
    elim how [
      | inl q ↦ (entry.1, Member-append_left entry.1 _ _ exact, q)
      | inr q ↦ (entry.1 ++ slash ∷ [], Member-append_left (entry.1 ++ slash ∷ []) _ _ under, q)
    ]

Covers-operations :
    (env : Env) (path : Str)
    → OperationGrants env operations path
    → Covers (compat_endpoints env) path
unfolding OperationGrants compat_endpoints
Covers-operations env path (entry, m, on, (e, k, q)) = (
  e,
  Member-append_right e (section_endpoints env sections) _
      (Member-operation_endpoints env operations entry e m on k),
  q,
)

-- What the section and operation variables cover together.
pub endpoints_iff :
    (env : Env) (path : Str)
    → Covers (compat_endpoints env) path
      ↔ (SectionGrants env sections path ⊎ OperationGrants env operations path)
unfolding compat_endpoints
endpoints_iff env path = (
  (λ (e, m, q). elim (Member-append e (section_endpoints env sections) _ m) [
    | inl k ↦ inl (section_endpoints-Covers env sections path (e, k, q))
    | inr k ↦ inr (operation_endpoints-Covers env operations path (e, k, q))
  ]),
  (λ h. elim h [ inl s ↦ Covers-sections env path s | inr o ↦ Covers-operations env path o ]),
)
