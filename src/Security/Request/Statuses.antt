-- ===== src/Security/Request/Statuses.antt =====
-- With which status a refused request is answered.
use docker_socket_proxy.Common.{
  sym, is_empty, Option, none, some, List, Bool, true, false, Option-cases, ◌≡◌, ◌⊎◌, inl, inr,
  refl, arith, Bool-cases, if◌then◌else◌, Str, codes, [], ◌∷◌, ◌++◌, ◌==◌, ℕ,
}
use docker_socket_proxy.Error.{
  forbidden, ProxyError, Result, ok, err, ◌>>=◌, >>=-eq-err, into_response,
}
use docker_socket_proxy.Security.Percent.{
  is_utf8, not_utf8, escape, accept_byte, decode_loop, percent_decode,
}
use docker_socket_proxy.Security.Profile.{SecurityFilter}
use docker_socket_proxy.Security.Filter.{check}
use docker_socket_proxy.Security.Normalize.{BodyRule, container_create, normalize_path, check_head}
use docker_socket_proxy.Security.Body.{
  Json, as_str, as_object, and_then, restricted_keys, required_labels, check_image, check_keys,
  has_host_network, check_level, levels, check_levels, check_labels, check_given_labels,
  check_object, parse_object, check_create_body, check_body, check_request,
}

-- The request could not be read, or is refused.
abbrev pub IsClientError : ProxyError → Type 0
IsClientError e = ((into_response e).status ≡ 400) ⊎ ((into_response e).status ≡ 403)

-- No error of the result is another than a client's.
OnlyClientErrors : {A : Type 0} → Result A → Type 0
OnlyClientErrors r = (e : ProxyError) → r ≡ err e → IsClientError e

bind-OnlyClientErrors :
    {A B : Type 0} (m : Result A) (f : A → Result B)
    → OnlyClientErrors m
    → ((a : A) → OnlyClientErrors (f a))
    → OnlyClientErrors (m >>= f)
unfolding OnlyClientErrors
bind-OnlyClientErrors m f hm hf e h = elim (>>=-eq-err m f h) [
  | inl first ↦ hm e first
  | inr later ↦ hf later.0 e later.2
]

ok-OnlyClientErrors : {A : Type 0} (a : A) → OnlyClientErrors (ok a)
unfolding OnlyClientErrors
ok-OnlyClientErrors a e h = cc

escape-OnlyClientErrors : (d e : ℕ) → OnlyClientErrors (escape d e)
unfolding OnlyClientErrors into_response escape accept_byte
escape-OnlyClientErrors d e x h = ground arith

decode_loop-OnlyClientErrors : (s out : Str) → OnlyClientErrors (decode_loop s out)
unfolding OnlyClientErrors decode_loop into_response
decode_loop-OnlyClientErrors [] out e h = cc
decode_loop-OnlyClientErrors (c ∷ []) out e h = ground arith
decode_loop-OnlyClientErrors (c ∷ d ∷ []) out e h =
    ground (arith, decode_loop-OnlyClientErrors (d ∷ []) (out ++ c ∷ []) e)
decode_loop-OnlyClientErrors (c ∷ d ∷ x ∷ s) out e h = elim (Bool-cases (c == b'%')) [
  | inl percent ↦
      bind-OnlyClientErrors (escape d x) (λ b. decode_loop s (out ++ b ∷ []))
        (escape-OnlyClientErrors d x) (λ b. decode_loop-OnlyClientErrors s (out ++ b ∷ [])) e
        (rw percent at h)
  | inr other ↦ decode_loop-OnlyClientErrors (d ∷ x ∷ s) (out ++ c ∷ []) e (rw other at h)
]

percent_decode-OnlyClientErrors : (path : Str) → OnlyClientErrors (percent_decode path)
unfolding percent_decode OnlyClientErrors
percent_decode-OnlyClientErrors path =
    bind-OnlyClientErrors (decode_loop path []) _ (decode_loop-OnlyClientErrors path []) checked
  where
    checked : (out : Str) → OnlyClientErrors (if is_utf8 out then ok out else err not_utf8)
    checked out e h = unfold into_response in ground arith

normalize_path-OnlyClientErrors : (path : Str) → OnlyClientErrors (normalize_path path)
unfolding normalize_path
normalize_path-OnlyClientErrors path =
    bind-OnlyClientErrors (percent_decode path) _ (percent_decode-OnlyClientErrors path)
      (λ _. ok-OnlyClientErrors _)

check-OnlyClientErrors :
    (f : SecurityFilter) (method path : Str) → OnlyClientErrors (check f method path)
unfolding check OnlyClientErrors into_response
check-OnlyClientErrors f method path e h = ground arith

check_head-OnlyClientErrors :
    (f : SecurityFilter) (method path : Str) → OnlyClientErrors (check_head f method path)
unfolding check_head
check_head-OnlyClientErrors f method path =
    bind-OnlyClientErrors (normalize_path path) _ (normalize_path-OnlyClientErrors path)
      (λ normalized.
        bind-OnlyClientErrors (check f method normalized) _
          (check-OnlyClientErrors f method normalized) (λ _. ok-OnlyClientErrors _))

err_inj : {A : Type 0} {e d : ProxyError} → ◌≡◌ {A = Result A} (err e) (err d) → e ≡ d
err_inj h = cc

-- The checks of a create body refuse with `forbidden` only.
OnlyForbidden : {A : Type 0} → Result A → Type 0
OnlyForbidden r = (e : ProxyError) → r ≡ err e → (message : Str) × (e ≡ forbidden message)

bind-OnlyForbidden :
    {A B : Type 0} (m : Result A) (f : A → Result B)
    → OnlyForbidden m
    → ((a : A) → OnlyForbidden (f a))
    → OnlyForbidden (m >>= f)
unfolding OnlyForbidden
bind-OnlyForbidden m f hm hf e h = elim (>>=-eq-err m f h) [
  | inl first ↦ hm e first
  | inr later ↦ hf later.0 e later.2
]

ok-OnlyForbidden : {A : Type 0} (a : A) → OnlyForbidden (ok a)
unfolding OnlyForbidden
ok-OnlyForbidden a e h = cc

guard-OnlyForbidden :
    {A : Type 0} (b : Bool) (message : Str) (rest : Result A)
    → OnlyForbidden rest
    → OnlyForbidden (if b then err (forbidden message) else rest)
unfolding OnlyForbidden
guard-OnlyForbidden true message rest h e same = (message, cc)
guard-OnlyForbidden false message rest h e same = h e same

check_image-OnlyForbidden : (o : Option Str) → OnlyForbidden (check_image o)
unfolding check_image
check_image-OnlyForbidden none = guard-OnlyForbidden true _ (ok tt) (ok-OnlyForbidden tt)
check_image-OnlyForbidden (some image) =
    guard-OnlyForbidden (is_empty image) _ (ok tt) (ok-OnlyForbidden tt)

module _ (json : Json) where
  open json use {Object, Value, get, from_slice, shape}

  check_keys-OnlyForbidden : (o : Object) (ks : List Str) → OnlyForbidden (check_keys json o ks)
  unfolding check_keys
  check_keys-OnlyForbidden o [] = ok-OnlyForbidden tt
  check_keys-OnlyForbidden o (k ∷ ks) =
      guard-OnlyForbidden _ _ (check_keys json o ks) (check_keys-OnlyForbidden o ks)

  check_level-OnlyForbidden : (o : Object) → OnlyForbidden (check_level json o)
  unfolding check_level
  check_level-OnlyForbidden o =
      bind-OnlyForbidden (check_keys json o restricted_keys) _
        (check_keys-OnlyForbidden o restricted_keys)
        (λ _. guard-OnlyForbidden (has_host_network json o) _ (ok tt) (ok-OnlyForbidden tt))

  check_levels-OnlyForbidden : (os : List Object) → OnlyForbidden (check_levels json os)
  unfolding check_levels
  check_levels-OnlyForbidden [] = ok-OnlyForbidden tt
  check_levels-OnlyForbidden (o ∷ os) =
      bind-OnlyForbidden (check_level json o) _ (check_level-OnlyForbidden o)
        (λ _. check_levels-OnlyForbidden os)

  check_labels-OnlyForbidden :
      (labels : Object) (required : List Str) → OnlyForbidden (check_labels json labels required)
  unfolding check_labels
  check_labels-OnlyForbidden labels [] = ok-OnlyForbidden tt
  check_labels-OnlyForbidden labels (label ∷ rest) =
      guard-OnlyForbidden _ _ (check_labels json labels rest)
        (check_labels-OnlyForbidden labels rest)

  check_given_labels-OnlyForbidden :
      (labels : Option Object) → OnlyForbidden (check_given_labels json labels)
  unfolding check_given_labels
  check_given_labels-OnlyForbidden none = ok-OnlyForbidden tt
  check_given_labels-OnlyForbidden (some labels) = check_labels-OnlyForbidden labels required_labels

  check_object-OnlyForbidden : (o : Object) → OnlyForbidden (check_object json o)
  unfolding check_object
  check_object-OnlyForbidden o =
      bind-OnlyForbidden (check_image (and_then (get o (codes "Image")) (as_str json))) _
        (check_image-OnlyForbidden _)
        (λ _.
          bind-OnlyForbidden (check_levels json (levels json o)) _
            (check_levels-OnlyForbidden (levels json o)) (λ _. check_given_labels-OnlyForbidden _))

  parse_object-OnlyForbidden : (body : Str) → OnlyForbidden (parse_object json body)
  unfolding OnlyForbidden parse_object
  parse_object-OnlyForbidden body e h = elim (Option-cases (from_slice body)) [
    | inl broken ↦ (_, sym (err_inj (rw (broken, parse_object) at h)))
    | inr (v, found) ↦ elim (Option-cases (as_object json v)) [
      | inl scalar ↦ (_, sym (err_inj (rw (found, scalar, parse_object) at h)))
      | inr (o, object) ↦ cc (rw (found, object, parse_object) at h)
    ]
  ]

  check_body-OnlyForbidden :
      (rule : BodyRule) (body : Str) → OnlyForbidden (check_body json rule body)
  unfolding check_body check_create_body
  check_body-OnlyForbidden BodyRule.none body = ok-OnlyForbidden tt
  check_body-OnlyForbidden container_create body =
      bind-OnlyForbidden (parse_object json body) _ (parse_object-OnlyForbidden body)
        check_object-OnlyForbidden

  check_body-OnlyClientErrors :
      (rule : BodyRule) (body : Str) → OnlyClientErrors (check_body json rule body)
  unfolding OnlyClientErrors OnlyForbidden into_response
  check_body-OnlyClientErrors rule body e h =
      let (message, same) = (check_body-OnlyForbidden rule body) e h in rw same (inr refl)

  -- A request that is refused, be it for its path, by the policy or for its body, is answered with 400
  -- or 403.
  pub check_request-status :
      (f : SecurityFilter) (method path body : Str) (e : ProxyError)
      → check_request json f method path body ≡ err e
      → IsClientError e
  unfolding check_request OnlyClientErrors
  check_request-status f method path body e h =
      bind-OnlyClientErrors (check_head f method path) (λ rule. check_body json rule body)
        (check_head-OnlyClientErrors f method path) (λ rule. check_body-OnlyClientErrors rule body)
        e h
