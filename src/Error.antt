-- ===== src/Error.antt =====
-- src/error.rs: the error type, the result of a fallible operation, and the response to an error.
use docker_socket_proxy.Common.{
  ℕ, Str, codes, ◌++◌, Bool, false, ◌≡◌, ◌↔◌, ◌⊎◌, inl, inr, refl, if◌then◌else◌, arith,
}

-- Each variant carries its message.
pub data ProxyError : Type 0 where
  config forbidden bad_request too_large docker internal : Str → ProxyError

pub data Result {ℓ} (A : Type ℓ) : Type ℓ where
  ok : A → Result A
  err : ProxyError → Result A

-- the text of an error, as `thiserror` derives it
unfoldable pub display : ProxyError → Str
display (config msg) = codes "configuration error: " ++ msg
display (forbidden msg) = codes "access denied: " ++ msg
display (bad_request msg) = codes "bad request: " ++ msg
display (too_large msg) = codes "payload too large: " ++ msg
display (docker msg) = codes "docker socket error: " ++ msg
display (internal msg) = codes "internal error: " ++ msg

-- `?` on a result: the rest of the function, or the early return
infixl 5 ◌>>=◌
abbrev pub ◌>>=◌ {ℓ κ} :
    {Value : Type ℓ} {Out : Type κ} → Result Value → (Value → Result Out) → Result Out
err early >>= rest = err early
ok value >>= rest = rest value

-- `?` on a check
infixl 5 ◌>>◌
abbrev pub ◌>>◌ {ℓ} : {Out : Type ℓ} → Result (Unit {0}) → Result Out → Result Out
check >> rest = check >>= λ _. rest

-- A chain succeeds only where its first part does, and the rest on that part's value.
pub >>=-eq-ok {ℓ κ} :
    {Value : Type ℓ} {Out : Type κ} (first : Result Value) (rest : Value → Result Out) {out : Out}
    → (first >>= rest) ≡ ok out
    → (value : Value) × (first ≡ ok value) × (rest value ≡ ok out)
>>=-eq-ok (err early) rest {out} succeeds = cc
>>=-eq-ok (ok value) rest succeeds = (value, refl, succeeds)

-- The status and the message of the JSON body `{"message": …}`; the rendering is serde_json's.
pub record ErrorResponse : Type 0 where
  pub status : ℕ
  pub message : Str

unfoldable pub into_response : ProxyError → ErrorResponse
into_response (config msg) = record { status = 400; message = msg }
into_response (forbidden msg) = record { status = 403; message = msg }
into_response (bad_request msg) = record { status = 400; message = msg }
into_response (too_large msg) = record { status = 413; message = msg }
into_response (docker msg) = record { status = 502; message = msg }
into_response (internal msg) = record { status = 500; message = msg }

-- Two checks in a row succeed exactly when both do.
pub >>_iff : (m k : Result (Unit {0})) → ((m >> k) ≡ ok tt) ↔ ((m ≡ ok tt) × (k ≡ ok tt))
>>_iff (ok u) k = ((λ h. (refl, h)), (λ h. h.1))
>>_iff (err e) k = ((λ h. cc), (λ h. cc (h.0)))

-- A test that fails with an error.
pub guard_iff :
    (b : Bool) (e : ProxyError)
    → (◌≡◌ {A = Result (Unit {0})} (if b then err e else ok tt) (ok tt)) ↔ (b ≡ false)
guard_iff b e = ground arith

-- Where the error of a chain comes from.
pub >>=-eq-err {ℓ κ} :
    {Value : Type ℓ} {Out : Type κ} (first : Result Value) (rest : Value → Result Out)
    {e : ProxyError}
    → (first >>= rest) ≡ err e
    → (first ≡ err e) ⊎ ((value : Value) × (first ≡ ok value) × (rest value ≡ err e))
>>=-eq-err (err early) rest fails = inl (cc)
>>=-eq-err (ok value) rest fails = inr (value, refl, fails)

-- Two checks in a row fail with the first's error, or with the second's where the first succeeds.
pub >>-err_iff :
    (m k : Result (Unit {0})) (e : ProxyError)
    → ((m >> k) ≡ err e) ↔ ((m ≡ err e) ⊎ ((m ≡ ok tt) × (k ≡ err e)))
>>-err_iff (ok u) k e = ((λ h. inr (refl, h)), (λ h. elim h [ inl f ↦ cc | inr s ↦ s.1 ]))
>>-err_iff (err d) k e = ((λ h. inl (cc)), (λ h. elim h [ inl f ↦ cc | inr s ↦ cc (s.0) ]))
