-- ===== src/Middleware/Declared.antt =====
-- A declared content length, as the header writes it, against the limit.
use docker_socket_proxy.Common.{
  ℕ, zero, suc, ◌+◌, ◌-◌, ◌*◌, ◌/◌, ◌%◌, ◌^◌, ◌<◌, true, false, [], ◌∷◌, ◌++◌, none, some, ltb,
  if◌then◌else◌, ◌≡◌, inl, inr, refl, ap, ◌∙◌, arith, Bool-cases, Str, codes,
}
use docker_socket_proxy.Http.{HeaderMaps}
use docker_socket_proxy.Observability.{decimal_digits, decimal}
use docker_socket_proxy.Middleware.{
  parse_digits, parse_u64, declared_length, exceeds, too_long, oversized_declaration,
}

-- Reading one more digit behind a number that was read.
parse_digits-append :
    (n : ℕ) (s : Str) (m d : ℕ)
    → parse_digits n s ≡ some m
    → d < 10
    → m * 10 + d < 2 ^ 64
    → parse_digits n (s ++ (48 + d) ∷ []) ≡ some (m * 10 + d)
unfolding parse_digits
parse_digits-append n [] m d h small fits = ground arith
parse_digits-append n (c ∷ s) m d h small fits =
    ground (arith, parse_digits-append (n * 10 + (c - 48)) s m d)

-- 10 to a power
tens : ℕ → ℕ
tens zero = 1
tens (suc f) = 10 * tens f

-- The digits of a number of several digits: those of its tenth, and its last.
decimal_digits-more :
    (f n : ℕ)
    → ltb n 10 ≡ false
    → decimal_digits (suc f) n ≡ decimal_digits f (n / 10) ++ (48 + n % 10) ∷ []
unfolding decimal_digits
decimal_digits-more f n more = rw more refl

-- The digit of a number of one.
decimal_digits-one : (f n : ℕ) → ltb n 10 ≡ true → decimal_digits (suc f) n ≡ (48 + n) ∷ []
unfolding decimal_digits
decimal_digits-one f n digit = rw digit refl

parse_digits-one : (n : ℕ) → ltb n 10 ≡ true → n < 2 ^ 64 → parse_digits 0 ((48 + n) ∷ []) ≡ some n
unfolding parse_digits
parse_digits-one n digit fits = ground arith

whole : (n : ℕ) → n / 10 * 10 + n % 10 ≡ n
whole n = omega arith

is_digit : (n : ℕ) → n < tens 1 → ltb n 10 ≡ true
unfolding tens
is_digit n small = ground arith

tenth : (f n : ℕ) → n < tens (suc (suc f)) → n / 10 < tens (suc f)
unfolding tens
tenth f n small = omega arith

parse_digits-decimal_digits :
    (f n : ℕ) → n < tens (suc f) → n < 2 ^ 64 → parse_digits 0 (decimal_digits (suc f) n) ≡ some n
parse_digits-decimal_digits zero n small fits =
    let digit = is_digit n small in
    rw (decimal_digits-one 0 n digit) (parse_digits-one n digit fits)
parse_digits-decimal_digits (suc f) n small fits = elim (Bool-cases (ltb n 10)) [
  | inl digit ↦ rw (decimal_digits-one (suc f) n digit) (parse_digits-one n digit fits)
  | inr more ↦ rw (decimal_digits-more (suc f) n more) (
      parse_digits-append 0 (decimal_digits (suc f) (n / 10)) (n / 10) (n % 10)
        (parse_digits-decimal_digits f (n / 10) (tenth f n small) (omega arith)) (omega arith)
        (rw (whole n) fits)
      ∙ ap (λ k. some k) (whole n))
]

parse_u64_of_digits :
    (c : ℕ) (s : Str) (n : ℕ) → parse_digits 0 (c ∷ s) ≡ some n → parse_u64 (c ∷ s) ≡ some n
unfolding parse_u64 parse_digits
parse_u64_of_digits c [] n h = ground arith
parse_u64_of_digits c (d ∷ s) n h = ground arith

-- Written digits are not empty.
decimal_digits-cons : (f n : ℕ) → (c : ℕ) × ((s : Str) × (decimal_digits (suc f) n ≡ c ∷ s))
decimal_digits-cons zero n = elim (Bool-cases (ltb n 10)) [
  | inl digit ↦ (48 + n, ([], decimal_digits-one 0 n digit))
  | inr more ↦ (48 + n % 10, ([], unfold decimal_digits in decimal_digits-more 0 n more))
]
decimal_digits-cons (suc f) n = elim (Bool-cases (ltb n 10)) [
  | inl digit ↦ (48 + n, ([], decimal_digits-one (suc f) n digit))
  | inr more ↦
      let (c, (s, same)) = decimal_digits-cons f (n / 10) in
      (c, (s ++ (48 + n % 10) ∷ [], rw (decimal_digits-more (suc f) n more, same) refl))
]

enough : (n : ℕ) → n < 2 ^ 64 → n < tens 20
unfolding tens
enough n fits = omega arith

-- Reading a 64-bit number back from its decimal digits gives the number.
pub parse_u64-decimal : (n : ℕ) → n < 2 ^ 64 → parse_u64 (decimal n) ≡ some n
unfolding decimal
parse_u64-decimal n fits =
    let (c, (s, same)) = decimal_digits-cons 19 n in
    let read = parse_digits-decimal_digits 19 n (enough n fits) fits in
    ap parse_u64 same ∙ parse_u64_of_digits c s n (rw same at read)

-- A request whose declared length is written in decimal is refused for it exactly above the limit.
pub oversized_declaration-decimal :
    (http : HeaderMaps) (headers : http.HeaderMap) (max n : ℕ)
    → n < 2 ^ 64
    → http.get headers (codes "content-length") ≡ some (decimal n)
    → http.to_str (decimal n) ≡ some (decimal n)
    → oversized_declaration http headers max ≡ (if ltb max n then some (exceeds max) else none)
unfolding oversized_declaration declared_length too_long
oversized_declaration-decimal http headers max n fits given readable =
    rw (given, readable, parse_u64-decimal n fits) refl
