-- ===== src/Observability/Rendered.antt =====
-- What a scrape of the counters tells.
use docker_socket_proxy.Common.{
  ℕ, zero, suc, ◌/◌, ◌^◌, ◌<◌, [], ◌∷◌, ◌++◌, some, ltb, All-append, Lacks, Str, ◌≡◌, inl, inr,
  refl, sym, ap, ◌∙◌, arith, Bool-cases,
}
use docker_socket_proxy.Observability.{
  Metrics, decimal_digits, decimal, render, comment_lines, allowed_sample, denied_sample,
}
use docker_socket_proxy.Middleware.{parse_u64}
use docker_socket_proxy.Middleware.Declared.{parse_u64-decimal}

tail_inj : {x y : ℕ} {xs ys : Str} → ◌≡◌ {A = Str} (x ∷ xs) (y ∷ ys) → (x ≡ y) × (xs ≡ ys)
tail_inj h = (cc, cc)

append_cancel : (xs ys zs : Str) → xs ++ ys ≡ xs ++ zs → ys ≡ zs
append_cancel [] ys zs h = h
append_cancel (x ∷ xs) ys zs h = append_cancel xs ys zs (tail_inj h).1

-- A text that lacks the line feed is found again in front of the first one.
cut_line : (s t r u : Str) → Lacks 10 s → Lacks 10 t → s ++ 10 ∷ r ≡ t ++ 10 ∷ u → (s ≡ t) × (r ≡ u)
cut_line [] [] r u ls lt h = (refl, cc)
cut_line [] (d ∷ t) r u ls (n, lt) h = absurd (n (sym (tail_inj h).0))
cut_line (c ∷ s) [] r u (n, ls) lt h = absurd (n (tail_inj h).0)
cut_line (c ∷ s) (d ∷ t) r u (n, ls) (m, lt) h =
    let (same, rest) = cut_line s t r u ls lt (tail_inj h).1 in
    (ap (λ x. x ∷ s) (tail_inj h).0 ∙ ap (λ xs. d ∷ xs) same, rest)

decimal_digits-Lacks : (f n : ℕ) → Lacks 10 (decimal_digits f n)
unfolding decimal_digits
decimal_digits-Lacks zero n = tt
decimal_digits-Lacks (suc f) n = elim (Bool-cases (ltb n 10)) [
  | inl one ↦ rw one (ground arith, tt)
  | inr more ↦ rw more (
      All-append _ (decimal_digits f (n / 10)) _ (decimal_digits-Lacks f (n / 10))
        (ground arith, tt))
]

some_inj : {n m : ℕ} → some n ≡ some m → n ≡ m
some_inj h = cc

decimal_inj : (n m : ℕ) → n < 2 ^ 64 → m < 2 ^ 64 → decimal n ≡ decimal m → n ≡ m
decimal_inj n m small small' h =
    some_inj (sym (parse_u64-decimal n small) ∙ ap parse_u64 h ∙ parse_u64-decimal m small')

pub decimal-Lacks : (n : ℕ) → Lacks 10 (decimal n)
unfolding decimal
decimal-Lacks n = decimal_digits-Lacks 20 n

Metrics_eq : (m k : Metrics) → m.allowed ≡ k.allowed → m.denied ≡ k.denied → m ≡ k
Metrics_eq m k allowed denied = cc

-- The body of `/metrics` determines both counters.
render_inj :
    (m k : Metrics)
    → m.allowed < 2 ^ 64
    → m.denied < 2 ^ 64
    → k.allowed < 2 ^ 64
    → k.denied < 2 ^ 64
    → render m ≡ render k
    → m ≡ k
unfolding render
render_inj m k am dm ak dk h =
    let samples = append_cancel comment_lines _ _ h in
    let values = append_cancel allowed_sample _ _ samples in
    let (allowed, rest) =
      cut_line (decimal m.allowed) (decimal k.allowed) _ _ (decimal-Lacks m.allowed)
        (decimal-Lacks k.allowed) values in
    let value = append_cancel denied_sample _ _ rest in
    let (denied, _) =
      cut_line (decimal m.denied) (decimal k.denied) [] [] (decimal-Lacks m.denied)
        (decimal-Lacks k.denied) value in
    Metrics_eq m k (decimal_inj m.allowed k.allowed am ak allowed)
      (decimal_inj m.denied k.denied dm dk denied)
