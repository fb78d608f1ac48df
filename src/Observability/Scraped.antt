-- ===== src/Observability/Scraped.antt =====
-- What a scraper reads of the counters: the value of a sample is what follows its name and label on the
-- first line that begins with them.
use docker_socket_proxy.Common.{
  ℕ, ◌^◌, ◌<◌, List, [], ◌∷◌, ◌++◌, Option, none, some, ◌==◌, Lacks, if◌then◌else◌, Str, codes,
  split, cons_first, ◌≡◌, refl, arith, Bool-cases, inl, inr,
}
use docker_socket_proxy.Observability.{Metrics, decimal, render, allowed_sample, denied_sample}
use docker_socket_proxy.Observability.Rendered.{decimal-Lacks}
use docker_socket_proxy.Middleware.{parse_u64}
use docker_socket_proxy.Middleware.Declared.{parse_u64-decimal}

strip_prefix : Str → Str → Option Str
strip_prefix [] s = some s
strip_prefix (c ∷ prefix) [] = none
strip_prefix (c ∷ prefix) (d ∷ s) = if c == d then strip_prefix prefix s else none

-- the number on the first line with the prefix
first_value : Str → List Str → Option ℕ
first_value prefix [] = none
first_value prefix (line ∷ lines) = elim (strip_prefix prefix line) [
  | none ↦ first_value prefix lines
  | some rest ↦ parse_u64 rest
]

-- The value that a text in the format of Prometheus gives a label of the counter.
unfoldable pub sample_of : (outcome : Str) → (text : Str) → Option ℕ
unfolding strip_prefix first_value
sample_of outcome text =
    first_value (codes "docker_socket_proxy_requests_total{outcome=\"" ++ (outcome ++ codes "\"} "))
      (split 10 text)

-- The first line of a text.
split-line : (s t : Str) → Lacks 10 s → split 10 (s ++ 10 ∷ t) ≡ s ∷ split 10 t
unfolding split
split-line [] t lacks = refl
split-line (c ∷ s) t (n, lacks) = elim (Bool-cases (c == 10)) [
  | inl feed ↦ absurd (n (ground arith))
  | inr other ↦ rw (other, split-line s t lacks) (unfold cons_first in refl)
]

lines_of_render :
    (m : Metrics)
    → split 10 (render m)
      ≡ codes "# HELP docker_socket_proxy_requests_total Requests by policy outcome."
        ∷ codes "# TYPE docker_socket_proxy_requests_total counter"
        ∷ (allowed_sample ++ decimal m.allowed)
        ∷ (denied_sample ++ decimal m.denied)
        ∷ []
        ∷ []
unfolding render split cons_first
lines_of_render m =
    rw
      (
        split-line (decimal m.allowed) (denied_sample ++ (decimal m.denied ++ 10 ∷ []))
            (decimal-Lacks m.allowed),
        split-line (decimal m.denied) [] (decimal-Lacks m.denied),
      )
      refl

-- A scraper of `/metrics` reads the counter of allowed requests under the label `allowed` and that of
-- denied requests under `denied`.
pub sample_of-render :
    (m : Metrics)
    → m.allowed < 2 ^ 64
    → m.denied < 2 ^ 64
    → (sample_of (codes "allowed") (render m) ≡ some m.allowed)
      × (sample_of (codes "denied") (render m) ≡ some m.denied)
unfolding sample_of strip_prefix first_value
sample_of-render m small small' = (
  rw (lines_of_render m) (parse_u64-decimal m.allowed small),
  rw (lines_of_render m) (parse_u64-decimal m.denied small'),
)
