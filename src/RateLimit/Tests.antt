-- ===== src/RateLimit/Tests.antt =====
-- A limit of two calls in ten seconds: the bounds at concrete times.
use greencompute_api.Prelude.{◌*◌, ◌≤◌, [], ◌∷◌, arith}
use greencompute_api.RateLimit.{Bucket, Windows}
use greencompute_api.RateLimit.Burst.{count_allowed, count-burst_le}

abbrev bucket : Bucket
bucket = ("chat", "key_1")

abbrev windows : Windows
windows = (bucket, record { window_start = 3; used = 1 }) ∷ []

count-burst_le_example : count_allowed bucket 2 10 (5 ∷ 6 ∷ 13 ∷ 14 ∷ []) windows ≤ 2 * 2
count-burst_le_example = count-burst_le bucket 2 10 5 (5 ∷ 6 ∷ 13 ∷ 14 ∷ []) windows (
  (omega arith, omega arith),
  ((omega arith, omega arith), ((omega arith, omega arith), ((omega arith, omega arith), tt))),
)
