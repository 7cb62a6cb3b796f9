-- ===== src/RateLimit.antt =====
-- packages/persistence/.../rate_limit.py: FixedWindowRateLimiter. Times are microseconds.
pub mod Burst
mod Tests
use greencompute_api.Prelude.{
  ℕ, ◌+◌, ◌-◌, String, ◌≡◌, refl, ◌↔◌, Bool, true, false, ◌&&◌, Option, none, some, List, [], ◌∷◌,
  ◌==◌, string_eq, eq_iff, HasEquality, if◌then◌else◌, leb, arith, ap,
}
use greencompute_api.Prelude.Dict.{Dict, lookup, insert}

pub record RateLimitResult : Type 0 where
  pub allowed : Bool
  pub remaining : ℕ
  pub reset_at : ℕ

-- The start of a bucket's window, and the calls that it let through.
pub record Window : Type 0 where
  pub window_start : ℕ
  pub used : ℕ

-- A namespace and a key.
abbrev pub Bucket : Type 0
Bucket = String × String

abbrev pub bucket_equal : Bucket → Bucket → Bool
bucket_equal (n, k) (m, j) = n == m && k == j

pub bucket_equal_iff : (a b : Bucket) → (bucket_equal a b ≡ true) ↔ (a ≡ b)
bucket_equal_iff (n, k) (m, j) = (
  λ e. ground (arith, eq_iff n m, eq_iff k j),
  λ e.
      let same_namespace : n ≡ m = ap (λ (b : Bucket). b.0) e in
      let same_key : k ≡ j = ap (λ (b : Bucket). b.1) e in ground (arith, eq_iff n m, eq_iff k j),
)

instance abbrev pub bucket_eq : HasEquality Bucket
bucket_eq = record { equal = bucket_equal; equal_iff = bucket_equal_iff }

abbrev pub Windows : Type 0
Windows = Dict Bucket Window

-- The defaultdict's value.
abbrev pub window_of : Option Window → Window
window_of none = record { window_start = 0; used = 0 }
window_of (some w) = w

-- A window that is over starts anew.
abbrev pub current : ℕ → ℕ → Window → Window
current length now w =
    if leb (w.window_start + length) now then record { window_start = now; used = 0 } else w

-- `check`, at the time `now`.
unfoldable pub check : Bucket → ℕ → ℕ → ℕ → Windows → RateLimitResult × Windows
check bucket limit length now windows =
    let w = current length now (window_of (lookup bucket windows)) in
    if leb limit w.used
    then (record { allowed = false; remaining = 0; reset_at = w.window_start + length }, windows)
    else (
      record {
        allowed = true;
        remaining = limit - (w.used + 1);
        reset_at = w.window_start + length;
      },
      insert bucket (record w { used = w.used + 1 }) windows,
    )
