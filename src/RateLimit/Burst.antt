-- ===== src/RateLimit/Burst.antt =====
-- How many calls the limiter lets through.
use greencompute_api.Prelude.{
  ℕ, ◌+◌, ◌-◌, ◌*◌, ◌≤◌, ◌<◌, ◌≡◌, refl, true, false, some, List, [], ◌∷◌, string_eq, All,
  if◌then◌else◌, if-cases, leb, arith, Bool-cases, inl, inr,
}
use greencompute_api.Prelude.Dict.{lookup, insert, lookup-insert}
use greencompute_api.RateLimit.{
  RateLimitResult, Window, Bucket, bucket_eq, bucket_equal_iff, Windows, window_of, current, check,
}

-- The calls of a bucket that are let through, at the times given.
abbrev pub count_allowed : Bucket → ℕ → ℕ → List ℕ → Windows → ℕ
count_allowed bucket limit length [] windows = 0
count_allowed bucket limit length (now ∷ times) windows =
    let (result, windows') = check bucket limit length now windows in
    (if result.allowed then 1 else 0) + count_allowed bucket limit length times windows'

-- Times in one interval of a length.
abbrev pub IsWithin : ℕ → ℕ → List ℕ → Type 0
IsWithin length from = All (λ t. (from ≤ t) × (t < from + length))

module _ (bucket : Bucket) (limit length : ℕ) where
  abbrev pub window : Windows → Window
  window windows = window_of (lookup bucket windows)

  -- One call in the bucket's own window.
  data Checked (now : ℕ) (windows : Windows) : RateLimitResult × Windows → Type 0 where
    denied :
        {r : RateLimitResult}
        → r.allowed ≡ false
        → limit ≤ (current length now (window windows)).used
        → Checked now windows (r, windows)
    let_through :
        {r : RateLimitResult} {windows' : Windows}
        → r.allowed ≡ true
        → (current length now (window windows)).used < limit
        → (window windows').window_start ≡ (current length now (window windows)).window_start
        → (window windows').used ≡ (current length now (window windows)).used + 1
        → Checked now windows (r, windows')

  check-Checked :
      (now : ℕ) (windows : Windows) → Checked now windows (check bucket limit length now windows)
  unfolding check
  check-Checked now windows =
      let w = current length now (window windows) in
      let stored : lookup bucket (insert bucket (record w { used = w.used + 1 }) windows)
          ≡ some (record w { used = w.used + 1 }) =
        rw (lookup-insert, (bucket_equal_iff bucket bucket).1 refl) in
      if-cases (Checked now windows) (leb limit w.used) (λ full. denied refl (ground arith))
        (λ room. let_through refl (ground arith) (rw stored) (rw stored))

  current-same : (now : ℕ) (w : Window) → now < w.window_start + length → current length now w ≡ w
  current-same now w h =
      if-cases (λ c. c ≡ w) (leb (w.window_start + length) now) (λ e. absurd (ground arith))
        (λ _. refl)

  -- What a call that is let through, or denied, adds to a bound on the calls that follow.
  step_le :
      (now bound rest : ℕ) (times : List ℕ) (windows : Windows) {o : RateLimitResult × Windows}
      → Checked now windows o
      → ((current length now (window windows)).used < limit → rest + 1 ≤ bound)
      → (limit ≤ (current length now (window windows)).used
          → count_allowed bucket limit length times windows ≤ bound)
      → ((windows' : Windows)
          → (window windows').window_start ≡ (current length now (window windows)).window_start
          → (window windows').used ≡ (current length now (window windows)).used + 1
          → count_allowed bucket limit length times windows' ≤ rest)
      → (if o.0.allowed then 1 else 0) + count_allowed bucket limit length times o.1 ≤ bound
  step_le now bound rest times windows (denied no_call full) grows same later =
      rw no_call (omega (arith, same full))
  step_le now bound rest times windows (let_through {windows'} call room start used) grows same
        later =
      rw call (omega (arith, grows room, later windows' start used))

  later_than :
      (from to : ℕ) (times : List ℕ)
      → from ≤ to
      → All (λ t. t < from + length) times
      → All (λ t. t < to + length) times
  later_than from to [] h a = tt
  later_than from to (t ∷ ts) h a = (omega (arith, a.0), later_than from to ts h a.1)

  -- While a bucket's window lasts, at most what is left of the limit is let through.
  pub count-window_le :
      (times : List ℕ) (windows : Windows)
      → All (λ t. t < (window windows).window_start + length) times
      → count_allowed bucket limit length times windows ≤ limit - (window windows).used
  count-window_le [] windows h = omega arith
  count-window_le (now ∷ times) windows h =
      let same = current-same now (window windows) h.0 in
      step_le now (limit - (window windows).used) (limit - ((window windows).used + 1)) times
        windows (check-Checked now windows) (λ room. let here = (rw same at room) in omega arith)
        (λ _. count-window_le times windows h.1)
        (λ windows' start used.
          let u = (rw same at used) in
          rw (← u) (
            count-window_le times windows'
              (later_than _ _ times (omega (arith, (rw same at start))) h.1)))

  from_later :
      (from to : ℕ) (times : List ℕ)
      → from ≤ to
      → IsWithin length from times
      → All (λ t. t < to + length) times
  from_later from to [] h a = tt
  from_later from to (t ∷ ts) h a = (omega (arith, a.0.1), from_later from to ts h a.1)

  current-anew :
      (now : ℕ) (w : Window)
      → w.window_start + length ≤ now
      → current length now w ≡ record { window_start = now; used = 0 }
  current-anew now w h =
      if-cases (λ c. c ≡ record { window_start = now; used = 0 })
        (leb (w.window_start + length) now) (λ _. refl) (λ e. absurd (ground arith))

  count-left_le :
      (from : ℕ) (times : List ℕ) (windows : Windows)
      → IsWithin length from times
      → count_allowed bucket limit length times windows ≤ (limit - (window windows).used) + limit
  count-left_le from [] windows h = omega arith
  count-left_le from (now ∷ times) windows h =
      elim (Bool-cases (leb ((window windows).window_start + length) now)) [
        | inl over ↦
            let anew = current-anew now (window windows) (ground arith) in
            step_le now ((limit - (window windows).used) + limit) (limit - 1) times windows
              (check-Checked now windows) (λ room. let here = rw anew at room in omega arith)
              (λ _. count-left_le from times windows h.1)
              (λ windows' start used.
                let u = rw anew at used in
                let s = rw anew at start in
                rw (← u) (
                  count-window_le times windows'
                    (from_later from _ times (omega (arith, s, h.0.0)) h.1)))
        | inr lasts ↦
            let same = current-same now (window windows) (ground arith) in
            step_le now ((limit - (window windows).used) + limit)
              ((limit - ((window windows).used + 1)) + limit) times windows
              (check-Checked now windows) (λ room. let here = rw same at room in omega arith)
              (λ _. count-left_le from times windows h.1)
              (λ windows' start used.
                let u = rw same at used in rw (← u) (count-left_le from times windows' h.1))
      ]

-- In any interval as long as the window, the limiter lets at most twice the limit through for a
-- bucket, from whatever state it is in: a window that ends in the interval, and the next one.
pub count-burst_le :
    (bucket : Bucket) (limit length from : ℕ) (times : List ℕ) (windows : Windows)
    → IsWithin length from times
    → count_allowed bucket limit length times windows ≤ 2 * limit
count-burst_le bucket limit length from times windows h =
    omega (arith, count-left_le bucket limit length from times windows h)
