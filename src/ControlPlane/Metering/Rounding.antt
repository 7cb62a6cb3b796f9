-- ===== src/ControlPlane/Metering/Rounding.antt =====
-- Python's round of a quotient, taken as the exact quotient: to the nearest, a half to the even one.
use greencompute_api.Prelude.{
  ℕ, zero, suc, ◌+◌, ◌*◌, ◌/◌, ◌%◌, ◌≤◌, ◌<◌, if◌then◌else◌, if-cases, ltb, arith, ◌≡◌,
}
use native.Mathlib.Nat.{mod-lt, div-add-mod, add-zero}

unfoldable pub round_half_even : ℕ → ℕ → ℕ
round_half_even n d =
    let q = n / d in
    let r = n % d in if ltb (2 * r) d then q else if ltb d (2 * r) then q + 1 else q + q % 2

-- A number within a half of a quotient.
abbrev pub IsWithinHalf : ℕ → ℕ → ℕ → Type 0
IsWithinHalf n d x = (2 * (d * x) ≤ 2 * n + d) × (2 * n ≤ 2 * (d * x) + d)

module _ (n d : ℕ) (p : 0 < d) where
  rounds_down : 2 * (n % d) ≤ d → IsWithinHalf n d (n / d)
  rounds_down h = (omega (arith, div-add-mod n d), omega (arith, div-add-mod n d))

  next_multiple : d * (n / d + 1) ≡ d * (n / d) + d
  next_multiple = omega arith

  rounds_up : d ≤ 2 * (n % d) → IsWithinHalf n d (n / d + 1)
  rounds_up h =
      rw next_multiple
        (omega (arith, div-add-mod n d, mod-lt n p), omega (arith, div-add-mod n d, mod-lt n p))

  rounds_even : (x : ℕ) → x < 2 → 2 * (n % d) ≤ d → d ≤ 2 * (n % d) → IsWithinHalf n d (n / d + x)
  rounds_even zero b low high = rw add-zero (rounds_down low)
  rounds_even (suc zero) b low high = rounds_up high
  rounds_even (suc (suc x)) b low high = absurd (omega arith)

  -- Rounding a quotient by a positive number is off by at most a half.
  pub round_half_even-IsWithinHalf : IsWithinHalf n d (round_half_even n d)
  unfolding round_half_even
  round_half_even-IsWithinHalf =
      if-cases (IsWithinHalf n d) (ltb (2 * (n % d)) d) (λ low. rounds_down (ground arith))
        (λ high.
          if-cases (IsWithinHalf n d) (ltb d (2 * (n % d))) (λ above. rounds_up (ground arith))
            (λ half.
              rounds_even (n / d % 2) (mod-lt (n / d) (omega arith)) (ground arith) (ground arith)))
