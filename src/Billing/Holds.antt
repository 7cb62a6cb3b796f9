-- ===== src/Billing/Holds.antt =====
-- BillingRepository's in-flight inference holds: reserve_inference_hold, release_inference_hold and
-- active_hold_cents.
pub mod Capacity
use greencompute_api.Prelude.{
  ℕ, ◌+◌, ◌*◌, String, Bool, true, false, not, ◌&&◌, Option, none, some, [], ◌∷◌, ◌==◌, string_eq,
  if◌then◌else◌, max, ltb, leb, select,
}
use greencompute_api.Prelude.Int.{ℤ, pos, ◌-ℤ◌, ltb_ℤ, max_zero}
use greencompute_api.Prelude.Dict.{Dict, lookup, insert}
use greencompute_api.Billing.Schema.{second, Hold, Db, Transaction, ok}

-- The rows that the opportunistic cleanup deletes.
abbrev pub is_stale : String → ℕ → String × Hold → Bool
is_stale user now (_, h) = h.user_id == user && leb h.expires_at now

-- The user's holds that still count, but for the one under `reference`.
abbrev pub is_other_active : String → String → ℕ → String × Hold → Bool
is_other_active user reference now (r, h) =
    (h.user_id == user && ltb now h.expires_at) && not (r == reference)

abbrev pub is_active : String → ℕ → String × Hold → Bool
is_active user now (_, h) = h.user_id == user && ltb now h.expires_at

abbrev pub hold_cents : String × Hold → ℕ
hold_cents (_, h) = h.amount_cents

-- The total of the holds that pass a test.
unfoldable pub total_held : (String × Hold → Bool) → Dict String Hold → ℕ
total_held p [] = 0
total_held p (h ∷ hs) = (if p h then hold_cents h else 0) + total_held p hs

-- The row after the request: a new one, or the old one with its amount and deadline set.
abbrev pub renewed : String → ℕ → ℕ → ℕ → Option Hold → Hold
renewed user amount now expires none = record {
  user_id = user;
  amount_cents = amount;
  created_at = now;
  expires_at = expires;
}
renewed user amount now expires (some h) = record h { amount_cents = amount; expires_at = expires }

abbrev pub sweep_stale : String → ℕ → Dict String Hold → Dict String Hold
sweep_stale user now holds = select (λ h. not (is_stale user now h)) holds

-- `reserve_inference_hold`; the sweep of expired rows is committed also when it answers False.
unfoldable pub reserve_inference_hold : String → ℤ → String → ℕ → ℕ → Transaction Bool
reserve_inference_hold user_id amount reference_id ttl_seconds now db =
    elim (lookup user_id db.users) [
      | none ↦ (ok false, db)
      | some balance ↦
          let amount_cents = max_zero amount in
          let expires_at = now + max 1 ttl_seconds * second in
          let holds = sweep_stale user_id now db.holds in
          let active = total_held (is_other_active user_id reference_id now) holds in
          if ltb_ℤ (balance -ℤ pos active) (pos amount_cents)
          then (ok false, record db { holds = holds })
          else (
            ok true,
            record db {
              holds =
                  insert reference_id
                    (renewed user_id amount_cents now expires_at (lookup reference_id holds)) holds;
            },
          )
    ]

-- `release_inference_hold`
unfoldable pub release_inference_hold : String → Transaction (Unit {0})
release_inference_hold reference_id db =
    (ok tt, record db { holds = select (λ h. not (h.0 == reference_id)) db.holds })

-- `active_hold_cents`
unfoldable pub active_hold_cents : String → ℕ → Db → ℕ
active_hold_cents user_id now db = total_held (is_active user_id now) db.holds
