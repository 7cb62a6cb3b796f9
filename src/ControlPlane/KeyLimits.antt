-- ===== src/ControlPlane/KeyLimits.antt =====
-- packages/persistence/.../key_limits.py: what an API key has spent, and what it may start. The limit in
-- dollars is taken as the cents that `round(limit * 100)` gives.
use greencompute_api.Prelude.{
  ℕ, ◌+◌, ◌-◌, String, Bool, true, false, not, ◌&&◌, Option, none, some, List, [], ◌∷◌, ◌==◌,
  string_eq, if◌then◌else◌, leb,
}
use greencompute_api.Prelude.Int.{pos, ltb_ℤ, neg_part}
use greencompute_api.Prelude.Dict.{Dict, lookup}
use greencompute_api.Billing.Schema.{LedgerEntry}
use greencompute_api.ControlPlane.States.{DeploymentState, failed, terminated}
use greencompute_api.ControlPlane.Deployment.{Deployment}

-- The api_key_id of each invocation_records row, by its request_id.
abbrev pub Invocations : Type 0
Invocations = Dict String (Option String)

abbrev pub is_key : String → Option String → Bool
is_key key none = false
is_key key (some k) = k == key

abbrev pub deployment_key : Option Deployment → Option String
deployment_key none = none
deployment_key (some d) = d.created_by_key_id

abbrev pub request_key : Option (Option String) → Option String
request_key none = none
request_key (some k) = k

abbrev pub under : {A : Type 0} → (String → Option A) → Option String → Option A
under find none = none
under find (some ref) = find ref

-- A charge since the start of the window.
abbrev pub is_charge : ℕ → LedgerEntry → Bool
is_charge since e = ltb_ℤ e.amount_cents (pos 0) && leb since e.created_at

-- The join with the deployments, on reference_id.
abbrev pub is_rental_charge : Dict String Deployment → String → ℕ → LedgerEntry → Bool
is_rental_charge deployments key since e =
    is_key key (deployment_key (under (λ id. lookup id deployments) e.reference_id))
    && is_charge since e

-- The join with the invocations.
abbrev pub is_inference_charge : Invocations → String → ℕ → LedgerEntry → Bool
is_inference_charge invocations key since e =
    is_key key (request_key (under (λ id. lookup id invocations) e.reference_id))
    && e.kind == "inference"
    && is_charge since e

-- The sum of the charges that pass a test, as a positive number of cents.
abbrev pub charged : (LedgerEntry → Bool) → List LedgerEntry → ℕ
charged p [] = 0
charged p (e ∷ es) = (if p e then neg_part e.amount_cents else 0) + charged p es

-- `key_spend_cents`
unfoldable pub key_spend_cents :
    List LedgerEntry → Dict String Deployment → Invocations → String → ℕ → ℕ
key_spend_cents ledger deployments invocations key since =
    charged (is_rental_charge deployments key since) ledger
    + charged (is_inference_charge invocations key since) ledger

abbrev pub is_finished : DeploymentState → Bool
is_finished terminated = true
is_finished failed = true
is_finished _ = false

-- `key_active_rentals`
unfoldable pub key_active_rentals : String → Dict String Deployment → ℕ
key_active_rentals key [] = 0
key_active_rentals key ((id, d) ∷ ds) =
    (if is_key key d.created_by_key_id && not (is_finished d.state) then 1 else 0)
    + key_active_rentals key ds

-- `keys_with_spend_limits`
unfoldable pub keys_with_spend_limits : Dict String (Option ℕ) → Dict String ℕ
keys_with_spend_limits [] = []
keys_with_spend_limits ((key, none) ∷ keys) = keys_with_spend_limits keys
keys_with_spend_limits ((key, some limit) ∷ keys) = (key, limit) ∷ keys_with_spend_limits keys

pub data Refusal : Type 0 where
  active spend : Refusal

-- `room` None is no limit.
pub data Room : Type 0 where
  full : Refusal → Room
  room_for : Option ℕ → Room

abbrev pub within_spend : Option ℕ → ℕ → Option ℕ → Room
within_spend none spent room = room_for room
within_spend (some limit) spent room = if leb limit spent then full spend else room_for room

-- `key_rental_room`, with the key's rentals and its spend.
unfoldable pub key_rental_room : Option ℕ → Option ℕ → ℕ → ℕ → Room
key_rental_room none limit rentals spent = within_spend limit spent none
key_rental_room (some most) limit rentals spent =
    if leb most rentals then full active else within_spend limit spent (some (most - rentals))
