-- ===== src/Billing/Stripe.antt =====
-- BillingRepository's Stripe top-ups: the row of a checkout, its PaymentIntent, its completion and credit,
-- and the reversal of a refund or a dispute.
use Prim.Native.String.{◌++◌}
use greencompute_api.Prelude.{
  ℕ, String, Bool, true, false, Option, none, some, if◌then◌else◌, is_some, string_eq, ◌==◌, ◌||◌,
  find,
}
use greencompute_api.Prelude.Int.{ℤ, pos, ◌+ℤ◌, ◌-ℤ◌}
use greencompute_api.Prelude.Dict.{lookup, insert}
use greencompute_api.Prelude.Text.{strip, truthy}
use greencompute_api.Billing.Schema.{
  StripeSession, SessionStatus, paid, ok, raised, Transaction, key_error, integrity_error,
  ref_entry, violates_unique, book,
}

abbrev pub is_paid : SessionStatus → Bool
is_paid paid = true
is_paid _ = false

-- f"stripe:{stripe_session_id}", f"stripe-refund:{event_id}"
abbrev pub session_ref : String → String
session_ref id = "stripe:" ++ id

abbrev pub refund_ref : String → String
refund_ref id = "stripe-refund:" ++ id

abbrev pub settle_session : ℕ → StripeSession → StripeSession
settle_session now s = record s { status = paid; completed_at = some now }

-- `{"already_credited"}`, with whether the UNIQUE index found it, or `{"credited"}`.
pub data SessionCredit : Type 0 where
  session_already_credited : Bool → SessionCredit
  session_credited : ℤ → ℤ → SessionCredit

-- `create_stripe_session`: session_id is the primary key and stripe_session_id, under which the rows
-- stand here, is UNIQUE.
abbrev pub same_session : String → String × StripeSession → Bool
same_session session_id (_, s) = s.session_id == session_id

unfoldable pub create_stripe_session : String → StripeSession → Transaction StripeSession
create_stripe_session id s db =
    if is_some (lookup id db.sessions) || is_some (find (same_session s.session_id) db.sessions)
    then (raised integrity_error, db)
    else (ok s, record db { sessions = insert id (record s { completed_at = none }) db.sessions })

-- `set_stripe_payment_intent`: only where there is none yet.
unfoldable pub set_stripe_payment_intent : String → String → Transaction (Unit {0})
set_stripe_payment_intent id payment_intent_id db =
    if strip payment_intent_id == "" then (ok tt, db) else elim (lookup id db.sessions) [
      | none ↦ (ok tt, db)
      | some s ↦ if truthy s.payment_intent_id then (ok tt, db) else (
        ok tt,
        record db {
          sessions =
              insert id (record s { payment_intent_id = some (strip payment_intent_id) })
                db.sessions;
        },
      )
    ]

-- `complete_stripe_session`: marks it, and credits nobody.
unfoldable pub complete_stripe_session : String → ℕ → Transaction (Option StripeSession)
complete_stripe_session id now db = elim (lookup id db.sessions) [
  | none ↦ (ok none, db)
  | some s ↦
      let s' = settle_session now s in
      (ok (some s'), record db { sessions = insert id s' db.sessions })
]

-- `complete_and_credit_stripe_session`; the row's text stands for its ledger description.
unfoldable pub complete_and_credit_stripe_session : String → ℕ → Transaction (Option SessionCredit)
complete_and_credit_stripe_session id now db = elim (lookup id db.sessions) [
  | none ↦ (ok none, db)
  | some s ↦
      if is_paid s.status
      then (ok (some (session_already_credited false)), db)
      else elim (lookup s.user_id db.users) [
        | none ↦ (raised key_error, db)
        | some balance ↦
            if violates_unique (some (session_ref id)) db.ledger
            then (ok (some (session_already_credited true)), db)
            else (let booked =
                  book s.user_id balance s.amount_cents "topup" (some s.session_id)
                    (some (session_ref id)) s.description now db in
                (
                  ok (some (session_credited s.amount_cents (balance +ℤ s.amount_cents))),
                  record booked { sessions = insert id (settle_session now s) booked.sessions },
                ))
      ]
]

pub data Reversal : Type 0 where
  already_reversed : Reversal
  reversed : ℤ → Reversal

-- `reverse_stripe_topup`; the balance may go negative.
unfoldable pub reverse_stripe_topup :
    String → ℤ → String → Option String → String → String → ℕ → Transaction Reversal
reverse_stripe_topup user_id amount event_id reference_id description kind now db =
    if is_some (ref_entry (refund_ref event_id) db.ledger)
    then (ok already_reversed, db)
    else elim (lookup user_id db.users) [
      | none ↦ (raised key_error, db)
      | some balance ↦
          if violates_unique (some (refund_ref event_id)) db.ledger
          then (ok already_reversed, db)
          else (
            ok (reversed amount),
            book user_id balance (pos 0 -ℤ amount) kind reference_id (some (refund_ref event_id))
                description now db,
          )
    ]
