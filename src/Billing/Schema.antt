-- ===== src/Billing/Schema.antt =====
-- The rows and tables that billing_repository.py reads and writes (orm.py), and one transaction.
-- Timestamps are numbers of microseconds; the fresh uuid of a ledger row, and the float columns, are left out.
use greencompute_api.Prelude.{
  ℕ, String, Bool, false, Option, none, some, List, ◌∷◌, ◌==◌, string_eq, find, is_some,
}
use greencompute_api.Prelude.Int.{ℤ, pos, ◌+ℤ◌}
use greencompute_api.Prelude.Dict.{Dict, lookup, insert}

-- One second of a timestamp.
abbrev pub second : ℕ
second = 1000000

pub record LedgerEntry : Type 0 where
  pub user_id : String
  pub amount_cents : ℤ
  pub balance_after : ℤ
  pub kind : String
  pub reference_id : Option String
  pub deposit_ref : Option String
  pub description : String
  pub created_at : ℕ

pub data InvoiceStatus : Type 0 where
  pending confirmed expired rejected : InvoiceStatus

pub data ReviewStatus : Type 0 where
  open_review resolved dismissed : ReviewStatus

pub record Invoice : Type 0 where
  pub user_id : String
  pub currency : String
  pub amount_units : Option ℕ
  pub total_credits : ℤ
  pub deposit_address : String
  pub status : InvoiceStatus
  pub tx_hash : Option String
  pub expires_at : ℕ
  pub confirmed_at : Option ℕ
  pub review_status : Option ReviewStatus
  pub review_note : Option String
  pub review_requested_at : Option ℕ
  pub decision_reason : Option String
  pub decision_note : Option String
  pub decided_at : Option ℕ

pub data DepositStatus : Type 0 where
  unmatched credited ignored : DepositStatus

pub record Deposit : Type 0 where
  pub currency : String
  pub tx_hash : Option String
  pub sender : String
  pub deposit_address : String
  pub amount_raw : ℕ
  pub decimals : ℕ
  pub block_number : ℕ
  pub status : DepositStatus
  pub matched_by : Option String
  pub invoice_id : Option String
  pub user_id : Option String
  pub credited_cents : Option ℤ
  pub observed_at : ℕ
  pub credited_at : Option ℕ

pub data SessionStatus : Type 0 where
  pending paid : SessionStatus

-- A row of stripe_sessions, under its unique stripe_session_id, without created_at and amount_usd;
-- `description` is the text that its credit writes to the ledger.
pub record StripeSession : Type 0 where
  pub session_id : String
  pub user_id : String
  pub payment_intent_id : Option String
  pub amount_cents : ℤ
  pub status : SessionStatus
  pub completed_at : Option ℕ
  pub description : String

pub record Hold : Type 0 where
  pub user_id : String
  pub amount_cents : ℕ
  pub created_at : ℕ
  pub expires_at : ℕ

-- The database; `users` keeps balance_credits, `ledger` the newest row first.
pub record Db : Type 0 where
  pub users : Dict String ℤ
  pub ledger : List LedgerEntry
  pub invoices : Dict String Invoice
  pub deposits : Dict String Deposit
  pub sessions : Dict String StripeSession
  pub holds : Dict String Hold

pub data Error : Type 0 where
  key_error insufficient_balance integrity_error : Error

pub data Result (A : Type 0) : Type 0 where
  ok : A → Result A
  raised : Error → Result A

-- One `session_scope`: what comes back is the committed state. A raise commits nothing.
abbrev pub Transaction : Type 0 → Type 0
Transaction A = Db → Result A × Db

abbrev pub return : {A : Type 0} → A → Transaction A
return a db = (ok a, db)

abbrev pub raise : {A : Type 0} → Error → Transaction A
raise e db = (raised e, db)

abbrev pub or_zero : Option ℤ → ℤ
or_zero none = pos 0
or_zero (some b) = b

abbrev pub balance_of : String → Db → ℤ
balance_of u db = or_zero (lookup u db.users)

abbrev pub is_ref : String → Option String → Bool
is_ref r none = false
is_ref r (some s) = r == s

-- The ledger row that carries a deposit_ref, if there is one.
abbrev pub ref_entry : String → List LedgerEntry → Option LedgerEntry
ref_entry r = find (λ e. is_ref r e.deposit_ref)

-- The UNIQUE index on deposit_ref lets every NULL in.
abbrev pub violates_unique : Option String → List LedgerEntry → Bool
violates_unique none l = false
violates_unique (some r) l = is_some (ref_entry r l)

-- `user.balance_credits += amount` and the ledger row that records it.
unfoldable pub book : String → ℤ → ℤ → String → Option String → Option String → String → ℕ → Db → Db
book user balance amount kind reference deposit_ref description now db = record db {
  users = insert user (balance +ℤ amount) db.users;
  ledger =
      record {
        user_id = user;
        amount_cents = amount;
        balance_after = balance +ℤ amount;
        kind = kind;
        reference_id = reference;
        deposit_ref = deposit_ref;
        description = description;
        created_at = now;
      }
      ∷ db.ledger;
}
