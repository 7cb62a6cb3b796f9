-- ===== src/Billing/Claims/Tests.antt =====
-- Bob links the wallet that has sent a transfer nobody was credited for.
use greencompute_api.Prelude.{◌≡◌, refl, none, some, [], ◌∷◌, string_eq}
use greencompute_api.Prelude.Int.{ℤ, pos}
use greencompute_api.Billing.Schema.{Db, Deposit, ignored, ok}
use greencompute_api.Billing.Deposits.{manual_credit_row, credit_deposit}
use greencompute_api.Billing.Claims.{claim_wallet_deposits}
use greencompute_api.Billing.Claims.Booked.{Lists, claim_wallet_deposits-Lists}

abbrev transfer : Deposit
transfer = record {
  currency = "tao";
  tx_hash = some "0xabc";
  sender = "5s";
  deposit_address = "5d";
  amount_raw = 3000;
  decimals = 9;
  block_number = 7;
  status = ignored;
  matched_by = some "admin_ignored";
  invoice_id = none;
  user_id = none;
  credited_cents = none;
  observed_at = 0;
  credited_at = none;
}

abbrev start : Db
start = record {
  users = ("bob", pos 7) ∷ [];
  ledger = [];
  invoices = [];
  deposits = ("t1", transfer) ∷ [];
  sessions = [];
  holds = [];
}

abbrev value : Deposit → ℤ
value dep = pos dep.amount_raw

claimed :
    (claim_wallet_deposits value (λ d. "linked") "bob" 1000 "bittensor" "5s" start).0
    ≡ ok (
        record {
          deposit_ref = "t1";
          tx_hash = some "0xabc";
          currency = "tao";
          credited_cents = pos 3000;
        }
        ∷ [])
unfolding claim_wallet_deposits credit_deposit manual_credit_row
claimed = refl

claim_wallet_deposits-Lists_example :
    Lists "bob" start.users []
      (claim_wallet_deposits value (λ d. "linked") "bob" 1000 "bittensor" "5s" start)
claim_wallet_deposits-Lists_example =
    claim_wallet_deposits-Lists value (λ d. "linked") "bob" 1000 "bittensor" "5s" start
