-- ===== src/Billing/Claims/Booked.antt =====
-- What a claim of transfers books.
use greencompute_api.Prelude.{
  ℕ, String, ◌≡◌, refl, Option, none, some, List, [], ◌∷◌, map, if-cases, option-cases, ◌∙◌, ap,
  sym, inl, inr, Bool-cases, if◌then◌else◌, ◌==◌, string_eq,
}
use greencompute_api.Prelude.Int.{ℤ, pos, ltb_ℤ}
use greencompute_api.Prelude.Dict.{Dict, lookup, insert, lookup-insert}
use greencompute_api.Billing.Schema.{
  LedgerEntry, Deposit, Db, Result, ok, raised, ref_entry, violates_unique,
}
use greencompute_api.Billing.Deposits.{
  DepositCredit, already_credited, deposit_credited, is_credited, or_else, manual_credit_row,
  credit_deposit,
}
use greencompute_api.Billing.Resolve.{on_ok}
use greencompute_api.Billing.Resolve.Bookings.{Claimed, credit_deposit-Claimed}
use greencompute_api.Billing.Claims.{
  Claim, add_claim, credit_claim, claim_each, claim_wallet_deposits, unmatched_deposits_from,
}

abbrev pub refs : List LedgerEntry → List (Option String)
refs = map (λ e. e.deposit_ref)

-- The deposit_refs of the claims, the last one first, on top of the earlier ones.
abbrev pub onto : List Claim → List (Option String) → List (Option String)
onto [] earlier = earlier
onto (c ∷ claims) earlier = onto claims (some c.deposit_ref ∷ earlier)

-- What an answer lists is what was booked; only a user without an account has none.
abbrev pub Lists : String → Dict String ℤ → List LedgerEntry → Result (List Claim) × Db → Type 0
Lists user users ledger (ok claims, db) = refs db.ledger ≡ onto claims (refs ledger)
Lists user users ledger (raised e, db) = lookup user users ≡ none

abbrev Answers : {A : Type 0} → String → Dict String ℤ → Result A × Db → Type 0
Answers user users (ok a, db) = Unit
Answers user users (raised e, db) = lookup user users ≡ none

credit_deposit-Answers :
    (ref u : String) (amount : ℤ) (d by : String) (now : ℕ) (db : Db)
    → Answers u db.users (credit_deposit ref u amount d by now db)
unfolding credit_deposit
credit_deposit-Answers ref u amount d by now db =
    let P : Result (Option DepositCredit) × Db → Type 0 = Answers u db.users in
    option-cases P (lookup ref db.deposits) (λ _. tt)
      (λ dep _.
        if-cases P (is_credited dep.status) (λ _. tt)
          (λ _.
            option-cases P
              (or_else (ref_entry ref db.ledger) (manual_credit_row dep.tx_hash db.ledger))
              (λ _.
                option-cases P (lookup u db.users) (λ unknown. unknown)
                  (λ b _. if-cases P (violates_unique (some ref) db.ledger) (λ _. tt) (λ _. tt)))
              (λ earlier _. tt)))

-- A user who has no account after a booking had none before.
unknown-insert :
    (u v : String) (b : ℤ) (users : Dict String ℤ)
    → lookup u (insert v b users) ≡ none
    → lookup u users ≡ none
unknown-insert u v b users unknown =
    let after : (if u == v then some b else lookup u users) ≡ none =
      sym (lookup-insert v u b users) ∙ unknown in
    elim (Bool-cases (u == v)) [
      | inl same ↦ absurd (cc (rw same at after))
      | inr other ↦ rw other at after
    ]

module _ (value_cents : Deposit → ℤ) (text : Deposit → String) (user : String) (now : ℕ) where
  credit_claim-Claimed :
      (ref : String) (dep : Deposit) (db : Db)
      → Claimed ref db.users db.ledger (credit_claim value_cents text user now ref dep db)
  credit_claim-Claimed ref dep db =
      if-cases (Claimed ref db.users db.ledger) (ltb_ℤ (value_cents dep) (pos 1))
        (λ _. (refl, refl))
        (λ _. credit_deposit-Claimed ref user (value_cents dep) (text dep) "wallet_link" now db)

  credit_claim-Answers :
      (ref : String) (dep : Deposit) (db : Db)
      → Answers user db.users (credit_claim value_cents text user now ref dep db)
  credit_claim-Answers ref dep db =
      if-cases (Answers user db.users) (ltb_ℤ (value_cents dep) (pos 1)) (λ _. tt)
        (λ _. credit_deposit-Answers ref user (value_cents dep) (text dep) "wallet_link" now db)

  added-Lists :
      (ref : String) (dep : Deposit) (users : Dict String ℤ) (ledger : List LedgerEntry)
      (answer : Option DepositCredit) (db : Db) (r : Result (List Claim) × Db)
      → Claimed ref users ledger (ok answer, db)
      → Lists user db.users db.ledger r
      → Lists user users ledger (
          on_ok
            (λ claims db₂. (ok (add_claim value_cents text user now ref dep answer claims), db₂))
            r)
  added-Lists ref dep users ledger none db (raised e, s) h rest = rw (h.0) at rest
  added-Lists ref dep users ledger (some already_credited) db (raised e, s) h rest =
      rw (h.0) at rest
  added-Lists ref dep users ledger (some (deposit_credited a b)) db (raised e, s)
        (row, balance, e', known, u, l) rest =
      unknown-insert user row.user_id _ users (rw u at rest)
  added-Lists ref dep users ledger none db (ok cs, s) h rest = rest ∙ ap (λ l. onto cs (refs l)) h.1
  added-Lists ref dep users ledger (some already_credited) db (ok cs, s) h rest =
      rest ∙ ap (λ l. onto cs (refs l)) h.1
  added-Lists ref dep users ledger (some (deposit_credited a b)) db (ok cs, s)
        (row, balance, e, known, u, l) rest =
      rest ∙ (ap (λ k. onto cs (refs k)) l ∙ ap (λ o. onto cs (o ∷ refs ledger)) e)

  next-Lists :
      (ref : String) (dep : Deposit) (users : Dict String ℤ) (ledger : List LedgerEntry)
      (f : Db → Result (List Claim) × Db) (t : Result (Option DepositCredit) × Db)
      → Claimed ref users ledger t
      → Answers user users t
      → ((db : Db) → Lists user db.users db.ledger (f db))
      → Lists user users ledger (
          on_ok
            (λ answer db₁.
              on_ok
                (λ claims db₂.
                  (ok (add_claim value_cents text user now ref dep answer claims), db₂))
                (f db₁))
            t)
  next-Lists ref dep users ledger f (raised e, db) h unknown rest = unknown
  next-Lists ref dep users ledger f (ok answer, db) h answered rest =
      added-Lists ref dep users ledger answer db (f db) h (rest db)

  claim_each-Lists :
      (deps : List (String × Deposit)) (db : Db)
      → Lists user db.users db.ledger (claim_each value_cents text user now deps db)
  unfolding claim_each
  claim_each-Lists [] db = refl
  claim_each-Lists ((ref, dep) ∷ rest) db =
      next-Lists ref dep db.users db.ledger _ _ (credit_claim-Claimed ref dep db)
        (credit_claim-Answers ref dep db) (claim_each-Lists rest)

  -- `claim_wallet_deposits` returns for every user with an account, and the transfers that it lists as
  -- credited are exactly those that it has booked: the deposit_refs of the ledger are the earlier
  -- ones, and on top of them those of the list, in its order. It raises only for a user without
  -- an account.
  pub claim_wallet_deposits-Lists :
      (chain address : String) (db : Db)
      → Lists user db.users db.ledger
          (claim_wallet_deposits value_cents text user now chain address db)
  unfolding claim_wallet_deposits
  claim_wallet_deposits-Lists chain address db =
      claim_each-Lists (unmatched_deposits_from address chain now db) db
