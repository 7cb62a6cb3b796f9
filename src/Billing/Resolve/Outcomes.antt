-- ===== src/Billing/Resolve/Outcomes.antt =====
-- What resolve_deposit answers and what it books: the outcome of each rule, and a second call.
use greencompute_api.Prelude.{
  ℕ, String, ◌≡◌, refl, Bool, false, not, Option, none, some, List, [], ◌∷◌, ◌++◌, ◌==◌, string_eq,
  if-cases, option-cases,
}
use greencompute_api.Prelude.Int.{ℤ, pos, ltb_ℤ}
use greencompute_api.Prelude.Dict.{Dict}
use greencompute_api.Billing.Schema.{
  LedgerEntry, Invoice, Deposit, DepositStatus, Db, Result, ok, raised,
}
use greencompute_api.Billing.Invoices.{
  Confirmation, refused, already_confirmed, duplicate_deposit, credited_now,
}
use greencompute_api.Billing.Deposits.{
  DepositCredit, already_credited, deposit_credited, is_unmatched, earlier_credit,
}
use greencompute_api.Billing.Matches.{
  How, exact, Resolution, Quotes, Wallet, recently_expired_invoices,
}
use greencompute_api.Billing.Resolve.{
  tx_or_ref, on_ok, after_confirm, _credit_invoice, credit_exact, credit_only_late, after_credit,
  credit_owner, credit_fitting, fitting, one_customer, _credit_one_customers_invoice, only_credited,
  only_ignored, try_rules, or_leave, resolve_logged, resolve_deposit,
}
use greencompute_api.Billing.Resolve.Bookings.{
  Keeps, Tried, Resolved, Confirmed, Claimed, confirm-Confirmed, credit_deposit-Claimed, mark-Keeps,
  record-Keeps, mark-Books, mark-kept, rebased, or_next-Tried,
}

module _ (q : Quotes) (ref : String) (dep : Deposit) (now : ℕ) (named : (ref == "") ≡ false) where
  after_confirm-Tried :
      (how : How) (inv : String × Invoice) (users : Dict String ℤ) (ledger : List LedgerEntry)
      (r : Result (Option Confirmation) × Db)
      → Confirmed ref users ledger r
      → Tried ref users ledger (on_ok (after_confirm q ref dep now how inv) r)
  after_confirm-Tried how inv users ledger (raised e, db) h = h
  after_confirm-Tried how inv users ledger (ok none, db) h = h
  after_confirm-Tried how inv users ledger (ok (some (refused s)), db) h = h
  after_confirm-Tried how inv users ledger (ok (some already_confirmed), db) h =
      mark-kept ref only_credited now db users ledger h
  after_confirm-Tried how inv users ledger (ok (some (duplicate_deposit o)), db) h =
      mark-kept ref only_credited now db users ledger h
  after_confirm-Tried how inv users ledger (ok (some (credited_now a b)), db) h =
      mark-Books ref _ now db users ledger h

  credit_invoice-Tried :
      (how : How) (cents : Option ℤ) (allow : Bool) (inv : String × Invoice) (db : Db)
      → Tried ref db.users db.ledger (_credit_invoice q ref dep now how cents allow inv db)
  unfolding _credit_invoice
  credit_invoice-Tried how cents allow (i, inv) db =
      after_confirm-Tried how (i, inv) db.users db.ledger _
        (confirm-Confirmed ref i (tx_or_ref dep.tx_hash ref) (q.invoice_text how inv dep) allow
          cents now db named)

  credit_exact-Tried :
      (invs : List (String × Invoice)) (db : Db)
      → Tried ref db.users db.ledger (credit_exact q ref dep now invs db)
  unfolding credit_exact
  credit_exact-Tried [] db = (refl, refl)
  credit_exact-Tried (inv ∷ rest) db =
      or_next-Tried ref db.users db.ledger _ _ (credit_invoice-Tried exact none false inv db)
        (credit_exact-Tried rest)

  only_late-Tried :
      (invs : List (String × Invoice)) (db : Db)
      → Tried ref db.users db.ledger (credit_only_late q ref dep now invs db)
  unfolding credit_only_late
  only_late-Tried [] db = (refl, refl)
  only_late-Tried (inv ∷ []) db = credit_invoice-Tried _ _ _ inv db
  only_late-Tried (inv ∷ inv' ∷ rest) db = (refl, refl)

  after_credit-Tried :
      (users : Dict String ℤ) (ledger : List LedgerEntry) (r : Result (Option DepositCredit) × Db)
      → Claimed ref users ledger r
      → Tried ref users ledger (on_ok (after_credit q ref dep now) r)
  after_credit-Tried users ledger (raised e, db) h = h
  after_credit-Tried users ledger (ok none, db) h = h
  after_credit-Tried users ledger (ok (some already_credited), db) h = h
  after_credit-Tried users ledger (ok (some (deposit_credited a b)), db) h = h

  credit_owner-Tried :
      (owner : Option String) (db : Db)
      → Tried ref db.users db.ledger (credit_owner q ref dep now owner db)
  unfolding credit_owner
  credit_owner-Tried none db = (refl, refl)
  credit_owner-Tried (some owner) db =
      if-cases (Tried ref db.users db.ledger) (ltb_ℤ (q.value_cents dep) (pos 1))
        (λ _. (refl, refl))
        (λ _. after_credit-Tried db.users db.ledger _ (
          credit_deposit-Claimed ref owner (q.value_cents dep) (q.wallet_text dep) "wallet" now db))

  fitting-Tried :
      (opens expireds : List (String × Invoice)) (db : Db)
      → Tried ref db.users db.ledger (credit_fitting q ref dep now opens expireds db)
  fitting-Tried ((i, inv) ∷ rest) expireds db = credit_invoice-Tried _ _ _ (i, inv) db
  fitting-Tried [] (inv ∷ rest) db = credit_invoice-Tried _ _ _ _ db
  fitting-Tried [] [] db = (refl, refl)

  one_customer-Tried :
      (invs : List (String × Invoice)) (db : Db)
      → Tried ref db.users db.ledger (_credit_one_customers_invoice q ref dep now invs db)
  unfolding _credit_one_customers_invoice
  one_customer-Tried invs db =
      let open_fit = fitting q ref dep now invs in
      let expired_fit = fitting q ref dep now (recently_expired_invoices dep now db) in
      if-cases (Tried ref db.users db.ledger) (one_customer q ref dep now (open_fit ++ expired_fit))
        {y = (ok none, db)} (λ _. fitting-Tried open_fit expired_fit db) (λ _. (refl, refl))

  rules-Tried :
      (wallets : List Wallet) (db : Db)
      → Tried ref db.users db.ledger (try_rules q ref dep now wallets db)
  unfolding try_rules
  rules-Tried wallets db = or_next-Tried ref _ _ _ _ (credit_exact-Tried _ db) (λ db₁.
      or_next-Tried ref _ _ _ _ (only_late-Tried _ db₁)
        (λ db₂. or_next-Tried ref _ _ _ _ (credit_owner-Tried _ db₂) (one_customer-Tried _)))

  or_leave-Resolved :
      (users : Dict String ℤ) (ledger : List LedgerEntry) (r : Result (Option Resolution) × Db)
      → Tried ref users ledger r
      → Resolved ref users ledger (on_ok (or_leave q ref dep now) r)
  or_leave-Resolved users ledger (raised e, db) h = h
  or_leave-Resolved users ledger (ok (some a), db) h = h
  or_leave-Resolved users ledger (ok none, db) h =
      if-cases (Resolved ref users ledger) (ltb_ℤ (q.value_cents dep) (pos 1))
        (λ _. mark-kept ref only_ignored now db users ledger h) (λ _. h)

  logged-Resolved :
      (wallets : List Wallet) (status : DepositStatus) (db : Db)
      → Resolved ref db.users db.ledger (resolve_logged q ref dep now wallets status db)
  unfolding resolve_logged
  logged-Resolved wallets status db =
      if-cases (Resolved ref db.users db.ledger) (not (is_unmatched status)) (λ _. (refl, refl))
        (λ _.
          option-cases (Resolved ref db.users db.ledger) (earlier_credit ref dep.tx_hash db)
            (λ _. or_leave-Resolved _ _ _ (rules-Tried wallets db))
            (λ e _. mark-Keeps ref _ now db))

  record-Resolved :
      (wallets : List Wallet) (users : Dict String ℤ) (ledger : List LedgerEntry)
      (r : Result DepositStatus × Db)
      → Keeps users ledger r.1
      → Resolved ref users ledger (on_ok (resolve_logged q ref dep now wallets) r)
  record-Resolved wallets users ledger (raised e, db) h = h
  record-Resolved wallets users ledger (ok status, db) h =
      rebased (λ u l. Resolved ref u l (resolve_logged q ref dep now wallets status db)) h.0 h.1
        (logged-Resolved wallets status db)

  -- For a transfer with a deposit_ref that is not empty: when `resolve_deposit` answers that an invoice
  -- or a wallet was paid, exactly one row was added to the ledger, it carries the deposit_ref, and
  -- its amount was added to the balance of its user and to no other; when it answers anything else,
  -- or raises, no balance and no ledger row has changed.
  pub resolve_deposit-Resolved :
      (wallets : List Wallet) (db : Db)
      → Resolved ref db.users db.ledger (resolve_deposit q ref dep now wallets db)
  unfolding resolve_deposit
  resolve_deposit-Resolved wallets db =
      record-Resolved wallets db.users db.ledger _ (record-Keeps ref dep now db)
