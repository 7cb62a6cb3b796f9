-- ===== src/Billing/Resolve/Replays.antt =====
-- A second look at a transfer: resolve_deposit is called again at every tick of the watcher.
use greencompute_api.Prelude.{
  ℕ, String, ◌≡◌, refl, Bool, true, false, not, Option, List, ◌==◌, string_eq, eq_iff, is_some,
  if-cases, option-cases,
}
use greencompute_api.Prelude.Int.{ℤ}
use greencompute_api.Prelude.Dict.{Dict, lookup}
use greencompute_api.Billing.Schema.{
  LedgerEntry, Deposit, DepositStatus, Db, Result, ok, raised, ref_entry,
}
use greencompute_api.Billing.Deposits.{is_unmatched, record_deposit, earlier_credit}
use greencompute_api.Billing.Ledger.Calls.{Call, run}
use greencompute_api.Billing.Ledger.Once.{ref_entry-run}
use greencompute_api.Billing.Matches.{
  Resolution, seen, paid, paid_wallet, left_ignored, left_unmatched, Quotes, Wallet,
}
use greencompute_api.Billing.Resolve.{on_ok, resolve_logged, resolve_deposit}
use greencompute_api.Billing.Resolve.Bookings.{Books, Keeps, Resolved, mark-Keeps, rebased}
use greencompute_api.Billing.Resolve.Outcomes.{resolve_deposit-Resolved}

-- An answer that says a customer was credited.
abbrev pub credits_customer : Result Resolution → Bool
credits_customer (ok (paid how)) = true
credits_customer (ok paid_wallet) = true
credits_customer _ = false

Books-ref :
    (ref : String) (users : Dict String ℤ) (ledger : List LedgerEntry) (db : Db)
    → Books ref users ledger db
    → is_some (ref_entry ref db.ledger) ≡ true
Books-ref ref users ledger db (row, b, e, known, u, l) = rw (l, e, (eq_iff ref ref).1 refl) refl

Resolved-ref :
    (ref : String) (users : Dict String ℤ) (ledger : List LedgerEntry) (r : Result Resolution × Db)
    → Resolved ref users ledger r
    → credits_customer r.0 ≡ true
    → is_some (ref_entry ref r.1.ledger) ≡ true
Resolved-ref ref users ledger (ok (paid how), db) h c = Books-ref ref users ledger db h
Resolved-ref ref users ledger (ok paid_wallet, db) h c = Books-ref ref users ledger db h
Resolved-ref ref users ledger (ok seen, db) h c = absurd (cc)
Resolved-ref ref users ledger (ok left_ignored, db) h c = absurd (cc)
Resolved-ref ref users ledger (ok left_unmatched, db) h c = absurd (cc)
Resolved-ref ref users ledger (raised e, db) h c = absurd (cc)

-- The answer `seen`, and no change of the balances and the ledger.
abbrev pub Sees : Dict String ℤ → List LedgerEntry → Result Resolution × Db → Type 0
Sees users ledger r = (r.0 ≡ ok seen) × Keeps users ledger r.1

earlier-some :
    (ref : String) (tx : Option String) (db : Db)
    → is_some (ref_entry ref db.ledger) ≡ true
    → is_some (earlier_credit ref tx db) ≡ true
unfolding earlier_credit
earlier-some ref tx db used =
    option-cases {B = Option (LedgerEntry × Bool)} (λ o. is_some o ≡ true) (ref_entry ref db.ledger)
      (λ e. absurd (cc)) (λ a e. refl)

module _ (q : Quotes) (ref : String) (dep : Deposit) (now : ℕ) (wallets : List Wallet) where
  logged-Sees :
      (status : DepositStatus) (db : Db)
      → is_some (ref_entry ref db.ledger) ≡ true
      → Sees db.users db.ledger (resolve_logged q ref dep now wallets status db)
  unfolding resolve_logged
  logged-Sees status db used =
      let P : Result Resolution × Db → Type 0 = Sees db.users db.ledger in
      if-cases P (not (is_unmatched status)) (λ _. (refl, (refl, refl)))
        (λ _.
          option-cases P (earlier_credit ref dep.tx_hash db)
            (λ e. absurd (cc (earlier-some ref dep.tx_hash db used)))
            (λ e _. (refl, mark-Keeps ref _ now db)))

  record-Sees :
      (users : Dict String ℤ) (ledger : List LedgerEntry) (status : DepositStatus) (db : Db)
      → Keeps users ledger db
      → is_some (ref_entry ref db.ledger) ≡ true
      → Sees users ledger (resolve_logged q ref dep now wallets status db)
  record-Sees users ledger status db h used =
      rebased (λ u l. Sees u l (resolve_logged q ref dep now wallets status db)) h.0 h.1
        (logged-Sees status db used)

  resolve-Sees :
      (db : Db)
      → is_some (ref_entry ref db.ledger) ≡ true
      → Sees db.users db.ledger (resolve_deposit q ref dep now wallets db)
  unfolding resolve_deposit record_deposit
  resolve-Sees db used =
      option-cases {B = Result DepositStatus × Db}
        (λ r. Sees db.users db.ledger (on_ok (resolve_logged q ref dep now wallets) r))
        (lookup ref db.deposits) (λ _. record-Sees db.users db.ledger _ _ (refl, refl) used)
        (λ old _. logged-Sees old.status db used)

-- For a deposit_ref that is not empty: once `resolve_deposit` has answered that an invoice or a
-- wallet was paid, then after any calls of the repository, `resolve_deposit` of the same deposit_ref, at any
-- time, at any quotes and with any verified wallets, answers `seen` and changes no balance and no
-- ledger row.
pub resolve_deposit-Sees :
    (q q' : Quotes) (ref : String) (dep dep' : Deposit) (now now' : ℕ) (ws ws' : List Wallet)
    (cs : List Call) (db : Db)
    → (ref == "") ≡ false
    → credits_customer (resolve_deposit q ref dep now ws db).0 ≡ true
    → Sees
        (run cs (resolve_deposit q ref dep now ws db).1).users
        (run cs (resolve_deposit q ref dep now ws db).1).ledger
        (resolve_deposit q' ref dep' now' ws' (run cs (resolve_deposit q ref dep now ws db).1))
resolve_deposit-Sees q q' ref dep dep' now now' ws ws' cs db named c =
    resolve-Sees q' ref dep' now' ws' _ (
      ref_entry-run ref cs _ (
        Resolved-ref ref db.users db.ledger _ (resolve_deposit-Resolved q ref dep now named ws db)
          c))
