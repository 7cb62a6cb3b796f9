-- ===== src/Billing/Resolve/Payments.antt =====
-- A transfer of exactly what an open invoice asks for: rule 1 of resolve_deposit.
use mathlib.Core.List.{Memᴰ}
use greencompute_api.Prelude.{
  ℕ, String, ◌≡◌, refl, inl, inr, Bool, true, false, ◌&&◌, Option, none, some, List, [], ◌∷◌, ◌==◌,
  string_eq, find, select, Option-cases, Bool-cases,
}
use greencompute_api.Prelude.Int.{ℤ, ◌+ℤ◌}
use greencompute_api.Prelude.Dict.{lookup, insert, UniqueKeys}
use greencompute_api.Prelude.Groups.{mem-lookup}
use greencompute_api.Prelude.Members.{mem-select}
use greencompute_api.Billing.Schema.{
  LedgerEntry, Invoice, InvoiceStatus, pending, confirmed, expired, rejected, Deposit, unmatched,
  Db, Result, ok, raised, ref_entry, is_ref, book,
}
use greencompute_api.Billing.Invoices.{
  credited_now, is_pending, is_rejected, is_expired, is_topup_of, is_topup_by, put_invoice,
  settle_invoice, credit_invoice, confirm_and_credit_invoice,
}
use greencompute_api.Billing.Deposits.{record_deposit, earlier_credit}
use greencompute_api.Billing.Matches.{
  exact, Resolution, paid, Quotes, Wallet, exact_amount, pending_invoices,
}
use greencompute_api.Billing.Resolve.{
  tx_or_ref, on_ok, or_next, or_leave, _credit_invoice, credit_exact, try_rules, resolve_logged,
  resolve_deposit,
}
use greencompute_api.Billing.Resolve.Bookings.{mark-Keeps}

-- No row under a deposit_ref is no topup row under it.
unpaid-by :
    (ref : String) (l : List LedgerEntry) → ref_entry ref l ≡ none → find (is_topup_by ref) l ≡ none
unpaid-by ref [] e = refl
unpaid-by ref (row ∷ l) e = elim (Bool-cases (is_ref ref row.deposit_ref)) [
  | inl hit ↦ absurd (cc (rw hit at e))
  | inr miss ↦ elim (Bool-cases (row.kind == "topup")) [
    | inl topup ↦ rw (topup, miss) (unpaid-by ref l (rw miss at e))
    | inr other ↦ rw other (unpaid-by ref l (rw miss at e))
  ]
]

open-cases :
    (s : InvoiceStatus) → is_pending s ≡ true → (is_rejected s ≡ false) × (is_expired s ≡ false)
open-cases pending e = (refl, refl)
open-cases confirmed e = absurd (cc)
open-cases expired e = absurd (cc)
open-cases rejected e = absurd (cc)

no_entry :
    (ref : String) (tx : Option String) (db : Db)
    → earlier_credit ref tx db ≡ none
    → ref_entry ref db.ledger ≡ none
unfolding earlier_credit
no_entry ref tx db e = elim (Option-cases (ref_entry ref db.ledger)) [
  | inl none_there ↦ none_there
  | inr (row, found) ↦ absurd (cc (rw (earlier_credit, found) at e))
]

module _ (ref i : String) (inv : Invoice) (balance : ℤ) (now : ℕ) (named : (ref == "") ≡ false)
    (is_open : is_pending inv.status ≡ true) where
  confirm-pays :
      (tx d : String) (db : Db)
      → lookup i db.invoices ≡ some inv
      → find (is_topup_of i) db.ledger ≡ none
      → ref_entry ref db.ledger ≡ none
      → lookup inv.user_id db.users ≡ some balance
      → confirm_and_credit_invoice i tx d (some ref) false none now db ≡ (
        ok (some (credited_now inv.total_credits (balance +ℤ inv.total_credits))),
        put_invoice i
            (settle_invoice tx now inv)
            (book inv.user_id balance inv.total_credits "topup" (some i) (some ref) d now db),
      )
  unfolding confirm_and_credit_invoice credit_invoice
  confirm-pays tx d db found unpaid fresh known =
      let (not_rejected, not_expired) = open-cases inv.status is_open in
      let unpaid_by = unpaid-by ref db.ledger fresh in
      rw
        (
          confirm_and_credit_invoice, found, not_rejected, not_expired, unpaid, named, unpaid_by,
          known, credit_invoice, named, fresh,
        )
        refl

-- The answer, and the invoice's credits on its customer's balance.
abbrev pub Pays : {A : Type 0} → Invoice → ℤ → A → Db → Result A × Db → Type 0
Pays inv balance answer db r =
    (r.0 ≡ ok answer) × (r.1.users ≡ insert inv.user_id (balance +ℤ inv.total_credits) db.users)

and-true : (a b : Bool) → (a && b) ≡ true → (a ≡ true) × (b ≡ true)
and-true true b e = (refl, e)
and-true false b e = absurd (cc)

module _ (q : Quotes) (ref i : String) (inv : Invoice) (dep : Deposit) (balance : ℤ) (now : ℕ)
    (named : (ref == "") ≡ false) (is_open : is_pending inv.status ≡ true) where
  credit_invoice-Pays :
      (db : Db)
      → lookup i db.invoices ≡ some inv
      → find (is_topup_of i) db.ledger ≡ none
      → ref_entry ref db.ledger ≡ none
      → lookup inv.user_id db.users ≡ some balance
      → Pays inv balance
          (some (paid exact))
          db
          (_credit_invoice q ref dep now exact none false (i, inv) db)
  unfolding _credit_invoice book
  credit_invoice-Pays db found unpaid fresh known =
      rw
        (
          _credit_invoice,
          confirm-pays ref i inv balance now named is_open (tx_or_ref dep.tx_hash ref)
              (q.invoice_text exact inv dep) db found unpaid fresh known,
        )
        (refl, (mark-Keeps ref _ now _).0)

  or_next-Pays :
      (t : Result (Option Resolution) × Db) (f : Db → Result (Option Resolution) × Db) (db : Db)
      → Pays inv balance (some (paid exact)) db t
      → Pays inv balance (some (paid exact)) db (or_next t f)
  or_next-Pays (ok none, s) f db h = absurd (cc (h.0))
  or_next-Pays (ok (some a), s) f db h = h
  or_next-Pays (raised e, s) f db h = absurd (cc (h.0))

  exact-Pays :
      (invs rest : List (String × Invoice)) (db : Db)
      → invs ≡ (i, inv) ∷ rest
      → lookup i db.invoices ≡ some inv
      → find (is_topup_of i) db.ledger ≡ none
      → ref_entry ref db.ledger ≡ none
      → lookup inv.user_id db.users ≡ some balance
      → Pays inv balance (some (paid exact)) db (credit_exact q ref dep now invs db)
  unfolding credit_exact
  exact-Pays invs rest db asked found unpaid fresh known =
      rw asked (or_next-Pays _ _ db (credit_invoice-Pays db found unpaid fresh known))

  rules-Pays :
      (rest : List (String × Invoice)) (wallets : List Wallet) (db : Db)
      → select (exact_amount dep) (pending_invoices dep db) ≡ (i, inv) ∷ rest
      → lookup i db.invoices ≡ some inv
      → find (is_topup_of i) db.ledger ≡ none
      → ref_entry ref db.ledger ≡ none
      → lookup inv.user_id db.users ≡ some balance
      → Pays inv balance (some (paid exact)) db (try_rules q ref dep now wallets db)
  unfolding try_rules
  rules-Pays rest wallets db asked found unpaid fresh known =
      or_next-Pays _ _ db (exact-Pays _ rest db asked found unpaid fresh known)

  or_leave-Pays :
      (r : Result (Option Resolution) × Db) (db : Db)
      → Pays inv balance (some (paid exact)) db r
      → Pays inv balance (paid exact) db (on_ok (or_leave q ref dep now) r)
  or_leave-Pays (ok none, s) db h = absurd (cc (h.0))
  or_leave-Pays (ok (some a), s) db h = (cc (h.0), h.1)
  or_leave-Pays (raised e, s) db h = absurd (cc (h.0))

  logged-Pays :
      (rest : List (String × Invoice)) (wallets : List Wallet) (db : Db)
      → earlier_credit ref dep.tx_hash db ≡ none
      → select (exact_amount dep) (pending_invoices dep db) ≡ (i, inv) ∷ rest
      → lookup i db.invoices ≡ some inv
      → find (is_topup_of i) db.ledger ≡ none
      → lookup inv.user_id db.users ≡ some balance
      → Pays inv balance (paid exact) db (resolve_logged q ref dep now wallets unmatched db)
  unfolding resolve_logged
  logged-Pays rest wallets db unseen asked found unpaid known =
      rw (resolve_logged, unseen)
        (or_leave-Pays (try_rules q ref dep now wallets db) db (
          rules-Pays rest wallets db asked found unpaid (no_entry ref dep.tx_hash db unseen) known))

-- The oldest of the open invoices that ask for the transfer's amount is an open row of the table.
asked-open :
    (dep : Deposit) (i : String) (inv : Invoice) (rest : List (String × Invoice)) (db : Db)
    → UniqueKeys db.invoices
    → select (exact_amount dep) (pending_invoices dep db) ≡ (i, inv) ∷ rest
    → (lookup i db.invoices ≡ some inv) × (is_pending inv.status ≡ true)
unfolding pending_invoices
asked-open dep i inv rest db keys asked =
    let here : Memᴰ (i, inv) (select (exact_amount dep) (pending_invoices dep db)) =
      rw asked (Memᴰ.head refl) in
    let (listed, _) = mem-select (exact_amount dep) (i, inv) (pending_invoices dep db) here in
    let (stored, fits) = mem-select _ (i, inv) db.invoices listed in
    (mem-lookup i inv db.invoices keys stored, (and-true _ _ fits).0)

-- For a transfer that is neither logged nor credited before, with a deposit_ref that is not empty:
-- when an open invoice asks for its amount at its address, and the oldest of those, whose customer
-- has an account, has no topup row yet, `resolve_deposit` answers that an invoice was paid exactly, and
-- adds the invoice's own credits to the balance of its customer; whatever wallets are verified.
pub resolve_deposit-Pays :
    (q : Quotes) (ref i : String) (inv : Invoice) (dep : Deposit) (balance : ℤ) (now : ℕ)
    (rest : List (String × Invoice)) (wallets : List Wallet) (db : Db)
    → (ref == "") ≡ false
    → UniqueKeys db.invoices
    → lookup ref db.deposits ≡ none
    → earlier_credit ref dep.tx_hash db ≡ none
    → select (exact_amount dep) (pending_invoices dep db) ≡ (i, inv) ∷ rest
    → find (is_topup_of i) db.ledger ≡ none
    → lookup inv.user_id db.users ≡ some balance
    → Pays inv balance (paid exact) db (resolve_deposit q ref dep now wallets db)
unfolding resolve_deposit record_deposit earlier_credit pending_invoices
resolve_deposit-Pays q ref i inv dep balance now rest wallets db named keys fresh unseen asked
      unpaid known =
    let (found, is_open) = asked-open dep i inv rest db keys asked in
    rw (resolve_deposit, record_deposit, fresh)
      (logged-Pays q ref i inv dep balance now named is_open rest wallets _ unseen asked found
        unpaid known)
