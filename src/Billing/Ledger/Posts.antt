-- ===== src/Billing/Ledger/Posts.antt =====
-- What each posting method's transaction does to the balances and the ledger, one lemma for each.
use greencompute_api.Prelude.{
  ℕ, String, ◌≡◌, refl, Bool, false, not, ◌&&◌, ◌||◌, Option, none, some, ◌∷◌, ltb, min, if-cases,
  option-cases, string_eq, find, is_some,
}
use greencompute_api.Prelude.Int.{ℤ, pos, ◌+ℤ◌, ◌-ℤ◌, ltb_ℤ, max_zero, negate_ℕ}
use greencompute_api.Prelude.Dict.{lookup, insert}
use greencompute_api.Billing.Schema.{
  LedgerEntry, Invoice, Result, Db, book, violates_unique, ref_entry,
}
use greencompute_api.Billing.Balance.{credit_user, debit_user, drained, debit_user_to_floor}
use greencompute_api.Billing.Holds.{
  reserve_inference_hold, total_held, sweep_stale, is_other_active,
}
use greencompute_api.Billing.Invoices.{
  is_rejected, is_expired, is_topup_of, paid_by, stored_ref, credit_invoice,
  confirm_and_credit_invoice,
}
use greencompute_api.Billing.Deposits.{is_credited, or_else, manual_credit_row, credit_deposit}
use greencompute_api.Billing.Stripe.{
  is_paid, session_ref, refund_ref, complete_and_credit_stripe_session, reverse_stripe_topup,
}

pub data Posts {A : Type 0} (db : Db) (r : Result A × Db) : Type 0 where
  kept : r.1.users ≡ db.users → r.1.ledger ≡ db.ledger → Posts db r
  posted :
      (row : LedgerEntry) (balance : ℤ)
      → lookup row.user_id db.users ≡ some balance
      → violates_unique row.deposit_ref db.ledger ≡ false
      → row.balance_after ≡ balance +ℤ row.amount_cents
      → r.1.users ≡ insert row.user_id row.balance_after db.users
      → r.1.ledger ≡ row ∷ db.ledger
      → Posts db r

pub book-Posts :
    {A : Type 0} (a : Result A) (user : String) (balance amount : ℤ) (kind : String)
    (reference ref : Option String) (description : String) (now : ℕ) (db : Db)
    → lookup user db.users ≡ some balance
    → violates_unique ref db.ledger ≡ false
    → Posts db (a, book user balance amount kind reference ref description now db)
unfolding book
book-Posts a user balance amount kind reference ref description now db e v =
    posted _ balance e v refl refl refl

pub credit_user-Posts :
    (u : String) (a : ℤ) (k : String) (r : Option String) (d : String) (now : ℕ) (db : Db)
    → Posts db (credit_user u a k r d now db)
unfolding credit_user
credit_user-Posts u a k r d now db =
    option-cases (Posts db) (lookup u db.users) (λ e. kept refl refl)
      (λ b e. book-Posts _ u b a k r none d now db e refl)

pub debit_user-Posts :
    (u : String) (a : ℤ) (k : String) (r : Option String) (d : String) (neg : Bool) (now : ℕ)
    (db : Db)
    → Posts db (debit_user u a k r d neg now db)
unfolding debit_user
debit_user-Posts u a k r d neg now db =
    option-cases (Posts db) (lookup u db.users) (λ e. kept refl refl)
      (λ b e.
        if-cases (Posts db) (not neg && ltb_ℤ b a) (λ short. kept refl refl)
          (λ enough. book-Posts _ u b (pos 0 -ℤ a) k r none d now db e refl))

pub debit_user_to_floor-Posts :
    (u : String) (a : ℤ) (k : String) (r : Option String) (d : String) (now : ℕ) (db : Db)
    → Posts db (debit_user_to_floor u a k r d now db)
unfolding debit_user_to_floor
debit_user_to_floor-Posts u a k r d now db =
    option-cases (Posts db) (lookup u db.users) (λ e. kept refl refl)
      (λ b e.
        if-cases (λ d'. Posts db (drained a b, d')) (ltb 0 (min (max_zero a) (max_zero b)))
          (λ taken.
            book-Posts _ u b (negate_ℕ (min (max_zero a) (max_zero b))) k r none d now db e refl)
          (λ nothing. kept refl refl))

pub reserve_inference_hold-Posts :
    (u : String) (a : ℤ) (r : String) (ttl now : ℕ) (db : Db)
    → Posts db (reserve_inference_hold u a r ttl now db)
unfolding reserve_inference_hold
reserve_inference_hold-Posts u a r ttl now db =
    option-cases (Posts db) (lookup u db.users) (λ e. kept refl refl)
      (λ b e.
        let active = total_held (is_other_active u r now) (sweep_stale u now db.holds) in
        if-cases (Posts db) (ltb_ℤ (b -ℤ pos active) (pos (max_zero a))) (λ short. kept refl refl)
          (λ enough. kept refl refl))

credit_invoice-Posts :
    (i tx d : String) (inv : Invoice) (b a : ℤ) (ref : Option String) (now : ℕ) (db : Db)
    → lookup inv.user_id db.users ≡ some b
    → Posts db (credit_invoice i inv b a tx d ref now db)
unfolding credit_invoice book
credit_invoice-Posts i tx d inv b a ref now db e =
    if-cases (Posts db) (violates_unique (stored_ref ref) db.ledger) (λ dup. kept refl refl)
      (λ new. posted _ b e new refl refl refl)

pub confirm_and_credit_invoice-Posts :
    (i tx d : String) (ref : Option String) (late : Bool) (cents : Option ℤ) (now : ℕ) (db : Db)
    → Posts db (confirm_and_credit_invoice i tx d ref late cents now db)
unfolding confirm_and_credit_invoice
confirm_and_credit_invoice-Posts i tx d ref late cents now db =
    option-cases (Posts db) (lookup i db.invoices) (λ e. kept refl refl)
      (λ inv e.
        if-cases (Posts db) (is_rejected inv.status || is_expired inv.status && not late)
          (λ refusal. kept refl refl)
          (λ _.
            if-cases (Posts db) (is_some (find (is_topup_of i) db.ledger))
              (λ paid_before. kept refl refl)
              (λ _.
                option-cases (Posts db) (paid_by ref db.ledger)
                  (λ _.
                    option-cases (Posts db) (lookup inv.user_id db.users) (λ _. kept refl refl)
                      (λ b known. credit_invoice-Posts i tx d inv b _ ref now db known))
                  (λ already _. kept refl refl))))

pub credit_deposit-Posts :
    (ref u : String) (a : ℤ) (d by : String) (now : ℕ) (db : Db)
    → Posts db (credit_deposit ref u a d by now db)
unfolding credit_deposit book
credit_deposit-Posts ref u a d by now db =
    option-cases (Posts db) (lookup ref db.deposits) (λ _. kept refl refl)
      (λ dep _.
        if-cases (Posts db) (is_credited dep.status) (λ _. kept refl refl)
          (λ _.
            option-cases (Posts db)
              (or_else (ref_entry ref db.ledger) (manual_credit_row dep.tx_hash db.ledger))
              (λ _.
                option-cases (Posts db) (lookup u db.users) (λ _. kept refl refl)
                  (λ b known.
                    if-cases (Posts db) (violates_unique (some ref) db.ledger) (λ _. kept refl refl)
                      (λ new. posted _ b known new refl refl refl)))
              (λ earlier _. kept refl refl)))

pub complete_and_credit_stripe_session-Posts :
    (id : String) (now : ℕ) (db : Db) → Posts db (complete_and_credit_stripe_session id now db)
unfolding complete_and_credit_stripe_session book
complete_and_credit_stripe_session-Posts id now db =
    option-cases (Posts db) (lookup id db.sessions) (λ _. kept refl refl)
      (λ s _.
        if-cases (Posts db) (is_paid s.status) (λ _. kept refl refl)
          (λ _.
            option-cases (Posts db) (lookup s.user_id db.users) (λ _. kept refl refl)
              (λ b known.
                if-cases (Posts db) (violates_unique (some (session_ref id)) db.ledger)
                  (λ _. kept refl refl) (λ new. posted _ b known new refl refl refl))))

pub reverse_stripe_topup-Posts :
    (u : String) (a : ℤ) (event : String) (r : Option String) (d k : String) (now : ℕ) (db : Db)
    → Posts db (reverse_stripe_topup u a event r d k now db)
unfolding reverse_stripe_topup
reverse_stripe_topup-Posts u a event r d k now db =
    if-cases (Posts db) (is_some (ref_entry (refund_ref event) db.ledger)) (λ _. kept refl refl)
      (λ _.
        option-cases (Posts db) (lookup u db.users) (λ _. kept refl refl)
          (λ b known.
            if-cases (Posts db) (violates_unique (some (refund_ref event)) db.ledger)
              (λ _. kept refl refl)
              (λ new.
                book-Posts _ u b (pos 0 -ℤ a) k r (some (refund_ref event)) d now db known new)))
