-- ===== src/Billing/Ledger/Invariant.antt =====
-- What holds of the balances and the ledger after any sequence of calls.
use greencompute_api.Prelude.{
  String, ◌≡◌, refl, Bool, true, some, List, [], ◌∷◌, if◌then◌else◌, ◌==◌, string_eq, eq_iff, find,
  is_some, Bool-cases, inl, inr,
}
use greencompute_api.Prelude.Int.{ℤ, pos, ◌+ℤ◌, int_laws, changes_compose}
use greencompute_api.Prelude.Dict.{lookup, insert, lookup-insert}
use greencompute_api.Billing.Schema.{LedgerEntry, Db, balance_of}
use greencompute_api.Billing.Ledger.Posts.{kept, posted}
use greencompute_api.Billing.Ledger.Calls.{Call, call, run, Moves, call-Moves}

-- The sum of a user's ledger rows.
abbrev pub ledger_total : String → List LedgerEntry → ℤ
ledger_total u [] = pos 0
ledger_total u (e ∷ l) = (if u == e.user_id then e.amount_cents else pos 0) +ℤ ledger_total u l

-- The change of a user's balance is the change of the sum of the user's rows.
abbrev pub Reconciled : String → Db → Db → Type 0
Reconciled u db db' =
    balance_of u db' +ℤ ledger_total u db.ledger ≡ balance_of u db +ℤ ledger_total u db'.ledger

posted-Reconciled :
    (u v : String) (b a b' : ℤ) (db db' : Db)
    → lookup v db.users ≡ some b
    → b' ≡ b +ℤ a
    → db'.users ≡ insert v b' db.users
    → ledger_total u db'.ledger ≡ (if u == v then a else pos 0) +ℤ ledger_total u db.ledger
    → Reconciled u db db'
posted-Reconciled u v b a b' db db' known after users total =
    rw (users, lookup-insert v u b' db.users, total)
      (elim (Bool-cases (u == v)) [
        | inl same ↦ rw (same, (eq_iff u v).0 same, known, after) (omega int_laws)
        | inr other ↦ rw other (omega int_laws)
      ])

Moves-Reconciled : (u : String) (db db' : Db) → Moves db db' → Reconciled u db db'
Moves-Reconciled u db db' (kept users ledger) = rw (users, ledger)
Moves-Reconciled u db db' (posted row b known new after users ledger) =
    posted-Reconciled u row.user_id b row.amount_cents row.balance_after db db' known after users
      (rw ledger)

-- For any sequence of calls from any database, and any user: the user's balance changes by exactly
-- the sum of the rows that the calls added for that user to the ledger.
pub run-Reconciled : (cs : List Call) (u : String) (db : Db) → Reconciled u db (run cs db)
unfolding run
run-Reconciled [] u db = refl
run-Reconciled (c ∷ cs) u db =
    changes_compose _ _ _ _ (ledger_total u (call c db).ledger) _
      (Moves-Reconciled u db (call c db) (call-Moves c db)) (run-Reconciled cs u (call c db))

-- `new` is `old` with rows added in front.
pub data Extends (old : List LedgerEntry) : List LedgerEntry → Type 0 where
  same : Extends old old
  added : {new : List LedgerEntry} (e : LedgerEntry) → Extends old new → Extends old (e ∷ new)

Extends-trans : {a b c : List LedgerEntry} → Extends a b → Extends b c → Extends a c
Extends-trans h same = h
Extends-trans h (added e k) = added e (Extends-trans h k)

Moves-Extends : (db db' : Db) → Moves db db' → Extends db.ledger db'.ledger
Moves-Extends db db' (kept users ledger) = rw ledger same
Moves-Extends db db' (posted row b known new after users ledger) = rw ledger (added row same)

pub call-Extends : (c : Call) (db : Db) → Extends db.ledger (call c db).ledger
call-Extends c db = Moves-Extends db (call c db) (call-Moves c db)

-- No call deletes or changes a row of the ledger: any sequence of calls only adds rows in front.
pub run-Extends : (cs : List Call) (db : Db) → Extends db.ledger (run cs db).ledger
unfolding run
run-Extends [] db = same
run-Extends (c ∷ cs) db = Extends-trans (call-Extends c db) (run-Extends cs (call c db))

-- What a SELECT found it still finds.
pub Extends-find :
    (p : LedgerEntry → Bool) {old new : List LedgerEntry}
    → Extends old new
    → is_some (find p old) ≡ true
    → is_some (find p new) ≡ true
Extends-find p same h = h
Extends-find p (added e k) h = elim (Bool-cases (p e)) [
  | inl found ↦ rw found
  | inr other ↦ rw other (Extends-find p k h)
]
