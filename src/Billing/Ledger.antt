-- ===== src/Billing/Ledger.antt =====
-- What the methods of billing_repository.py that change the balances, the ledger, the invoices, the
-- deposits, the checkout sessions or the holds do to the balances and the ledger.
pub mod Posts
pub mod Keeps
pub mod Calls
pub mod Invariant
pub mod Once
pub mod Booked
pub mod Keyed
