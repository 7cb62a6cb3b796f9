-- ===== src/Billing.antt =====
-- The money of the gateway: services/gateway/src/greencompute_gateway/infrastructure/
-- billing_repository.py, over the tables of packages/persistence (orm.py).
pub mod Schema
pub mod Balance
pub mod Charges
pub mod Holds
pub mod Invoices
pub mod Reviews
pub mod Deposits
pub mod Matches
pub mod Resolve
pub mod Claims
pub mod Stripe
pub mod Ledger
mod Tests
