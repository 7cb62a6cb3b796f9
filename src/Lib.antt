-- ===== src/Lib.antt =====
-- greencompute-api: the money and the machines of a GPU rental platform.
--
-- The gateway keeps the customers' credits. Its BillingRepository
-- (services/gateway/src/greencompute_gateway/infrastructure/billing_repository.py) books each of its
-- changes of a balance together with a ledger row. Two writes of a balance stand outside that class and
-- are not modelled: save_user (infrastructure/repository.py), which writes back the balance that its
-- caller has read, without a ledger row, and delete_account (application/account_deletion.py), which
-- takes the remaining credit with one. The control plane
-- (services/control-plane/src/greencompute_control_plane) decides on which node a deployment runs,
-- takes the node's GPUs for it, follows the reports on its state, and charges its owner by the hour
-- through the gateway's debit_user_to_floor.
--
-- The files:
--   Prelude: Booleans, lists, signed integers, tables by key, stable sorting, text.
--   Billing/Schema: the rows (packages/persistence/.../orm.py), the database, one transaction.
--   Billing/Balance, Holds, Invoices, Reviews, Deposits, Stripe: the methods of BillingRepository, a
--     function per method under the method's name; Charges and Holds/Capacity are about debits and holds.
--   Billing/Matches, Billing/Resolve: resolve_deposit (services/gateway/.../application/
--     billing_service.py), which decides whose a transfer is; the float amounts of a call are given
--     as its quotes. Resolve/Bookings, Outcomes, Replays, Payments: what it books, how
--     often, and the payment of an invoice's exact amount. Billing/Claims: the transfers that a linked
--     wallet or an admin's assignment credits later; Claims/Booked is what the former books.
--   Billing/Ledger: one data type of the calls that write the balances, the ledger, the invoices, the
--     deposits, the checkout sessions or the holds, and what sequences of them keep. The calls that write
--     other tables are not in it: add_verified_wallet, delete_verified_wallet, accrue_miner_payout and
--     record_demand_tick.
--   ControlPlane/States: domain/state.py. ControlPlane/Reservations: the GPU reservations of
--     infrastructure/repository.py. ControlPlane/Placement: domain/scheduler.py.
--   ControlPlane/Assign: leases, resumes and the orphan sweep of application/services.py over the
--     reservations and the reported nodes; Assign/History plays sequences of them.
--   ControlPlane/Deployment, Lifecycle: the deployment's row and update_deployment_status.
--   ControlPlane/Metering: meter_usage, hourly_charge_cents and the accumulator in millicents.
--   Bus: SubjectBus (packages/persistence/src/greencompute_persistence/bus.py), which carries the
--     requests between the services: Bus/Claims and Bus/Delivery are about who gets a delivery,
--     Bus/Published about what claim_pending hands out after publish.
--   RateLimit: FixedWindowRateLimiter (packages/persistence/.../rate_limit.py).
--   ControlPlane/Sweeps: meter_pod_storage, suspension_terms and the loops that stop deployments;
--     Sweeps/Fates is about one loop, Sweeps/Stops about the table. ControlPlane/KeyLimits:
--     packages/persistence/.../key_limits.py.
--   ControlPlane/Operator, ControlPlane/Health: requeue, forced failure, cleanup and failed health
--     checks; a raise keeps what the earlier transactions of the call have committed.
--   Gateway/Scopes: services/gateway/src/greencompute_gateway/domain/scopes.py. Gateway/ApiKeys:
--     create_api_key (application/services.py) and _check_scopes (transport/security.py);
--     ApiKeys/Reader is about a key that may only read.
--   Validator/Flux, Validator/Rebalance: FluxOrchestrator
--     (services/validator/src/greencompute_validator/domain/flux.py). The while loop runs on fuel, one
--     turn per GPU and one more; every turn takes a GPU when each model takes at least one.
--   Validator/MultiNode, Validator/Replicas: domain/multinode.py, the planning of replicas over several
--     nodes and what is done with their rows.
--   The files named Tests, and ControlPlane/LifeTests, ControlPlane/SweepTests,
--     ControlPlane/OperatorTests, Validator/ReplicaTests: the theorems at concrete inputs.
--
-- A transaction is a function from a state to a result and a state; a raise leaves the state as it
-- was before the transaction. Calls run one after the other, as the row locks and the placement
-- lock make them; what overlapping calls of resume_deployment do, which takes no placement lock, is
-- not modelled.
-- Cents are integers (a balance may be negative), GPUs and millicents natural numbers. Times are
-- microseconds. Every other loop is a recursion over a list.
--
-- Python's floats are an interface in placement (Placement.Floats); in the meter the quotient that is
-- rounded is taken exactly, as it is for the rates and times that occur. Fresh identifiers, metrics,
-- log lines, notifications, e-mails and the HTTP layer are left out. Not
-- modelled are the gateway's accounts, its watcher of the chains and its inference proxy, the wallets,
-- payout accruals and demand counters of BillingRepository, the creation and the time-outs of
-- deployments, the validator's probes and scores, and the builder.
pub mod Prelude
pub mod Billing
pub mod ControlPlane
pub mod Bus
pub mod RateLimit
pub mod Validator
pub mod Gateway
