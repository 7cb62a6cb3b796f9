-- ===== src/ControlPlane.antt =====
-- services/control-plane: what decides where a deployment runs, what state it is in, and what its
-- owner pays for it.
pub mod States
pub mod Reservations
pub mod Placement
pub mod Assign
pub mod Deployment
pub mod Lifecycle
pub mod Metering
pub mod KeyLimits
pub mod Sweeps
pub mod Health
pub mod Operator
mod Tests
mod LifeTests
mod SweepTests
mod OperatorTests
