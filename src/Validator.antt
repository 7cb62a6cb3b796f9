-- ===== src/Validator.antt =====
-- The validator's planning code: domain/flux.py and domain/multinode.py in
-- services/validator/src/greencompute_validator.
pub mod Flux
pub mod Rebalance
pub mod MultiNode
pub mod Replicas
mod Tests
mod ReplicaTests
