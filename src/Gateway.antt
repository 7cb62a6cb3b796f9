-- ===== src/Gateway.antt =====
-- The gateway's rules on API keys: domain/scopes.py and, in application/services.py and
-- transport/security.py of services/gateway/src/greencompute_gateway, what mints and checks a key.
pub mod Scopes
pub mod ApiKeys
mod Tests
