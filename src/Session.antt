-- ===== src/Session.antt =====
-- internal/opcua/session.go: the sessions of the server, from the limits to the registry that issues,
-- finds, activates and ends them.
pub mod Limits
pub mod State
pub mod Table
pub mod Identity
pub mod Registry
pub mod Conserved
pub mod Runs
pub mod Bounded
pub mod Soundness
pub mod Expiry
pub mod Access
pub mod Activation
