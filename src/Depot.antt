-- ===== src/Depot.antt =====
-- services/depot/: signed distributions on this host.
mod Tests
mod Numbered
pub mod Protocol
pub mod State
pub mod Plan
pub mod Verify
pub mod Machine
pub mod Install
