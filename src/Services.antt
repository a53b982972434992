-- ===== src/Services.antt =====
-- services/: what the host keeps and decides for the services that it runs.
mod Tests
pub mod Ports
pub mod Schema
pub mod Access
pub mod Exchange
pub mod Registry
