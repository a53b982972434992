-- ===== src/Domain.antt =====
-- domain/: the types that every part of the host speaks.
mod Tests
pub mod Manifest
pub mod Semver
pub mod Version
