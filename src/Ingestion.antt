-- ===== src/Ingestion.antt =====
-- internal/ingestion: payloads (Detect), archives (Zip), the service (Service), packages (Package),
-- the unpacking of large archives (Unpack) and its queue (Queue).
pub mod Detect
mod Tests
pub mod Zip
pub mod Service
pub mod Members
pub mod Package
pub mod Unpack
pub mod Queue
pub mod Balance
pub mod Errors
pub mod Returned
