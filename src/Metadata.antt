-- ===== src/Metadata.antt =====
-- internal/metadata: the tables of a shard (Blobs, Tables), its transactions (Transaction), what
-- they do with packages (Packages, Unpacked), and the balance of reference counts (Balance).
pub mod Blobs
mod Tests
pub mod Tables
pub mod Transaction
pub mod Balance
