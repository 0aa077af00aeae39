-- ===== src/Source.antt =====
-- The sources' pure parts: PostgreSQL's stream decoder (crates/source/src/pgoutput.rs), MySQL's
-- packets (crates/source-mysql/src/packet.rs), the transactions that a MySQL checkpoint claims
-- (crates/source-mysql/src/gtid.rs), and when to connect again (crates/source/src/reconnect.rs).
pub mod Reconnect
pub mod Gtid
pub mod Messages
pub mod Pgoutput
pub mod Packets
mod Tests
