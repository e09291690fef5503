-- ===== src/PgOutput.antt =====
-- backend/internal/cdc/pgoutput/parser.go: PostgreSQL's logical replication messages.
pub mod Wire
pub mod Text
pub mod Tuples
pub mod Decoder
pub mod Releasing
pub mod Stamping
pub mod RoundTrip
mod Tests
