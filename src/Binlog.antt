-- ===== src/Binlog.antt =====
-- backend/internal/cdc/mysqlbinlog: the events of a MySQL binary log and the transactions they make.
pub mod Events
pub mod Rows
pub mod Assembler
pub mod Conserving
pub mod Streams
pub mod Gtid
mod Tests
