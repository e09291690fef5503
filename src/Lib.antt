-- ===== src/Lib.antt =====
-- Verification of DTS, a data transfer service that copies a database and follows its changes.
--
-- The program. A server (backend/internal/migration) drives migration tasks through their life: full copy,
-- change data capture (CDC), validation, cutover, rollback. Its repository (backend/internal/repository,
-- of which backend/internal/repository/memory is the in-memory one) keeps tasks, leases, engine jobs,
-- checkpoints and a durable spool of source transactions. Workers claim engine jobs under leases, run a
-- reader of the source's log (backend/internal/cdc/runtime) and hand its transactions to the server, which
-- stages them in the spool and applies them in order. Readers of clustered sources merge the logs of the
-- members first (backend/internal/cdc/orderedmerge).
--
-- The files.
--  Common             shared names: Boolean tests, lists, errors, bytes, association lists for Go maps
--  Domain             backend/internal/domain/models.go: tasks, positions, spool records, engine jobs
--  OrderedMerge       backend/internal/cdc/orderedmerge/merge.go: `Merge`
--  CdcRuntime         backend/internal/cdc/runtime/runtime.go: `Run`
--  Store              backend/internal/repository/memory/memory.go: Control (leases of control operations),
--                     Jobs (engine jobs), Spool (the CDC spool), Positions (checkpoints),
--                     DeadLetters
--  Lifecycle          backend/internal/migration/state_machine.go and service.go: Transitions, Jobs, Workers
--                     (`StartEngineJob`, `FailEngineJob` and the like), Control (`Pause`, `Cancel`), Rollback,
--                     Staging (`stageCDCEvents`), Applying (`ApplyCDCEvents`, the commit fence, dead letters and
--                     `drainCDCSpoolLocked`)
--  PgOutput           backend/internal/cdc/pgoutput/parser.go: Wire (cursor, `ParseCopyData`), Text (the numbers
--                     and base64 that it prints), Tuples (`parseTuple`, `tupleFields`, `decodeRelation`),
--                     Decoder (`Push`)
--  Binlog             backend/internal/cdc/mysqlbinlog: Events and Rows (parser.go, and the GTID event of
--                     gtid.go), Assembler (transaction.go), Gtid (`GTIDSet` of gtid.go)
--  Auth               backend/internal/auth/rbac.go: Rbac (`Allowed`, `Authenticate`)
--  Pipeline           backend/internal/pipeline/full.go: Batching (`normalizeConfig`, and the batch size of `Run`),
--                     Running (`Run` as a step relation: the goroutine that reads ahead, the channel, the loop)
--  Validation         backend/internal/validation/checksum.go: Values (`canonicalValue`, the bytes of a row), Scanning (the
--                     loop over batches), Checksums (`AddRequest`, `UnorderedCanonicalRequests`, `RangeCanonical`,
--                     `KeysetCanonicalBounded`)
--
-- Each operation of the source is the definition of the same name in antt's spelling, the loops inside it
-- are helpers by structural recursion. A Go error is an `err`, and an operation of the service that fails
-- keeps what it wrote before. A mutex makes an operation of the repository one step; what other goroutines
-- do in between are other steps, in any order, wherever a theorem speaks of a sequence of calls.
--
-- Bounds and fuel. Times, lags and counts are numbers from 0 on and do not overflow; where a width matters
-- to a result, the wrap-around is written out. `Run` loops until its reader ends or a call fails: its
-- model takes fuel, and a theorem says how much is enough; so does the loop over the batches of a table,
-- where more fuel than rows is enough, and the loop that drains the spool, whose fuel is what it may
-- drain. No other model takes fuel.
--
-- Parameters. Vendor readers, target writers, connectors, the length of a JSON text, the canonical texts of
-- math/big and encoding/json, SHA-256, the clock and fresh ids are arguments of the definitions that use
-- them.
--
-- Not modelled: HTTP, SQL and file back ends, connectors and vendor protocols, report signing, command-line
-- tools, alerts, log lines and metrics; they are I/O, or text for other programs.
pub mod Common
pub mod Domain
pub mod OrderedMerge
pub mod CdcRuntime
pub mod Store
pub mod Lifecycle
pub mod PgOutput
pub mod Binlog
pub mod Auth
pub mod Pipeline
pub mod Validation
