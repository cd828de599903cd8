-- ===== src/Txn.antt =====
-- internal/txn: the transactional replacement of the configuration file, the binary, or both.
-- The children define the disk (`Disk`), the system calls (`Calls`), the manager's `Run` and
-- `RecoverOnBoot` (`Manager`, `Recovery`), and a logic of postconditions that hold at crashes too.
pub mod Disk
pub mod Calls
pub mod Manager
pub mod Recovery
pub mod Hoare
pub mod CallRules
pub mod Safety
pub mod Preparing
pub mod Prepared
pub mod Committing
pub mod RunSafety
pub mod RunResult
pub mod RecoverySafety
pub mod RecoveryResult
pub mod Recovered
pub mod Atomic
pub mod Refusals
mod Examples
