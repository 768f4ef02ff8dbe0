-- ===== src/Elog.antt =====
-- The logging library elog/.
pub mod Context
pub mod FixedBuffer
pub mod AsyncLogging
pub mod LogFile
pub mod Formatting
pub mod Frontend
mod Examples
