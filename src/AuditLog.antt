-- ===== src/AuditLog.antt =====
-- internal/auditlog: the log of events, one JSON object to a line.
pub mod Events
pub mod Log
pub mod Reading
mod Examples
