-- ===== src/Examples.antt =====
-- The theorems of the library at concrete inputs, and tests of the definitions.
mod Toolkit
mod Storage
mod Overlap
mod Database
mod Pool
mod Startup
mod Pipeline
mod Agent
mod Reset
mod AuditLog
mod Handler
mod Network
