-- ===== src/Agent.antt =====
-- internal/agent: collecting metrics, cutting them into chunks and handing these to the workers.
pub mod Collector
pub mod Chunk
pub mod Runner
pub mod Pool
pub mod Run
pub mod Startup
pub mod Batch
pub mod Client
