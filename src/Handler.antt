-- ===== src/Handler.antt =====
-- internal/handler: the HTTP API. A handler takes a request and the state behind it, and returns
-- its calls of the ResponseWriter with the new state.
pub mod Update
pub mod Post
pub mod Get
pub mod Value
pub mod Updates
pub mod Html
pub mod Ping
pub mod ReadBack
pub mod Refusals
pub mod Batches
pub mod Json
pub mod JsonReads
