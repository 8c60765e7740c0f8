-- ===== src/Notice.antt =====
-- The notice service, app/noticeService: its two tables, the consumer and the RPC handlers.
pub mod Tables
pub mod Consumer
pub mod Handlers
pub mod Rows
pub mod Invariant
pub mod Reach
pub mod Counts
pub mod Cancel
pub mod Read
pub mod Listing
