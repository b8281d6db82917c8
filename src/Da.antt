-- ===== src/Da.antt =====
-- internal/opcda: what the adapter keeps of a DA source between calls, without the COM bindings.
pub mod Pending
pub mod Coalesce
pub mod PendingLaws
pub mod Backoff
pub mod BackoffLaws
pub mod Arrays
pub mod ArrayLaws
