-- ===== src/Framework.antt =====
-- internal/framework: the lifecycle of instances, which all instance kinds share.
pub mod RingBuffer
pub mod Status
pub mod Kind
pub mod Sizing
pub mod Commit
pub mod Manager
mod Tests
