-- ===== src/Intrusive.antt =====
-- src/common/intrusive: lists linked through their own nodes.
pub mod Chain
pub mod ForwardList
pub mod ForwardListOrder
pub mod ForwardListRuns
pub mod List
mod Tests
