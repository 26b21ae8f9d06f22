-- ===== src/Postboy.antt =====
-- src/postboy/base/postboy.hpp and postboy.cpp: one postboy, its thread and the requests to it.
pub mod State
pub mod Runner
pub mod Lifecycle
pub mod Finish
pub mod Completion
mod Tests
