-- ===== src/Api.antt =====
-- bin/api.cpp: the HTTP interface to a running program.
pub mod Latencies
pub mod Handlers
pub mod Routing
mod Tests
