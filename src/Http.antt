-- ===== src/Http.antt =====
-- src/common/http: requests to a server, at once or with callbacks.
pub mod SyncRequest
pub mod AsyncRequest
mod Tests
