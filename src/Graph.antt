-- ===== src/Graph.antt =====
-- src/postboy/base and src/postboy/runtime: the graph of postboys and the queues between them.
pub mod Queues
pub mod Processor
pub mod Producers
pub mod Binding
pub mod LateProducers
pub mod Runtime
pub mod Validation
pub mod Success
mod Tests
mod RuntimeTests
pub mod Prepared
pub mod Traffic
pub mod SharedTraffic
