-- ===== src/Prometheus.antt =====
-- src/postboy/prometheus_metrics: metrics, their registry and their text form.
pub mod Names
pub mod Histogram
pub mod HistogramCounts
pub mod Text
pub mod TextFormat
pub mod Family
pub mod FamilyLabels
pub mod Registry
pub mod RegistryNames
pub mod Protobuf
pub mod Gateway
pub mod GatewayStatus
mod Tests
mod PushTests
