-- ===== src/Util.antt =====
-- src/common/util: the quantiles of a sorted sample.
pub mod Quantiles
mod Tests
