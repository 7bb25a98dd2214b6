-- ===== src/Split/Solo.antt =====
-- `getSoloChain`, `expandSoloChain` and `optimizeSoloChain`.
pub mod Five
pub mod Grow
pub mod Trim
pub mod Conservation
