-- ===== src/Choice.antt =====
-- The choice among the splits: `getHandsMapSummary`, `compareHandMapSummary`,
-- `sortHandsWithBestKind` and `sortHandsLordOnly1Card` (new_robot_client/src/AIUtils.cpp).
pub mod Charge
pub mod Summary
pub mod Sort
pub mod Best
pub mod Solos
pub mod Held
