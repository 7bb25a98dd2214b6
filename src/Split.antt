-- ===== src/Split.antt =====
-- Splitting a player's cards into hands (new_robot_client/src/AIUtils.cpp).
pub mod Work
pub mod Bomb
pub mod Normal
pub mod Chains
pub mod Solo
pub mod Kicker
pub mod Kinds
