-- ===== src/Search.antt =====
-- The search for a hand that beats another: `findHigherHandFromPoints` and `findKickerFromPoints`
-- (new_robot_client/src/AIUtils.cpp).
pub mod Kickers
pub mod Higher
pub mod Runs
pub mod Beats
pub mod Answers
