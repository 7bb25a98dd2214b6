-- ===== src/Cards.antt =====
-- include/RobotConfig.h and the card helpers of src/AIUtils.cpp, in new_robot_client.
pub mod Hands
pub mod Points
pub mod HandMap
pub mod Scan
pub mod Picks
