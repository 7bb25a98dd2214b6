-- ===== src/Session.antt =====
-- The session of a task robot with the game server (new_robot_client/src/RobotBase.cpp and
-- RobotTask.cpp).
pub mod State
pub mod Wire
pub mod Login
pub mod Entry
pub mod Play
pub mod Process
