-- ===== src/Player.antt =====
-- The card player `OGLordRobotAI` (new_robot_client/src/OGLordRobotAI.cpp): what it keeps, how it
-- follows a game, and how it takes its cards out.
pub mod State
pub mod Controls
pub mod Game
pub mod Take
pub mod Decide
pub mod Turn
pub mod Resume
pub mod Ops
pub mod Refused
