-- ===== src/Pool.antt =====
-- The robots that are free and those that are connected: `EventProcess`
-- (new_robot_client/src/EventProcess.cpp), with what TcpEventServer.cpp does to the connections. A
-- robot stands for its number.
pub mod Start
pub mod Whole
pub mod Run
pub mod Robots
pub mod Served
use robot_ddz.Prelude.{
  ℕ, zero, suc, ◌+◌, Bool, true, false, List, [], ◌∷◌, ◌++◌, Option, none, some, ◌==◌,
  if◌then◌else◌, ℤ, pos, eqb_ℤ, ◌-ℤ◌, erase_first,
}

-- `headerRobotId_`, `taskRobotList_`, `untaskRobotList_`, the robot of each connection in
-- `mapConn_`, and how many timers there are to connect the header robot again.
pub record Pool : Type 0 where
  pub header_robot_id : ℤ
  pub task_robot_list : List ℤ
  pub untask_robot_list : List ℤ
  pub map_conn : List (ℕ × ℤ)
  pub retries : ℕ

-- The robot of a connection.
abbrev pub robot_at : ℕ → List (ℕ × ℤ) → Option ℤ
robot_at fd [] = none
robot_at fd ((k, x) ∷ m) = if k == fd then some x else robot_at fd m

-- `mapConn_.insert` of a connection that a robot is set for after it.
abbrev pub put_conn : ℕ → ℤ → List (ℕ × ℤ) → List (ℕ × ℤ)
put_conn fd x [] = (fd, x) ∷ []
put_conn fd x ((k, y) ∷ m) = if k == fd then (k, x) ∷ m else (k, y) ∷ put_conn fd x m

-- `mapConn_.erase`.
abbrev pub erase_conn : ℕ → List (ℕ × ℤ) → List (ℕ × ℤ)
erase_conn fd [] = []
erase_conn fd ((k, y) ∷ m) = if k == fd then m else (k, y) ∷ erase_conn fd m

-- `MoveRobotFromTaskListToUntaskList` of the robot `x`, which was the first of the list `xs` is
-- the rest of.
abbrev pub move_from_task_to_untask : ℕ → ℤ → List ℤ → Pool → Pool
move_from_task_to_untask fd x xs p = record p {
  task_robot_list = xs;
  untask_robot_list = p.untask_robot_list ++ x ∷ [];
  map_conn = put_conn fd x p.map_conn;
}

-- `MoveRobotFromUntaskListToTaskList`.
abbrev pub move_from_untask_to_task : ℤ → Pool → Pool
move_from_untask_to_task x p = record p {
  task_robot_list = p.task_robot_list ++ x ∷ [];
  untask_robot_list = erase_first x p.untask_robot_list;
}

-- `MoveRobotFromUntaskList`.
abbrev pub move_from_untask : ℤ → Pool → Pool
move_from_untask x p = record p { untask_robot_list = erase_first x p.untask_robot_list }

-- The loop of `AddRobot`, with the free robots `xs` left; `connect` says what each call of
-- `CreateConnection` gives, from the `k`-th on.
unfoldable pub add_robots : (ℕ → Option ℕ) → ℕ → ℤ → List ℤ → Pool → Pool × Bool
add_robots connect k n [] p = (p, true)
add_robots connect k n (x ∷ xs) p = if eqb_ℤ n (pos 0) then (p, true) else elim (connect k) [
  | none ↦ (p, false)
  | some fd ↦ add_robots connect (k + 1) (n -ℤ pos 1) xs (move_from_task_to_untask fd x xs p)
]

-- `AddRobot`.
unfoldable pub add_robot : (ℕ → Option ℕ) → ℤ → Pool → Pool × Bool
unfolding add_robots
add_robot connect n p = add_robots connect 0 n p.task_robot_list p

-- `DelRobot` with `CloseConnection`; a connection that has been closed has no buffer.
unfoldable pub del_robot : ℕ → Pool → Pool × Bool
del_robot fd p = elim (robot_at fd p.map_conn) [
  | none ↦ (p, false)
  | some x ↦
      let q = move_from_untask_to_task x p in
      (record q { map_conn = erase_conn fd p.map_conn }, true)
]

-- `DelRobotAndCloseConnection`.
unfoldable pub del_robot_and_close_connection : ℕ → Pool → Pool × Bool
del_robot_and_close_connection fd p = elim (robot_at fd p.map_conn) [
  | none ↦ (p, false)
  | some x ↦
      let q = move_from_untask x p in (record q { map_conn = erase_conn fd p.map_conn }, true)
]

-- `CloseEvent`, with `EventCb` around it.
unfoldable pub close_event : ℕ → Pool → Pool
close_event fd p = elim (robot_at fd p.map_conn) [
  | none ↦ p
  | some x ↦
      let q =
        if eqb_ℤ x p.header_robot_id
        then record p { retries = p.retries + 1 }
        else move_from_untask_to_task x p in
      record q { map_conn = erase_conn fd p.map_conn }
]

-- `InitHeaderRobotConnection`.
unfoldable pub init_header_robot_connection : Option ℕ → Pool → Pool
init_header_robot_connection none p = record p { retries = p.retries + 1 }
init_header_robot_connection (some fd) p = record p {
  map_conn = put_conn fd p.header_robot_id p.map_conn;
}
