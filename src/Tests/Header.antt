-- ===== src/Tests/Header.antt =====
-- The header robot in the sign-up time of a match.
use robot_ddz.Prelude.{true, [], ◌∷◌, some, none, pos}
use robot_ddz.Session.State.{new_node}
use robot_ddz.Header.{HeaderProtocol, HeaderRobot, HeaderNode, SignUpTimes}

-- The sign-up is from 1000 to 2000, and the match begins at 2100.
abbrev times : SignUpTimes
times = record {
  result = pos 0;
  start_sign_up_time = pos 1000;
  end_sign_up_time = pos 2000;
  start_time = pos 2100;
}

abbrev header_wire : HeaderProtocol
header_wire = record {
  need_robot_ack = λ s. none;
  sign_up_times = λ s. some times;
  need_robot_req = λ id. some (8 ∷ 3 ∷ []);
}

abbrev match_header : HeaderRobot
match_header = record { match_id = pos 3; is_time_trail = true }

abbrev answered : HeaderNode
answered = record { node = new_node 2012 []; need_robot_num = pos 0 }
