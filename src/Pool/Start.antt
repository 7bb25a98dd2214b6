-- ===== src/Pool/Start.antt =====
-- `initParam`: the numbers of the robots.
use robot_ddz.Prelude.{
  ℕ, zero, suc, ◌+◌, List, [], ◌∷◌, Option, none, some, ◌||◌, if◌then◌else◌, ℤ, pos, pos_part,
  leb_ℤ, ltb_ℤ, ◌-ℤ◌, ◌+ℤ◌,
}
use robot_ddz.Pool.{Pool}

-- `n` numbers from `i` on.
abbrev pub numbers_from : ℕ → ℕ → List ℤ
numbers_from zero i = []
numbers_from (suc n) i = pos i ∷ numbers_from n (i + 1)

-- The number of robots, no more than the range of numbers has.
abbrev pub robot_num : ℤ → ℤ → ℤ → ℤ
robot_num start end num = if ltb_ℤ (end -ℤ start) num then end -ℤ start +ℤ pos 1 else num

-- `initParam`, with the settings that it reads; a wrong setting gives none.
unfoldable pub init_param : ℤ → ℤ → ℤ → Option Pool
init_param start end num =
    if leb_ℤ start (pos 0) || leb_ℤ end (pos 0) || leb_ℤ num (pos 0)
    then none
    else if ltb_ℤ end start
    then none
    else some (record {
      header_robot_id = start;
      task_robot_list =
          numbers_from (pos_part (robot_num start end num -ℤ pos 1)) (pos_part start + 1);
      untask_robot_list = [];
      map_conn = [];
      retries = 0;
    })
