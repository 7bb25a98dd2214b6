-- ===== src/Pool/Run.antt =====
-- The pool through what happens to it.
use mathlib.Core.Path.{subst}
use robot_ddz.Prelude.{
  ℕ, ◌+◌, ◌≤◌, ◌≡◌, inl, inr, refl, sym, ◌∙◌, true, false, Bool-cases, Option-cases, List, [], ◌∷◌,
  Option, none, some, arith, if◌then◌else◌, ℤ, eqb_ℤ, count, count-append, count-erase_first,
}
use robot_ddz.Pool.{
  Pool, robot_at, erase_conn, add_robot, del_robot, del_robot_and_close_connection, close_event,
  init_header_robot_connection, move_from_untask_to_task, move_from_untask,
}
use robot_ddz.Pool.Whole.{
  put_conn_fresh, erase_conn_lem, conns_of-robot_at, Matched, Steps, Fresh, Distinct, stays,
  then_Steps, add_robots-Steps,
}

-- Robots are asked for, a task robot ends or is given up, a connection closes, and the header robot
-- is connected again. The header robot's own callback does nothing.
pub data Event : Type 0 where
  asked : (ℕ → Option ℕ) → ℤ → Event
  ended given_up closed : ℕ → Event
  retried : Option ℕ → Event

abbrev pub unless_header : ℕ → Pool → Pool → Pool
unless_header fd q p = elim (robot_at fd p.map_conn) [
  | none ↦ p
  | some x ↦ if eqb_ℤ x p.header_robot_id then p else q
]

abbrev pub happen : Event → Pool → Pool
happen (asked connect n) p = (add_robot connect n p).0
happen (ended fd) p = unless_header fd (del_robot fd p).0 p
happen (given_up fd) p = unless_header fd (del_robot_and_close_connection fd p).0 p
happen (closed fd) p = close_event fd p
happen (retried made) p = init_header_robot_connection made p

abbrev pub happen_all : List Event → Pool → Pool
happen_all [] p = p
happen_all (e ∷ es) p = happen_all es (happen e p)

-- How often a task robot is given up.
abbrev pub gone : Event → Pool → ℤ → ℕ
gone (given_up fd) p x = elim (robot_at fd p.map_conn) [
  | none ↦ 0
  | some y ↦ if eqb_ℤ y p.header_robot_id then 0 else if eqb_ℤ y x then 1 else 0
]
gone _ p x = 0

abbrev pub gone_all : List Event → Pool → ℤ → ℕ
gone_all [] p x = 0
gone_all (e ∷ es) p x = gone e p x + gone_all es (happen e p) x

-- The numbers of new connections are not in use.
abbrev pub Promised : Event → Pool → Type 0
Promised (asked connect n) p = Distinct connect × Fresh connect 0 p.map_conn
Promised (retried (some fd)) p = robot_at fd p.map_conn ≡ none
Promised _ p = Unit

abbrev pub AllPromised : List Event → Pool → Type 0
AllPromised [] p = Unit
AllPromised (e ∷ es) p = Promised e p × AllPromised es (happen e p)

module _ (fd : ℕ) (y : ℤ) (p : Pool) (at : robot_at fd p.map_conn ≡ some y)
    (matched : Matched p) where
  returned :
      eqb_ℤ y p.header_robot_id ≡ false
      → Steps p
          (λ x. 0)
          (record (move_from_untask_to_task y p) { map_conn = erase_conn fd p.map_conn })
  returned task = (
    refl,
    (λ x other. omega (
      arith,
      matched x other,
      erase_conn_lem fd y x p.map_conn at,
      count-erase_first x y p.untask_robot_list taken,
    )),
    λ x other. omega (
      arith,
      count-append x p.task_robot_list (y ∷ []),
      count-erase_first x y p.untask_robot_list taken,
    ),
  )
    where
      taken : 1 ≤ count y p.untask_robot_list
      taken = omega (arith, matched y task, conns_of-robot_at fd y p.map_conn at)

  given :
      eqb_ℤ y p.header_robot_id ≡ false
      → Steps p
          (λ x. if eqb_ℤ y x then 1 else 0)
          (record (move_from_untask y p) { map_conn = erase_conn fd p.map_conn })
  given task = (
    refl,
    (λ x other. omega (
      arith,
      matched x other,
      erase_conn_lem fd y x p.map_conn at,
      count-erase_first x y p.untask_robot_list taken,
    )),
    λ x other. omega (arith, count-erase_first x y p.untask_robot_list taken),
  )
    where
      taken : 1 ≤ count y p.untask_robot_list
      taken = omega (arith, matched y task, conns_of-robot_at fd y p.map_conn at)

  disconnected :
      eqb_ℤ y p.header_robot_id ≡ true
      → Steps p (λ x. 0) (record p { retries = p.retries + 1; map_conn = erase_conn fd p.map_conn })
  disconnected head = (
    refl,
    (λ x other. ground (arith, matched x other, erase_conn_lem fd y x p.map_conn at)),
    λ x other. omega arith,
  )

module _ (fd : ℕ) (y : ℤ) (p : Pool) (at : robot_at fd p.map_conn ≡ some y) where
  deletes :
      (del_robot fd p).0
      ≡ record (move_from_untask_to_task y p) { map_conn = erase_conn fd p.map_conn }
  unfolding del_robot
  deletes = rw (del_robot, at) refl

  gives_up :
      (del_robot_and_close_connection fd p).0
      ≡ record (move_from_untask y p) { map_conn = erase_conn fd p.map_conn }
  unfolding del_robot_and_close_connection
  gives_up = rw (del_robot_and_close_connection, at) refl

  closes_task :
      eqb_ℤ y p.header_robot_id ≡ false
      → close_event fd p
        ≡ record (move_from_untask_to_task y p) { map_conn = erase_conn fd p.map_conn }
  unfolding close_event
  closes_task task = rw (close_event, at, task) refl

  closes_header :
      eqb_ℤ y p.header_robot_id ≡ true
      → close_event fd p ≡ record p { retries = p.retries + 1; map_conn = erase_conn fd p.map_conn }
  unfolding close_event
  closes_header head = rw (close_event, at, head) refl

  for_task : (q : Pool) → eqb_ℤ y p.header_robot_id ≡ false → unless_header fd q p ≡ q
  for_task q task = rw (unless_header, at, task) refl

  for_header : (q : Pool) → eqb_ℤ y p.header_robot_id ≡ true → unless_header fd q p ≡ p
  for_header q head = rw (unless_header, at, head) refl

module _ (fd : ℕ) (p : Pool) (missing : robot_at fd p.map_conn ≡ none) where
  for_none : (q : Pool) → unless_header fd q p ≡ p
  for_none q = rw (unless_header, missing) refl

  closes_none : close_event fd p ≡ p
  unfolding close_event
  closes_none = rw (close_event, missing) refl

ended-Steps : (fd : ℕ) (p : Pool) → Matched p → Steps p (λ x. 0) (happen (ended fd) p)
ended-Steps fd p matched =
    let q : Pool = (del_robot fd p).0 in
    elim (Option-cases (robot_at fd p.map_conn)) [
      | inl missing ↦ subst (Steps p (λ x. 0)) (sym (for_none fd p missing q)) (stays p matched)
      | inr (y, at) ↦ elim (Bool-cases (eqb_ℤ y p.header_robot_id)) [
        | inl head ↦ subst (Steps p (λ x. 0)) (sym (for_header fd y p at q head)) (stays p matched)
        | inr task ↦
            subst (Steps p (λ x. 0)) (sym (for_task fd y p at q task ∙ deletes fd y p at))
              (returned fd y p at matched task)
      ]
    ]

given_up-Steps :
    (fd : ℕ) (p : Pool) → Matched p → Steps p (gone (given_up fd) p) (happen (given_up fd) p)
given_up-Steps fd p matched =
    let q : Pool = (del_robot_and_close_connection fd p).0 in
    elim (Option-cases (robot_at fd p.map_conn)) [
      | inl missing ↦
          subst (Steps p (gone (given_up fd) p)) (sym (for_none fd p missing q))
            (rw (gone, missing) (stays p matched))
      | inr (y, at) ↦ elim (Bool-cases (eqb_ℤ y p.header_robot_id)) [
        | inl head ↦
            subst (Steps p (gone (given_up fd) p)) (sym (for_header fd y p at q head))
              (rw (gone, at, head) (stays p matched))
        | inr task ↦
            subst (Steps p (gone (given_up fd) p))
              (sym (for_task fd y p at q task ∙ gives_up fd y p at))
              (rw (gone, at, task) (given fd y p at matched task))
      ]
    ]

closed-Steps : (fd : ℕ) (p : Pool) → Matched p → Steps p (λ x. 0) (close_event fd p)
closed-Steps fd p matched = elim (Option-cases (robot_at fd p.map_conn)) [
  | inl missing ↦ subst (Steps p (λ x. 0)) (sym (closes_none fd p missing)) (stays p matched)
  | inr (y, at) ↦ elim (Bool-cases (eqb_ℤ y p.header_robot_id)) [
    | inl head ↦
        subst (Steps p (λ x. 0)) (sym (closes_header fd y p at head))
          (disconnected fd y p at matched head)
    | inr task ↦
        subst (Steps p (λ x. 0)) (sym (closes_task fd y p at task))
          (returned fd y p at matched task)
  ]
]

retried-Steps :
    (made : Option ℕ) (p : Pool)
    → Promised (retried made) p
    → Matched p
    → Steps p (λ x. 0) (init_header_robot_connection made p)
unfolding init_header_robot_connection
retried-Steps none p free matched = (refl, matched, λ x other. omega arith)
retried-Steps (some fd) p free matched = (
  refl,
  (λ x other.
      ground (arith, matched x other, put_conn_fresh fd p.header_robot_id x p.map_conn free)),
  λ x other. omega arith,
)

happen-Steps : (e : Event) (p : Pool) → Promised e p → Matched p → Steps p (gone e p) (happen e p)
happen-Steps (asked connect n) p (distinct, fresh) matched =
    unfold add_robot in add_robots-Steps connect 0 n p.task_robot_list p refl distinct fresh matched
happen-Steps (ended fd) p free matched = ended-Steps fd p matched
happen-Steps (given_up fd) p free matched = given_up-Steps fd p matched
happen-Steps (closed fd) p free matched = closed-Steps fd p matched
happen-Steps (retried made) p free matched = retried-Steps made p free matched

-- Through any events with connections as promised, the connections and the lists agree at the end,
-- and of each robot but the header robot as many are gone as the events take away.
pub happen_all-Steps :
    (es : List Event) (p : Pool)
    → AllPromised es p
    → Matched p
    → Steps p (gone_all es p) (happen_all es p)
happen_all-Steps [] p free matched = stays p matched
happen_all-Steps (e ∷ es) p (first, free) matched =
    let step = happen-Steps e p first matched in
    then_Steps p (happen e p) (happen_all es (happen e p)) (gone e p) (gone_all es (happen e p))
      step (happen_all-Steps es (happen e p) free step.1)
