-- ===== src/Player/Game/Kept.antt =====
-- What sorting the hand and counting the controls leave as it was.
use mathlib.Core.Path.{subst}
use robot_ddz.Prelude.{
  ℕ, ◌≡◌, inl, inr, refl, sym, ◌∙◌, true, Bool-cases, Option-cases, Option, none, some, arith, ◌||◌,
  ℤ, pos, negsuc, eqb_ℤ,
}
use robot_ddz.Choice.Sort.{sort_hands_with_best_kind}
use robot_ddz.Player.State.{Ai, is_free, seat_index}
use robot_ddz.Player.Controls.{cal_control}
use robot_ddz.Player.Game.{sort_hands, sort_hand_map, count_opponents, count_controls, then_count}

-- What sorting the hand leaves as it was.
abbrev pub Kept : Ai → Ai → Type 0
Kept a b =
    (b.ai_cards ≡ a.ai_cards)
    × (b.cur_hand ≡ a.cur_hand)
    × (is_free b ≡ is_free a)
    × (b.ai_seat ≡ a.ai_seat)
    × (b.player_info ≡ a.player_info)
    × (b.remain_points ≡ a.remain_points)
    × (b.other_points ≡ a.other_points)

pub Kept-by : (a x b : Ai) → Kept a x → some x ≡ some b → Kept a b
Kept-by a x b k e = let same : x ≡ b = cc in subst (Kept a) same k

count_opponents-Kept : (me : ℕ) (a b : Ai) → count_opponents me a ≡ some b → Kept a b
unfolding count_opponents is_free
count_opponents-Kept me a b e =
    elim (Bool-cases (eqb_ℤ a.lord_seat (negsuc 0) || eqb_ℤ a.lord_seat a.ai_seat)) [
      | inl all ↦
          Kept-by a _ b (refl, refl, refl, refl, refl, refl, refl) (rw (count_opponents, all) at e)
      | inr one ↦ elim (Option-cases (seat_index a.lord_seat)) [
        | inl out ↦ let e' = rw (count_opponents, one, out) at e in grind arith
        | inr (l, seat) ↦
            Kept-by a _ b (refl, refl, refl, refl, refl, refl, refl)
              (rw (count_opponents, one, seat) at e)
      ]
    ]

sort_hands-Kept : (me : ℕ) (m : ℤ) (a b : Ai) → sort_hands me m a ≡ some b → Kept a b
unfolding sort_hands is_free
sort_hands-Kept me (negsuc n) a b e = grind arith
sort_hands-Kept me (pos m) a b e =
    elim (Option-cases (
      sort_hands_with_best_kind a.lowest_control m a.other_points ((a.player_info me).points)
        true)) [
          | inl fault ↦ let e' = rw (sort_hands, fault) at e in grind arith
          | inr (found, sorted) ↦
              Kept-by a _ b (refl, refl, refl, refl, refl, refl, refl)
                (rw (sort_hands, sorted) at e)
        ]

Kept-trans : (a b c : Ai) → Kept a b → Kept b c → Kept a c
Kept-trans a b c (x, y, z, u, v, w, t) (x', y', z', u', v', w', t') =
    (x' ∙ x, y' ∙ y, z' ∙ z, u' ∙ u, v' ∙ v, w' ∙ w, t' ∙ t)

pub sort_hand_map-Kept : (a b : Ai) → sort_hand_map a ≡ some b → Kept a b
unfolding sort_hand_map is_free
sort_hand_map-Kept a b e = elim (Option-cases (seat_index a.ai_seat)) [
  | inl out ↦ let e' = rw (sort_hand_map, out) at e in grind arith
  | inr (me, seat) ↦ elim (Option-cases (count_opponents me a)) [
    | inl fault ↦ let e' = rw (sort_hand_map, seat, fault) at e in grind arith
    | inr (c, counted) ↦
        let e' = rw (sort_hand_map, seat, counted) at e in
        Kept-trans a c b (count_opponents-Kept me a c counted)
          (sort_hands-Kept me c.max_opp_number c b e')
  ]
]

count_controls-Kept : (a b : Ai) → count_controls a ≡ some b → Kept a b
unfolding count_controls is_free
count_controls-Kept a b e = elim (Option-cases (seat_index a.ai_seat)) [
  | inl out ↦ let e' = rw (count_controls, out) at e in grind arith
  | inr (me, sits) ↦
      elim (Option-cases
        (cal_control ((a.player_info me).points) a.other_points a.lowest_control)) [
          | inl fault ↦ let e' = rw (count_controls, sits, fault) at e in grind arith
          | inr (n, counted) ↦
              Kept-by a _ b (refl, refl, refl, refl, refl, refl, refl)
                (rw (count_controls, sits, counted) at e)
        ]
]

pub then_count-Kept :
    (a b : Ai) (r : Option Ai) → r ≡ sort_hand_map a → then_count r ≡ some b → Kept a b
then_count-Kept a b none s e = grind arith
then_count-Kept a b (some c) s e =
    Kept-trans a c b (sort_hand_map-Kept a c (sym s)) (count_controls-Kept c b e)
