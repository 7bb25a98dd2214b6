-- ===== src/Player/Game/Balance.antt =====
-- The card counter through a game: the own cards and the others' against those that remain.
use mathlib.Core.Path.{subst}
use robot_ddz.Prelude.{
  ℕ, zero, suc, ◌+◌, ◌≡◌, ◌≢◌, ◌⊎◌, inl, inr, refl, sym, ap, Bool, true, false, Bool-cases,
  Option-cases, List, [], ◌∷◌, Option, none, some, length, arith, ltb, ltb_ℤ, if◌then◌else◌, ℤ, pos,
  negsuc, pos_part, neg_part, eqb_ℤ, ◌-ℤ◌, ◌+ℤ◌, -ℤ_parts, +ℤ_parts,
}
use robot_ddz.Cards.Hands.{Hand, nothing, is_type}
use robot_ddz.Cards.Points.{
  Points, update, bump_point, points_sub, card_to_point, card_vec_to_point_arr,
}
use robot_ddz.Recognize.{get_hand}
use robot_ddz.Search.Higher.{no_hand}
use robot_ddz.Player.State.{Ai, CardsInfo, seat_index, set_info, update_ai_position}
use robot_ddz.Player.Game.{
  played_points, note_cards, note_hand, in_take_out_card, in_call_score, base_cards, first_cards,
  with_lord, set_lord,
}
use robot_ddz.Player.Take.Parted.{cards_of}

-- What the robot hears between the deal and the end of a game.
pub data Event : Type 0 where
  called : ℤ → ℤ → Event
  lord_set : ℤ → List ℤ → Event
  played : ℤ → List ℤ → Event

abbrev pub hear : Event → Ai → Option Ai
hear (called seat score) a = some (in_call_score seat score a)
hear (lord_set seat cards) a = set_lord seat cards a
hear (played seat cards) a = in_take_out_card seat cards a

abbrev pub hear_all : List Event → Ai → Option Ai
hear_all [] a = some a
hear_all (e ∷ es) a = elim (hear e a) [ none ↦ none | some b ↦ hear_all es b ]

-- How many cards of the point `p` the robot got as the lord.
abbrev pub got : ℤ → List Event → ℕ → ℕ
got me [] p = 0
got me (lord_set seat cards ∷ es) p =
    (if eqb_ℤ seat me then cards_of p (first_cards 3 cards) else 0) + got me es p
got me (called seat score ∷ es) p = got me es p
got me (played seat cards ∷ es) p = got me es p

-- `own + other = remain + extra` at each point.
abbrev pub OverBy : (ℕ → ℕ) → ℕ → Ai → Type 0
OverBy extra me a =
    (p : ℕ)
    → pos_part ((a.player_info me).points p)
        + pos_part (a.other_points p)
        + neg_part (a.remain_points p)
      ≡ pos_part (a.remain_points p)
        + extra p
        + neg_part ((a.player_info me).points p)
        + neg_part (a.other_points p)

pub points_sub_parts :
    (c d : Points) (p : ℕ)
    → pos_part (points_sub c d p) + neg_part (c p) + pos_part (d p)
      ≡ neg_part (points_sub c d p) + pos_part (c p) + neg_part (d p)
unfolding points_sub
points_sub_parts c d p = -ℤ_parts (c p) (d p)

set_info_at :
    (s me : ℕ) (i : CardsInfo) (infos : ℕ → CardsInfo) → s ≡ me → set_info s i infos me ≡ i
set_info_at s me i infos e = ground arith

set_info_away :
    (s me : ℕ) (i : CardsInfo) (infos : ℕ → CardsInfo) → me ≢ s → set_info s i infos me ≡ infos me
set_info_away s me i infos e = ground arith

note_cards-OverBy :
    (extra : ℕ → ℕ) (me s : ℕ) (mine : Bool) (n : ℕ) (c : Points) (a : Ai)
    → ((mine ≡ true) × (s ≡ me)) ⊎ ((mine ≡ false) × (me ≢ s))
    → OverBy extra me a
    → OverBy extra me (note_cards s mine n c a)
note_cards-OverBy extra me s mine n c a (inl (own, here)) b p =
    rw
      (
        own,
        set_info_at s me
            (record {
              points = played_points true c ((a.player_info s).points);
              total = (a.player_info s).total -ℤ pos n;
            })
            a.player_info here,
        here,
      )
      (omega (
        arith,
        b p,
        points_sub_parts a.remain_points c p,
        points_sub_parts ((a.player_info me).points) c p,
      ))
note_cards-OverBy extra me s mine n c a (inr (others, away)) b p =
    rw
      (
        others,
        set_info_away s me
            (record {
              points = played_points false c ((a.player_info s).points);
              total = (a.player_info s).total -ℤ pos n;
            })
            a.player_info away,
      )
      (omega
        (arith, b p, points_sub_parts a.remain_points c p, points_sub_parts a.other_points c p))

note_hand-OverBy :
    (extra : ℕ → ℕ) (me : ℕ) (seat : ℤ) (h : Hand) (a : Ai)
    → OverBy extra me a
    → OverBy extra me (note_hand seat h a)
note_hand-OverBy extra me seat h a b = elim (Bool-cases (is_type h.type nothing)) [
  | inl blank ↦ rw blank b
  | inr hand ↦ rw hand b
]

seat_of : (me : ℕ) (seat : ℤ) (s : ℕ) → seat_index seat ≡ some s → seat ≡ pos s
seat_of me (pos k) s e = ground arith
seat_of me (negsuc k) s e = grind arith

whose :
    (me s : ℕ) (seat : ℤ)
    → seat_index seat ≡ some s
    → ((eqb_ℤ seat (pos me) ≡ true) × (s ≡ me)) ⊎ ((eqb_ℤ seat (pos me) ≡ false) × (me ≢ s))
whose me s seat e =
    let same = seat_of me seat s e in
    let p : pos_part seat ≡ s = ap pos_part same in
    let q : neg_part seat ≡ 0 = ap neg_part same in
    elim (Bool-cases (eqb_ℤ seat (pos me))) [
      | inl own ↦ inl (own, ground arith)
      | inr other ↦ inr (other, λ h. ground arith)
    ]

pub in_take_out_card-OverBy :
    (extra : ℕ → ℕ) (me : ℕ) (seat : ℤ) (cards : List ℤ) (a b : Ai)
    → in_take_out_card seat cards a ≡ some b
    → a.ai_seat ≡ pos me
    → OverBy extra me a
    → OverBy extra me b
unfolding in_take_out_card
in_take_out_card-OverBy extra me seat [] a b e seated over =
    let same : note_hand seat no_hand a ≡ b = cc in
    subst (OverBy extra me) same (note_hand-OverBy extra me seat no_hand a over)
in_take_out_card-OverBy extra me seat (card ∷ cards) a b e seated over =
    elim (Option-cases (seat_index seat)) [
      | inl out ↦ let e' = rw (in_take_out_card, out) at e in grind arith
      | inr (s, sits) ↦ elim (Option-cases (card_vec_to_point_arr (card ∷ cards))) [
        | inl fault ↦ let e' = rw (in_take_out_card, sits, fault) at e in grind arith
        | inr (c, counted) ↦ elim (Option-cases (get_hand c no_hand)) [
          | inl fault ↦ let e' = rw (in_take_out_card, sits, counted, fault) at e in grind arith
          | inr (h, known) ↦
              let n : ℕ = length (card ∷ cards) in
              let e' = rw (in_take_out_card, sits, counted, known) at e in
              let a' : Ai = note_cards s (eqb_ℤ seat a.ai_seat) n c a in
              let same : note_hand seat h a' ≡ b = cc in
              let who = whose me s seat sits in
              let who' =
                subst
                  (λ u. ((eqb_ℤ seat u ≡ true) × (s ≡ me)) ⊎ ((eqb_ℤ seat u ≡ false) × (me ≢ s)))
                  (sym seated) who in
              subst (OverBy extra me) same (
                note_hand-OverBy extra me seat h a'
                  (note_cards-OverBy extra me s (eqb_ℤ seat a.ai_seat) n c a who' over))
        ]
      ]
    ]

bump_point_lem :
    (x : ℤ) (c r : Points) (p : ℕ)
    → bump_point c x ≡ some r
    → pos_part (r p) + neg_part (c p)
      ≡ pos_part (c p) + (if eqb_ℤ x (pos p) then 1 else 0) + neg_part (r p)
unfolding bump_point
bump_point_lem (negsuc n) c r p e = grind arith
bump_point_lem (pos k) c r p e = elim (Bool-cases (ltb k 16)) [
  | inr far ↦ let e' = rw (bump_point, far) at e in grind arith
  | inl near ↦
      let e' = rw (bump_point, near) at e in
      let same : update c k (c k +ℤ pos 1) ≡ r = cc in
      rw⁻¹ same (ground (arith, +ℤ_parts (c k) (pos 1)))
]

base_cards_mine :
    (n : ℕ) (cards : List ℤ) (c r : Points) (p : ℕ)
    → base_cards n true cards c ≡ some r
    → pos_part (r p) + neg_part (c p)
      ≡ pos_part (c p) + cards_of p (first_cards n cards) + neg_part (r p)
base_cards_mine zero cards c r p e = let same : c ≡ r = cc in rw same (omega arith)
base_cards_mine (suc n) [] c r p e = grind arith
base_cards_mine (suc n) (card ∷ cards) c r p e =
    elim (Option-cases (bump_point c (card_to_point card))) [
      | inl fault ↦ let e' = rw (base_cards, fault) at e in grind arith
      | inr (c', bumped) ↦
          let e' = rw (base_cards, bumped) at e in
          omega (
            arith,
            bump_point_lem (card_to_point card) c c' p bumped,
            base_cards_mine n cards c' r p e',
          )
    ]

with_lord-OverBy :
    (extra : ℕ → ℕ) (me l : ℕ) (seat : ℤ) (cards : List ℤ) (c : Points) (a : Ai)
    → ((eqb_ℤ seat a.ai_seat ≡ true) × (l ≡ me)) ⊎ ((eqb_ℤ seat a.ai_seat ≡ false) × (me ≢ l))
    → base_cards 3 (eqb_ℤ seat a.ai_seat) cards ((a.player_info l).points) ≡ some c
    → OverBy extra me a
    → OverBy
        (λ p. extra p + (if eqb_ℤ seat a.ai_seat then cards_of p (first_cards 3 cards) else 0))
        me
        (with_lord l seat cards c a)
unfolding with_lord update_ai_position
with_lord-OverBy extra me l seat cards c a (inl (own, here)) found over p =
    let found' = rw own at found in
    let held = subst (λ u. OverBy extra u a) (sym here) over in
    rw (own, set_info_at l me (record { points = c; total = pos 20 }) a.player_info here)
      (omega (arith, held p, base_cards_mine 3 cards ((a.player_info l).points) c p found'))
with_lord-OverBy extra me l seat cards c a (inr (other, away)) found over p =
    rw (other, set_info_away l me (record { points = c; total = pos 20 }) a.player_info away)
      (omega (arith, over p))

pub set_lord-OverBy :
    (extra : ℕ → ℕ) (me : ℕ) (seat : ℤ) (cards : List ℤ) (a b : Ai)
    → set_lord seat cards a ≡ some b
    → a.ai_seat ≡ pos me
    → OverBy extra me a
    → OverBy
        (λ p. extra p + (if eqb_ℤ seat a.ai_seat then cards_of p (first_cards 3 cards) else 0))
        me
        b
unfolding set_lord
set_lord-OverBy extra me seat cards a b e seated over = elim (Option-cases (seat_index seat)) [
  | inl out ↦ let e' = rw (set_lord, out) at e in grind arith
  | inr (l, sits) ↦
      elim (Option-cases (base_cards 3 (eqb_ℤ seat a.ai_seat) cards ((a.player_info l).points))) [
        | inl fault ↦ let e' = rw (set_lord, sits, fault) at e in grind arith
        | inr (c, found) ↦
            let e' = rw (set_lord, sits, found) at e in
            let same : with_lord l seat cards c a ≡ b = cc in
            let who =
              subst (λ u. ((eqb_ℤ seat u ≡ true) × (l ≡ me)) ⊎ ((eqb_ℤ seat u ≡ false) × (me ≢ l)))
                (sym seated) (whose me l seat sits) in
            subst
              (OverBy
                (λ p.
                  extra p + (if eqb_ℤ seat a.ai_seat then cards_of p (first_cards 3 cards) else 0))
                me)
              same (with_lord-OverBy extra me l seat cards c a who found over)
      ]
]

pub note_hand_seat : (seat : ℤ) (h : Hand) (a : Ai) → (note_hand seat h a).ai_seat ≡ a.ai_seat
note_hand_seat seat h a = elim (Bool-cases (is_type h.type nothing)) [
  | inl blank ↦ rw blank refl
  | inr hand ↦ rw hand refl
]

pub in_call_score_seat : (seat bid : ℤ) (a : Ai) → (in_call_score seat bid a).ai_seat ≡ a.ai_seat
unfolding in_call_score
in_call_score_seat seat bid a = elim (Bool-cases (ltb_ℤ (pos 0) bid)) [
  | inl high ↦ rw (in_call_score, high) refl
  | inr pass ↦ rw (in_call_score, pass) refl
]

pub in_call_score-OverBy :
    (extra : ℕ → ℕ) (me : ℕ) (seat bid : ℤ) (a : Ai)
    → OverBy extra me a
    → OverBy extra me (in_call_score seat bid a)
unfolding in_call_score
in_call_score-OverBy extra me seat bid a over = elim (Bool-cases (ltb_ℤ (pos 0) bid)) [
  | inl high ↦ rw (in_call_score, high) over
  | inr pass ↦ rw (in_call_score, pass) over
]
