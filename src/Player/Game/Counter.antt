-- ===== src/Player/Game/Counter.antt =====
-- The card counter from the deal on.
use mathlib.Core.Path.{subst}
use robot_ddz.Prelude.{
  ℕ, ◌+◌, ◌==◌, ◌≡◌, inl, inr, refl, ◌∙◌, Option-cases, List, [], ◌∷◌, some, arith, if◌then◌else◌,
  ℤ, pos, eqb_ℤ, length,
}
use robot_ddz.Cards.Points.{Points, card_vec_to_point_arr}
use robot_ddz.Recognize.{get_hand}
use robot_ddz.Search.Higher.{no_hand}
use robot_ddz.Player.State.{Ai, seat_index, full_deck, update_ai_position}
use robot_ddz.Player.Game.{
  unknown_points, in_take_out_card, in_call_score, set_lord, with_lord, base_cards, first_cards,
  note_cards, note_hand, init_card, dealt, sort_hand_map, then_count,
}
use robot_ddz.Player.Game.Kept.{Kept, then_count-Kept}
use robot_ddz.Player.Game.Balance.{
  Event, called, lord_set, played, hear, hear_all, got, OverBy, points_sub_parts, note_hand_seat,
  in_call_score_seat, in_call_score-OverBy, set_lord-OverBy, in_take_out_card-OverBy,
}
use robot_ddz.Player.Take.Parted.{cards_of}

in_take_out_card_seat :
    (seat : ℤ) (cards : List ℤ) (a b : Ai)
    → in_take_out_card seat cards a ≡ some b
    → b.ai_seat ≡ a.ai_seat
unfolding in_take_out_card
in_take_out_card_seat seat [] a b e =
    let same : note_hand seat no_hand a ≡ b = cc in
    subst (λ u. u.ai_seat ≡ a.ai_seat) same (note_hand_seat seat no_hand a)
in_take_out_card_seat seat (card ∷ cards) a b e = elim (Option-cases (seat_index seat)) [
  | inl out ↦ let e' = rw (in_take_out_card, out) at e in grind arith
  | inr (s, sits) ↦ elim (Option-cases (card_vec_to_point_arr (card ∷ cards))) [
    | inl fault ↦ let e' = rw (in_take_out_card, sits, fault) at e in grind arith
    | inr (c, counted) ↦ elim (Option-cases (get_hand c no_hand)) [
      | inl fault ↦ let e' = rw (in_take_out_card, sits, counted, fault) at e in grind arith
      | inr (h, known) ↦
          let e' = rw (in_take_out_card, sits, counted, known) at e in
          let a' : Ai = note_cards s (eqb_ℤ seat a.ai_seat) (length (card ∷ cards)) c a in
          let same : note_hand seat h a' ≡ b = cc in
          subst (λ u. u.ai_seat ≡ a.ai_seat) same (note_hand_seat seat h a')
    ]
  ]
]

with_lord_seat :
    (l : ℕ) (seat : ℤ) (cards : List ℤ) (c : Points) (a : Ai)
    → (with_lord l seat cards c a).ai_seat ≡ a.ai_seat
unfolding with_lord update_ai_position
with_lord_seat l seat cards c a = refl

set_lord_seat :
    (seat : ℤ) (cards : List ℤ) (a b : Ai) → set_lord seat cards a ≡ some b → b.ai_seat ≡ a.ai_seat
unfolding set_lord
set_lord_seat seat cards a b e = elim (Option-cases (seat_index seat)) [
  | inl out ↦ let e' = rw (set_lord, out) at e in grind arith
  | inr (l, sits) ↦
      elim (Option-cases (base_cards 3 (eqb_ℤ seat a.ai_seat) cards ((a.player_info l).points))) [
        | inl fault ↦ let e' = rw (set_lord, sits, fault) at e in grind arith
        | inr (c, found) ↦
            let e' = rw (set_lord, sits, found) at e in
            let same : with_lord l seat cards c a ≡ b = cc in
            subst (λ u. u.ai_seat ≡ a.ai_seat) same (with_lord_seat l seat cards c a)
      ]
]

hear_seat : (e : Event) (a b : Ai) → hear e a ≡ some b → b.ai_seat ≡ a.ai_seat
hear_seat (called seat score) a b h =
    let same : in_call_score seat score a ≡ b = cc in
    subst (λ u. u.ai_seat ≡ a.ai_seat) same (in_call_score_seat seat score a)
hear_seat (lord_set seat cards) a b h = set_lord_seat seat cards a b h
hear_seat (played seat cards) a b h = in_take_out_card_seat seat cards a b h

hear-OverBy :
    (extra : ℕ → ℕ) (me : ℕ) (e : Event) (a b : Ai)
    → hear e a ≡ some b
    → a.ai_seat ≡ pos me
    → OverBy extra me a
    → OverBy (λ p. extra p + got (pos me) (e ∷ []) p) me b
hear-OverBy extra me (called seat score) a b h sits over p =
    let same : in_call_score seat score a ≡ b = cc in
    let over' = subst (OverBy extra me) same (in_call_score-OverBy extra me seat score a over) in
    omega (arith, over' p)
hear-OverBy extra me (lord_set seat cards) a b h sits over p =
    let after = set_lord-OverBy extra me seat cards a b h sits over in
    let after' =
      subst
        (λ u.
          OverBy (λ q. extra q + (if eqb_ℤ seat u then cards_of q (first_cards 3 cards) else 0)) me
            b)
        sits after in
    omega (arith, after' p)
hear-OverBy extra me (played seat cards) a b h sits over p =
    omega (arith, in_take_out_card-OverBy extra me seat cards a b h sits over p)

got_cons :
    (me : ℤ) (e : Event) (es : List Event) (p : ℕ)
    → got me (e ∷ es) p ≡ got me (e ∷ []) p + got me es p
got_cons me (called seat score) es p = omega arith
got_cons me (lord_set seat cards) es p = omega arith
got_cons me (played seat cards) es p = omega arith

hear_all-OverBy :
    (extra : ℕ → ℕ) (me : ℕ) (es : List Event) (a b : Ai)
    → hear_all es a ≡ some b
    → a.ai_seat ≡ pos me
    → OverBy extra me a
    → OverBy (λ p. extra p + got (pos me) es p) me b
hear_all-OverBy extra me [] a b h sits over p =
    let same : a ≡ b = cc in let over' = subst (OverBy extra me) same over in omega (arith, over' p)
hear_all-OverBy extra me (e ∷ es) a b h sits over p = elim (Option-cases (hear e a)) [
  | inl fault ↦ let h' = rw (hear_all, fault) at h in grind arith
  | inr (c, heard) ↦
      let h' = rw (hear_all, heard) at h in
      let later =
        hear_all-OverBy (λ q. extra q + got (pos me) (e ∷ []) q) me es c b h'
          (hear_seat e a c heard ∙ sits) (hear-OverBy extra me e a c heard sits over) in
      omega (arith, later p, got_cons (pos me) e es p)
]

own_points : (me : ℕ) (c d : Points) → (if me == me then c else d) ≡ c
own_points me c d = ground arith

dealt-OverBy :
    (me : ℕ) (cards : List ℤ) (own : Points) (a : Ai)
    → OverBy (λ p. 0) me (dealt me (pos me) cards own a)
dealt-OverBy me cards own a p =
    rw (own_points me own unknown_points)
      (omega (arith, points_sub_parts (full_deck a.remain_points) own p))

Kept-OverBy : (extra : ℕ → ℕ) (me : ℕ) (a b : Ai) → Kept a b → OverBy extra me a → OverBy extra me b
Kept-OverBy extra me a b (cards, cur, free, sits, infos, remains, others) over p =
    rw (infos, remains, others) (over p)

-- After a deal and any sequence of calls, lord notices and plays that the card player can follow,
-- the own cards and the cards of the others of each point are together the remaining ones and the
-- base cards that the robot was given as the lord; so the two agree as long as it is not the lord.
pub init_card-OverBy :
    (me : ℕ) (cards : List ℤ) (es : List Event) (a b c : Ai)
    → init_card (pos me) cards a ≡ some b
    → hear_all es b ≡ some c
    → OverBy (got (pos me) es) me c
unfolding init_card
init_card-OverBy me cards es a b c e h = elim (Option-cases (seat_index (pos me))) [
  | inl out ↦ let e' = rw (init_card, out) at e in grind arith
  | inr (s, sits) ↦ elim (Option-cases (card_vec_to_point_arr cards)) [
    | inl fault ↦ let e' = rw (init_card, sits, fault) at e in grind arith
    | inr (own, counted) ↦
        let e' = rw (init_card, sits, counted) at e in
        let here : s ≡ me = ground arith in
        let d : Ai = dealt me (pos me) cards own a in
        let e'' =
          subst (λ u. then_count (sort_hand_map (dealt u (pos me) cards own a)) ≡ some b) here e' in
        let kept = then_count-Kept d b (sort_hand_map d) refl e'' in
        let start = Kept-OverBy (λ p. 0) me d b kept (dealt-OverBy me cards own a) in
        let (k1, k2, k3, sits', k5, k6, k7) = kept in
        λ p. omega (arith, hear_all-OverBy (λ q. 0) me es b c h sits' start p)
  ]
]
