-- ===== src/Split/Kinds/Under.antt =====
-- The vectors that the splitting functions leave alone.
use robot_ddz.Prelude.{
  false, true, Bool, ℕ, zero, suc, ◌+◌, ◌≡◌, refl, ◌∙◌, arith, Bool-cases, inl, inr, ◌&&◌, Option,
  some, none, Bool, true, false, if◌then◌else◌, pos, eqb_ℤ,
}
use robot_ddz.Cards.Hands.{
  HandType, make_hand, solo_chain, pair_chain, trio_chain, bomb, nuke, trio, pair, solo, rank,
  black_joker, red_joker, card_3,
}
use robot_ddz.Cards.HandMap.{hands_of, set_hands}
use robot_ddz.Split.Work.{Deal, Work, finish_key}
use robot_ddz.Split.Bomb.{get_bomb}
use robot_ddz.Split.Chains.{get_trio_chain}
use robot_ddz.Split.Normal.{get_normal_hand, grab, settle, settle_all, grab_nuke}
use robot_ddz.Split.Solo.Conservation.{get_solo_chain}
use robot_ddz.Split.Kicker.Loose.{Apart, hands_of-set_hands_other, hands_of-push_hand_other}

-- The vector under `k` is the same in both.
abbrev pub SameUnder : HandType → Deal → Deal → Type 0
SameUnder k d d' = hands_of k d'.hand_map ≡ hands_of k d.hand_map

finish_key-SameUnder :
    (k j : HandType) (d d' : Deal) (r : Option Work)
    → Apart k j
    → finish_key k d r ≡ some d'
    → SameUnder j d d'
finish_key-SameUnder k j d d' none a e = grind arith
finish_key-SameUnder k j d d' (some w) a e =
    let f : set_hands k w.hands d.hand_map ≡ d'.hand_map = grind arith in
    rw f at (hands_of-set_hands_other k j w.hands d.hand_map a)

pub get_solo_chain-SameUnder :
    (j : HandType) (d d' : Deal)
    → Apart solo_chain j
    → get_solo_chain d ≡ some d'
    → SameUnder j d d'
unfolding get_solo_chain
get_solo_chain-SameUnder j d d' a e = finish_key-SameUnder solo_chain j d d' _ a e

pub get_trio_chain-SameUnder :
    (j : HandType) (d d' : Deal)
    → Apart trio_chain j
    → get_trio_chain d ≡ some d'
    → SameUnder j d d'
unfolding get_trio_chain
get_trio_chain-SameUnder j d d' a e = finish_key-SameUnder trio_chain j d d' _ a e

pub get_bomb-SameUnder : (j : HandType) (d : Deal) → Apart bomb j → SameUnder j d (get_bomb d)
unfolding get_bomb
get_bomb-SameUnder j d a = hands_of-set_hands_other bomb j _ d.hand_map a

grab-SameUnder :
    (k : ℕ) (t : HandType) (i : ℕ) (d : Deal)
    → Apart t pair_chain
    → SameUnder pair_chain d (grab k t i d)
unfolding grab
grab-SameUnder k t i d a = elim (Bool-cases (eqb_ℤ (d.cards i) (pos k))) [
  | inl here ↦ rw here (hands_of-push_hand_other t pair_chain (make_hand t i) d.hand_map a)
  | inr other ↦ rw other refl
]

either-SameUnder :
    (b : Bool) (d x y : Deal)
    → SameUnder pair_chain d x
    → SameUnder pair_chain d y
    → SameUnder pair_chain d (if b then x else y)
either-SameUnder true d x y h k = h
either-SameUnder false d x y h k = k

settle-SameUnder : (i : ℕ) (d : Deal) → SameUnder pair_chain d (settle i d)
unfolding settle
settle-SameUnder i d =
    let d1 : Deal = if eqb_ℤ (d.cards i) (pos 4) then grab 4 bomb i d else grab 3 trio i d in
    let d2 : Deal = grab 2 pair i d1 in
    grab-SameUnder 1 solo i d2 (unfold rank in refl)
    ∙ grab-SameUnder 2 pair i d1 (unfold rank in refl)
    ∙ either-SameUnder (eqb_ℤ (d.cards i) (pos 4)) d (grab 4 bomb i d) (grab 3 trio i d)
        (grab-SameUnder 4 bomb i d (unfold rank in refl))
        (grab-SameUnder 3 trio i d (unfold rank in refl))

settle_all-SameUnder : (n i : ℕ) (d : Deal) → SameUnder pair_chain d (settle_all n i d)
unfolding settle_all
settle_all-SameUnder zero i d = refl
settle_all-SameUnder (suc n) i d =
    settle_all-SameUnder n (i + 1) (settle i d) ∙ settle-SameUnder i d

grab_nuke-SameUnder : (d : Deal) → SameUnder pair_chain d (grab_nuke d)
unfolding grab_nuke
grab_nuke-SameUnder d =
    elim (Bool-cases (eqb_ℤ (d.cards black_joker) (pos 1) && eqb_ℤ (d.cards red_joker) (pos 1))) [
      | inl both ↦ rw both (
          hands_of-push_hand_other bomb pair_chain (make_hand nuke black_joker) d.hand_map
            (unfold rank in refl))
      | inr other ↦ rw other refl
    ]

pub get_normal_hand-SameUnder : (d : Deal) → SameUnder pair_chain d (get_normal_hand d)
unfolding get_normal_hand
get_normal_hand-SameUnder d = settle_all-SameUnder 15 card_3 (grab_nuke d) ∙ grab_nuke-SameUnder d
