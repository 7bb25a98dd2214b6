-- ===== src/Split/Kicker/Settled.antt =====
-- The splitting functions leave the vectors as the search for kickers needs them.
use robot_ddz.Prelude.{
  Bool, true, false, if◌then◌else◌, All, Bool-cases, inl, inr, ℕ, zero, suc, ◌+◌, ◌≡◌, refl, sym,
  ap, ◌∙◌, List, [], ◌∷◌, ◌++◌, arith, get_or, Option, some, none, ◌==◌, ◌&&◌, eqb_ℤ, pos,
}
use robot_ddz.Cards.Hands.{
  Hand, HandType, make_hand, nothing, trio_chain, trio_chain_solo, trio_chain_pair, pair_chain,
  solo_chain, trio, trio_solo, trio_pair, solo, pair, four_dual_pair, four_dual_solo, lz_bomb, bomb,
  nuke, lz, rank, card_3, black_joker, red_joker,
}
use robot_ddz.Cards.HandMap.{HandMap, hands_of, set_hands, push_hand, hands_of-set_hands}
use robot_ddz.Cards.Points.{update}
use robot_ddz.Split.Work.{Deal, Work, finish_key}
use robot_ddz.Split.Bomb.{get_bomb, get_trio, take_one, take_all}
use robot_ddz.Split.Normal.{get_normal_hand, grab, settle, settle_all, grab_nuke}
use robot_ddz.Split.Solo.Conservation.{get_solo_chain}
use robot_ddz.Split.Kicker.Loose.{Apart, IsLoose, Loose, Tidy, Loose-other}

kind_of_rank : ℕ → HandType
kind_of_rank n =
    get_or
      (nothing ∷ trio_chain_pair ∷ trio_chain_solo ∷ trio_chain ∷ pair_chain ∷ solo_chain
        ∷ trio_pair ∷ trio_solo ∷ trio ∷ pair ∷ solo ∷ four_dual_pair ∷ four_dual_solo ∷ lz_bomb
        ∷ bomb ∷ nuke ∷ lz ∷ [])
      n nothing

kind_of_rank-rank : (k : HandType) → kind_of_rank (rank k) ≡ k
unfolding kind_of_rank rank
kind_of_rank-rank nothing = refl
kind_of_rank-rank trio_chain_pair = refl
kind_of_rank-rank trio_chain_solo = refl
kind_of_rank-rank trio_chain = refl
kind_of_rank-rank pair_chain = refl
kind_of_rank-rank solo_chain = refl
kind_of_rank-rank trio_pair = refl
kind_of_rank-rank trio_solo = refl
kind_of_rank-rank trio = refl
kind_of_rank-rank pair = refl
kind_of_rank-rank solo = refl
kind_of_rank-rank four_dual_pair = refl
kind_of_rank-rank four_dual_solo = refl
kind_of_rank-rank lz_bomb = refl
kind_of_rank-rank bomb = refl
kind_of_rank-rank nuke = refl
kind_of_rank-rank lz = refl

rank_injective : (j k : HandType) → rank j ≡ rank k → j ≡ k
rank_injective j k e = sym (kind_of_rank-rank j) ∙ ap kind_of_rank e ∙ kind_of_rank-rank k

All-append : (P : Hand → Type 0) (hs : List Hand) (h : Hand) → All P hs → P h → All P (hs ++ h ∷ [])
All-append P [] h a p = (p, tt)
All-append P (x ∷ hs) h a p = (a.0, All-append P hs h a.1 p)

made-IsLoose : (k : HandType) (i : ℕ) → IsLoose k (make_hand k i)
made-IsLoose k i = (refl, omega arith, omega arith)

Loose-push_hand :
    (k j : HandType) (i : ℕ) (m : HandMap) → Loose j m → Loose j (push_hand k (make_hand k i) m)
unfolding push_hand
Loose-push_hand k j i m a = elim (Bool-cases (rank k == rank j)) [
  | inr apart ↦ Loose-other k j (hands_of k m ++ make_hand k i ∷ []) m apart a
  | inl same ↦
      let e : k ≡ j = rank_injective k j (ground arith) in
      rw (e, hands_of-set_hands j (hands_of j m ++ make_hand j i ∷ []) m)
        (All-append (IsLoose j) (hands_of j m) (make_hand j i) a (made-IsLoose j i))
]

Tidy-push_hand :
    (k : HandType) (i : ℕ) (m : HandMap) → Tidy m → Tidy (push_hand k (make_hand k i) m)
Tidy-push_hand k i m (s, q, t, c) = (
  Loose-push_hand k solo i m s,
  Loose-push_hand k pair i m q,
  Loose-push_hand k trio i m t,
  Loose-push_hand k trio_chain i m c,
)

-- A key that the search does not read may hold anything.
abbrev pub IsElsewhere : HandType → Type 0
IsElsewhere k = Apart k solo × Apart k pair × Apart k trio × Apart k trio_chain

pub Tidy-elsewhere :
    (k : HandType) (hs : List Hand) (m : HandMap) → IsElsewhere k → Tidy m → Tidy (set_hands k hs m)
Tidy-elsewhere k hs m (a, b, c, d) (s, q, t, u) = (
  Loose-other k solo hs m a s,
  Loose-other k pair hs m b q,
  Loose-other k trio hs m c t,
  Loose-other k trio_chain hs m d u,
)

bomb_elsewhere : IsElsewhere bomb
unfolding rank
bomb_elsewhere = (refl, refl, refl, refl)

solo_chain_elsewhere : IsElsewhere solo_chain
unfolding rank
solo_chain_elsewhere = (refl, refl, refl, refl)

pub get_bomb-Tidy : (d : Deal) → Tidy d.hand_map → Tidy (get_bomb d).hand_map
unfolding get_bomb
get_bomb-Tidy d t = Tidy-elsewhere bomb _ d.hand_map bomb_elsewhere t

finished-Tidy :
    (d d' : Deal) (r : Option Work)
    → finish_key solo_chain d r ≡ some d'
    → Tidy d.hand_map
    → Tidy d'.hand_map
finished-Tidy d d' none e t = grind arith
finished-Tidy d d' (some w) e t =
    let f : record { cards = w.cards; hand_map = set_hands solo_chain w.hands d.hand_map } ≡ d' =
      grind arith in
    rw (sym f) (Tidy-elsewhere solo_chain w.hands d.hand_map solo_chain_elsewhere t)

pub get_solo_chain-Tidy :
    (d d' : Deal) → get_solo_chain d ≡ some d' → Tidy d.hand_map → Tidy d'.hand_map
unfolding get_solo_chain
get_solo_chain-Tidy d d' e t = finished-Tidy d d' _ e t

grab-Tidy :
    (k : ℕ) (t : HandType) (i : ℕ) (d : Deal) → Tidy d.hand_map → Tidy (grab k t i d).hand_map
unfolding grab
grab-Tidy k t i d h = elim (Bool-cases (eqb_ℤ (d.cards i) (pos k))) [
  | inl here ↦ rw here (Tidy-push_hand t i d.hand_map h)
  | inr other ↦ rw other h
]

either-Tidy :
    (b : Bool) (x y : Deal) → Tidy x.hand_map → Tidy y.hand_map → Tidy (if b then x else y).hand_map
either-Tidy true x y h k = h
either-Tidy false x y h k = k

settle-Tidy : (i : ℕ) (d : Deal) → Tidy d.hand_map → Tidy (settle i d).hand_map
unfolding settle
settle-Tidy i d h =
    let d1 : Deal = if eqb_ℤ (d.cards i) (pos 4) then grab 4 bomb i d else grab 3 trio i d in
    let h1 : Tidy d1.hand_map =
      either-Tidy (eqb_ℤ (d.cards i) (pos 4)) (grab 4 bomb i d) (grab 3 trio i d)
        (grab-Tidy 4 bomb i d h) (grab-Tidy 3 trio i d h) in
    grab-Tidy 1 solo i (grab 2 pair i d1) (grab-Tidy 2 pair i d1 h1)

settle_all-Tidy : (n i : ℕ) (d : Deal) → Tidy d.hand_map → Tidy (settle_all n i d).hand_map
unfolding settle_all
settle_all-Tidy zero i d h = h
settle_all-Tidy (suc n) i d h = settle_all-Tidy n (i + 1) (settle i d) (settle-Tidy i d h)

grab_nuke-Tidy : (d : Deal) → Tidy d.hand_map → Tidy (grab_nuke d).hand_map
unfolding grab_nuke push_hand
grab_nuke-Tidy d h =
    elim (Bool-cases (eqb_ℤ (d.cards black_joker) (pos 1) && eqb_ℤ (d.cards red_joker) (pos 1))) [
      | inl both ↦ rw both (Tidy-elsewhere bomb _ d.hand_map bomb_elsewhere h)
      | inr other ↦ rw other h
    ]

pub get_normal_hand-Tidy : (d : Deal) → Tidy d.hand_map → Tidy (get_normal_hand d).hand_map
unfolding get_normal_hand
get_normal_hand-Tidy d h = settle_all-Tidy 15 card_3 (grab_nuke d) (grab_nuke-Tidy d h)

either-IsLoose :
    (t : HandType) (b : Bool) (x y : Work)
    → All (IsLoose t) x.hands
    → All (IsLoose t) y.hands
    → All (IsLoose t) (if b then x else y).hands
either-IsLoose t true x y h k = h
either-IsLoose t false x y h k = k

take_all-IsLoose :
    (n i k : ℕ) (t : HandType) (w : Work)
    → All (IsLoose t) w.hands
    → All (IsLoose t) (take_all n i k t w).hands
unfolding take_all take_one
take_all-IsLoose zero i k t w a = a
take_all-IsLoose (suc n) i k t w a = take_all-IsLoose n (i + 1) k t (take_one i k t w) (
    either-IsLoose t (eqb_ℤ (w.cards i) (pos k))
      (record { cards = update w.cards i (pos 0); hands = w.hands ++ make_hand t i ∷ [] }) w
      (All-append (IsLoose t) w.hands (make_hand t i) a (made-IsLoose t i)) a)

pub get_trio-Tidy : (d : Deal) → Tidy d.hand_map → Tidy (get_trio d).hand_map
unfolding get_trio
get_trio-Tidy d (s, q, t, c) =
    let w : Work = record { cards = d.cards; hands = hands_of trio d.hand_map } in
    let w' : Work = take_all 13 card_3 3 trio w in
    (
      Loose-other trio solo w'.hands d.hand_map (unfold rank in refl) s,
      Loose-other trio pair w'.hands d.hand_map (unfold rank in refl) q,
      rw (hands_of-set_hands trio w'.hands d.hand_map) (take_all-IsLoose 13 card_3 3 trio w t),
      Loose-other trio trio_chain w'.hands d.hand_map (unfold rank in refl) c,
    )
