-- ===== src/Split/Kicker/Rounds.antt =====
-- The loops of `findKickerForTrioOrTrioChain`.
use robot_ddz.Prelude.{
  Bool-cases, inl, inr, ℕ, ◌≤◌, ◌≡◌, true, Option, some, All, refl, ◌∙◌, List, [], ◌∷◌, arith, leb,
  ltb, length,
}
use robot_ddz.Cards.Hands.{
  Hand, HandType, trio_chain, trio_chain_solo, trio_chain_pair, trio, trio_solo, trio_pair, solo,
  pair,
}
use robot_ddz.Cards.HandMap.{HandMap, hands_of, map_at, set_hands, push_hand, hands_of-set_hands}
use robot_ddz.Split.Kicker.{
  write_kickers, pick, outside, always, enough_solos, attach, attach_one, touch, kick_chains,
  kick_trio, kick_trios, find_kicker_for_trio_or_trio_chain,
}
use robot_ddz.Split.Kicker.Loose.{IsLoose, Tidy, hands_of-touch}
use robot_ddz.Split.Kicker.Keep.{
  Kept, Kept-trans, Kept-touch, chain_takes_solos, chain_takes_pairs, trio_takes_solo,
  trio_takes_pair,
}

attach_rest :
    (key k : HandType) (t : Hand) (ts : List Hand) (picked : List Hand × List Hand) (m : HandMap)
    → hands_of trio_chain (attach key k t ts picked m) ≡ ts
unfolding attach
attach_rest key k t ts picked m = hands_of-set_hands trio_chain ts (
    push_hand key (record t { type = key; kicker = write_kickers picked.0 t.kicker })
      (set_hands k picked.1 m))

attach_one_rest :
    (key k : HandType) (t : Hand) (ts : List Hand) (x : Hand) (rest : List Hand) (m : HandMap)
    → hands_of trio (attach_one key k t ts x rest m) ≡ ts
unfolding attach_one
attach_one_rest key k t ts x rest m = hands_of-set_hands trio ts (
    push_hand key (record t { type = key; kicker = write_kickers (x ∷ []) t.kicker })
      (set_hands k rest m))

-- The chain has room for its kickers.
has_room :
    (t : Hand) (ts : List Hand) (m : HandMap)
    → hands_of trio_chain m ≡ t ∷ ts
    → Tidy m
    → leb t.len (length t.kicker) ≡ true
has_room t ts m e (s, q, t3, c) =
    let chains : All (IsLoose trio_chain) (t ∷ ts) = rw e at c in
    let fits : t.len ≤ length t.kicker = chains.0.1 in ground arith

-- A result that keeps every card, and leaves the vectors tidy.
abbrev pub GivesKept : HandMap → Option HandMap → Type 0
GivesKept m r = (m' : HandMap) × (r ≡ some m') × Kept m m'

kick_chains-Kept :
    (ts : List Hand) (m : HandMap)
    → hands_of trio_chain m ≡ ts
    → Tidy m
    → GivesKept m (kick_chains ts m)
unfolding kick_chains
kick_chains-Kept [] m e tidy = (m, refl, (tidy, λ p. refl))
kick_chains-Kept (t ∷ ts) m e tidy =
    let m1 : HandMap = touch solo m in
    let m2 : HandMap = touch pair m1 in
    let k1 = Kept-touch solo m tidy in
    let k2 = Kept-touch pair m1 k1.0 in
    let e1 : hands_of trio_chain m1 ≡ t ∷ ts = hands_of-touch trio_chain solo m ∙ e in
    let e2 : hands_of trio_chain m2 ≡ t ∷ ts = hands_of-touch trio_chain pair m1 ∙ e1 in
    let fits = has_room t ts m e tidy in
    elim (Bool-cases (enough_solos t (hands_of solo m1))) [
      | inl enough ↦
          let m3 : HandMap =
            attach trio_chain_solo solo t ts (pick (outside t) t.len (hands_of solo m1)) m1 in
          let k3 = chain_takes_solos t ts m1 e1 k1.0 enough in
          let (m4, done, k4) =
            kick_chains-Kept ts m3 (attach_rest trio_chain_solo solo t ts _ m1) k3.0 in
          (m4, rw (enough, fits) done, Kept-trans m m1 m4 k1 (Kept-trans m1 m3 m4 k3 k4))
      | inr few ↦ elim (Bool-cases (leb t.len (length (hands_of pair m2)))) [
        | inl enough ↦
            let m3 : HandMap =
              attach trio_chain_pair pair t ts (pick always t.len (hands_of pair m2)) m2 in
            let k3 = chain_takes_pairs t ts m2 e2 k2.0 (ground arith) in
            let (m4, done, k4) =
              kick_chains-Kept ts m3 (attach_rest trio_chain_pair pair t ts _ m2) k3.0 in
            (
              m4,
              rw (few, enough, fits) done,
              Kept-trans m m1 m4 k1 (Kept-trans m1 m2 m4 k2 (Kept-trans m2 m3 m4 k3 k4)),
            )
        | inr fewer ↦ (m2, rw (few, fewer) refl, Kept-trans m m1 m2 k1 k2)
      ]
    ]

-- The trio takes what it takes, and the next ones are seen to.
kick_trio-Kept :
    (t : Hand) (ts solos pairs : List Hand) (m : HandMap)
    → hands_of trio m ≡ t ∷ ts
    → hands_of solo m ≡ solos
    → hands_of pair m ≡ pairs
    → Tidy m
    → (next : HandMap → HandMap)
    → ((m' : HandMap) → hands_of trio m' ≡ ts → Tidy m' → Kept m' (next m'))
    → Kept m (kick_trio t ts solos pairs m next)
unfolding kick_trio
kick_trio-Kept t ts [] [] m e f g tidy next ih = (tidy, λ p. refl)
kick_trio-Kept t ts [] (q ∷ pairs) m e f g tidy next ih =
    let m' : HandMap = attach_one trio_pair pair t ts q pairs m in
    let k = trio_takes_pair t q ts pairs m e g tidy in
    Kept-trans m m' (next m') k (ih m' (attach_one_rest trio_pair pair t ts q pairs m) k.0)
kick_trio-Kept t ts (x ∷ solos) [] m e f g tidy next ih =
    let m' : HandMap = attach_one trio_solo solo t ts x solos m in
    let k = trio_takes_solo t x ts solos m e f tidy in
    Kept-trans m m' (next m') k (ih m' (attach_one_rest trio_solo solo t ts x solos m) k.0)
kick_trio-Kept t ts (x ∷ solos) (q ∷ pairs) m e f g tidy next ih =
    elim (Bool-cases (ltb q.key_point x.key_point)) [
      | inl lower ↦ rw lower (
          let m' : HandMap = attach_one trio_pair pair t ts q pairs m in
          let k = trio_takes_pair t q ts pairs m e g tidy in
          Kept-trans m m' (next m') k (ih m' (attach_one_rest trio_pair pair t ts q pairs m) k.0))
      | inr higher ↦ rw higher (
          let m' : HandMap = attach_one trio_solo solo t ts x solos m in
          let k = trio_takes_solo t x ts solos m e f tidy in
          Kept-trans m m' (next m') k (ih m' (attach_one_rest trio_solo solo t ts x solos m) k.0))
    ]

kick_trios-Kept :
    (ts : List Hand) (m : HandMap) → hands_of trio m ≡ ts → Tidy m → Kept m (kick_trios ts m)
unfolding kick_trios
kick_trios-Kept [] m e tidy = (tidy, λ p. refl)
kick_trios-Kept (t ∷ ts) m e tidy =
    let m1 : HandMap = touch solo m in
    let m2 : HandMap = touch pair m1 in
    let k1 = Kept-touch solo m tidy in
    let k2 = Kept-touch pair m1 k1.0 in
    Kept-trans m m1 _ k1 (
      Kept-trans m1 m2 _ k2 (
        kick_trio-Kept t ts (hands_of solo m2) (hands_of pair m2) m2
          (hands_of-touch trio pair m1 ∙ hands_of-touch trio solo m ∙ e) refl refl k2.0
          (kick_trios ts) (kick_trios-Kept ts)))

-- If the single cards, pairs, trios and trio chains stand under their own kinds, each with room for
-- its kickers, findKickerForTrioOrTrioChain writes none outside its array, leaves them so, and at
-- each point the map holds as many cards as before.
pub find_kicker-Kept :
    (m : HandMap)
    → Tidy m
    → (m' : HandMap) × (find_kicker_for_trio_or_trio_chain m ≡ some m')
      × Tidy m'
      × ((p : ℕ) → map_at m' p ≡ map_at m p)
unfolding find_kicker_for_trio_or_trio_chain
find_kicker-Kept m tidy =
    let m1 : HandMap = touch trio_chain m in
    let k1 = Kept-touch trio_chain m tidy in
    let (m2, done, k2) = kick_chains-Kept (hands_of trio_chain m1) m1 refl k1.0 in
    let m3 : HandMap = touch trio m2 in
    let k3 = Kept-touch trio m2 k2.0 in
    let m4 : HandMap = kick_trios (hands_of trio m3) m3 in
    let kept : Kept m m4 = Kept-trans m m1 m4 k1 (
      Kept-trans m1 m2 m4 k2
        (Kept-trans m2 m3 m4 k3 (kick_trios-Kept (hands_of trio m3) m3 refl k3.0))) in
    (m4, rw (find_kicker_for_trio_or_trio_chain, done) refl, kept.0, kept.1)
