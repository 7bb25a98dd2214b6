-- ===== src/Split/Kicker/Keep.antt =====
-- One trio, or one chain of trios, takes its kickers along.
use robot_ddz.Prelude.{All, true, ℕ, ◌≤◌, ◌≡◌, refl, ◌∙◌, List, [], ◌∷◌, arith, length}
use robot_ddz.Cards.Hands.{
  Hand, HandType, trio_chain, trio_chain_solo, trio_chain_pair, trio, trio_solo, trio_pair, solo,
  pair, rank,
}
use robot_ddz.Cards.HandMap.{HandMap, hands_of, map_at}
use robot_ddz.Split.Kicker.{
  write_kickers, pick, count_if, outside, always, enough_solos, attach, attach_one, touch,
}
use robot_ddz.Split.Kicker.Loose.{IsLoose, Tidy, Tidy-touch, map_at-touch}
use robot_ddz.Split.Kicker.Take.{
  hands_at-pick, pick-All, length-pick, place_keeps, place-front, place-taken, place-other,
}

-- The step from `a` to `b` keeps every card, and leaves the vectors tidy.
abbrev pub Kept : HandMap → HandMap → Type 0
Kept a b = Tidy b × ((p : ℕ) → map_at b p ≡ map_at a p)

pub Kept-trans : (a b c : HandMap) → Kept a b → Kept b c → Kept a c
Kept-trans a b c (t, h) (t', h') = (t', λ p. h' p ∙ h p)

pub Kept-touch : (k : HandType) (m : HandMap) → Tidy m → Kept m (touch k m)
Kept-touch k m t = (Tidy-touch k m t, map_at-touch k m)

count_if-always : (hs : List Hand) → count_if always hs ≡ length hs
unfolding count_if
count_if-always [] = refl
count_if-always (h ∷ hs) = omega (arith, count_if-always hs)

enough_solos-count :
    (t : Hand) (hs : List Hand) → enough_solos t hs ≡ true → t.len ≤ count_if (outside t) hs
unfolding enough_solos
enough_solos-count t hs h = ground arith

pub chain_takes_solos :
    (t : Hand) (ts : List Hand) (m : HandMap)
    → hands_of trio_chain m ≡ t ∷ ts
    → Tidy m
    → enough_solos t (hands_of solo m) ≡ true
    → Kept m (attach trio_chain_solo solo t ts (pick (outside t) t.len (hands_of solo m)) m)
unfolding attach
chain_takes_solos t ts m e (s, q, t3, c) enough =
    let chains : All (IsLoose trio_chain) (t ∷ ts) = rw e at c in
    let found : List Hand × List Hand = pick (outside t) t.len (hands_of solo m) in
    let (a, b) = pick-All (IsLoose solo) (outside t) t.len (hands_of solo m) s in
    let t' : Hand = record t { type = trio_chain_solo; kicker = write_kickers found.0 t.kicker } in
    (
      (
        place-taken trio_chain trio_chain_solo solo ts found.1 t' m (unfold rank in refl)
            (unfold rank in refl) b,
        place-other trio_chain trio_chain_solo solo ts found.1 t' m pair (unfold rank in refl)
            (unfold rank in refl) (unfold rank in refl) q,
        place-other trio_chain trio_chain_solo solo ts found.1 t' m trio (unfold rank in refl)
            (unfold rank in refl) (unfold rank in refl) t3,
        place-front trio_chain trio_chain_solo solo ts found.1 t' m chains.1,
      ),
      place_keeps trio_chain trio_chain_solo solo 1 (λ h. h.len) (λ g p f. rw f refl)
          (λ h ks p f. rw f refl) (unfold rank in refl) (unfold rank in refl) t ts found.0 found.1 m
          e chains.0.0
          (length-pick (outside t) t.len (hands_of solo m)
            (enough_solos-count t (hands_of solo m) enough))
          chains.0.1 a (hands_at-pick (outside t) t.len (hands_of solo m)),
    )

pub chain_takes_pairs :
    (t : Hand) (ts : List Hand) (m : HandMap)
    → hands_of trio_chain m ≡ t ∷ ts
    → Tidy m
    → t.len ≤ length (hands_of pair m)
    → Kept m (attach trio_chain_pair pair t ts (pick always t.len (hands_of pair m)) m)
unfolding attach
chain_takes_pairs t ts m e (s, q, t3, c) enough =
    let chains : All (IsLoose trio_chain) (t ∷ ts) = rw e at c in
    let found : List Hand × List Hand = pick always t.len (hands_of pair m) in
    let (a, b) = pick-All (IsLoose pair) always t.len (hands_of pair m) q in
    let t' : Hand = record t { type = trio_chain_pair; kicker = write_kickers found.0 t.kicker } in
    (
      (
        place-other trio_chain trio_chain_pair pair ts found.1 t' m solo (unfold rank in refl)
            (unfold rank in refl) (unfold rank in refl) s,
        place-taken trio_chain trio_chain_pair pair ts found.1 t' m (unfold rank in refl)
            (unfold rank in refl) b,
        place-other trio_chain trio_chain_pair pair ts found.1 t' m trio (unfold rank in refl)
            (unfold rank in refl) (unfold rank in refl) t3,
        place-front trio_chain trio_chain_pair pair ts found.1 t' m chains.1,
      ),
      place_keeps trio_chain trio_chain_pair pair 2 (λ h. h.len) (λ g p f. rw f refl)
          (λ h ks p f. rw f refl) (unfold rank in refl) (unfold rank in refl) t ts found.0 found.1 m
          e chains.0.0
          (length-pick always t.len (hands_of pair m)
            (omega (arith, enough, count_if-always (hands_of pair m))))
          chains.0.1 a (hands_at-pick always t.len (hands_of pair m)),
    )

pub trio_takes_solo :
    (t x : Hand) (ts rest : List Hand) (m : HandMap)
    → hands_of trio m ≡ t ∷ ts
    → hands_of solo m ≡ x ∷ rest
    → Tidy m
    → Kept m (attach_one trio_solo solo t ts x rest m)
unfolding attach_one
trio_takes_solo t x ts rest m e f (s, q, t3, c) =
    let trios : All (IsLoose trio) (t ∷ ts) = rw e at t3 in
    let taken : All (IsLoose solo) (x ∷ rest) = rw f at s in
    let t' : Hand = record t { type = trio_solo; kicker = write_kickers (x ∷ []) t.kicker } in
    (
      (
        place-taken trio trio_solo solo ts rest t' m (unfold rank in refl) (unfold rank in refl)
            taken.1,
        place-other trio trio_solo solo ts rest t' m pair (unfold rank in refl)
            (unfold rank in refl) (unfold rank in refl) q,
        place-front trio trio_solo solo ts rest t' m trios.1,
        place-other trio trio_solo solo ts rest t' m trio_chain (unfold rank in refl)
            (unfold rank in refl) (unfold rank in refl) c,
      ),
      place_keeps trio trio_solo solo 1 (λ h. 1) (λ g p f. rw f refl) (λ h ks p f. rw f refl)
          (unfold rank in refl) (unfold rank in refl) t ts (x ∷ []) rest m e trios.0.0 refl
          trios.0.2 (taken.0, tt) (λ p. rw f (omega arith)),
    )

pub trio_takes_pair :
    (t x : Hand) (ts rest : List Hand) (m : HandMap)
    → hands_of trio m ≡ t ∷ ts
    → hands_of pair m ≡ x ∷ rest
    → Tidy m
    → Kept m (attach_one trio_pair pair t ts x rest m)
unfolding attach_one
trio_takes_pair t x ts rest m e f (s, q, t3, c) =
    let trios : All (IsLoose trio) (t ∷ ts) = rw e at t3 in
    let taken : All (IsLoose pair) (x ∷ rest) = rw f at q in
    let t' : Hand = record t { type = trio_pair; kicker = write_kickers (x ∷ []) t.kicker } in
    (
      (
        place-other trio trio_pair pair ts rest t' m solo (unfold rank in refl)
            (unfold rank in refl) (unfold rank in refl) s,
        place-taken trio trio_pair pair ts rest t' m (unfold rank in refl) (unfold rank in refl)
            taken.1,
        place-front trio trio_pair pair ts rest t' m trios.1,
        place-other trio trio_pair pair ts rest t' m trio_chain (unfold rank in refl)
            (unfold rank in refl) (unfold rank in refl) c,
      ),
      place_keeps trio trio_pair pair 2 (λ h. 1) (λ g p f. rw f refl) (λ h ks p f. rw f refl)
          (unfold rank in refl) (unfold rank in refl) t ts (x ∷ []) rest m e trios.0.0 refl
          trios.0.2 (taken.0, tt) (λ p. rw f (omega arith)),
    )
