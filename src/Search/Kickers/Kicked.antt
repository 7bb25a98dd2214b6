-- ===== src/Search/Kickers/Kicked.antt =====
-- What `findKickerFromPoints` does to the hand.
use robot_ddz.Prelude.{
  ◌∙◌, ℕ, ◌+◌, ◌≤◌, ◌≡◌, ◌≢◌, refl, true, false, not, ◌&&◌, Option-cases, inl, inr, List, [], ◌∷◌,
  Option, some, none, arith, ◌==◌, pos, leb_ℤ, length,
}
use robot_ddz.Cards.Hands.{Hand, trio_solo, kicker_at, card_3, red_joker, rank, solo, solo_chain}
use robot_ddz.Cards.Points.{Points}
use robot_ddz.Cards.Scan.{first_up_lem}
use robot_ddz.Cards.HandMap.{HandMap, hands_of}
use robot_ddz.Choice.Sort.{sort_hands_with_best_kind}
use robot_ddz.Search.Kickers.{
  other_key, next_straight, touching, long_end, or_else, spare, solo_kicker, kick_one, set_first,
  kick_with, find_kicker_from_points,
}

-- If there is an answer, it is not `key`.
abbrev Avoids : ℕ → Option ℕ → Type 0
Avoids key r = (k : ℕ) → r ≡ some k → k ≢ key

or_else-Avoids : (key : ℕ) (a b : Option ℕ) → Avoids key a → Avoids key b → Avoids key (or_else a b)
or_else-Avoids key none b h g = g
or_else-Avoids key (some a) b h g = h

other_key-Avoids : (key : ℕ) (hs : List Hand) → Avoids key (other_key key hs)
unfolding other_key
other_key-Avoids key [] k e = grind arith
other_key-Avoids key (h ∷ hs) k e = ground (arith, other_key-Avoids key hs k)

next_straight-Avoids : (key : ℕ) (h : Hand) (gs : List Hand) → Avoids key (next_straight key h gs)
unfolding next_straight
next_straight-Avoids key h [] k e = grind arith
next_straight-Avoids key h (g ∷ gs) k e = ground (arith, next_straight-Avoids key h gs k)

touching-Avoids : (key : ℕ) (hs : List Hand) → Avoids key (touching key hs)
unfolding touching
touching-Avoids key [] k e = grind arith
touching-Avoids key (h ∷ hs) k e = elim (Option-cases (next_straight key h hs)) [
  | inl missing ↦ let e' = rw (touching, missing) at e in touching-Avoids key hs k e'
  | inr (j, found) ↦
      let e' = rw (touching, found) at e in
      let other = next_straight-Avoids key h hs j found in ground arith
]

long_end-Avoids : (key : ℕ) (hs : List Hand) → Avoids key (long_end key hs)
unfolding long_end
long_end-Avoids key [] k e = grind arith
long_end-Avoids key (h ∷ hs) k e = ground (arith, long_end-Avoids key hs k)

spare-Avoids : (n k key : ℕ) (c : Points) → Avoids key (spare n k key c)
spare-Avoids n k key c j e =
    elim (first_up_lem n card_3 (λ i. leb_ℤ (pos k) (c i) && not (i == key))) [
      | inl (i, found, lo, hi, hit, before) ↦ ground arith
      | inr (missing, few) ↦ ground arith
    ]

solo_kicker-Avoids : (key : ℕ) (c : Points) (m : HandMap) → Avoids key (solo_kicker key c m)
unfolding solo_kicker
solo_kicker-Avoids key c m =
    or_else-Avoids key (other_key key (hands_of solo m)) _ (other_key-Avoids key (hands_of solo m))
      (or_else-Avoids key (touching key (hands_of solo_chain m)) _
        (touching-Avoids key (hands_of solo_chain m))
        (or_else-Avoids key (long_end key (hands_of solo_chain m)) _
          (long_end-Avoids key (hands_of solo_chain m)) (spare-Avoids (red_joker + 1) 1 key c)))

first_kicker :
    (t : Hand) (r : Option ℕ) (g : Hand)
    → 1 ≤ length t.kicker
    → Avoids t.key_point r
    → kick_one t r ≡ (g, true)
    → (g.type ≡ t.type) × (g.key_point ≡ t.key_point) × (kicker_at g 0 ≢ t.key_point)
first_kicker t none g room avoids e = cc
first_kicker t (some k) g room avoids e =
    let first : kicker_at g 0 ≡ k = grind (arith, front) in
    (grind arith, grind arith, rw first (avoids k refl))
  where
    front : (ks : List ℕ) → 1 ≤ length ks → kicker_at (record t { kicker = set_first k ks }) 0 ≡ k
    front [] h = elim h [ ]
    front (x ∷ ks) h = refl

-- For a trio that takes one card, given with room for its kicker, a success of findKickerFromPoints
-- leaves the kind and the point of the trio and writes a kicker of another point.
pub find_kicker_trio_solo :
    (c : Points) (lowest max_opp : ℕ) (other : Points) (t g : Hand)
    → t.type ≡ trio_solo
    → 1 ≤ length t.kicker
    → find_kicker_from_points c lowest max_opp other t ≡ some (g, true)
    → (g.type ≡ trio_solo) × (g.key_point ≡ t.key_point) × (kicker_at g 0 ≢ t.key_point)
unfolding find_kicker_from_points kick_with rank
find_kicker_trio_solo c lowest max_opp other t g is_trio room e =
    elim (Option-cases (sort_hands_with_best_kind lowest max_opp other c false)) [
      | inl gone ↦ let e' = rw (find_kicker_from_points, gone) at e in grind arith
      | inr (a, sorted) ↦
          let e' = rw (find_kicker_from_points, sorted, kick_with, is_trio) at e in
          let e'' : kick_one t (solo_kicker t.key_point c a.0) ≡ (g, true) = grind arith in
          let (same, key, avoids) =
            first_kicker t (solo_kicker t.key_point c a.0) g room
              (solo_kicker-Avoids t.key_point c a.0) e'' in
          (same ∙ is_trio, key, avoids)
    ]
