-- ===== src/Split/Chains/Loop.antt =====
-- The loop over the runs returns within its fuel, and keeps what one chain keeps.
use robot_ddz.Prelude.{
  ℕ, zero, suc, ◌+◌, ◌-◌, ◌≤◌, ◌<◌, ◌≡◌, refl, inl, inr, List, arith, leb, pos, leb_ℤ, true,
  Bool-cases, some,
}
use robot_ddz.Cards.Hands.{Hand, card_a}
use robot_ddz.Cards.Points.{Points}
use robot_ddz.Split.Work.{Work, KeepsBy}
use robot_ddz.Split.Chains.{run_end, run_step, run_loop}

pub run_end-ge : (n k i : ℕ) (c : Points) → i ≤ run_end n k i c
unfolding run_end
run_end-ge zero k i c = omega arith
run_end-ge (suc n) k i c = ground (arith, run_end-ge n k (i + 1) c)

pub run_end-le : (n k i : ℕ) (c : Points) → run_end n k i c ≤ i + n
unfolding run_end
run_end-le zero k i c = omega arith
run_end-le (suc n) k i c = ground (arith, run_end-le n k (i + 1) c)

-- Every point of the run has `k` cards.
pub run_end_enough :
    (n k i : ℕ) (c : Points) (p : ℕ) → i ≤ p → p < run_end n k i c → leb_ℤ (pos k) (c p) ≡ true
unfolding run_end
run_end_enough zero k i c p h l = absurd (omega arith)
run_end_enough (suc n) k i c p h l = ground (arith, run_end_enough n k (i + 1) c p)

module _ (weight : List Hand → ℕ → ℕ) (k : ℕ) (use_run : ℕ → ℕ → Work → Work)
    (keep : (i end : ℕ) (w : Work) → i < end → KeepsBy weight w (use_run i end w)) where
  run_step_moves : (i : ℕ) (w : Work) → i < (run_step k use_run i w).0
  unfolding run_step
  run_step_moves i w = ground (arith, run_end-ge (card_a - i) k (i + 1) w.cards)

  run_step-KeepsBy : (i : ℕ) (w : Work) → KeepsBy weight w (run_step k use_run i w).1
  unfolding run_step
  run_step-KeepsBy i w p = elim (Bool-cases (leb_ℤ (pos k) (w.cards i))) [
    | inl found ↦
        let end = run_end (card_a - i) k (i + 1) w.cards in
        rw found (keep i end w (omega (arith, run_end-ge (card_a - i) k (i + 1) w.cards)) p)
    | inr missing ↦ rw missing refl
  ]

  pub run_loop-KeepsBy :
      (last fuel i : ℕ) (w : Work)
      → last + 1 < i + fuel
      → 0 < fuel
      → (w' : Work) × (run_loop (run_step k use_run) last fuel i w ≡ some w') × KeepsBy weight w w'
  unfolding run_loop
  run_loop-KeepsBy last zero i w h g = elim g [ ]
  run_loop-KeepsBy last (suc fuel) i w h g = elim (Bool-cases (leb i last)) [
    | inl more ↦
        let w1 : Work = (run_step k use_run i w).1 in
        let moved = run_step_moves i w in
        let (w', e, kept) =
          run_loop-KeepsBy last fuel (run_step k use_run i w).0 w1 (omega arith) (ground arith) in
        (w', rw more e, λ p. omega (arith, run_step-KeepsBy i w p, kept p))
    | inr done ↦ (w, rw done refl, λ p. omega arith)
  ]
