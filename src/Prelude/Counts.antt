-- ===== src/Prelude/Counts.antt =====
-- Integers in a list, counted and taken out.
use Prim.Native.Nat.{ℕ, ◌+◌, ◌≤◌}
use mathlib.Core.Path.{◌≡◌}
use mathlib.Core.List.{List, [], ◌∷◌, ◌++◌}
use native.Mathlib.Omega.{arith}
use robot_ddz.Prelude.Tests.{if◌then◌else◌}
use robot_ddz.Prelude.Int.{ℤ, eqb_ℤ}

-- How often a number is in a list.
abbrev pub count : ℤ → List ℤ → ℕ
count x [] = 0
count x (y ∷ ys) = (if eqb_ℤ y x then 1 else 0) + count x ys

pub count-append : (c : ℤ) (xs ys : List ℤ) → count c (xs ++ ys) ≡ count c xs + count c ys
count-append c [] ys = omega arith
count-append c (x ∷ xs) ys = omega (arith, count-append c xs ys)

-- `find_if` and `erase`: the first such number goes.
unfoldable pub erase_first : ℤ → List ℤ → List ℤ
erase_first x [] = []
erase_first x (y ∷ ys) = let rest = erase_first x ys in if eqb_ℤ y x then ys else y ∷ rest

pub count-erase_first :
    (c x : ℤ) (l : List ℤ)
    → 1 ≤ count x l
    → (if eqb_ℤ x c then 1 else 0) + count c (erase_first x l) ≡ count c l
unfolding erase_first
count-erase_first c x [] h = ground arith
count-erase_first c x (y ∷ l) h = ground (arith, count-erase_first c x l)
