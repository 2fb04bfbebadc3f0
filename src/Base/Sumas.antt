-- ===== src/Base/Sumas.antt =====
-- Sums of a function over the numbers below a bound.
use Prim.Native.Nat.{ℕ, zero, suc, ◌+◌, ◌≤◌, ◌<◌}
use mathlib.Core.Path.{◌≡◌, refl}
use mathlib.Core.Logic.{◌≢◌}
use native.Mathlib.Omega.{arith}
use native.Mathlib.Decide.{ℕ_discrete}

unfoldable pub suma : ℕ → (ℕ → ℕ) → ℕ
suma zero g = 0
suma (suc n) g = g n + suma n g

pub suma-congr : (n : ℕ) (g h : ℕ → ℕ) → ((j : ℕ) → j < n → g j ≡ h j) → suma n g ≡ suma n h
unfolding suma
suma-congr zero g h e = refl
suma-congr (suc n) g h e =
    omega (arith, e n (omega arith), suma-congr n g h (λ j l. e j (omega arith)))

pub suma-le : (n : ℕ) (g h : ℕ → ℕ) → ((j : ℕ) → j < n → g j ≤ h j) → suma n g ≤ suma n h
unfolding suma
suma-le zero g h e = omega arith
suma-le (suc n) g h e = omega (arith, e n (omega arith), suma-le n g h (λ j l. e j (omega arith)))

-- One more at a single index is one more in all.
pub suma-suc :
    (n : ℕ) (g h : ℕ → ℕ) (i : ℕ)
    → i < n
    → ((j : ℕ) → j < n → i ≢ j → g j ≡ h j)
    → g i ≡ suc (h i)
    → suma n g ≡ suc (suma n h)
unfolding suma
suma-suc zero g h i l e s = elim l [ ]
suma-suc (suc n) g h i l e s = elim (ℕ_discrete i n) [
  | yes p ↦ last p
  | no p ↦
      omega
        (arith, e n (omega arith) p, suma-suc n g h i (omega arith) (λ j k. e j (omega arith)) s)
]
  where
    last : i ≡ n → g n + suma n g ≡ suc (h n + suma n h)
    last p = omega (arith, suma-congr n g h (λ j k. e j (omega arith) (omega arith)), rw p at s)

pub suma-add : (n : ℕ) (g h : ℕ → ℕ) → suma n (λ j. g j + h j) ≡ suma n g + suma n h
unfolding suma
suma-add zero g h = refl
suma-add (suc n) g h = omega (arith, suma-add n g h)

pub suma-zero : (n : ℕ) (g : ℕ → ℕ) → ((j : ℕ) → j < n → g j ≡ 0) → suma n g ≡ 0
unfolding suma
suma-zero zero g e = refl
suma-zero (suc n) g e = omega (arith, e n (omega arith), suma-zero n g (λ j l. e j (omega arith)))

-- A term is at most the sum.
pub suma-term-le : (n : ℕ) (g : ℕ → ℕ) (i : ℕ) → i < n → g i ≤ suma n g
unfolding suma
suma-term-le zero g i l = elim l [ ]
suma-term-le (suc n) g i l = elim (ℕ_discrete i n) [
  | yes p ↦ rw p (omega arith)
  | no p ↦ omega (arith, suma-term-le n g i (omega arith))
]
