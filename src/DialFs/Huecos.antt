-- ===== src/DialFs/Huecos.antt =====
-- The walk of truncar_fs over the bitmap (utils/src/entradasalida/entradasalida.c).
use so_1c.Base.{ℕ, ◌+◌, ◌≡◌, ◌≤◌, ◌<◌, Bool, true, false}
use so_1c.BitArray.{BitArray}
use so_1c.DialFs.Truncar.{Hueco, hallado, sin_hueco}

module _ {Bits : Type 0} ⦃b : BitArray Bits⦄ where
  open b use {tam, test_bit}

  -- The blocks from i up to j are free.
  abbrev pub Libres : Bits → ℕ → ℕ → Type 0
  Libres bm i j = (k : ℕ) → i ≤ k → k < j → test_bit bm k ≡ false

  -- A hole that was found holds the blocks that were asked for.
  abbrev pub Cabe : ℕ → ℕ → Bits → Hueco → Type 0
  Cabe cant finales bm (hallado q) = (q + finales ≤ cant) × Libres bm q (q + finales)
  Cabe cant finales bm (sin_hueco l) = Unit {0}

  -- The current hole, where the block before was free.
  abbrev Actual : ℕ → ℕ → ℕ → ℕ → Bits → Bool → Type 0
  Actual i finales actual inicio bm true =
      (inicio + actual ≡ i) × (actual < finales) × Libres bm inicio i
  Actual i finales actual inicio bm false = Unit {0}
