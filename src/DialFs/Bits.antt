-- ===== src/DialFs/Bits.antt =====
-- The loops that clear and set a run of bits.
use so_1c.Base.{
  ℕ, zero, suc, ◌+◌, ◌≡◌, ◌≤◌, ◌<◌, refl, ◌∙◌, Bool, true, false, if◌then◌else◌, leb, ltb, ◌&&◌,
  arith,
}
use so_1c.BitArray.{BitArray}
use so_1c.DialFs.{limpiar_bits, marcar_bits}

-- The run of n bits from i on.
abbrev pub en_tramo : ℕ → ℕ → ℕ → Bool
en_tramo n i j = leb i j && ltb j (i + n)

module _ {Bits : Type 0} ⦃b : BitArray Bits⦄ where
  open b use {tam, test_bit, set_bit, clean_bit, tam-set, tam-clean, test-set, test-clean}

  -- The run is cleared, and no other bit changes.
  pub test-limpiar_bits :
      (n i j : ℕ) (bm : Bits)
      → i + n ≤ tam bm
      → j < tam bm
      → test_bit (limpiar_bits n i bm) j ≡ (if en_tramo n i j then false else test_bit bm j)
  unfolding limpiar_bits
  test-limpiar_bits zero i j bm h l = ground arith
  test-limpiar_bits (suc n) i j bm h l =
      test-limpiar_bits n (suc i) j (clean_bit bm i) (omega (arith, tam-clean bm i))
        (omega (arith, tam-clean bm i))
      ∙ ground (arith, test-clean bm i j)

  pub tam-limpiar_bits : (n i : ℕ) (bm : Bits) → tam (limpiar_bits n i bm) ≡ tam bm
  unfolding limpiar_bits
  tam-limpiar_bits zero i bm = refl
  tam-limpiar_bits (suc n) i bm = tam-limpiar_bits n (suc i) (clean_bit bm i) ∙ tam-clean bm i

  -- The run is set, and no other bit changes.
  pub test-marcar_bits :
      (n i j : ℕ) (bm : Bits)
      → i + n ≤ tam bm
      → j < tam bm
      → test_bit (marcar_bits n i bm) j ≡ (if en_tramo n i j then true else test_bit bm j)
  unfolding marcar_bits
  test-marcar_bits zero i j bm h l = ground arith
  test-marcar_bits (suc n) i j bm h l =
      test-marcar_bits n (suc i) j (set_bit bm i) (omega (arith, tam-set bm i))
        (omega (arith, tam-set bm i))
      ∙ ground (arith, test-set bm i j)

  pub tam-marcar_bits : (n i : ℕ) (bm : Bits) → tam (marcar_bits n i bm) ≡ tam bm
  unfolding marcar_bits
  tam-marcar_bits zero i bm = refl
  tam-marcar_bits (suc n) i bm = tam-marcar_bits n (suc i) (set_bit bm i) ∙ tam-set bm i
