-- ===== src/BitArray.antt =====
-- The bit arrays of the commons library (commons/bitarray.h), which the memory and DialFS call and
-- the repository does not hold: an interface with the documented laws, each for indices below the
-- size, and one concrete array for the examples.
use so_1c.Base.{
  ℕ, ◌≡◌, refl, ◌<◌, Bool, true, false, List, [], ◌∷◌, arith, ◌==◌, if◌then◌else◌, length, get_or,
  set, length-set, zero, suc,
}

pub record BitArray (Bits : Type 0) : Type 0 where
  pub tam : Bits → ℕ
  pub test_bit : Bits → ℕ → Bool
  pub set_bit : Bits → ℕ → Bits
  pub clean_bit : Bits → ℕ → Bits
  pub tam-set : (b : Bits) (i : ℕ) → tam (set_bit b i) ≡ tam b
  pub tam-clean : (b : Bits) (i : ℕ) → tam (clean_bit b i) ≡ tam b
  pub test-set :
      (b : Bits) (i j : ℕ)
      → i < tam b
      → j < tam b
      → test_bit (set_bit b i) j ≡ (if i == j then true else test_bit b j)
  pub test-clean :
      (b : Bits) (i j : ℕ)
      → i < tam b
      → j < tam b
      → test_bit (clean_bit b i) j ≡ (if i == j then false else test_bit b j)

pub get_or-set :
    (b : List Bool) (i j : ℕ) (v : Bool)
    → i < length b
    → j < length b
    → get_or (set b i v) j false ≡ (if i == j then v else get_or b j false)
get_or-set [] i j v p q = absurd (omega arith)
get_or-set (x ∷ b) zero zero v p q = refl
get_or-set (x ∷ b) zero (suc j) v p q = ground arith
get_or-set (x ∷ b) (suc i) zero v p q = ground arith
get_or-set (x ∷ b) (suc i) (suc j) v p q = ground (arith, get_or-set b i j v)

-- A list of Booleans meets the laws.
instance abbrev pub lista_bits : BitArray (List Bool)
lista_bits = record {
  tam = length;
  test_bit = λ b i. get_or b i false;
  set_bit = λ b i. set b i true;
  clean_bit = λ b i. set b i false;
  tam-set = λ b i. length-set b i true;
  tam-clean = λ b i. length-set b i false;
  test-set = λ b i j. get_or-set b i j true;
  test-clean = λ b i j. get_or-set b i j false;
}
