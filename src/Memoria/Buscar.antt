-- ===== src/Memoria/Buscar.antt =====
-- What buscar_marco (utils/src/memoria/memoria.c) finds, and the count of free frames.
use so_1c.Base.{
  ℕ, zero, suc, ◌+◌, ◌-◌, ◌≤◌, ◌<◌, ◌≡◌, refl, inl, inr, true, false, Option, none, some, arith,
  uno, suma, suma-suc, suma-zero, suma-term-le, Bool-cases, if◌then◌else◌, ℕ_discrete,
}
use so_1c.BitArray.{BitArray}
use so_1c.Memoria.Marcos.{buscar_desde, buscar_marco}

module _ {Bits : Type 0} ⦃b : BitArray Bits⦄ where
  open b use {tam, test_bit, set_bit, clean_bit, tam-set, tam-clean, test-set, test-clean}

  -- How many of the frames below the bound are free.
  unfoldable pub libres : ℕ → Bits → ℕ
  libres cant bm = suma cant (λ f. 1 - uno (test_bit bm f))

  abbrev pub Primero : ℕ → ℕ → Bits → Option (ℕ × Bits) → Type 0
  Primero cant i bm none = (j : ℕ) → i ≤ j → j < cant → test_bit bm j ≡ true
  Primero cant i bm (some (m, bm')) =
      (m < cant)
      × (test_bit bm m ≡ false)
      × (bm' ≡ set_bit bm m)
      × ((j : ℕ) → i ≤ j → j < m → test_bit bm j ≡ true)

  after-occupied :
      (cant i : ℕ) (bm : Bits) (r : Option (ℕ × Bits))
      → test_bit bm i ≡ true
      → Primero cant (suc i) bm r
      → Primero cant i bm r
  after-occupied cant i bm none t p =
      λ j l k. elim (ℕ_discrete i j) [ yes e ↦ rw (← e) t | no ne ↦ p j (omega arith) k ]
  after-occupied cant i bm (some (m, bm')) t (l, f, e, p) =
      (l, f, e, λ j h k. elim (ℕ_discrete i j) [ yes q ↦ rw (← q) t | no ne ↦ p j (omega arith) k ])

  buscar_desde-Primero :
      (cant n i : ℕ) (bm : Bits) → i + n ≡ cant → Primero cant i bm (buscar_desde n i bm)
  unfolding buscar_desde
  buscar_desde-Primero cant zero i bm e = λ j l k. absurd (omega arith)
  buscar_desde-Primero cant (suc n) i bm e = elim (Bool-cases (test_bit bm i)) [
    | inl t ↦
        rw (t, if◌then◌else◌)
          (after-occupied cant i bm (buscar_desde n (suc i) bm) t
            (buscar_desde-Primero cant n (suc i) bm (omega arith)))
    | inr f ↦ rw (f, if◌then◌else◌) (omega arith, f, refl, λ j l k. absurd (omega arith))
  ]

  -- `buscar_marco` gives the first free frame, with only that frame marked, or, at none, every frame
  -- is taken.
  pub buscar_marco-Primero : (cant : ℕ) (bm : Bits) → Primero cant 0 bm (buscar_marco cant bm)
  unfolding buscar_marco
  buscar_marco-Primero cant bm = buscar_desde-Primero cant cant 0 bm (omega arith)

  -- Marking a free frame leaves one free frame less; clearing a taken one, one more.
  pub libres-set :
      (cant m : ℕ) (bm : Bits)
      → tam bm ≡ cant
      → m < cant
      → test_bit bm m ≡ false
      → libres cant bm ≡ suc (libres cant (set_bit bm m))
  unfolding libres
  libres-set cant m bm t l f =
      suma-suc cant _ _ m l (λ j k ne. ground (arith, test-set bm m j))
        (ground (arith, test-set bm m m))

  pub libres-clean :
      (cant m : ℕ) (bm : Bits)
      → tam bm ≡ cant
      → m < cant
      → test_bit bm m ≡ true
      → libres cant (clean_bit bm m) ≡ suc (libres cant bm)
  unfolding libres
  libres-clean cant m bm t l f =
      suma-suc cant _ _ m l (λ j k ne. ground (arith, test-clean bm m j))
        (ground (arith, test-clean bm m m))

  pub libres-pos : (cant m : ℕ) (bm : Bits) → m < cant → test_bit bm m ≡ false → 0 < libres cant bm
  unfolding libres
  libres-pos cant m bm l f = ground (arith, suma-term-le cant (λ k. 1 - uno (test_bit bm k)) m l)

  pub libres-zero :
      (cant : ℕ) (bm : Bits) → ((j : ℕ) → j < cant → test_bit bm j ≡ true) → libres cant bm ≡ 0
  unfolding libres
  libres-zero cant bm h = suma-zero cant _ (λ j l. ground (arith, h j l))

  -- Free and taken frames make up all of them.
  pub ocupados-add-libres :
      (cant : ℕ) (bm : Bits) → suma cant (λ f. uno (test_bit bm f)) + libres cant bm ≡ cant
  unfolding libres suma
  ocupados-add-libres zero bm = refl
  ocupados-add-libres (suc n) bm = ground (arith, ocupados-add-libres n bm)
