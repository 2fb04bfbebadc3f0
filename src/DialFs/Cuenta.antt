-- ===== src/DialFs/Cuenta.antt =====
-- Counting used and free blocks of DialFS (utils/src/entradasalida/entradasalida.c).
use Prim.Native.String.{String}
use so_1c.Base.{
  ℕ, zero, suc, ◌+◌, ◌-◌, ◌≡◌, ◌≤◌, ◌<◌, refl, ◌∙◌, sym, Bool, true, false, List, [], ◌∷◌,
  if◌then◌else◌, uno, leb, arith, Bool-cases, inl, inr, ap, subst, ℕ_discrete, suma, suma-add,
  suma-congr, suma-zero,
}
use so_1c.BitArray.{BitArray}
use so_1c.Tramos.{ceil_div}
use so_1c.Memoria.Buscar.{libres}
use so_1c.DialFs.{EntradaFat}
use so_1c.DialFs.Bits.{en_tramo}
use so_1c.DialFs.Truncar.{sin_hueco, primer_hueco}
use so_1c.DialFs.Vista.{Todas, peso, ocupan, cuantos}
use so_1c.DialFs.Compacta.{Entero}

-- The blocks of a run, below a bound.
suma-tramo :
    (n c i : ℕ)
    → suma n (λ j. uno (en_tramo c i j))
      ≡ (if leb n i then 0 else (if leb n (i + c) then n - i else c))
unfolding suma
suma-tramo zero c i = ground arith
suma-tramo (suc n) c i = ground (arith, suma-tramo n c i)

suma-peso :
    (v : String → Bool) (t n : ℕ) (e : EntradaFat)
    → Entero v t n e
    → suma n (peso v t e) ≡ (if v e.nombre then ceil_div e.largo t else 0)
suma-peso v t n e a = elim (Bool-cases (v e.nombre)) [
  | inl z ↦
      suma-congr n (peso v t e) (λ j. uno (en_tramo (ceil_div e.largo t) e.bloque_inicial j))
        (λ j l. rw z refl)
      ∙ suma-tramo n (ceil_div e.largo t) e.bloque_inicial
      ∙ rw z (ground (arith, (a z).1))
  | inr z ↦ suma-zero n (peso v t e) (λ j l. rw z refl) ∙ rw z refl
]

-- The blocks that files occupy are as many as the files have.
pub suma-ocupan :
    (v : String → Bool) (t n : ℕ) (es : List EntradaFat)
    → Todas (Entero v t n) es
    → suma n (ocupan v t es) ≡ cuantos v t es
unfolding ocupan cuantos
suma-ocupan v t n [] a = suma-zero n (λ j. 0) (λ j l. refl)
suma-ocupan v t n (e ∷ es) a =
    suma-add n (peso v t e) (ocupan v t es)
    ∙ omega (arith, suma-peso v t n e a.0, suma-ocupan v t n es a.1)

module _ {Bits : Type 0} ⦃b : BitArray Bits⦄ where
  open b use {test_bit}

  pub suma-libres : (n : ℕ) (bm : Bits) → suma n (λ k. uno (test_bit bm k)) + libres n bm ≡ n
  unfolding libres suma
  suma-libres zero bm = refl
  suma-libres (suc n) bm = ground (arith, suma-libres n bm)

  -- Where the used blocks are those before h.
  pub libres-bajos :
      (n h : ℕ) (bm : Bits)
      → h ≤ n
      → ((k : ℕ) → k < h → test_bit bm k ≡ true)
      → ((k : ℕ) → h ≤ k → k < n → test_bit bm k ≡ false)
      → h + libres n bm ≡ n
  unfolding libres suma
  libres-bajos zero h bm l f g = omega arith
  libres-bajos (suc n) h bm l f g = elim (ℕ_discrete h (suc n)) [
    | yes e ↦ rw e (omega (arith, todos (suc n) λ k x. f k (omega arith)))
    | no e ↦ omega (
      arith,
      libres-bajos n h bm (omega arith) f (λ k x y. g k x (omega arith)),
      ap uno (g n (omega arith) (omega arith)),
    )
  ]
    where
      todos : (m : ℕ) → ((k : ℕ) → k < m → test_bit bm k ≡ true) → libres m bm ≡ 0
      todos m z = suma-zero m (λ k. 1 - uno (test_bit bm k)) (λ k x. ground (arith, z k x))

  -- The walk without a hole counts the free blocks.
  sin_hueco-desde :
      (n i cant finales cuenta actual inicio l : ℕ) (antes : Bool) (bm : Bits)
      → i + n ≡ cant
      → cuenta ≡ libres i bm
      → primer_hueco n i finales cuenta actual inicio antes bm ≡ sin_hueco l
      → l ≡ libres cant bm
  unfolding primer_hueco libres suma
  sin_hueco-desde zero i cant finales cuenta actual inicio l antes bm e c q =
      let x : cuenta ≡ l = cc in
      let y : i ≡ cant = omega arith in subst (λ k. l ≡ libres k bm) y (sym x ∙ c)
  sin_hueco-desde (suc n) i cant finales cuenta actual inicio l antes bm e c q =
      elim (Bool-cases (test_bit bm i)) [
        | inl z ↦
            sin_hueco-desde n (suc i) cant finales cuenta actual inicio l false bm (omega arith)
              (ground (arith, c, z)) (rw (z, primer_hueco) at q)
        | inr z ↦ elim (Bool-cases (leb finales (if antes then suc actual else 1))) [
          | inl y ↦ absurd (cc (rw (z, y, primer_hueco) at q))
          | inr y ↦
              sin_hueco-desde n (suc i) cant finales (suc cuenta) (if antes then suc actual else 1)
                (if antes then inicio else i) l true bm (omega arith) (ground (arith, c, z))
                (rw (z, y, primer_hueco) at q)
        ]
      ]

  pub primer_hueco-libres :
      (n finales l : ℕ) (bm : Bits)
      → primer_hueco n 0 finales 0 0 0 false bm ≡ sin_hueco l
      → l ≡ libres n bm
  unfolding libres suma
  primer_hueco-libres n finales l bm q =
      sin_hueco-desde n 0 n finales 0 0 0 l false bm (omega arith) refl q
