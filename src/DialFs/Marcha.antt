-- ===== src/DialFs/Marcha.antt =====
-- The invariant of the loop of compactar (utils/src/entradasalida/entradasalida.c).
use Prim.Native.String.{String}
use native.Mathlib.Nat.{div-add-mod', mod-lt, mul-le-mul_right}
use so_1c.Base.{
  ℕ, suc, ◌+◌, ◌*◌, ◌%◌, ◌≡◌, ◌≤◌, ◌<◌, ◌⊎◌, inl, inr, refl, ap, ◌∙◌, Bool, true, false, List, [],
  ◌∷◌, uno, ltb, length, arith, Bool-cases, ℕ_discrete,
}
use so_1c.BitArray.{BitArray}
use so_1c.Tramos.{ceil_div}
use so_1c.Tramos.Leyes.{ceil_div-justo, ceil_div-pasado}
use so_1c.DialFs.{Fs, EntradaFat}
use so_1c.DialFs.Vista.{Todas, Todas-map, peso, peso-uno, peso-inv, ocupan}

-- The blocks of a file hold it.
pub ceil_div-cubre : (a t : ℕ) → 0 < t → a ≤ ceil_div a t * t
ceil_div-cubre a t p = elim (ℕ_discrete (a % t) 0) [
  | yes z ↦ omega (arith, div-add-mod' a t, ap (λ (k : ℕ). k * t) (ceil_div-justo a t p z))
  | no z ↦
      omega (arith, div-add-mod' a t, mod-lt a p, ap (λ (k : ℕ). k * t) (ceil_div-pasado a t p z))
]

-- The bytes of blocks that fit.
pub cabe_en : (i c n t l : ℕ) → i + c ≤ n → l ≤ c * t → i * t + l ≤ n * t
cabe_en i c n t l h k = omega (arith, mul-le-mul_right t h)

-- A file that is picked is not empty and fits, either before the hole or from block i on.
abbrev pub Lugar : (String → Bool) → ℕ → ℕ → ℕ → ℕ → EntradaFat → Type 0
Lugar v t n hueco i e =
    v e.nombre ≡ true
    → (0 < ceil_div e.largo t)
      × (e.bloque_inicial + ceil_div e.largo t ≤ n)
      × ((e.bloque_inicial + ceil_div e.largo t ≤ hueco) ⊎ (i ≤ e.bloque_inicial))

-- A block in the hole is free.
libre-Lugar :
    (v : String → Bool) (t n hueco i j : ℕ) (es : List EntradaFat)
    → Todas (Lugar v t n hueco i) es
    → hueco ≤ j
    → j < i
    → ocupan v t es j ≡ 0
unfolding ocupan
libre-Lugar v t n hueco i j [] h p q = refl
libre-Lugar v t n hueco i j (e ∷ es) h p q =
    let r = libre-Lugar v t n hueco i j es h.1 p q in
    elim (Bool-cases (ltb 0 (peso v t e j))) [
      | inl c ↦
          let (x, y, z) = peso-inv v t e j (ground arith) in
          let (_, _, w) = h.0 x in absurd (ground (arith, w, y, z))
      | inr c ↦ ground (arith, r)
    ]

avanza-Lugar :
    (v : String → Bool) (t n hueco i : ℕ) (es : List EntradaFat)
    → ocupan v t es i ≡ 0
    → Todas (Lugar v t n hueco i) es
    → Todas (Lugar v t n hueco (suc i)) es
unfolding ocupan
avanza-Lugar v t n hueco i [] z a = tt
avanza-Lugar v t n hueco i (e ∷ es) z a =
    (uno_mas, avanza-Lugar v t n hueco i es (ground arith) a.1)
  where
    uno_mas : Lugar v t n hueco (suc i) e
    uno_mas w = let (x, y, l) = a.0 w in (x, y, lado l)
      where
        lado :
            (e.bloque_inicial + ceil_div e.largo t ≤ hueco) ⊎ (i ≤ e.bloque_inicial)
            → (e.bloque_inicial + ceil_div e.largo t ≤ hueco) ⊎ (suc i ≤ e.bloque_inicial)
        lado (inl l) = inl l
        lado (inr l) = elim (ℕ_discrete i e.bloque_inicial) [
          | no d ↦ inr (omega arith)
          | yes d ↦
              absurd
                (omega (arith, z, peso-uno v t e i w (omega arith) (omega (arith, (a.0 w).0, d))))
        ]

module _ {Bits : Type 0} ⦃b : BitArray Bits⦄ where
  open b use {tam, test_bit}

  -- No file begins at the block of an entry that is not picked, from block i on.
  abbrev pub Ajena : (String → Bool) → ℕ → ℕ → Bits → EntradaFat → Type 0
  Ajena v n i bm e =
      v e.nombre ≡ false
      → i ≤ e.bloque_inicial
      → e.bloque_inicial < n
      → test_bit bm e.bloque_inicial ≡ false

  -- Each used block is of one file. The hole ends at i, and the blocks before it are used.
  pub record Marcha (v : String → Bool) (s : Fs Bits) (hueco i : ℕ) : Type 0 where
    pub medida : 0 < s.tam_bloque
    pub bits : s.cant_bloques ≤ tam s.bitmap
    pub bytes : s.cant_bloques * s.tam_bloque ≤ length s.bloques
    pub orden : hueco ≤ i
    pub tope : i ≤ s.cant_bloques
    pub cuenta :
        (j : ℕ) → j < s.cant_bloques → ocupan v s.tam_bloque s.fat j ≡ uno (test_bit s.bitmap j)
    pub bajos : (j : ℕ) → j < hueco → test_bit s.bitmap j ≡ true
    pub lugares : Todas (Lugar v s.tam_bloque s.cant_bloques hueco i) s.fat
    pub ajenas : Todas (Ajena v s.cant_bloques i s.bitmap) s.fat

  pub Marcha-libre :
      {v : String → Bool} {s : Fs Bits} {hueco i : ℕ} (j : ℕ)
      → Marcha v s hueco i
      → hueco ≤ j
      → j < i
      → test_bit s.bitmap j ≡ false
  Marcha-libre {v} {s} {hueco} {i} j h p q = ground (
    arith,
    h.cuenta j,
    h.tope,
    libre-Lugar v s.tam_bloque s.cant_bloques hueco i j s.fat h.lugares p q,
  )

  -- A step over a free block.
  pub Marcha-sigue :
      {v : String → Bool} {s : Fs Bits} {hueco i : ℕ}
      → Marcha v s hueco i
      → i < s.cant_bloques
      → test_bit s.bitmap i ≡ false
      → Marcha v s hueco (suc i)
  Marcha-sigue {v} {s} {hueco} {i} h p q = record {
    medida = h.medida;
    bits = h.bits;
    bytes = h.bytes;
    orden = omega (arith, h.orden);
    tope = p;
    cuenta = h.cuenta;
    bajos = h.bajos;
    lugares =
        avanza-Lugar v s.tam_bloque s.cant_bloques hueco i s.fat (h.cuenta i p ∙ ap uno q)
          h.lugares;
    ajenas =
        Todas-map (Ajena v s.cant_bloques i s.bitmap) (Ajena v s.cant_bloques (suc i) s.bitmap)
          s.fat (λ e f w x y. f w (omega (arith, x)) y) h.ajenas;
  }
