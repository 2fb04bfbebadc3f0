-- ===== src/DialFs/Compacta.antt =====
-- compactar (utils/src/entradasalida/entradasalida.c): it ends, moves the files together and keeps them.
use Prim.Native.String.{String}
use native.Mathlib.Nat.{mul-le-mul_right}
use so_1c.Base.{
  ℕ, zero, suc, ◌+◌, ◌-◌, ◌*◌, ◌≡◌, ◌≤◌, ◌<◌, inl, inr, refl, sym, ap, ◌∙◌, subst, Bool, true,
  false, List, [], ◌∷◌, some, uno, ltb, length, arith, Bool-cases, ℕ_discrete,
}
use so_1c.BitArray.{BitArray}
use so_1c.Tramos.{ceil_div}
use so_1c.DialFs.{Fs, EntradaFat}
use so_1c.DialFs.Truncar.{inicio_libre, compactar_bucle, compactar}
use so_1c.DialFs.Vista.{Todas, Todas-map, archivos, cuantos, peso-uno, ocupan}
use so_1c.DialFs.Marcha.{Lugar, Ajena, Marcha, Marcha-libre, Marcha-sigue}
use so_1c.DialFs.Salto.{Mismos, mover_archivo-Marcha}

Todas-de : (P : EntradaFat → Type 0) (es : List EntradaFat) → ((e : EntradaFat) → P e) → Todas P es
Todas-de P [] f = tt
Todas-de P (e ∷ es) f = (f e, Todas-de P es f)

-- The rounds of `compactar` are enough.
rondas : (n h : ℕ) → (n - h) * suc n + (n - h) < suc n * suc n
rondas n h = let z : n - h ≤ n = omega arith in omega (arith, mul-le-mul_right (suc n) z)

-- A file that is picked is not empty and fits.
abbrev pub Entero : (String → Bool) → ℕ → ℕ → EntradaFat → Type 0
Entero v t n e =
    v e.nombre ≡ true → (0 < ceil_div e.largo t) × (e.bloque_inicial + ceil_div e.largo t ≤ n)

-- Where no file has block h.
Entero-Lugar :
    (v : String → Bool) (t n h : ℕ) (es : List EntradaFat)
    → ocupan v t es h ≡ 0
    → Todas (Entero v t n) es
    → Todas (Lugar v t n h h) es
unfolding ocupan
Entero-Lugar v t n h [] z a = tt
Entero-Lugar v t n h (e ∷ es) z a = (este, Entero-Lugar v t n h es (ground arith) a.1)
  where
    este : Lugar v t n h h e
    este w = (
      (a.0 w).0,
      (a.0 w).1,
      elim (Bool-cases (ltb e.bloque_inicial h)) [
        | inr c ↦ inr (ground arith)
        | inl c ↦ elim (Bool-cases (ltb h (e.bloque_inicial + ceil_div e.largo t))) [
          | inr d ↦ inl (ground arith)
          | inl d ↦ absurd (ground (arith, z, c, d, peso-uno v t e h w))
        ]
      ],
    )

module _ {Bits : Type 0} ⦃b : BitArray Bits⦄ where
  open b use {tam, test_bit}

  pub Mismos-igual : (v : String → Bool) (s : Fs Bits) → Mismos v s s
  Mismos-igual v s = record {
    cantidad = refl;
    medida = refl;
    bytes = refl;
    nombrados = refl;
    pesan = refl;
    contenidos = refl;
  }

  pub Mismos-trans :
      {v : String → Bool} {s r q : Fs Bits} → Mismos v s r → Mismos v r q → Mismos v s q
  Mismos-trans {v} {s} {r} {q} x y = record {
    cantidad = y.cantidad ∙ x.cantidad;
    medida = y.medida ∙ x.medida;
    bytes = y.bytes ∙ x.bytes;
    nombrados = y.nombrados ∙ x.nombrados;
    pesan =
        ap (λ t. cuantos v t q.fat) (sym x.medida)
        ∙ y.pesan
        ∙ ap (λ t. cuantos v t r.fat) x.medida
        ∙ x.pesan;
    contenidos =
        ap (λ t. archivos v t q.bloques q.fat) (sym x.medida)
        ∙ y.contenidos
        ∙ ap (λ t. archivos v t r.bloques r.fat) x.medida
        ∙ x.contenidos;
  }

  -- What the loop leaves: the same files, with no hole between them.
  pub record Junto (v : String → Bool) (s r : Fs Bits) (h : ℕ) : Type 0 where
    pub mismos : Mismos v s r
    pub marcha : Marcha v r h r.cant_bloques

  compactar_bucle-Junto :
      (v : String → Bool) (f n : ℕ) (s : Fs Bits) (h i : ℕ)
      → s.cant_bloques ≡ n
      → Marcha v s h i
      → (n - h) * suc n + (n - i) < f
      → (r : Fs Bits) × (k : ℕ) × (compactar_bucle f s h i ≡ some r) × Junto v s r k
  unfolding compactar_bucle
  compactar_bucle-Junto v zero n s h i c w m = absurd (omega arith)
  compactar_bucle-Junto v (suc f) n s h i c w m = elim (Bool-cases (ltb i s.cant_bloques)) [
    | inr e ↦
        let z : i ≡ s.cant_bloques = ground (arith, w.tope) in
        (s, h, rw e refl, record { mismos = Mismos-igual v s; marcha = subst (Marcha v s h) z w })
    | inl e ↦ elim (Bool-cases (test_bit s.bitmap i)) [
      | inl q ↦
          let (h', r, d, x, y, ms, w') = mover_archivo-Marcha v s h i w (ground arith) q in
          let z : suc (n - h') ≤ n - h = omega (arith, x, y, c) in
          let (r', k, d', j) =
            compactar_bucle-Junto v f n r h' h' (ms.cantidad ∙ c) w'
              (omega (arith, m, x, y, c, mul-le-mul_right (suc n) z)) in
          (
            r',
            k,
            rw (e, q, d) d',
            record { mismos = Mismos-trans {q = r'} ms j.mismos; marcha = j.marcha },
          )
      | inr q ↦
          let (r', k, d', j) =
            compactar_bucle-Junto v f n s h (suc i) c (Marcha-sigue w (ground arith) q)
              (ground (arith, m, e, c)) in
          (r', k, rw (e, q) d', j)
    ]
  ]

  -- Each used block is of one of the files that are picked, which fit and are not empty.
  pub record Formado (v : String → Bool) (s : Fs Bits) : Type 0 where
    pub medida : 0 < s.tam_bloque
    pub bits : s.cant_bloques ≤ tam s.bitmap
    pub bytes : s.cant_bloques * s.tam_bloque ≤ length s.bloques
    pub cuenta :
        (j : ℕ) → j < s.cant_bloques → ocupan v s.tam_bloque s.fat j ≡ uno (test_bit s.bitmap j)
    pub caben : Todas (Entero v s.tam_bloque s.cant_bloques) s.fat

  -- The walk to the first free block.
  pub inicio_libre-halla :
      (n i j : ℕ) (bm : Bits)
      → i ≤ j
      → j < i + n
      → test_bit bm j ≡ false
      → (h : ℕ) × (inicio_libre n i bm ≡ some h)
        × (h < i + n)
        × (test_bit bm h ≡ false)
        × ((k : ℕ) → i ≤ k → k < h → test_bit bm k ≡ true)
  unfolding inicio_libre
  inicio_libre-halla zero i j bm x y z = absurd (omega arith)
  inicio_libre-halla (suc n) i j bm x y z = elim (Bool-cases (test_bit bm i)) [
    | inr e ↦ (i, rw e refl, omega arith, e, λ k c d. absurd (omega arith))
    | inl e ↦
        let (h, q, l, f, g) = inicio_libre-halla n (suc i) j bm (otro e) (omega arith) z in
        (
          h,
          rw e q,
          omega (arith, l),
          f,
          λ k c d. elim (ℕ_discrete k i) [ yes o ↦ rw o e | no o ↦ g k (omega arith) d ],
        )
  ]
    where
      otro : test_bit bm i ≡ true → suc i ≤ j
      otro e = elim (ℕ_discrete i j) [ yes o ↦ absurd (cc (rw o at e)) | no o ↦ omega arith ]

  Formado-Marcha :
      (v : String → Bool) (s : Fs Bits) (h : ℕ)
      → Formado v s
      → Todas (Ajena v s.cant_bloques h s.bitmap) s.fat
      → h < s.cant_bloques
      → test_bit s.bitmap h ≡ false
      → ((k : ℕ) → k < h → test_bit s.bitmap k ≡ true)
      → Marcha v s h h
  Formado-Marcha v s h w a l z f = record {
    medida = w.medida;
    bits = w.bits;
    bytes = w.bytes;
    orden = omega arith;
    tope = omega arith;
    cuenta = w.cuenta;
    bajos = f;
    lugares = Entero-Lugar v s.tam_bloque s.cant_bloques h s.fat (w.cuenta h l ∙ ap uno z) w.caben;
    ajenas = a;
  }

  pub Marcha-Formado : (v : String → Bool) (s : Fs Bits) (h i : ℕ) → Marcha v s h i → Formado v s
  Marcha-Formado v s h i w = record {
    medida = w.medida;
    bits = w.bits;
    bytes = w.bytes;
    cuenta = w.cuenta;
    caben =
        Todas-map (Lugar v s.tam_bloque s.cant_bloques h i) (Entero v s.tam_bloque s.cant_bloques)
          s.fat (λ e l z. let (x, y, _) = l z in (x, y)) w.lugares;
  }

  -- With a free block, and no file where an entry that is not picked begins, `compactar` ends.
  pub compactar-Junto :
      (v : String → Bool) (s : Fs Bits) (j : ℕ)
      → Formado v s
      → Todas (Ajena v s.cant_bloques 0 s.bitmap) s.fat
      → j < s.cant_bloques
      → test_bit s.bitmap j ≡ false
      → (r : Fs Bits) × (h : ℕ) × (compactar s ≡ some r) × Junto v s r h
  unfolding compactar
  compactar-Junto v s j w a l z =
      let n = s.cant_bloques in
      let (h, q, c, f, g) = inicio_libre-halla n 0 j s.bitmap (omega arith) (omega arith) z in
      let m =
        Formado-Marcha v s h w
          (Todas-map (Ajena v n 0 s.bitmap) (Ajena v n h s.bitmap) s.fat
            (λ e y p o. y p (omega arith)) a)
          (omega (arith, c)) f (λ k. g k (omega arith)) in
      let (r, k, d, x) = compactar_bucle-Junto v (suc n * suc n) n s h h refl m (rondas n h) in
      (r, k, rw q d, x)

  -- compactar on a file system where each used block is of one file and no file is empty, with a free
  -- block: it ends, each file keeps its name and its content, in the order of the FAT, again each used block is
  -- of one file, and the used blocks are those before some block.
  pub compactar-archivos :
      (s : Fs Bits) (j : ℕ)
      → Formado (λ m. true) s
      → j < s.cant_bloques
      → test_bit s.bitmap j ≡ false
      → (r : Fs Bits) × (h : ℕ) × (compactar s ≡ some r)
        × (archivos (λ m. true) s.tam_bloque r.bloques r.fat
            ≡ archivos (λ m. true) s.tam_bloque s.bloques s.fat)
        × Formado (λ m. true) r
        × ((k : ℕ) → k < h → test_bit r.bitmap k ≡ true)
        × ((k : ℕ) → h ≤ k → k < s.cant_bloques → test_bit r.bitmap k ≡ false)
  compactar-archivos s j w l z =
      let (r, h, e, x) =
        compactar-Junto (λ m. true) s j w
          (Todas-de (Ajena (λ m. true) s.cant_bloques 0 s.bitmap) s.fat (λ e y. cc)) l z in
      (
        r,
        h,
        e,
        x.mismos.contenidos,
        Marcha-Formado (λ m. true) r h r.cant_bloques x.marcha,
        x.marcha.bajos,
        λ k p q. Marcha-libre k x.marcha p (omega (arith, q, x.mismos.cantidad)),
      )
