-- ===== src/DialFs/Salto.antt =====
-- A file that compactar moves (utils/src/entradasalida/entradasalida.c), against the loop's invariant.
use Prim.Native.String.{String}
use so_1c.Base.{
  ℕ, ◌+◌, ◌-◌, ◌*◌, ◌≡◌, ◌≤◌, ◌<◌, ◌⊎◌, inl, inr, refl, sym, ap, ◌∙◌, subst, Bool, true, false,
  List, ◌∷◌, ◌++◌, some, if◌then◌else◌, uno, ltb, length, arith, Bool-cases,
}
use so_1c.BitArray.{BitArray}
use so_1c.Bytes.{
  leer_en, escrito, escribir_en-escrito, length-escrito, leer_en-escrito, get_elem?-escrito,
  leer_en-congr, leer_en-total,
}
use so_1c.Tramos.{ceil_div}
use so_1c.DialFs.{
  Fs, EntradaFat, buscar_bloque, mover_entrada, limpiar_bits, marcar_bits, guardar_metadata,
}
use so_1c.DialFs.Bits.{
  en_tramo, test-limpiar_bits, tam-limpiar_bits, test-marcar_bits, tam-marcar_bits,
}
use so_1c.DialFs.Truncar.{mover_archivo}
use so_1c.DialFs.Vista.{
  Todas, Todas-append, Todas-medio, Todas-map, Todas-dos, archivos, archivos-medio, archivos-congr,
  peso, peso-uno, peso-inv, Aparte, ocupan, cuantos, cuantos-append, ocupan-medio, ocupan-Aparte,
  buscar_bloque-parte, buscar_bloque-ocupan,
}
use so_1c.DialFs.Nombres.{nombres, nombres-mover}
use so_1c.DialFs.Marcha.{Lugar, Ajena, Marcha, Marcha-libre, cabe_en, ceil_div-cubre}

-- Reading what lies apart from what was written.
pub leer_en-aparte :
    (m xs : List ℕ) (d a n : ℕ)
    → d + length xs ≤ length m
    → (a + n ≤ d) ⊎ (d + length xs ≤ a)
    → leer_en m a n ≡ leer_en (escrito m d xs) a n
leer_en-aparte m xs d a n h o =
    leer_en-congr m (escrito m d xs) a n (sym (length-escrito m d xs h))
      λ j p q. sym (get_elem?-escrito m d xs j h (lado o p q))
  where
    lado :
        {j : ℕ}
        → (a + n ≤ d) ⊎ (d + length xs ≤ a)
        → a ≤ j
        → j < a + n
        → (j < d) ⊎ (d + length xs ≤ j)
    lado (inl l) p q = inl (omega arith)
    lado (inr l) p q = inr (omega arith)

-- The blocks are as many wherever the file lies.
movido-cuantos :
    (v : String → Bool) (t : ℕ) (xs ys : List EntradaFat) (e : EntradaFat) (h : ℕ)
    (es es' : List EntradaFat)
    → es ≡ xs ++ e ∷ ys
    → es' ≡ xs ++ record e { bloque_inicial = h } ∷ ys
    → cuantos v t es' ≡ cuantos v t es
unfolding cuantos
movido-cuantos v t xs ys e h es es' u u' =
    rw (u, u')
      (cuantos-append v t xs (record e { bloque_inicial = h } ∷ ys)
        ∙ sym (cuantos-append v t xs (e ∷ ys)))

module _ {Bits : Type 0} ⦃b : BitArray Bits⦄ where
  open b use {tam, test_bit}

  -- The same files, in blocks of the same number and size, and the same names in the FAT.
  pub record Mismos (v : String → Bool) (s r : Fs Bits) : Type 0 where
    pub cantidad : r.cant_bloques ≡ s.cant_bloques
    pub medida : r.tam_bloque ≡ s.tam_bloque
    pub bytes : length r.bloques ≡ length s.bloques
    pub nombrados : nombres r.fat ≡ nombres s.fat
    pub pesan : cuantos v s.tam_bloque r.fat ≡ cuantos v s.tam_bloque s.fat
    pub contenidos :
        archivos v s.tam_bloque r.bloques r.fat ≡ archivos v s.tam_bloque s.bloques s.fat

  -- The entry of a file that begins at i, the others, and the blocks.
  module _ (v : String → Bool) (s : Fs Bits) (h i : ℕ) (w : Marcha v s h i) (e : EntradaFat)
      (xs ys : List EntradaFat) (u : s.fat ≡ xs ++ e ∷ ys) (k : e.bloque_inicial ≡ i)
      (p : i < s.cant_bloques) (q : test_bit s.bitmap i ≡ true) where
    partes : (P : EntradaFat → Type 0) → Todas P s.fat → Todas P (xs ++ ys) × P e
    partes P a = (Todas-medio P xs ys e).0 (subst (Todas P) u a)

    vivo : v e.nombre ≡ true
    vivo = elim (Bool-cases (v e.nombre)) [
      | inl z ↦ z
      | inr z ↦
          let f = (partes (Ajena v s.cant_bloques i s.bitmap) w.ajenas).1 in
          absurd (ground (arith, rw k at (f z), p, q))
    ]

    lugar :
        (0 < ceil_div e.largo s.tam_bloque) × (i + ceil_div e.largo s.tam_bloque ≤ s.cant_bloques)
    lugar =
        let (x, y, _) = (partes (Lugar v s.tam_bloque s.cant_bloques h i) w.lugares).1 vivo in
        (x, rw k at y)

    de_otros :
        (j : ℕ)
        → ocupan v s.tam_bloque s.fat j
          ≡ ocupan v s.tam_bloque (xs ++ ys) j + peso v s.tam_bloque e j
    de_otros j =
        ap (λ (l : List EntradaFat). ocupan v s.tam_bloque l j) u
        ∙ ocupan-medio v s.tam_bloque xs ys e j

    de_este : (j : ℕ) → i ≤ j → j < i + ceil_div e.largo s.tam_bloque → peso v s.tam_bloque e j ≡ 1
    de_este j x y = peso-uno v s.tam_bloque e j vivo (rw k x) (rw k y)

    -- No other file has a block of the hole or of this file.
    nada :
        (j : ℕ)
        → h ≤ j
        → j < i + ceil_div e.largo s.tam_bloque
        → ocupan v s.tam_bloque (xs ++ ys) j ≡ 0
    nada j x y = elim (Bool-cases (ltb j i)) [
      | inl z ↦ ground (arith, de_otros j, w.cuenta j, Marcha-libre j w x, lugar)
      | inr z ↦ ground (arith, de_otros j, w.cuenta j, de_este j, lugar)
    ]

    apartes : Todas (Aparte v s.tam_bloque h (i + ceil_div e.largo s.tam_bloque - h)) (xs ++ ys)
    apartes =
        ocupan-Aparte v s.tam_bloque h (i + ceil_div e.largo s.tam_bloque - h) (xs ++ ys)
          (omega (arith, lugar, w.orden)) (λ j x y. nada j x (omega (arith, w.orden)))
          (Todas-map (Lugar v s.tam_bloque s.cant_bloques h i)
            (λ f. v f.nombre ≡ true → 0 < ceil_div f.largo s.tam_bloque) (xs ++ ys)
            (λ f l z. (l z).0) (partes (Lugar v s.tam_bloque s.cant_bloques h i) w.lugares).0)

    -- The bitmap after the move.
    abbrev movido : ℕ → Bits
    movido c = marcar_bits c h (limpiar_bits c i s.bitmap)

    bit_movido :
        (j : ℕ)
        → j < s.cant_bloques
        → let c = ceil_div e.largo s.tam_bloque in
          test_bit (movido c) j ≡ (
            if en_tramo c h j
            then true
            else (if en_tramo c i j then false else test_bit s.bitmap j))
    bit_movido j x =
        let c = ceil_div e.largo s.tam_bloque in
        test-marcar_bits c h j (limpiar_bits c i s.bitmap)
          (omega (arith, tam-limpiar_bits c i s.bitmap, lugar, w.bits, w.orden))
          (omega (arith, tam-limpiar_bits c i s.bitmap, w.bits))
        ∙ ap (λ z. if en_tramo c h j then true else z)
            (test-limpiar_bits c i j s.bitmap (omega (arith, lugar, w.bits))
              (omega (arith, w.bits)))

    movido-cuenta :
        (j : ℕ)
        → j < s.cant_bloques
        → let c = ceil_div e.largo s.tam_bloque in
          ocupan v s.tam_bloque (xs ++ record e { bloque_inicial = h } ∷ ys) j
          ≡ uno (test_bit (movido c) j)
    movido-cuenta j x =
        let c = ceil_div e.largo s.tam_bloque in
        let a : peso v s.tam_bloque e j ≡ uno (en_tramo c i j) = rw (vivo, k) refl in
        let a' : peso v s.tam_bloque (record e { bloque_inicial = h }) j ≡ uno (en_tramo c h j) =
          rw vivo refl in
        ocupan-medio v s.tam_bloque xs ys (record e { bloque_inicial = h }) j
        ∙ ground (arith, a, a', bit_movido j x, nada j, de_otros j, w.cuenta j x, w.orden)

    movido-bajos :
        (j : ℕ) → let c = ceil_div e.largo s.tam_bloque in j < h + c → test_bit (movido c) j ≡ true
    movido-bajos j x =
        ground (arith, bit_movido j (omega (arith, lugar, w.orden)), w.bajos j, w.orden)

    movido-Lugar :
        (f : EntradaFat)
        → let c = ceil_div e.largo s.tam_bloque in
          Aparte v s.tam_bloque h (i + c - h) f
          → Lugar v s.tam_bloque s.cant_bloques h i f
          → Lugar v s.tam_bloque s.cant_bloques (h + c) (h + c) f
    movido-Lugar f a l z =
        let (x, y, _) = l z in
        (
          x,
          y,
          elim (a z) [ inl d ↦ inl (omega (arith, d)) | inr d ↦ inr (omega (arith, d, w.orden)) ],
        )

    movido-Ajena :
        (f : EntradaFat)
        → Ajena v s.cant_bloques i s.bitmap f
        → let c = ceil_div e.largo s.tam_bloque in Ajena v s.cant_bloques (h + c) (movido c) f
    movido-Ajena f a z x y =
        ground (arith, bit_movido f.bloque_inicial y, a z, Marcha-libre f.bloque_inicial w)

    -- The loop's invariant after the move.
    movido-Marcha :
        (m : List ℕ) (mt : List EntradaFat)
        → length m ≡ length s.bloques
        → mover_entrada i h s.fat ≡ xs ++ record e { bloque_inicial = h } ∷ ys
        → let c = ceil_div e.largo s.tam_bloque in
          Marcha v
            (record s {
              bitmap = movido c;
              bloques = m;
              fat = mover_entrada i h s.fat;
              metadata = mt;
            })
            (h + c)
            (h + c)
    movido-Marcha m mt l u' =
        let c = ceil_div e.largo s.tam_bloque in
        let (lo, le) = partes (Lugar v s.tam_bloque s.cant_bloques h i) w.lugares in
        let (ao, ae) = partes (Ajena v s.cant_bloques i s.bitmap) w.ajenas in
        record {
          medida = w.medida;
          bits = omega (
            arith,
            w.bits,
            tam-marcar_bits c h (limpiar_bits c i s.bitmap),
            tam-limpiar_bits c i s.bitmap,
          );
          bytes = omega (arith, w.bytes, l);
          orden = omega arith;
          tope = omega (arith, lugar, w.orden);
          cuenta =
              λ j x. ap (λ (r : List EntradaFat). ocupan v s.tam_bloque r j) u' ∙ movido-cuenta j x;
          bajos = λ j x. movido-bajos j x;
          lugares = subst (Todas (Lugar v s.tam_bloque s.cant_bloques (h + c) (h + c))) (sym u') (
              (Todas-medio (Lugar v s.tam_bloque s.cant_bloques (h + c) (h + c)) xs ys
                  (record e { bloque_inicial = h })).1
                (
                  Todas-dos (Aparte v s.tam_bloque h (i + c - h))
                      (Lugar v s.tam_bloque s.cant_bloques h i)
                      (Lugar v s.tam_bloque s.cant_bloques (h + c) (h + c)) (xs ++ ys) movido-Lugar
                      apartes lo,
                  λ z. (lugar.0, omega (arith, lugar, w.orden), inl (omega arith)),
                ));
          ajenas = subst (Todas (Ajena v s.cant_bloques (h + c) (movido c))) (sym u') (
              (Todas-medio (Ajena v s.cant_bloques (h + c) (movido c)) xs ys
                  (record e { bloque_inicial = h })).1
                (
                  Todas-map (Ajena v s.cant_bloques i s.bitmap)
                      (Ajena v s.cant_bloques (h + c) (movido c)) (xs ++ ys) movido-Ajena ao,
                  λ z. cc (z, vivo),
                ));
        }

    -- What another file reads, where the bytes of this one were written at the hole.
    otro :
        (bs : List ℕ) (f : EntradaFat)
        → length bs ≡ e.largo
        → h * s.tam_bloque + length bs ≤ length s.bloques
        → Aparte v s.tam_bloque h (i + ceil_div e.largo s.tam_bloque - h) f
        → v f.nombre ≡ true
        → leer_en
            (escrito s.bloques (h * s.tam_bloque) bs)
            (f.bloque_inicial * s.tam_bloque)
            f.largo
          ≡ leer_en s.bloques (f.bloque_inicial * s.tam_bloque) f.largo
    otro bs f l d a z = sym (
        leer_en-aparte s.bloques bs (h * s.tam_bloque) (f.bloque_inicial * s.tam_bloque) f.largo d
          (elim (a z) [
            | inl x ↦ inl (
                cabe_en f.bloque_inicial (ceil_div f.largo s.tam_bloque) h s.tam_bloque f.largo x
                  (ceil_div-cubre f.largo s.tam_bloque w.medida))
            | inr x ↦ inr (
                omega (
                  arith,
                  l,
                  cabe_en h (ceil_div e.largo s.tam_bloque) f.bloque_inicial s.tam_bloque e.largo
                      (omega (arith, x, w.orden)) (ceil_div-cubre e.largo s.tam_bloque w.medida),
                ))
          ]))

    -- The files keep their names and contents.
    movido-archivos :
        (bs : List ℕ)
        → leer_en s.bloques (i * s.tam_bloque) e.largo ≡ some bs
        → length bs ≡ e.largo
        → h * s.tam_bloque + length bs ≤ length s.bloques
        → archivos v s.tam_bloque
            (escrito s.bloques (h * s.tam_bloque) bs)
            (xs ++ record e { bloque_inicial = h } ∷ ys)
          ≡ archivos v s.tam_bloque s.bloques s.fat
    movido-archivos bs g l d =
        let t = s.tam_bloque in
        let m' = escrito s.bloques (h * t) bs in
        let Igual : EntradaFat → Type 0 = λ f.
          v f.nombre ≡ true
          → leer_en m' (f.bloque_inicial * t) f.largo
            ≡ leer_en s.bloques (f.bloque_inicial * t) f.largo in
        let (x, y) = (Todas-append Igual xs ys).0 (
          Todas-map (Aparte v t h (i + ceil_div e.largo t - h)) Igual (xs ++ ys)
            (λ f. otro bs f l d) apartes) in
        let z : leer_en m' (h * t) e.largo ≡ leer_en s.bloques (e.bloque_inicial * t) e.largo =
          rw (k, g, ← l) (leer_en-escrito s.bloques (h * t) bs d) in
        archivos-medio v t m' xs ys (record e { bloque_inicial = h }) vivo
        ∙ rw (archivos-congr v t m' s.bloques xs x, archivos-congr v t m' s.bloques ys y, z) refl
        ∙ sym (archivos-medio v t s.bloques xs ys e vivo)
        ∙ ap (archivos v t s.bloques) (sym u)

  mover_archivo_lem :
      (s : Fs Bits) (h i : ℕ) (e : EntradaFat) (bs : List ℕ)
      → buscar_bloque i s.fat ≡ some e
      → leer_en s.bloques (i * s.tam_bloque) e.largo ≡ some bs
      → h * s.tam_bloque + length bs ≤ length s.bloques
      → let c = ceil_div e.largo s.tam_bloque in
        mover_archivo s h i
        ≡ some (
          h + c,
          record s {
            bitmap = marcar_bits c h (limpiar_bits c i s.bitmap);
            bloques = escrito s.bloques (h * s.tam_bloque) bs;
            fat = mover_entrada i h s.fat;
            metadata = guardar_metadata (record e { bloque_inicial = h }) s.metadata;
          },
        )
  unfolding mover_archivo
  mover_archivo_lem s h i e bs f g d =
      rw (mover_archivo, f, g, escribir_en-escrito s.bloques (h * s.tam_bloque) bs d) refl

  -- A file that stands at the first used block after the hole is moved, and the loop goes on from its end.
  pub mover_archivo-Marcha :
      (v : String → Bool) (s : Fs Bits) (h i : ℕ)
      → Marcha v s h i
      → i < s.cant_bloques
      → test_bit s.bitmap i ≡ true
      → (h' : ℕ) × (r : Fs Bits) × (mover_archivo s h i ≡ some (h', r))
        × (h < h')
        × (h' ≤ s.cant_bloques)
        × Mismos v s r
        × Marcha v r h' h'
  mover_archivo-Marcha v s h i w p q =
      let t = s.tam_bloque in
      let (e, f) = buscar_bloque-ocupan v t i s.fat (omega (arith, w.cuenta i p, ap uno q)) (
        Todas-map (Lugar v t s.cant_bloques h i) (λ e. 0 < peso v t e i → e.bloque_inicial ≡ i)
          s.fat (λ e l z. aqui e l (peso-inv v t e i z)) w.lugares) in
      let (k, xs, ys, u, u') = buscar_bloque-parte i h s.fat e f in
      let c = ceil_div e.largo t in
      let (c0, cn) = lugar v s h i w e xs ys u k p q in
      let cubre = ceil_div-cubre e.largo t w.medida in
      let (bs, g, l) =
        leer_en-total s.bloques (i * t) e.largo
          (omega (arith, cabe_en i c s.cant_bloques t e.largo cn cubre, w.bytes)) in
      let d : h * t + length bs ≤ length s.bloques = omega (
        arith,
        l,
        cabe_en h c s.cant_bloques t e.largo (omega (arith, cn, w.orden)) cubre,
        w.bytes,
      ) in
      let m = escrito s.bloques (h * t) bs in
      let mt = guardar_metadata (record e { bloque_inicial = h }) s.metadata in
      (
        h + c,
        record s {
          bitmap = marcar_bits c h (limpiar_bits c i s.bitmap);
          bloques = m;
          fat = mover_entrada i h s.fat;
          metadata = mt;
        },
        mover_archivo_lem s h i e bs f g d,
        omega (arith, c0),
        omega (arith, cn, w.orden),
        record {
          cantidad = refl;
          medida = refl;
          bytes = length-escrito s.bloques (h * t) bs d;
          nombrados = nombres-mover i h s.fat;
          pesan = movido-cuantos v t xs ys e h s.fat (mover_entrada i h s.fat) u u';
          contenidos = ap (archivos v t m) u' ∙ movido-archivos v s h i w e xs ys u k p q bs g l d;
        },
        movido-Marcha v s h i w e xs ys u k p q m mt (length-escrito s.bloques (h * t) bs d) u',
      )
    where
      aqui :
          (e : EntradaFat)
          → Lugar v s.tam_bloque s.cant_bloques h i e
          → (v e.nombre ≡ true)
            × (e.bloque_inicial ≤ i)
            × (i < e.bloque_inicial + ceil_div e.largo s.tam_bloque)
          → e.bloque_inicial ≡ i
      aqui e l (x, y, z) = let (_, _, a) = l x in omega (arith, a, y, z, w.orden)
