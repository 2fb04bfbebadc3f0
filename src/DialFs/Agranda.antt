-- ===== src/DialFs/Agranda.antt =====
-- The whole of truncar_fs where it compacts (utils/src/entradasalida/entradasalida.c).
use Prim.Native.String.{String}
use so_1c.Base.{
  ℕ, ◌+◌, ◌-◌, ◌*◌, ◌≡◌, ◌≤◌, ◌<◌, inl, inr, refl, sym, ap, ◌∙◌, subst, Bool, true, false, List,
  some, uno, leb, ltb, ◌==◌, length, arith, Bool-cases, suma-congr,
}
use so_1c.BitArray.{BitArray}
use so_1c.Bytes.{
  leer_en, escribir_en, escrito, escribir_en-escrito, length-escrito, leer_en-escrito,
  leer_en-total,
}
use so_1c.Tramos.{ceil_div}
use so_1c.Memoria.Buscar.{libres}
use so_1c.DialFs.{
  Fs, EntradaFat, buscar_entrada, cambiar_entrada, guardar_metadata, limpiar_bits, marcar_bits,
}
use so_1c.DialFs.Bits.{test-marcar_bits, tam-marcar_bits}
use so_1c.DialFs.Truncar.{
  bloques_de, inicio_libre, primer_hueco, sin_hueco, compactar, compactar_y_agrandar, agrandar,
  truncar_fs, anotar,
}
use so_1c.DialFs.Nombres.{nombres, Distintos, buscar-esta}
use so_1c.DialFs.Vista.{Todas-map, archivos, archivos-congr}
use so_1c.DialFs.Marcha.{Lugar, Marcha, Marcha-libre, cabe_en, ceil_div-cubre}
use so_1c.DialFs.Salto.{leer_en-aparte}
use so_1c.DialFs.Compacta.{Junto, Formado, Marcha-Formado, compactar-Junto, inicio_libre-halla}
use so_1c.DialFs.Cuenta.{primer_hueco-libres}
use so_1c.DialFs.Crece.{
  otro, unico, archivos-cambiar, ocupan-cambiar, cambiar-Entero, buscar-cambiar, Repartido,
  Junto-libres, sin_archivo, una_vez, dos_veces, sin_archivo-Formado, sin_archivo-Ajena,
}

bloques-cubre : (t l : ℕ) → 0 < t → (0 < bloques_de t l) × (l ≤ bloques_de t l * t)
unfolding bloques_de
bloques-cubre t l p = elim (Bool-cases (ceil_div l t == 0)) [
  | inl e ↦ rw e (omega arith, ground (arith, ceil_div-cubre l t p))
  | inr e ↦ rw e (ground arith, ceil_div-cubre l t p)
]

module _ {Bits : Type 0} ⦃b : BitArray Bits⦄ where
  open b use {test_bit}

  -- Where the used blocks are those before h, the first free one is h.
  inicio_libre-Marcha :
      (v : String → Bool) (r : Fs Bits) (h : ℕ)
      → Marcha v r h r.cant_bloques
      → h < r.cant_bloques
      → inicio_libre r.cant_bloques 0 r.bitmap ≡ some h
  inicio_libre-Marcha v r h m l =
      let (k, q, x, f, g) =
        inicio_libre-halla r.cant_bloques 0 h r.bitmap (omega arith) (omega arith)
          (Marcha-libre h m (omega arith) l) in
      q ∙ ap (λ (z : ℕ). some z) (igual k f (λ j. g j (omega arith)))
    where
      igual :
          (k : ℕ)
          → test_bit r.bitmap k ≡ false
          → ((j : ℕ) → j < k → test_bit r.bitmap j ≡ true)
          → k ≡ h
      igual k f g = elim (Bool-cases (ltb k h)) [
        | inl c ↦ absurd (ground (arith, f, m.bajos k, c))
        | inr c ↦ elim (Bool-cases (ltb h k)) [
          | inl d ↦ absurd (ground (arith, g h, Marcha-libre h m (omega arith) l, d))
          | inr d ↦ ground arith
        ]
      ]

  -- What is left of the other files after the bytes were written at h.
  tras_escribir :
      (v : String → Bool) (r : Fs Bits) (h : ℕ) (xs : List ℕ)
      → Marcha v r h r.cant_bloques
      → h * r.tam_bloque + length xs ≤ length r.bloques
      → archivos v r.tam_bloque (escrito r.bloques (h * r.tam_bloque) xs) r.fat
        ≡ archivos v r.tam_bloque r.bloques r.fat
  tras_escribir v r h xs m d =
      archivos-congr v r.tam_bloque (escrito r.bloques (h * r.tam_bloque) xs) r.bloques r.fat (
        Todas-map (Lugar v r.tam_bloque r.cant_bloques h r.cant_bloques)
          (λ e.
            v e.nombre ≡ true
            → leer_en (escrito r.bloques (h * r.tam_bloque) xs) (e.bloque_inicial * r.tam_bloque)
                e.largo
              ≡ leer_en r.bloques (e.bloque_inicial * r.tam_bloque) e.largo)
          r.fat
          (λ e l z.
            let (x, y, w) = l z in
            sym (
              leer_en-aparte r.bloques xs (h * r.tam_bloque) (e.bloque_inicial * r.tam_bloque)
                e.largo d
                (inl (
                  cabe_en e.bloque_inicial (ceil_div e.largo r.tam_bloque) h r.tam_bloque e.largo
                    (omega (arith, x, y, w)) (ceil_div-cubre e.largo r.tam_bloque m.medida)))))
          m.lugares)

  -- The steps of `truncar_fs` here.
  truncar_lem :
      (s r : Fs Bits) (n : String) (e : EntradaFat) (t l h : ℕ) (xs m : List ℕ)
      → let a = bloques_de s.tam_bloque e.largo in
        let f = bloques_de s.tam_bloque t in
        buscar_entrada n s.fat ≡ some e
        → a < f
        → primer_hueco s.cant_bloques 0 f 0 0 0 false (limpiar_bits a e.bloque_inicial s.bitmap)
          ≡ sin_hueco l
        → f ≤ l
        → leer_en s.bloques (e.bloque_inicial * s.tam_bloque) e.largo ≡ some xs
        → compactar (sin_archivo s e) ≡ some r
        → inicio_libre r.cant_bloques 0 r.bitmap ≡ some h
        → escribir_en r.bloques (h * r.tam_bloque) xs ≡ some m
        → truncar_fs s n t
          ≡ some (anotar (record r { bitmap = marcar_bits f h r.bitmap; bloques = m }) e.nombre h t)
  unfolding truncar_fs agrandar compactar_y_agrandar
  truncar_lem s r n e t l h xs m u c g k x y z w =
      let a = bloques_de s.tam_bloque e.largo in
      let f = bloques_de s.tam_bloque t in
      let c' : leb f a ≡ false = ground (arith, c) in
      let k' : ltb l f ≡ false = ground (arith, k) in
      rw (truncar_fs, u, c', agrandar, g, k', compactar_y_agrandar, x, y, z, w) refl

  -- The file of entry e grew to t: it keeps its content, and the others theirs.
  abbrev pub Crecido : Fs Bits → String → EntradaFat → ℕ → Type 0
  Crecido s n e t =
      (q : Fs Bits) × (h : ℕ) × (truncar_fs s n t ≡ some q)
      × (buscar_entrada n q.fat ≡ some (record { nombre = n; bloque_inicial = h; largo = t }))
      × (leer_en q.bloques (h * s.tam_bloque) e.largo
          ≡ leer_en s.bloques (e.bloque_inicial * s.tam_bloque) e.largo)
      × (archivos (otro n) s.tam_bloque q.bloques q.fat
          ≡ archivos (otro n) s.tam_bloque s.bloques s.fat)
      × Repartido q (record { nombre = n; bloque_inicial = h; largo = t })

  -- The file at h, with the others before it.
  puesto-Repartido :
      (r : Fs Bits) (n : String) (t h : ℕ) (m : List ℕ) (mt : List EntradaFat)
      → let f = bloques_de r.tam_bloque t in
        Marcha (otro n) r h r.cant_bloques
        → h + f ≤ r.cant_bloques
        → length m ≡ length r.bloques
        → Repartido
            (record r {
              bitmap = marcar_bits f h r.bitmap;
              bloques = m;
              fat = cambiar_entrada n h t r.fat;
              metadata = mt;
            })
            (record { nombre = n; bloque_inicial = h; largo = t })
  puesto-Repartido r n t h m mt w l e =
      let f = bloques_de r.tam_bloque t in
      record {
        medida = w.medida;
        bits = omega (arith, w.bits, tam-marcar_bits f h r.bitmap);
        bytes = omega (arith, w.bytes, e);
        cuenta = λ j x. ground (
          arith,
          ocupan-cambiar n h t r.tam_bloque r.fat j,
          w.cuenta j x,
          test-marcar_bits f h j r.bitmap (omega (arith, l, w.bits)) (omega (arith, w.bits)),
          Marcha-libre j w,
        );
        caben =
            cambiar-Entero n h t r.tam_bloque r.cant_bloques r.fat
              (Marcha-Formado (otro n) r h r.cant_bloques w).caben;
        cabe = l;
      }

  -- The end, with what the compaction left.
  tras_compactar :
      (s r : Fs Bits) (e : EntradaFat) (t l h : ℕ) (xs : List ℕ)
      → let a = bloques_de s.tam_bloque e.largo in
        let f = bloques_de s.tam_bloque t in
        let v = otro e.nombre in
        Repartido s e
        → buscar_entrada e.nombre s.fat ≡ some e
        → a < f
        → primer_hueco s.cant_bloques 0 f 0 0 0 false (limpiar_bits a e.bloque_inicial s.bitmap)
          ≡ sin_hueco l
        → f ≤ l
        → leer_en s.bloques (e.bloque_inicial * s.tam_bloque) e.largo ≡ some xs
        → length xs ≡ e.largo
        → compactar (sin_archivo s e) ≡ some r
        → Junto v (sin_archivo s e) r h
        → h + f ≤ s.cant_bloques
        → Crecido s e.nombre e t
  tras_compactar s r e t l h xs w u c g k x z y j hf =
      let f = bloques_de s.tam_bloque t in
      let v = otro e.nombre in
      let ms = j.mismos in
      let ft : bloques_de r.tam_bloque t ≡ f = ap (λ o. bloques_de o t) ms.medida in
      let hf' : h + bloques_de r.tam_bloque t ≤ r.cant_bloques =
        omega (arith, hf, ft, ms.cantidad) in
      let (f0, _) = bloques-cubre r.tam_bloque t j.marcha.medida in
      let (_, cubre) = bloques-cubre r.tam_bloque e.largo j.marcha.medida in
      let at = ap (λ o. bloques_de o e.largo) ms.medida in
      let d : h * r.tam_bloque + length xs ≤ length r.bloques = omega (
        arith,
        z,
        cabe_en h (bloques_de r.tam_bloque e.largo) r.cant_bloques r.tam_bloque e.largo
            (omega (arith, hf', at, ft, c)) cubre,
        j.marcha.bytes,
      ) in
      let m = escrito r.bloques (h * r.tam_bloque) xs in
      let mt =
        guardar_metadata (record { nombre = e.nombre; bloque_inicial = h; largo = t }) r.metadata in
      (
        record r {
          bitmap = marcar_bits (bloques_de r.tam_bloque t) h r.bitmap;
          bloques = m;
          fat = cambiar_entrada e.nombre h t r.fat;
          metadata = mt;
        },
        h,
        truncar_lem s r e.nombre e t l h xs m u c g k x y
              (inicio_libre-Marcha v r h j.marcha (omega (arith, hf', f0)))
              (escribir_en-escrito r.bloques (h * r.tam_bloque) xs d)
            ∙ ap
                (λ o. some (
                  anotar (record r { bitmap = marcar_bits o h r.bitmap; bloques = m }) e.nombre h
                    t))
                (sym ft),
        buscar-cambiar e.nombre h t r.fat (rw ms.nombrados (buscar-esta e.nombre s.fat e u).0),
        ap (λ o. leer_en m (h * o) e.largo) (sym ms.medida)
            ∙ ap (leer_en m (h * r.tam_bloque)) (sym z)
            ∙ leer_en-escrito r.bloques (h * r.tam_bloque) xs d
            ∙ sym x,
        archivos-cambiar e.nombre h t s.tam_bloque m r.fat
            ∙ ap (λ o. archivos v o m r.fat) (sym ms.medida)
            ∙ tras_escribir v r h xs j.marcha d
            ∙ ap (λ o. archivos v o r.bloques r.fat) ms.medida
            ∙ ms.contenidos,
        puesto-Repartido r e.nombre t h m mt j.marcha hf'
            (length-escrito r.bloques (h * r.tam_bloque) xs d),
      )

  -- The free blocks after the compaction are those that the walk counted.
  quedan :
      (s r : Fs Bits) (e : EntradaFat) (t l h : ℕ)
      → let a = bloques_de s.tam_bloque e.largo in
        let f = bloques_de s.tam_bloque t in
        Repartido s e
        → primer_hueco s.cant_bloques 0 f 0 0 0 false (limpiar_bits a e.bloque_inicial s.bitmap)
          ≡ sin_hueco l
        → f ≤ l
        → Formado (otro e.nombre) (sin_archivo s e)
        → Junto (otro e.nombre) (sin_archivo s e) r h
        → h + f ≤ s.cant_bloques
  unfolding libres
  quedan s r e t l h w g k o j =
      let f = bloques_de s.tam_bloque t in
      let bm = limpiar_bits (bloques_de s.tam_bloque e.largo) e.bloque_inicial s.bitmap in
      omega (
        arith,
        k,
        primer_hueco-libres s.cant_bloques f l bm g,
        Junto-libres (otro e.nombre) (sin_archivo s e) r h o j,
        suma-congr s.cant_bloques (λ i. 1 - uno (test_bit (sin_archivo s e).bitmap i))
            (λ i. 1 - uno (test_bit bm i)) (λ i x. ap (λ z. 1 - uno z) (dos_veces s e i w x)),
      )

  -- truncar_fs of a file to a size that needs more blocks, where no hole holds it and enough blocks are free,
  -- on a disk where each used block is of one file, names differ and no other file is empty: it compacts and
  -- ends. The file has the new size and keeps its content, the others keep their names and contents in the
  -- order of the FAT, and again each used block is of one file.
  pub truncar_fs-compactar :
      (s : Fs Bits) (n : String) (e : EntradaFat) (t l : ℕ)
      → let a = bloques_de s.tam_bloque e.largo in
        let f = bloques_de s.tam_bloque t in
        Repartido s e
        → Distintos (nombres s.fat)
        → buscar_entrada n s.fat ≡ some e
        → a < f
        → primer_hueco s.cant_bloques 0 f 0 0 0 false (limpiar_bits a e.bloque_inicial s.bitmap)
          ≡ sin_hueco l
        → f ≤ l
        → Crecido s n e t
  truncar_fs-compactar s n e t l w d u c g k =
      let a = bloques_de s.tam_bloque e.largo in
      let z = (buscar-esta n s.fat e u).1 in
      let u' = subst (λ m. buscar_entrada m s.fat ≡ some e) (sym z) u in
      let (a0, cubre) = bloques-cubre s.tam_bloque e.largo w.medida in
      let (xs, x, y) = leer_en-total s.bloques (e.bloque_inicial * s.tam_bloque) e.largo (
        omega (
          arith,
          cabe_en e.bloque_inicial a s.cant_bloques s.tam_bloque e.largo w.cabe cubre,
          w.bytes,
        )) in
      let o = sin_archivo-Formado s e w in
      let p : e.bloque_inicial < s.cant_bloques = omega (arith, a0, w.cabe) in
      let (r, h, q, j) =
        compactar-Junto (otro e.nombre) (sin_archivo s e) e.bloque_inicial o
          (sin_archivo-Ajena s e w a0 (unico e.nombre s.fat e d u')) p
          (ground
            (arith, dos_veces s e e.bloque_inicial w p, una_vez s e e.bloque_inicial w p, a0)) in
      subst (λ m. Crecido s m e t) z
        (tras_compactar s r e t l h xs w u' c g k x y q j (quedan s r e t l h w g k o j))
