-- ===== src/DialFs/Persiste.antt =====
-- What a restart of DialFS finds (utils/src/entradasalida/entradasalida.c).
use Prim.Native.String.{String}
use so_1c.Base.{
  ℕ, zero, suc, ◌*◌, ◌≡◌, refl, ◌∙◌, subst, true, false, List, Option, none, some, >>=-eq-some,
  if◌then◌else◌, leb, ltb, Option-cases, inl, inr, caso,
}
use so_1c.BitArray.{BitArray}
use so_1c.Bytes.{leer_en, escribir_en}
use so_1c.Tramos.{ceil_div}
use so_1c.DialFs.{
  Fs, EntradaFat, buscar_entrada, buscar_bloque, mover_entrada, guardar_metadata, limpiar_bits,
  marcar_bits,
}
use so_1c.DialFs.Truncar.{
  mover_archivo, compactar_bucle, compactar, inicio_libre, achicar, mudar, compactar_y_agrandar,
  agrandar, truncar_fs, anotar, bloques_de, primer_hueco, Hueco, hallado, sin_hueco,
}
use so_1c.DialFs.Nombres.{
  nombres, esta, Distintos, Comunes, buscar-esta, cambiar-guardar, nombres-cambiar, mover-guardar,
  nombres-mover,
}

module _ {Bits : Type 0} ⦃b : BitArray Bits⦄ where
  -- The metadata files agree with the FAT, which has no name twice and none that a restart skips.
  pub record Guardado (s : Fs Bits) : Type 0 where
    pub igual : s.metadata ≡ s.fat
    pub distintos : Distintos (nombres s.fat)
    pub comunes : Comunes (nombres s.fat)

  -- A file system after another one, with the same names and the same sizes.
  pub record Sigue (s r : Fs Bits) : Type 0 where
    pub guardado : Guardado r
    pub mismos : nombres r.fat ≡ nombres s.fat
    pub cant : r.cant_bloques ≡ s.cant_bloques
    pub tam : r.tam_bloque ≡ s.tam_bloque

  Sigue-trans : (s r t : Fs Bits) → Sigue s r → Sigue r t → Sigue s t
  Sigue-trans s r t p q = record {
    guardado = q.guardado;
    mismos = q.mismos ∙ p.mismos;
    cant = q.cant ∙ p.cant;
    tam = q.tam ∙ p.tam;
  }

  -- A change of the FAT that keeps the names, written to the metadata files.
  fat-Sigue :
      (s r : Fs Bits)
      → Guardado s
      → r.metadata ≡ r.fat
      → nombres r.fat ≡ nombres s.fat
      → r.cant_bloques ≡ s.cant_bloques
      → r.tam_bloque ≡ s.tam_bloque
      → Sigue s r
  fat-Sigue s r g e f c t = record {
    guardado = record { igual = e; distintos = rw f g.distintos; comunes = rw f g.comunes };
    mismos = f;
    cant = c;
    tam = t;
  }

  pub mismo-Sigue : (s : Fs Bits) → Guardado s → Sigue s s
  mismo-Sigue s g = fat-Sigue s s g g.igual refl refl refl

  anotar-Sigue :
      (s : Fs Bits) (n : String) (b' l : ℕ)
      → Guardado s
      → esta n (nombres s.fat) ≡ true
      → Sigue s (anotar s n b' l)
  anotar-Sigue s n b' l g e =
      fat-Sigue s (anotar s n b' l) g (rw g.igual (cambiar-guardar n b' l s.fat e))
        (nombres-cambiar n b' l s.fat) refl refl

  mover-Sigue :
      (s r : Fs Bits) (h a k : ℕ) → Guardado s → mover_archivo s h a ≡ some (k, r) → Sigue s r
  unfolding mover_archivo
  mover-Sigue s r h a k g e =
      let (x, f, p) = >>=-eq-some (buscar_bloque a s.fat) _ e in
      let (xs, _, q) = >>=-eq-some (leer_en s.bloques (a * s.tam_bloque) x.largo) _ p in
      let (m, _, o) = >>=-eq-some (escribir_en s.bloques (h * s.tam_bloque) xs) _ q in
      let cant = ceil_div x.largo s.tam_bloque in
      let t : Fs Bits = record s {
        bitmap = marcar_bits cant h (limpiar_bits cant a s.bitmap);
        bloques = m;
        fat = mover_entrada a h s.fat;
        metadata = guardar_metadata (record x { bloque_inicial = h }) s.metadata;
      } in
      let w : t ≡ r = cc in
      subst (Sigue s) w (
        fat-Sigue s t g (rw g.igual (mover-guardar a h s.fat x f g.distintos))
          (nombres-mover a h s.fat) refl refl)

  bucle-Sigue :
      (f : ℕ) (s r : Fs Bits) (h i : ℕ) → Guardado s → compactar_bucle f s h i ≡ some r → Sigue s r
  unfolding compactar_bucle
  bucle-Sigue zero s r h i g = λ e. cc
  bucle-Sigue (suc f) s r h i g =
      caso Bien (ltb i s.cant_bloques)
        (λ _.
          caso Bien (b.test_bit s.bitmap i)
            (λ _ e.
              let (p, q, o) = >>=-eq-some (mover_archivo s h i) _ e in
              let t = mover-Sigue s p.1 h i p.0 g q in
              Sigue-trans s p.1 r t (bucle-Sigue f p.1 r p.0 p.0 t.guardado o))
            (λ _ e. bucle-Sigue f s r h (suc i) g e))
        (λ _ e. let w : s ≡ r = cc in subst (Sigue s) w (mismo-Sigue s g))
    where
      Bien : Option (Fs Bits) → Type 0
      Bien o = o ≡ some r → Sigue s r

  compactar-Sigue : (s r : Fs Bits) → Guardado s → compactar s ≡ some r → Sigue s r
  unfolding compactar
  compactar-Sigue s r g e =
      let (h, _, f) = >>=-eq-some (inicio_libre s.cant_bloques 0 s.bitmap) _ e in
      bucle-Sigue (suc s.cant_bloques * suc s.cant_bloques) s r h h g f

  -- The bitmap and the blocks do not matter.
  pub otro-Guardado :
      (s : Fs Bits) (bm : Bits) (m : List ℕ)
      → Guardado s
      → Guardado (record s { bitmap = bm; bloques = m })
  otro-Guardado s bm m g = record { igual = g.igual; distintos = g.distintos; comunes = g.comunes }

  anotado-Sigue :
      (s c r : Fs Bits) (bm : Bits) (m : List ℕ) (n : String) (i t : ℕ)
      → Sigue s c
      → esta n (nombres s.fat) ≡ true
      → some (anotar (record c { bitmap = bm; bloques = m }) n i t) ≡ some r
      → Sigue s r
  anotado-Sigue s c r bm m n i t h k e =
      let u : Fs Bits = record c { bitmap = bm; bloques = m } in
      let v = anotar-Sigue u n i t (otro-Guardado c bm m h.guardado) (rw h.mismos k) in
      let w : anotar u n i t ≡ r = cc in
      subst (Sigue s) w
        (record { guardado = v.guardado; mismos = v.mismos ∙ h.mismos; cant = h.cant; tam = h.tam })

  mudar-Sigue :
      (s r : Fs Bits) (e : EntradaFat) (t n i : ℕ)
      → Guardado s
      → esta e.nombre (nombres s.fat) ≡ true
      → mudar s e t n i ≡ some r
      → Sigue s r
  unfolding mudar
  mudar-Sigue s r e t n i g k f =
      let (xs, _, p) = >>=-eq-some (leer_en s.bloques (i * s.tam_bloque) e.largo) _ f in
      let (m, _, q) =
        >>=-eq-some (escribir_en s.bloques (e.bloque_inicial * s.tam_bloque) xs) _ p in
      anotado-Sigue s s r (marcar_bits n i s.bitmap) m e.nombre i t (mismo-Sigue s g) k q

  compactar_y-Sigue :
      (s r : Fs Bits) (e : EntradaFat) (t n : ℕ)
      → Guardado s
      → esta e.nombre (nombres s.fat) ≡ true
      → compactar_y_agrandar s e t n ≡ some r
      → Sigue s r
  unfolding compactar_y_agrandar
  compactar_y-Sigue s r e t n g k f =
      let (xs, _, p) =
        >>=-eq-some (leer_en s.bloques (e.bloque_inicial * s.tam_bloque) e.largo) _ f in
      let (c, q, o) = >>=-eq-some (compactar s) _ p in
      let (i, _, x) = >>=-eq-some (inicio_libre c.cant_bloques 0 c.bitmap) _ o in
      let (m, _, y) = >>=-eq-some (escribir_en c.bloques (i * c.tam_bloque) xs) _ x in
      anotado-Sigue s c r (marcar_bits n i c.bitmap) m e.nombre i t (compactar-Sigue s c g q) k y

  agrandar-Sigue :
      (s r : Fs Bits) (e : EntradaFat) (t a n : ℕ)
      → Guardado s
      → esta e.nombre (nombres s.fat) ≡ true
      → agrandar s e t a n ≡ some r
      → Sigue s r
  unfolding agrandar
  agrandar-Sigue s r e t a n g k =
      segun (primer_hueco s.cant_bloques 0 n 0 0 0 false (limpiar_bits a e.bloque_inicial s.bitmap))
    where
      bm : Bits
      bm = limpiar_bits a e.bloque_inicial s.bitmap

      Bien : Option (Fs Bits) → Type 0
      Bien o = o ≡ some r → Sigue s r

      desde : (bm' : Bits) → Sigue (record s { bitmap = bm' }) r → Sigue s r
      desde bm' h = record { guardado = h.guardado; mismos = h.mismos; cant = h.cant; tam = h.tam }

      segun :
          (h : Hueco)
          → Bien (elim h [
            | hallado inicio ↦ mudar (record s { bitmap = bm }) e t n inicio
            | sin_hueco libres ↦
                if ltb libres n
                then none
                else compactar_y_agrandar
                    (record s { bitmap = limpiar_bits a e.bloque_inicial bm })
                    e
                    t
                    n
          ])
      segun (hallado i) f =
          desde bm
            (mudar-Sigue (record s { bitmap = bm }) r e t n i (otro-Guardado s bm s.bloques g) k f)
      segun (sin_hueco l) f =
          let bm' = limpiar_bits a e.bloque_inicial bm in
          caso Bien (ltb l n) (λ _ o. cc)
            (λ _ o. desde bm' (
              compactar_y-Sigue (record s { bitmap = bm' }) r e t n
                (otro-Guardado s bm' s.bloques g) k o))
            f

  pub truncar-Sigue :
      (s r : Fs Bits) (n : String) (t : ℕ) → Guardado s → truncar_fs s n t ≡ some r → Sigue s r
  unfolding truncar_fs achicar
  truncar-Sigue s r n t g f = elim (Option-cases (buscar_entrada n s.fat)) [
    | inl q ↦ let w : s ≡ r = cc (rw (truncar_fs, q) at f) in subst (Sigue s) w (mismo-Sigue s g)
    | inr (e, q) ↦ let (k, i) = buscar-esta n s.fat e q in hay e (rw i k) (rw (truncar_fs, q) at f)
  ]
    where
      Bien : Option (Fs Bits) → Type 0
      Bien o = o ≡ some r → Sigue s r

      hay :
          (e : EntradaFat)
          → esta e.nombre (nombres s.fat) ≡ true
          → (let actuales = bloques_de s.tam_bloque e.largo in
              let finales = bloques_de s.tam_bloque t in
              Bien (
                if leb finales actuales
                then some (achicar s e t actuales finales)
                else agrandar s e t actuales finales))
      hay e k =
          let actuales = bloques_de s.tam_bloque e.largo in
          let finales = bloques_de s.tam_bloque t in
          caso Bien (leb finales actuales)
            (λ _ o.
              anotado-Sigue s s r _ s.bloques e.nombre e.bloque_inicial t (mismo-Sigue s g) k o)
            (λ _ o. agrandar-Sigue s r e t actuales finales g k o)
