-- ===== src/DialFs/Leyes.antt =====
-- What the operations of DialFS (utils/src/entradasalida/entradasalida.c) do to the blocks, the bitmap
-- and the FAT.
use Prim.Native.String.{String}
use text.Mathlib.Text.{◌==◌ as str_eq}
use text.Mathlib.TextPositions.{eq_refl}
use so_1c.Base.{
  ℕ, suc, ◌+◌, ◌*◌, ◌≡◌, ◌≤◌, ◌<◌, refl, ap, subst, ◌∙◌, ◌⊎◌, inl, inr, Bool, true, false, List, [],
  ◌∷◌, ◌++◌, none, some, >>=-eq-some, ltb, length, get_elem?, arith, Option-cases, Bool-cases,
}
use so_1c.BitArray.{BitArray}
use so_1c.Bytes.{
  leer_en, escribir_en, escrito, escribir_en-escrito, escribir_en-inv, length-escrito,
  leer_en-escrito, get_elem?-escrito, leer_en-congr, length-leer_en,
}
use so_1c.Tramos.{ceil_div}
use so_1c.Tramos.Leyes.{ceil_div-justo}
use native.Mathlib.Nat.{zero-div, zero-mod}
use so_1c.Memoria.Marcos.{buscar_marco as primer_libre}
use so_1c.Memoria.Buscar.{libres, Primero, buscar_marco-Primero, libres-set}
use so_1c.DialFs.{Fs, EntradaFat, buscar_entrada, quitar_entrada, guardar_metadata, limpiar_bits}
use so_1c.DialFs.Operaciones.{crear_fs, eliminar_fs, escribir_fs, leer_fs}
use so_1c.DialFs.Truncar.{mudar}

-- A file that was not there is found after it was appended, and removing it gives the list back.
buscar-append :
    (n : String) (l d : ℕ) (es : List EntradaFat)
    → buscar_entrada n es ≡ none
    → let e : EntradaFat = record { nombre = n; bloque_inicial = d; largo = l } in
      (buscar_entrada n (es ++ e ∷ []) ≡ some e) × (quitar_entrada n (es ++ e ∷ []) ≡ es)
unfolding buscar_entrada quitar_entrada
buscar-append n l d [] h = ground (arith, eq_refl n)
buscar-append n l d (x ∷ es) h = elim (Bool-cases (str_eq x.nombre n)) [
  | inl t ↦ absurd (cc (rw t at h))
  | inr t ↦
      let (p, q) = buscar-append n l d es (rw t at h) in
      (rw t p, rw t (ap (λ (r : List EntradaFat). x ∷ r) q))
]

module _ {Bits : Type 0} ⦃b : BitArray Bits⦄ where
  open b use {tam, test_bit, set_bit}

  -- A text that fits a file of the FAT, whose blocks lie in the mapping: `escribir_fs` succeeds and
  -- changes no byte outside the text's place, and `leer_fs` at the same offset gives the text back.
  pub leer_fs-escribir_fs :
      (s : Fs Bits) (nombre : String) (cadena : List ℕ) (offset : ℕ) (e : EntradaFat)
      → buscar_entrada nombre s.fat ≡ some e
      → length cadena + offset ≤ e.largo
      → e.bloque_inicial * s.tam_bloque + e.largo ≤ length s.bloques
      → (s' : Fs Bits) × (escribir_fs s nombre cadena offset ≡ some (true, s'))
        × (leer_fs s' nombre offset (length cadena) ≡ some cadena)
        × ((j : ℕ)
            → (j < e.bloque_inicial * s.tam_bloque + offset)
              ⊎ (e.bloque_inicial * s.tam_bloque + offset + length cadena ≤ j)
            → get_elem? s'.bloques j ≡ get_elem? s.bloques j)
  unfolding escribir_fs leer_fs
  leer_fs-escribir_fs s nombre cadena offset e h l k =
      let d = e.bloque_inicial * s.tam_bloque + offset in
      let cabe : d + length cadena ≤ length s.bloques = omega arith in
      let entra : ltb e.largo (length cadena + offset) ≡ false = ground arith in
      let entero : ltb e.largo (length cadena) ≡ false = ground arith in
      (
        record s { bloques = escrito s.bloques d cadena },
        rw (h, entra, escribir_en-escrito s.bloques d cadena cabe),
        rw (h, entero, leer_en-escrito s.bloques d cadena cabe),
        (λ j o. get_elem?-escrito s.bloques d cadena j cabe o),
      )

  -- A text that does not fit is refused, and nothing changes.
  pub escribir_fs-false :
      (s : Fs Bits) (nombre : String) (cadena : List ℕ) (offset : ℕ) (e : EntradaFat)
      → buscar_entrada nombre s.fat ≡ some e
      → e.largo < length cadena + offset
      → escribir_fs s nombre cadena offset ≡ some (false, s)
  unfolding escribir_fs
  escribir_fs-false s nombre cadena offset e h l = ground (arith, h)

  -- `crear_fs` and `eliminar_fs` of a new name lose a block: wherever `crear_fs` succeeds, `eliminar_fs`
  -- leaves the FAT as it was before, and one block less is free than before.
  pub eliminar_fs-crear_fs :
      (s s' : Fs Bits) (nombre : String)
      → tam s.bitmap ≡ s.cant_bloques
      → 0 < s.tam_bloque
      → buscar_entrada nombre s.fat ≡ none
      → crear_fs s nombre ≡ (true, s')
      → (s'' : Fs Bits) × (eliminar_fs s' nombre ≡ some s'')
        × (s''.fat ≡ s.fat)
        × (libres s.cant_bloques s.bitmap ≡ suc (libres s.cant_bloques s''.bitmap))
  unfolding crear_fs eliminar_fs limpiar_bits
  eliminar_fs-crear_fs s s' nombre t p h e =
      segun (Option-cases (primer_libre s.cant_bloques s.bitmap))
        (buscar_marco-Primero s.cant_bloques s.bitmap)
    where
      Meta : Fs Bits → Type 0
      Meta r =
          (s'' : Fs Bits) × (eliminar_fs r nombre ≡ some s'')
          × (s''.fat ≡ s.fat)
          × (libres s.cant_bloques s.bitmap ≡ suc (libres s.cant_bloques s''.bitmap))

      nueva : ℕ → EntradaFat
      nueva d = record { nombre = nombre; bloque_inicial = d; largo = 0 }

      creado : ℕ → Bits → Fs Bits
      creado d bm = record s {
        bitmap = bm;
        fat = s.fat ++ nueva d ∷ [];
        metadata = guardar_metadata (nueva d) s.metadata;
      }

      nada : ceil_div 0 s.tam_bloque ≡ 0
      nada = ceil_div-justo 0 s.tam_bloque p (zero-mod s.tam_bloque) ∙ zero-div s.tam_bloque

      borrado :
          (d : ℕ) (bm : Bits)
          → libres s.cant_bloques s.bitmap ≡ suc (libres s.cant_bloques bm)
          → Meta (creado d bm)
      borrado d bm l =
          let (f, q) = buscar-append nombre 0 d s.fat h in
          (
            record (creado d bm) {
              fat = quitar_entrada nombre (s.fat ++ nueva d ∷ []);
              metadata = quitar_entrada nombre (guardar_metadata (nueva d) s.metadata);
            },
            rw (f, nada) refl,
            q,
            l,
          )

      segun :
          (primer_libre s.cant_bloques s.bitmap ≡ none)
            ⊎ ((a : ℕ × Bits) × (primer_libre s.cant_bloques s.bitmap ≡ some a))
          → Primero s.cant_bloques 0 s.bitmap (primer_libre s.cant_bloques s.bitmap)
          → Meta s'
      segun (inl q) pr = absurd (cc (rw (q, crear_fs) at e))
      segun (inr ((d, bm), q)) pr =
          let (l, f, i, a) = rw q at pr in
          igual (creado d bm) (rw (q, crear_fs) at e)
            (borrado d bm (rw i (libres-set s.cant_bloques d s.bitmap t l f)))
        where
          igual : (r : Fs Bits) → ◌≡◌ {A = Bool × Fs Bits} (true, r) (true, s') → Meta r → Meta s'
          igual r z w = subst Meta (ap (λ (x : Bool × Fs Bits). x.1) z) w

  -- Where `truncar_fs` moves a file to a hole that lies apart from it, the copy goes the wrong way: the
  -- file's new place keeps the bytes that the hole held, and its old place has them too.
  pub mudar-hueco :
      (s s' : Fs Bits) (e : EntradaFat) (tamanio finales inicio : ℕ)
      → mudar s e tamanio finales inicio ≡ some s'
      → (inicio * s.tam_bloque + e.largo ≤ e.bloque_inicial * s.tam_bloque)
        ⊎ (e.bloque_inicial * s.tam_bloque + e.largo ≤ inicio * s.tam_bloque)
      → (leer_en s'.bloques (inicio * s.tam_bloque) e.largo
          ≡ leer_en s.bloques (inicio * s.tam_bloque) e.largo)
        × (leer_en s'.bloques (e.bloque_inicial * s.tam_bloque) e.largo
            ≡ leer_en s.bloques (inicio * s.tam_bloque) e.largo)
  unfolding mudar
  mudar-hueco s s' e tamanio finales inicio h o =
      let (xs, p, q) = >>=-eq-some (leer_en s.bloques (inicio * s.tam_bloque) e.largo) _ h in
      let (m, r, z) =
        >>=-eq-some (escribir_en s.bloques (e.bloque_inicial * s.tam_bloque) xs) _ q in
      let (l, i) = escribir_en-inv s.bloques (e.bloque_inicial * s.tam_bloque) xs m r in
      let k = length-leer_en s.bloques (inicio * s.tam_bloque) e.largo xs p in
      let bl : s'.bloques ≡ escrito s.bloques (e.bloque_inicial * s.tam_bloque) xs = ground arith in
      (
        rw bl (
            leer_en-congr _ s.bloques (inicio * s.tam_bloque) e.largo (length-escrito _ _ xs l)
              (λ j a c.
                get_elem?-escrito s.bloques (e.bloque_inicial * s.tam_bloque) xs j l
                  (fuera o xs k j a c))),
        rw (bl, p) (viejo xs k l),
      )
    where
      base : ℕ
      base = e.bloque_inicial * s.tam_bloque

      fuera :
          (inicio * s.tam_bloque + e.largo ≤ base) ⊎ (base + e.largo ≤ inicio * s.tam_bloque)
          → (xs : List ℕ) → length xs ≡ e.largo
          → (j : ℕ) → inicio * s.tam_bloque ≤ j
          → j < inicio * s.tam_bloque + e.largo
          → (j < base) ⊎ (base + length xs ≤ j)
      fuera (inl o) xs k j a c = inl (omega arith)
      fuera (inr o) xs k j a c = inr (omega (arith, k))

      viejo :
          (xs : List ℕ)
          → length xs ≡ e.largo
          → base + length xs ≤ length s.bloques
          → leer_en (escrito s.bloques base xs) base e.largo ≡ some xs
      viejo xs k l = rw (← k) (leer_en-escrito s.bloques base xs l)
