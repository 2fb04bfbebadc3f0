-- ===== src/DialFs/Truncar.antt =====
-- truncar_fs and compactar (utils/src/entradasalida/entradasalida.c).
use Prim.Native.String.{String}
use so_1c.Base.{
  ℕ, zero, suc, ◌+◌, ◌-◌, ◌*◌, Bool, true, false, Option, none, some, ◌>>=◌, if◌then◌else◌, ◌==◌,
  leb, ltb,
}
use so_1c.BitArray.{BitArray}
use so_1c.Bytes.{leer_en, escribir_en}
use so_1c.Tramos.{ceil_div}
use so_1c.DialFs.{
  Fs, EntradaFat, buscar_entrada, buscar_bloque, cambiar_entrada, mover_entrada, guardar_metadata,
  limpiar_bits, marcar_bits,
}

-- What the walk over the bitmap finds: where a hole begins, or how many blocks are free.
pub data Hueco : Type 0 where
  hallado : ℕ → Hueco
  sin_hueco : ℕ → Hueco

-- `ceil(largo / TAM_BLOQUE)`, where an empty file has one block too.
unfoldable pub bloques_de : ℕ → ℕ → ℕ
unfolding ceil_div
bloques_de t largo = if ceil_div largo t == 0 then 1 else ceil_div largo t

module _ {Bits : Type 0} ⦃b : BitArray Bits⦄ where
  open b use {test_bit}

  -- The walk of `truncar_fs`, from block i with n left: the free blocks so far, the length and the
  -- start of the current hole, and whether the block before was free.
  unfoldable pub primer_hueco : ℕ → ℕ → ℕ → ℕ → ℕ → ℕ → Bool → Bits → Hueco
  primer_hueco zero i finales libres actual inicio antes bm = sin_hueco libres
  primer_hueco (suc n) i finales libres actual inicio antes bm =
      let actual' = if antes then suc actual else 1 in
      let inicio' = if antes then inicio else i in
      let sigue =
        if test_bit bm i
        then primer_hueco n (suc i) finales libres actual inicio false bm
        else primer_hueco n (suc i) finales (suc libres) actual' inicio' true bm in
      if test_bit bm i then sigue else (if leb finales actual' then hallado inicio' else sigue)

  -- `for (i = 0; bitarray_test_bit(bitmap, i); i++)`, from i with n blocks left; past the last one it
  -- reads beyond the bitmap.
  unfoldable pub inicio_libre : ℕ → ℕ → Bits → Option ℕ
  inicio_libre zero i bm = none
  inicio_libre (suc n) i bm = if test_bit bm i then inicio_libre n (suc i) bm else some i

  -- The block of `compactar` for the file that begins at `archivo`, moved to `hueco`: the new state and
  -- the end of the hole. A block that no entry begins at is a NULL that is used.
  unfoldable pub mover_archivo : Fs Bits → ℕ → ℕ → Option (ℕ × Fs Bits)
  mover_archivo s hueco archivo = buscar_bloque archivo s.fat >>= λ e.
      let cant = ceil_div e.largo s.tam_bloque in
      leer_en s.bloques (archivo * s.tam_bloque) e.largo >>= λ xs.
      escribir_en s.bloques (hueco * s.tam_bloque) xs >>= λ m. some (
        hueco + cant,
        record s {
          bitmap = marcar_bits cant hueco (limpiar_bits cant archivo s.bitmap);
          bloques = m;
          fat = mover_entrada archivo hueco s.fat;
          metadata = guardar_metadata (record e { bloque_inicial = hueco }) s.metadata;
        },
      )

  -- The loop of `compactar` from block i on, with fuel; `inicioArchivo = inicioHueco - 1` and the `++`
  -- after it go on from the end of the hole.
  unfoldable pub compactar_bucle : ℕ → Fs Bits → ℕ → ℕ → Option (Fs Bits)
  unfolding mover_archivo
  compactar_bucle zero s hueco i = none
  compactar_bucle (suc f) s hueco i =
      let sigue = compactar_bucle f s hueco (suc i) in
      let mueve = (mover_archivo s hueco i >>= λ r. compactar_bucle f r.1 r.0 r.0) in
      if ltb i s.cant_bloques then (if test_bit s.bitmap i then mueve else sigue) else some s

  -- `compactar`
  unfoldable pub compactar : Fs Bits → Option (Fs Bits)
  unfolding compactar_bucle inicio_libre
  compactar s = inicio_libre s.cant_bloques 0 s.bitmap >>= λ h.
      compactar_bucle (suc s.cant_bloques * suc s.cant_bloques) s h h

  -- The FAT and the metadata file after a change of a file.
  abbrev pub anotar : Fs Bits → String → ℕ → ℕ → Fs Bits
  anotar s n b' l = record s {
    fat = cambiar_entrada n b' l s.fat;
    metadata = guardar_metadata (record { nombre = n; bloque_inicial = b'; largo = l }) s.metadata;
  }

  -- Case 1 of `truncar_fs`: smaller, or as large.
  unfoldable pub achicar : Fs Bits → EntradaFat → ℕ → ℕ → ℕ → Fs Bits
  achicar s e tam actuales finales =
      anotar
        (record s {
          bitmap = limpiar_bits (actuales - finales) (e.bloque_inicial + finales) s.bitmap;
        })
        e.nombre e.bloque_inicial tam

  -- Case 2: a hole was found. The copy goes from the hole to the old place.
  unfoldable pub mudar : Fs Bits → EntradaFat → ℕ → ℕ → ℕ → Option (Fs Bits)
  mudar s e tam finales inicio = leer_en s.bloques (inicio * s.tam_bloque) e.largo >>= λ xs.
      escribir_en s.bloques (e.bloque_inicial * s.tam_bloque) xs >>= λ m. some (
        anotar (record s { bitmap = marcar_bits finales inicio s.bitmap; bloques = m }) e.nombre
          inicio tam)

  -- Case 3: the other files are moved together, and the file is put after them.
  unfoldable pub compactar_y_agrandar : Fs Bits → EntradaFat → ℕ → ℕ → Option (Fs Bits)
  unfolding compactar
  compactar_y_agrandar s e tam finales =
      leer_en s.bloques (e.bloque_inicial * s.tam_bloque) e.largo >>= λ xs. compactar s >>= λ r.
      inicio_libre r.cant_bloques 0 r.bitmap >>= λ inicio.
      escribir_en r.bloques (inicio * r.tam_bloque) xs >>= λ m. some (
        anotar (record r { bitmap = marcar_bits finales inicio r.bitmap; bloques = m }) e.nombre
          inicio tam)

  -- The cases where the file grows, over the bitmap without it. Without space the error is logged with
  -- the size in place of the text, which faults.
  unfoldable pub agrandar : Fs Bits → EntradaFat → ℕ → ℕ → ℕ → Option (Fs Bits)
  unfolding mudar compactar_y_agrandar primer_hueco
  agrandar s e tam actuales finales =
      let bm = limpiar_bits actuales e.bloque_inicial s.bitmap in
      elim (primer_hueco s.cant_bloques 0 finales 0 0 0 false bm) [
        | hallado inicio ↦ mudar (record s { bitmap = bm }) e tam finales inicio
        | sin_hueco libres ↦
            if ltb libres finales
            then none
            else compactar_y_agrandar
                (record s { bitmap = limpiar_bits actuales e.bloque_inicial bm }) e tam finales
      ]

  -- `truncar_fs`; a file that is not in the FAT is only logged.
  unfoldable pub truncar_fs : Fs Bits → String → ℕ → Option (Fs Bits)
  unfolding achicar agrandar bloques_de
  truncar_fs s nombre tam = elim (buscar_entrada nombre s.fat) [
    | none ↦ some s
    | some e ↦
        let actuales = bloques_de s.tam_bloque e.largo in
        let finales = bloques_de s.tam_bloque tam in
        if leb finales actuales
        then some (achicar s e tam actuales finales)
        else agrandar s e tam actuales finales
  ]
