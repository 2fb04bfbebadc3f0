-- ===== src/DialFs/Operaciones.antt =====
-- crear_fs, eliminar_fs, escribir_fs and leer_fs (utils/src/entradasalida/entradasalida.c).
use Prim.Native.String.{String}
use so_1c.Base.{
  ℕ, ◌+◌, ◌*◌, Bool, true, false, List, [], ◌∷◌, ◌++◌, Option, none, some, ◌>>=◌, if◌then◌else◌,
  ltb, length,
}
use so_1c.BitArray.{BitArray}
use so_1c.Bytes.{leer_en, escribir_en}
use so_1c.Tramos.{ceil_div}
use so_1c.Memoria.Marcos.{buscar_marco as primer_libre}
use so_1c.DialFs.{Fs, EntradaFat, buscar_entrada, quitar_entrada, guardar_metadata, limpiar_bits}

module _ {Bits : Type 0} ⦃b : BitArray Bits⦄ where
  -- `crear_fs`. Its search for a free block is the loop of `buscar_marco`.
  unfoldable pub crear_fs : Fs Bits → String → Bool × Fs Bits
  crear_fs s nombre = elim (primer_libre s.cant_bloques s.bitmap) [
    | none ↦ (false, s)
    | some (d, bm) ↦
        let e : EntradaFat = record { nombre = nombre; bloque_inicial = d; largo = 0 } in
        (
          true,
          record s { bitmap = bm; fat = s.fat ++ e ∷ []; metadata = guardar_metadata e s.metadata },
        )
  ]

  -- `eliminar_fs`; a file that is not in the FAT is a NULL that is used.
  unfoldable pub eliminar_fs : Fs Bits → String → Option (Fs Bits)
  eliminar_fs s nombre = buscar_entrada nombre s.fat >>= λ e. some (record s {
    bitmap = limpiar_bits (ceil_div e.largo s.tam_bloque) e.bloque_inicial s.bitmap;
    fat = quitar_entrada nombre s.fat;
    metadata = quitar_entrada nombre s.metadata;
  })

  -- `escribir_fs`, for an offset that is not negative: `false` where the text does not fit the file.
  unfoldable pub escribir_fs : Fs Bits → String → List ℕ → ℕ → Option (Bool × Fs Bits)
  escribir_fs s nombre cadena offset = buscar_entrada nombre s.fat >>= λ e.
      if ltb e.largo (length cadena + offset)
      then some (false, s)
      else (escribir_en s.bloques (e.bloque_inicial * s.tam_bloque + offset) cadena >>= λ m.
          some (true, record s { bloques = m }))

  -- `leer_fs`: the count is cut to the file's size, whatever the offset.
  unfoldable pub leer_fs : Fs Bits → String → ℕ → ℕ → Option (List ℕ)
  leer_fs s nombre offset cantidad = buscar_entrada nombre s.fat >>= λ e.
      leer_en s.bloques (e.bloque_inicial * s.tam_bloque + offset)
        (if ltb e.largo cantidad then e.largo else cantidad)
