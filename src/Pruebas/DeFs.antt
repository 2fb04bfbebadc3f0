-- ===== src/Pruebas/DeFs.antt =====
-- A file system of four blocks of 2 bytes with one file of two blocks, and transfers.
use so_1c.Base.{
  ℕ, suc, ◌*◌, ◌≡◌, refl, inr, Bool, true, false, List, [], ◌∷◌, some, replicate, arith,
}
use so_1c.BitArray.{lista_bits}
use so_1c.Bytes.{leer_en, escribir_en}
use so_1c.Memoria.Marcos.{buscar_marco, buscar_desde}
use so_1c.Memoria.Buscar.{libres}
use so_1c.DialFs.{Fs, EntradaFat, buscar_entrada, guardar_metadata, marcar_bits, cambiar_entrada}
use so_1c.DialFs.Operaciones.{crear_fs, eliminar_fs}
use so_1c.DialFs.Truncar.{mudar}
use so_1c.DialFs.Leyes.{eliminar_fs-crear_fs, mudar-hueco}

abbrev pub archivo : EntradaFat
archivo = record { nombre = "a"; bloque_inicial = 0; largo = 3 }

abbrev pub disco : Fs (List Bool)
disco = record {
  cant_bloques = 4;
  tam_bloque = 2;
  bitmap = true ∷ true ∷ false ∷ false ∷ [];
  bloques = 1 ∷ 2 ∷ 3 ∷ 4 ∷ 5 ∷ 6 ∷ 7 ∷ 8 ∷ [];
  fat = archivo ∷ [];
  metadata = archivo ∷ [];
}

abbrev creado : Fs (List Bool)
creado = record disco {
  bitmap = true ∷ true ∷ true ∷ false ∷ [];
  fat = archivo ∷ record { nombre = "b"; bloque_inicial = 2; largo = 0 } ∷ [];
  metadata = archivo ∷ record { nombre = "b"; bloque_inicial = 2; largo = 0 } ∷ [];
}

abbrev mudado : Fs (List Bool)
mudado = record disco {
  bitmap = true ∷ true ∷ true ∷ true ∷ [];
  bloques = 5 ∷ 6 ∷ 7 ∷ 4 ∷ 5 ∷ 6 ∷ 7 ∷ 8 ∷ [];
  fat = record { nombre = "a"; bloque_inicial = 2; largo = 4 } ∷ [];
  metadata = record { nombre = "a"; bloque_inicial = 2; largo = 4 } ∷ [];
}

eliminar_fs-crear_fs_example :
    (s'' : Fs (List Bool)) × (eliminar_fs creado "b" ≡ some s'')
    × (s''.fat ≡ disco.fat)
    × (libres 4 disco.bitmap ≡ suc (libres 4 s''.bitmap))
unfolding buscar_entrada crear_fs buscar_marco buscar_desde guardar_metadata
eliminar_fs-crear_fs_example = eliminar_fs-crear_fs disco creado "b" refl (omega arith) refl refl

mudar-hueco_example :
    (leer_en mudado.bloques 4 3 ≡ leer_en disco.bloques 4 3)
    × (leer_en mudado.bloques 0 3 ≡ leer_en disco.bloques 4 3)
unfolding mudar leer_en escribir_en marcar_bits cambiar_entrada guardar_metadata
mudar-hueco_example = mudar-hueco disco mudado archivo 4 2 2 refl (inr (omega arith))

-- Eight blocks of 2 bytes: a file is created and made larger, and DialFS starts again.
abbrev nuevo : ℕ → List Bool
nuevo n = replicate (n * 8) false

abbrev arrancado : Fs (List Bool)
arrancado = record {
  cant_bloques = 8;
  tam_bloque = 2;
  bitmap = replicate 8 false;
  bloques = replicate 16 0;
  fat = [];
  metadata = [];
}

abbrev nota : ℕ → EntradaFat
nota l = record { nombre = "n"; bloque_inicial = 0; largo = l }

abbrev con_nota : ℕ → List Bool → Fs (List Bool)
con_nota l bm = record arrancado { bitmap = bm; fat = nota l ∷ []; metadata = nota l ∷ [] }

-- The file of one block is moved to a hole of two, at its own block.
abbrev dos_bloques : Fs (List Bool)
dos_bloques = con_nota 3 (true ∷ true ∷ false ∷ false ∷ false ∷ false ∷ false ∷ false ∷ [])

abbrev otra : EntradaFat
otra = record { nombre = "o"; bloque_inicial = 2; largo = 0 }

-- A second file.
abbrev con_otra : Fs (List Bool)
con_otra = record dos_bloques {
  bitmap = true ∷ true ∷ true ∷ false ∷ false ∷ false ∷ false ∷ false ∷ [];
  fat = nota 3 ∷ otra ∷ [];
  metadata = nota 3 ∷ otra ∷ [];
}
