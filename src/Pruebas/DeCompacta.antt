-- ===== src/Pruebas/DeCompacta.antt =====
-- Five blocks of 2 bytes with three files of one block each, and the first and the last block free.
use Prim.Native.String.{String}
use so_1c.Base.{
  ℕ, zero, suc, ◌+◌, ◌≡◌, ◌<◌, ◌≤◌, refl, Bool, true, false, List, [], ◌∷◌, some, uno, arith,
}
use so_1c.BitArray.{lista_bits}
use so_1c.Tramos.{ceil_div}
use so_1c.DialFs.{Fs, EntradaFat, buscar_entrada, limpiar_bits}
use so_1c.DialFs.Bits.{en_tramo}
use so_1c.DialFs.Nombres.{nombres, esta, Distintos}
use so_1c.DialFs.Truncar.{bloques_de, primer_hueco, compactar}
use so_1c.DialFs.Vista.{archivos, ocupan}
use so_1c.DialFs.Compacta.{Formado, compactar-archivos}
use so_1c.DialFs.Crece.{otro, Repartido}
use so_1c.DialFs.Agranda.{Crecido, truncar_fs-compactar}

abbrev entrada : String → ℕ → ℕ → EntradaFat
entrada n d l = record { nombre = n; bloque_inicial = d; largo = l }

abbrev repartido : Fs (List Bool)
repartido = record {
  cant_bloques = 5;
  tam_bloque = 2;
  bitmap = false ∷ true ∷ true ∷ true ∷ false ∷ [];
  bloques = 0 ∷ 0 ∷ 1 ∷ 2 ∷ 3 ∷ 0 ∷ 5 ∷ 6 ∷ 0 ∷ 0 ∷ [];
  fat = entrada "b" 1 2 ∷ entrada "a" 2 1 ∷ entrada "c" 3 2 ∷ [];
  metadata = entrada "b" 1 2 ∷ entrada "a" 2 1 ∷ entrada "c" 3 2 ∷ [];
}

cinco : (P : ℕ → Type 0) → P 0 → P 1 → P 2 → P 3 → P 4 → (j : ℕ) → j < 5 → P j
cinco P a b c d e zero l = a
cinco P a b c d e (suc zero) l = b
cinco P a b c d e (suc (suc zero)) l = c
cinco P a b c d e (suc (suc (suc zero))) l = d
cinco P a b c d e (suc (suc (suc (suc zero)))) l = e
cinco P a b c d e (suc (suc (suc (suc (suc j))))) l = absurd (omega arith)

repartido-Formado : Formado (λ m. true) repartido
unfolding ocupan ceil_div
repartido-Formado = record {
  medida = omega arith;
  bits = omega arith;
  bytes = omega arith;
  cuenta =
      cinco
        (λ j. ocupan (λ m. true) 2 repartido.fat j ≡ uno (lista_bits.test_bit repartido.bitmap j))
        refl refl refl refl refl;
  caben = (
    λ z. (omega arith, omega arith),
    (λ z. (omega arith, omega arith), (λ z. (omega arith, omega arith), tt)),
  );
}

compactar-archivos_example :
    (r : Fs (List Bool)) × (h : ℕ) × (compactar repartido ≡ some r)
    × (archivos (λ m. true) 2 r.bloques r.fat
        ≡ archivos (λ m. true) 2 repartido.bloques repartido.fat)
    × Formado (λ m. true) r
    × ((k : ℕ) → k < h → lista_bits.test_bit r.bitmap k ≡ true)
    × ((k : ℕ) → h ≤ k → k < 5 → lista_bits.test_bit r.bitmap k ≡ false)
compactar-archivos_example = compactar-archivos repartido 0 repartido-Formado (omega arith) refl

repartido-Repartido : Repartido repartido (entrada "a" 2 1)
unfolding ocupan ceil_div bloques_de
repartido-Repartido = record {
  medida = omega arith;
  bits = omega arith;
  bytes = omega arith;
  cuenta =
      cinco
        (λ j.
          ocupan (otro "a") 2 repartido.fat j + uno (en_tramo (bloques_de 2 1) 2 j)
          ≡ uno (lista_bits.test_bit repartido.bitmap j))
        refl refl refl refl refl;
  caben = (
    λ z. (omega arith, omega arith),
    (λ z. (omega arith, omega arith), (λ z. (omega arith, omega arith), tt)),
  );
  cabe = omega arith;
}

truncar_fs-compactar_example : Crecido repartido "a" (entrada "a" 2 1) 5
unfolding bloques_de ceil_div primer_hueco limpiar_bits buscar_entrada Distintos nombres esta
truncar_fs-compactar_example =
    truncar_fs-compactar repartido "a" (entrada "a" 2 1) 5 3 repartido-Repartido
      (refl, (refl, (refl, tt))) refl (omega arith) refl (omega arith)
