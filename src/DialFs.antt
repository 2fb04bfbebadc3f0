-- ===== src/DialFs.antt =====
-- DialFS, the file system of the I/O module (utils/src/entradasalida/entradasalida.c): its state, and
-- the steps on the bitmap, the FAT and the metadata files that its operations share. A `none` is a fault.
pub mod Operaciones
pub mod Truncar
pub mod Bits
pub mod Leyes
pub mod Huecos
pub mod Disco
pub mod Nombres
pub mod Orden
pub mod Persiste
pub mod Reinicio
pub mod Vista
pub mod Marcha
pub mod Salto
pub mod Compacta
pub mod Cuenta
pub mod Crece
pub mod Agranda
use Prim.Native.String.{String}
use text.Mathlib.Text.{◌==◌ as str_eq}
use so_1c.Base.{
  ℕ, zero, suc, ◌+◌, ◌*◌, Bool, true, false, List, [], ◌∷◌, ◌++◌, Option, none, some, ◌>>=◌,
  if◌then◌else◌, ◌==◌, leb,
}
use so_1c.BitArray.{BitArray}

-- `entradaFat`; a metadata file holds the same values under its name.
pub record EntradaFat : Type 0 where
  pub nombre : String
  pub bloque_inicial : ℕ
  pub largo : ℕ

-- The globals. `bloques` is the mapping of bloques.dat, and `metadata` the files of the directory.
pub record Fs (Bits : Type 0) : Type 0 where
  pub cant_bloques : ℕ
  pub tam_bloque : ℕ
  pub bitmap : Bits
  pub bloques : List ℕ
  pub fat : List EntradaFat
  pub metadata : List EntradaFat

-- `list_find` by the name, and by the first block.
unfoldable pub buscar_entrada : String → List EntradaFat → Option EntradaFat
buscar_entrada n [] = none
buscar_entrada n (e ∷ es) = if str_eq e.nombre n then some e else buscar_entrada n es

unfoldable pub buscar_bloque : ℕ → List EntradaFat → Option EntradaFat
buscar_bloque b [] = none
buscar_bloque b (e ∷ es) = if e.bloque_inicial == b then some e else buscar_bloque b es

-- Writing through the pointer to the first entry of the name, and to the first one at a block.
unfoldable pub cambiar_entrada : String → ℕ → ℕ → List EntradaFat → List EntradaFat
cambiar_entrada n b l [] = []
cambiar_entrada n b l (e ∷ es) =
    if str_eq e.nombre n
    then record e { bloque_inicial = b; largo = l } ∷ es
    else e ∷ cambiar_entrada n b l es

unfoldable pub mover_entrada : ℕ → ℕ → List EntradaFat → List EntradaFat
mover_entrada b nuevo [] = []
mover_entrada b nuevo (e ∷ es) =
    if e.bloque_inicial == b
    then record e { bloque_inicial = nuevo } ∷ es
    else e ∷ mover_entrada b nuevo es

-- `list_remove_element` of the first entry of the name, and `remove` of the file.
unfoldable pub quitar_entrada : String → List EntradaFat → List EntradaFat
quitar_entrada n [] = []
quitar_entrada n (e ∷ es) = if str_eq e.nombre n then es else e ∷ quitar_entrada n es

-- `config_save` of a metadata file.
unfoldable pub guardar_metadata : EntradaFat → List EntradaFat → List EntradaFat
guardar_metadata e [] = e ∷ []
guardar_metadata e (f ∷ fs) = if str_eq f.nombre e.nombre then e ∷ fs else f ∷ guardar_metadata e fs

module _ {Bits : Type 0} ⦃b : BitArray Bits⦄ where
  open b use {set_bit, clean_bit}

  -- The loops that clear and that set n bits from i on.
  unfoldable pub limpiar_bits : ℕ → ℕ → Bits → Bits
  limpiar_bits zero i bm = bm
  limpiar_bits (suc n) i bm = limpiar_bits n (suc i) (clean_bit bm i)

  unfoldable pub marcar_bits : ℕ → ℕ → Bits → Bits
  marcar_bits zero i bm = bm
  marcar_bits (suc n) i bm = marcar_bits n (suc i) (set_bit bm i)
