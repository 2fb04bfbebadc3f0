-- ===== src/DialFs/Disco.antt =====
-- The start of DialFS (utils/src/entradasalida/entradasalida.c: iniciar_fs) over what is on the disk.
use Prim.Native.String.{String}
use text.Mathlib.Text.{◌==◌ as str_eq}
use so_1c.Base.{
  ℕ, ◌*◌, ◌/◌, Bool, List, [], ◌∷◌, Option, none, some, ◌||◌, if◌then◌else◌, replicate,
}
use so_1c.BitArray.{BitArray}
use so_1c.DialFs.{Fs, EntradaFat, limpiar_bits}

-- The files: bitmap.dat, bloques.dat, and those of the directory metadata in the order in which
-- `readdir` gives them, each with its BLOQUE_INICIAL and TAMANIO_ARCHIVO. `none` does not exist.
pub record Disco (Bits : Type 0) : Type 0 where
  pub bitmap : Option Bits
  pub bloques : Option (List ℕ)
  pub metadata : Option (List EntradaFat)

-- The names that are not mapped.
unfoldable pub es_especial : String → Bool
es_especial n = str_eq n "." || (str_eq n ".." || (str_eq n "bloques.dat" || str_eq n "bitmap.dat"))

-- The loop over the directory.
unfoldable pub armar_fat : List EntradaFat → List EntradaFat
unfolding es_especial
armar_fat [] = []
armar_fat (e ∷ es) = if es_especial e.nombre then armar_fat es else e ∷ armar_fat es

-- A value or another one.
abbrev pub o_sino {ℓ} : {A : Type ℓ} → Option A → A → A
o_sino none a = a
o_sino (some x) a = x

module _ {Bits : Type 0} ⦃b : BitArray Bits⦄ where
  -- `iniciar_fs`: `nuevo` is the mapping of a file of the given number of bytes; a new bloques.dat is
  -- all zeros.
  unfoldable pub iniciar_fs : (ℕ → Bits) → ℕ → ℕ → Disco Bits → Fs Bits
  unfolding armar_fat limpiar_bits
  iniciar_fs nuevo cant tam d = record {
    cant_bloques = cant;
    tam_bloque = tam;
    bitmap = o_sino d.bitmap (limpiar_bits cant 0 (nuevo (cant / 8)));
    bloques = o_sino d.bloques (replicate (cant * tam) 0);
    fat = armar_fat (o_sino d.metadata []);
    metadata = o_sino d.metadata [];
  }

-- What is on the disk when the interface ends, with the metadata files in the order in which
-- `readdir` will give them: the mappings are of the files.
abbrev pub en_disco : {Bits : Type 0} → Fs Bits → List EntradaFat → Disco Bits
en_disco s es = record { bitmap = some s.bitmap; bloques = some s.bloques; metadata = some es }
