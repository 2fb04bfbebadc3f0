-- ===== src/DialFs/Reinicio.antt =====
-- A restart of DialFS after any operations (utils/src/entradasalida/entradasalida.c: iniciar_fs).
use Prim.Native.String.{String}
use so_1c.Base.{ℕ, ◌≡◌, Bool, false, List, none, some}
use so_1c.BitArray.{BitArray}
use so_1c.Memoria.Marcos.{buscar_marco as primer_libre}
use so_1c.DialFs.{Fs, EntradaFat, buscar_entrada}
use so_1c.DialFs.Operaciones.{crear_fs, eliminar_fs, escribir_fs}
use so_1c.DialFs.Truncar.{truncar_fs}
use so_1c.DialFs.Disco.{es_especial, iniciar_fs, en_disco}
use so_1c.DialFs.Orden.{Reordena}
use so_1c.DialFs.Persiste.{Guardado}

module _ {Bits : Type 0} ⦃b : BitArray Bits⦄ where
  -- An operation that ends, on a disk where no other program writes: a file that is created has a new name,
  -- and one that a restart does not skip. A restart reads the metadata files in any order.
  pub data Opera (nuevo : ℕ → Bits) : Fs Bits → Fs Bits → Type 0 where
    crea :
        {s : Fs Bits} (n : String)
        → es_especial n ≡ false
        → buscar_entrada n s.fat ≡ none
        → Opera nuevo s (crear_fs s n).1
    elimina : {s r : Fs Bits} (n : String) → eliminar_fs s n ≡ some r → Opera nuevo s r
    trunca : {s r : Fs Bits} (n : String) (t : ℕ) → truncar_fs s n t ≡ some r → Opera nuevo s r
    escribe :
        {s r : Fs Bits} (n : String) (xs : List ℕ) (o : ℕ) (x : Bool)
        → escribir_fs s n xs o ≡ some (x, r)
        → Opera nuevo s r
    reinicia :
        {s : Fs Bits} (es : List EntradaFat)
        → Reordena s.metadata es
        → Opera nuevo s (iniciar_fs nuevo s.cant_bloques s.tam_bloque (en_disco s es))

  -- Any number of them, one after another.
  pub data Corre (nuevo : ℕ → Bits) (s : Fs Bits) : Fs Bits → Type 0 where
    inicio : Corre nuevo s s
    paso : {r t : Fs Bits} → Corre nuevo s r → Opera nuevo r t → Corre nuevo s t

  -- The sizes are those of the configuration.
  record Fiel (cant tam : ℕ) (s : Fs Bits) : Type 0 where
    guardado : Guardado s
    cantidad : s.cant_bloques ≡ cant
    medida : s.tam_bloque ≡ tam
