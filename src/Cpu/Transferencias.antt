-- ===== src/Cpu/Transferencias.antt =====
-- The instructions that move bytes through the memory (utils/src/cpu/cpu.c): exe_MOV_IN, exe_MOV_OUT,
-- exe_RESIZE, exe_COPY_STRING, exe_IO_STD and exe_IO_FS_RW.
use Prim.Native.String.{String}
use so_1c.Base.{
  ℕ, ◌+◌, ◌-◌, ◌^◌, Bool, true, List, [], ◌∷◌, ◌++◌, Option, none, some, if◌then◌else◌, ◌==◌, ltb,
  length,
}
use so_1c.Protocolo.{Envio, operacion, texto, codigo, oom, io_vector}
use so_1c.Memoria.Servidor.{
  PeticionCpu, mas_pagina, menos_pagina, tam_proceso, lectura, escritura, lectura_str,
  escritura_str,
}
use so_1c.Tramos.{ceil_div, espacio_en_pag, direcciones_logicas, tramos}
use so_1c.Cpu.{Config, Cpu, ServidorMemoria, Paso, ◌>>=◌}
use so_1c.Cpu.Nombres.{get_registro, cuanto_leo}
use so_1c.Cpu.Mmu.{mmu_todas}
use so_1c.Cpu.Instrucciones.{regs, poner_registro, unir}

-- The one `int` of an answer.
abbrev pub un_entero : List Envio → Option ℕ
un_entero (operacion v ∷ []) = some v
un_entero os = none

-- The text of an answer.
abbrev pub un_texto : List Envio → Option (List ℕ)
un_texto (texto o xs ∷ []) = some xs
un_texto os = none

module _ {M : Type 0} where
  -- The state, and a change of it.
  abbrev pub leer_estado : Paso M (Cpu M)
  leer_estado c = some (c, c)

  abbrev pub cambiar : (Cpu M → Cpu M) → Paso M (Unit {0})
  cambiar f c = some (tt, f c)

  -- A step that may fault.
  abbrev pub transformar : (Cpu M → Option (Cpu M)) → Paso M (Unit {0})
  transformar f c = elim (f c) [ none ↦ none | some c' ↦ some (tt, c') ]

  abbrev pub o_falla : {A : Type 0} → Option A → Paso M A
  o_falla none c = none
  o_falla (some a) c = some (a, c)

  module _ (k : Config) (s : ServidorMemoria M) where
    abbrev pub pedir : PeticionCpu → Paso M (List Envio)
    pedir q c = elim (s.pedir c.memoria q) [
      | none ↦ none
      | some (os, m) ↦ some (os, record c { memoria = m })
    ]

    -- The translations of a transfer: of one address where it fits its page, otherwise of one for
    -- each page.
    unfoldable pub traducciones : ℕ → ℕ → Paso M (List ℕ)
    unfolding direcciones_logicas mmu_todas
    traducciones tam direccion = mmu_todas k s (direcciones_logicas k.tam_pag tam direccion)

    -- The first address, and those that follow it.
    abbrev pub primera : List ℕ → Option (ℕ × List ℕ)
    primera [] = none
    primera (d ∷ ds) = some (d, ds)

    -- `exe_MOV_IN`. A register of no known size makes the memory copy -1 bytes.
    unfoldable pub exe_mov_in : String → String → Paso M (Unit {0})
    unfolding traducciones
    exe_mov_in reg_datos reg_direccion = do
      tam ← o_falla (cuanto_leo reg_datos)
      c ← leer_estado
      dirs ← traducciones tam (get_registro (regs c) reg_direccion)
      df ← o_falla (primera dirs)
      os ← pedir (lectura df.0 tam (length dirs) df.1)
      v ← o_falla (un_entero os)
      cambiar (poner_registro reg_datos v)

    -- `exe_MOV_OUT`
    unfoldable pub exe_mov_out : String → String → Paso M (Unit {0})
    unfolding traducciones
    exe_mov_out reg_direccion reg_datos = do
      tam ← o_falla (cuanto_leo reg_datos)
      c ← leer_estado
      dirs ← traducciones tam (get_registro (regs c) reg_direccion)
      df ← o_falla (primera dirs)
      os ← pedir (escritura df.0 tam (length dirs) (get_registro (regs c) reg_datos) df.1)
      cambiar (λ d. d)

    -- The pages to give back for a negative size, or a smaller one.
    abbrev pub paginas_de_menos : ℕ → ℕ → ℕ
    paginas_de_menos actual tamanio =
        if ltb tamanio (2 ^ 31)
        then ceil_div (actual - tamanio) k.tam_pag
        else ceil_div (actual + (2 ^ 32 - tamanio)) k.tam_pag

    -- `tamanioActual > tamanio`, as signed numbers.
    abbrev pub es_menor : ℕ → ℕ → Bool
    es_menor tamanio actual = if ltb tamanio (2 ^ 31) then ltb tamanio actual else true

    -- `exe_RESIZE`
    unfoldable pub exe_resize : ℕ → Paso M (Unit {0})
    exe_resize tamanio = do
      os ← pedir tam_proceso
      actual ← o_falla (un_entero os)
      if actual == tamanio
          then cambiar (λ d. d)
          else (if es_menor tamanio actual
              then (pedir (menos_pagina (paginas_de_menos actual tamanio)) >>= λ _.
                  cambiar (λ d. d))
              else (pedir (mas_pagina (ceil_div (tamanio - actual) k.tam_pag)) >>= λ r.
                  o_falla (un_entero r) >>= λ v.
                  cambiar (λ d. if v == codigo oom then record d { se_va = codigo oom } else d)))

    -- `exe_COPY_STRING`, of a size that is not negative.
    unfoldable pub exe_copy_string : ℕ → Paso M (Unit {0})
    unfolding traducciones
    exe_copy_string tam = do
      c ← leer_estado
      let si = get_registro (regs c) "SI"
      origen ← traducciones tam si
      os ← pedir (lectura_str (tramos k.tam_pag tam (espacio_en_pag k.tam_pag si) origen))
      cadena ← o_falla (un_texto os)
      d ← leer_estado
      let di = get_registro (regs d) "DI"
      destino ← traducciones tam di
      r ← pedir (
          escritura_str (cadena ++ 0 ∷ [])
            (tramos k.tam_pag tam (espacio_en_pag k.tam_pag di) destino))
      cambiar (λ e. e)

    -- `exe_IO_STD`: the components are the operation, the interface and two registers.
    unfoldable pub exe_io_std : (ℕ → String) → List String → Paso M (Unit {0})
    unfolding traducciones unir
    exe_io_std decimal (n ∷ i ∷ r ∷ t ∷ _) = do
      c ← leer_estado
      let tam = get_registro (regs c) t
      dirs ← traducciones tam (get_registro (regs c) r)
      cambiar (λ d. record d {
        vector_direcciones = dirs;
        a_enviar = unir n (i ∷ decimal tam ∷ decimal (length dirs) ∷ []);
        se_va = codigo io_vector;
      })
    exe_io_std decimal _ = λ c. none

    -- `exe_IO_FS_RW`: the operation, the interface, the file and three registers.
    unfoldable pub exe_io_fs_rw : (ℕ → String) → List String → Paso M (Unit {0})
    unfolding traducciones unir
    exe_io_fs_rw decimal (n ∷ i ∷ f ∷ r ∷ t ∷ p ∷ _) = do
      c ← leer_estado
      let tam = get_registro (regs c) t
      dirs ← traducciones tam (get_registro (regs c) r)
      cambiar (λ d. record d {
        vector_direcciones = dirs;
        a_enviar =
            unir n (
              i ∷ f ∷ decimal tam ∷ decimal (length dirs) ∷ decimal (get_registro (regs c) p) ∷ []);
        se_va = codigo io_vector;
      })
    exe_io_fs_rw decimal _ = λ c. none
