-- ===== src/Cpu/Ciclo.antt =====
-- The instruction cycle: fetch, decode and execute (utils/src/cpu/cpu.c), and the loop of main with its
-- check of interruptions (cpu/src/main.c).
use Prim.Native.String.{String}
use so_1c.Base.{
  ℕ, ◌+◌, List, [], ◌∷◌, Option, none, some, if◌then◌else◌, ◌==◌, ◌&&◌, ◌||◌, get_elem?,
}
use so_1c.Protocolo.{codigo, interrupcion, fin_de_quantum, darrecurso, pedirrecurso, io, io_vector}
use so_1c.Memoria.Servidor.{PeticionCpu, fetch_de}
use so_1c.Cpu.{Pcb, Config, Cpu, ServidorMemoria, Paso, ◌>>=◌}
use so_1c.Cpu.Nombres.{u32}
use so_1c.Cpu.Instrucciones.{
  Instruccion, get_cod_instruccion, exe_set, exe_jnz, exe_sum, exe_sub, exe_exit, exe_wait,
  exe_signal, exe_io_gen, exe_io_fs_cd, exe_io_fs_truncate,
}
use so_1c.Cpu.Transferencias.{
  leer_estado, cambiar, o_falla, transformar, un_texto, pedir, exe_mov_in, exe_mov_out, exe_resize,
  exe_copy_string, exe_io_std, exe_io_fs_rw,
}

-- `sInterrupcion`
pub record Interrupcion : Type 0 where
  pub pid : ℕ
  pub motivo : ℕ

module _ {M : Type 0} where
  -- One round of the loop over `cIntr`.
  unfoldable pub atender_interrupcion : Interrupcion → Cpu M → Cpu M
  atender_interrupcion i c =
      if i.motivo == codigo interrupcion
      then (if c.pcb.pid == i.pid then record c { se_va = codigo interrupcion } else c)
      else (if i.motivo == codigo fin_de_quantum
          then (if c.se_va == 0 && c.pcb.pid == i.pid
              then record c { se_va = codigo fin_de_quantum }
              else c)
          else c)

  unfoldable pub atender_interrupciones : List Interrupcion → Cpu M → Cpu M
  atender_interrupciones [] c = c
  atender_interrupciones (i ∷ is) c = atender_interrupciones is (atender_interrupcion i c)

  -- `pcb.registros.PC++`
  unfoldable pub avanzar_pc : Cpu M → Cpu M
  avanzar_pc c = record c {
    pcb = record c.pcb { registros = record c.pcb.registros { pc = u32 (c.pcb.registros.pc + 1) } };
  }

  -- `partir` is `string_split` at the spaces, `atoi` and `decimal` the conversions of libc.
  module _ (k : Config) (s : ServidorMemoria M) (partir : List ℕ → List String) (atoi : String → ℕ)
      (decimal : ℕ → String) where
    -- What main does with a PCB of the kernel before the cycle.
    unfoldable pub despachar : Pcb → Paso M (Unit {0})
    despachar p = do
      listo ← cambiar (λ c. record c { pcb = p })
      os ← pedir k s (PeticionCpu.proceso p.instrucciones)
      cambiar (λ c. c)

    -- `fetch`
    unfoldable pub fetch : Paso M (List ℕ)
    fetch = do c ← leer_estado; os ← pedir k s (fetch_de c.pcb.registros.pc); o_falla (un_texto os)

    -- A component of the instruction; a missing one is a NULL that is used.
    abbrev pub componente : List String → ℕ → Paso M String
    componente cs n = o_falla (get_elem? cs n)

    -- The `switch` of `execute`, and its default.
    unfoldable pub ejecutar : Option Instruccion → List String → Paso M (Unit {0})
    unfolding exe_mov_in exe_mov_out exe_resize exe_copy_string exe_io_std exe_io_fs_rw
    ejecutar (some Instruccion.set) cs = do
      a ← componente cs 1
      b ← componente cs 2
      cambiar (exe_set atoi a b)
    ejecutar (some Instruccion.sum) cs = do
      a ← componente cs 1
      b ← componente cs 2
      cambiar (exe_sum a b)
    ejecutar (some Instruccion.sub) cs = do
      a ← componente cs 1
      b ← componente cs 2
      cambiar (exe_sub a b)
    ejecutar (some Instruccion.jnz) cs = do
      a ← componente cs 1
      b ← componente cs 2
      cambiar (exe_jnz atoi a b)
    ejecutar (some Instruccion.wait) cs = componente cs 1 >>= λ a. cambiar (exe_wait a)
    ejecutar (some Instruccion.signal) cs = componente cs 1 >>= λ a. cambiar (exe_signal a)
    ejecutar (some Instruccion.io_gen_sleep) cs = transformar (exe_io_gen cs)
    ejecutar (some Instruccion.io_stdout_write) cs = exe_io_std k s decimal cs
    ejecutar (some Instruccion.io_stdin_read) cs = exe_io_std k s decimal cs
    ejecutar (some Instruccion.io_fs_create) cs = transformar (exe_io_fs_cd cs)
    ejecutar (some Instruccion.io_fs_delete) cs = transformar (exe_io_fs_cd cs)
    ejecutar (some Instruccion.io_fs_truncate) cs = transformar (exe_io_fs_truncate decimal cs)
    ejecutar (some Instruccion.io_fs_write) cs = exe_io_fs_rw k s decimal cs
    ejecutar (some Instruccion.io_fs_read) cs = exe_io_fs_rw k s decimal cs
    ejecutar (some Instruccion.exit) cs = cambiar exe_exit
    ejecutar (some Instruccion.mov_in) cs = do
      a ← componente cs 1
      b ← componente cs 2
      exe_mov_in k s a b
    ejecutar (some Instruccion.mov_out) cs = do
      a ← componente cs 1
      b ← componente cs 2
      exe_mov_out k s a b
    ejecutar (some Instruccion.resize) cs = componente cs 1 >>= λ a. exe_resize k s (atoi a)
    ejecutar (some Instruccion.copy_string) cs =
        componente cs 1 >>= λ a. exe_copy_string k s (atoi a)
    ejecutar none cs = cambiar (λ c. record c { se_va = 500 })

    -- `decode` and `execute` of a fetched text. A text with no component is a NULL that is compared.
    unfoldable pub execute : List String → Paso M (Unit {0})
    unfolding ejecutar get_cod_instruccion
    execute cs = componente cs 0 >>= λ n. ejecutar (get_cod_instruccion n) cs

    -- One round of `while(!seVa)`, with the interruptions that are queued when it checks them.
    unfoldable pub ciclo : List Interrupcion → Paso M (Unit {0})
    unfolding fetch execute avanzar_pc atender_interrupciones atender_interrupcion
    ciclo is = do
      buffer ← fetch
      listo ← execute (partir buffer)
      cambiar (λ c. atender_interrupciones is (avanzar_pc c))

    -- `while(!seVa)`, over what is queued in each round; `none` also where the rounds run out.
    unfoldable pub correr : List (List Interrupcion) → Paso M (Unit {0})
    unfolding ciclo
    correr [] c = if c.se_va == 0 then none else some (tt, c)
    correr (is ∷ iss) c =
        let resto = (ciclo is >>= λ _. correr iss) c in if c.se_va == 0 then resto else some (tt, c)

-- What goes to the kernel when a process leaves the CPU: the reason, then what accompanies it.
pub data Salida : Type 0 where
  pcb_con : ℕ → Pcb → Salida
  cadena_con : ℕ → String → Salida
  direcciones : List ℕ → Salida

-- The end of a round of the outer loop of main, which also resets `seVa`.
unfoldable pub devolver : {M : Type 0} → Cpu M → List Salida × Cpu M
devolver c = (
  pcb_con c.se_va c.pcb
      ∷ (if c.se_va == codigo darrecurso || c.se_va == codigo pedirrecurso
          then cadena_con c.se_va c.a_enviar ∷ []
          else (if c.se_va == codigo io
              then cadena_con (codigo io) c.a_enviar ∷ []
              else (if c.se_va == codigo io_vector
                  then cadena_con (codigo io) c.a_enviar ∷ direcciones c.vector_direcciones ∷ []
                  else []))),
  record c { se_va = 0 },
)
