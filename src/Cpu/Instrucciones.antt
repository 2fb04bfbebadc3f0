-- ===== src/Cpu/Instrucciones.antt =====
-- The instructions on registers and those that only leave the CPU (utils/src/cpu/cpu.c): get_cod_instruccion
-- and the exe_ functions that ask nothing of the memory.
use Prim.Native.String.{String, ◌++◌ as pegar}
use text.Mathlib.Text.{◌==◌ as str_eq}
use so_1c.Base.{ℕ, ◌+◌, ◌-◌, ◌%◌, ◌^◌, List, [], ◌∷◌, Option, none, some, if◌then◌else◌, ◌==◌}
use so_1c.Protocolo.{codigo, finalizacion, pedirrecurso, darrecurso, io}
use so_1c.Cpu.{Registros, Cpu}
use so_1c.Cpu.Nombres.{set_registro, get_registro}

-- `instrucciones`
pub data Instruccion : Type 0 where
  set mov_in mov_out sum sub jnz resize copy_string wait signal : Instruccion
  io_gen_sleep io_stdin_read io_stdout_write io_fs_create io_fs_delete : Instruccion
  io_fs_truncate io_fs_write io_fs_read exit : Instruccion

-- `get_cod_instruccion`; `none` is -1.
unfoldable pub get_cod_instruccion : String → Option Instruccion
get_cod_instruccion n =
    if str_eq n "SUM"
    then some sum
    else if str_eq n "SET"
    then some set
    else if str_eq n "SUB"
    then some sub
    else if str_eq n "JNZ"
    then some jnz
    else if str_eq n "EXIT"
    then some exit
    else if str_eq n "IO_GEN_SLEEP"
    then some io_gen_sleep
    else if str_eq n "IO_STDIN_READ"
    then some io_stdin_read
    else if str_eq n "IO_STDOUT_WRITE"
    then some io_stdout_write
    else if str_eq n "IO_FS_CREATE"
    then some io_fs_create
    else if str_eq n "IO_FS_DELETE"
    then some io_fs_delete
    else if str_eq n "IO_FS_TRUNCATE"
    then some io_fs_truncate
    else if str_eq n "IO_FS_WRITE"
    then some io_fs_write
    else if str_eq n "IO_FS_READ"
    then some io_fs_read
    else if str_eq n "WAIT"
    then some wait
    else if str_eq n "SIGNAL"
    then some signal
    else if str_eq n "MOV_IN"
    then some mov_in
    else if str_eq n "MOV_OUT"
    then some mov_out
    else if str_eq n "RESIZE"
    then some resize
    else if str_eq n "COPY_STRING"
    then some copy_string
    else none

-- Sum, negation and difference of `int`s, wrapped to 32 bits.
abbrev pub add_int : ℕ → ℕ → ℕ
add_int a b = (a + b) % 2 ^ 32

abbrev pub neg_int : ℕ → ℕ
neg_int a = (2 ^ 32 - a) % 2 ^ 32

abbrev pub sub_int : ℕ → ℕ → ℕ
sub_int a b = (a + 2 ^ 32 - b) % 2 ^ 32

-- The loop of `exe_IO_GEN`.
unfoldable pub unir : String → List String → String
unir s [] = s
unir s (p ∷ ps) = unir (pegar (pegar s " ") p) ps

module _ {M : Type 0} where
  -- The registers of the PCB that the CPU runs.
  abbrev pub regs : Cpu M → Registros
  regs c = c.pcb.registros

  unfoldable pub poner_registro : String → ℕ → Cpu M → Cpu M
  poner_registro n v c = record c {
    pcb = record c.pcb { registros = (set_registro c.pcb.registros n v).0 };
  }

  module _ (atoi : String → ℕ) where
    -- `exe_SET`
    unfoldable pub exe_set : String → String → Cpu M → Cpu M
    unfolding poner_registro
    exe_set registro valor c = poner_registro registro (atoi valor) c

    -- `exe_JNZ`
    unfoldable pub exe_jnz : String → String → Cpu M → Cpu M
    unfolding poner_registro
    exe_jnz registro numero c =
        if get_registro (regs c) registro == 0
        then c
        else poner_registro "PC" (sub_int (atoi numero) 1) c

  -- `exe_SUM`
  unfoldable pub exe_sum : String → String → Cpu M → Cpu M
  unfolding poner_registro
  exe_sum destino origen c =
      let valor_destino = get_registro (regs c) destino in
      let valor_origen = get_registro (regs c) origen in
      poner_registro destino (add_int valor_destino valor_origen) c

  -- `exe_SUB`: the origin is negated where it is read, and then subtracted.
  unfoldable pub exe_sub : String → String → Cpu M → Cpu M
  unfolding poner_registro
  exe_sub destino origen c =
      let valor_destino = get_registro (regs c) destino in
      let valor_origen = neg_int (get_registro (regs c) origen) in
      poner_registro destino (sub_int valor_destino valor_origen) c

  -- `exe_EXIT`
  unfoldable pub exe_exit : Cpu M → Cpu M
  exe_exit c = record c { se_va = codigo finalizacion }

  -- `exe_WAIT` and `exe_SIGNAL`
  unfoldable pub exe_wait : String → Cpu M → Cpu M
  exe_wait recurso c = record c { a_enviar = recurso; se_va = codigo pedirrecurso }

  unfoldable pub exe_signal : String → Cpu M → Cpu M
  exe_signal recurso c = record c { a_enviar = recurso; se_va = codigo darrecurso }

  -- `exe_IO_GEN`; `none` where there is no first component.
  unfoldable pub exe_io_gen : List String → Cpu M → Option (Cpu M)
  unfolding unir
  exe_io_gen [] c = none
  exe_io_gen (n ∷ ps) c = some (record c { a_enviar = unir n ps; se_va = codigo io })

  -- `exe_IO_FS_CD`: the components are the operation, the interface and the file.
  unfoldable pub exe_io_fs_cd : List String → Cpu M → Option (Cpu M)
  unfolding unir
  exe_io_fs_cd (n ∷ i ∷ f ∷ _) c =
      some (record c { a_enviar = unir n (i ∷ f ∷ []); se_va = codigo io })
  exe_io_fs_cd _ c = none

  -- `exe_IO_FS_TRUNCATE`, where `decimal` prints an `int`.
  unfoldable pub exe_io_fs_truncate : (ℕ → String) → List String → Cpu M → Option (Cpu M)
  unfolding unir
  exe_io_fs_truncate decimal (n ∷ i ∷ f ∷ r ∷ _) c = some (record c {
    a_enviar = unir n (i ∷ f ∷ decimal (get_registro (regs c) r) ∷ []);
    se_va = codigo io;
  })
  exe_io_fs_truncate decimal _ c = none
