-- ===== src/Kernel/Hilos.antt =====
-- The threads of the kernel (utils/src/kernel/kernel.c) as steps, one after another in any order: the
-- console that creates a process, PLP before and after it has a place, the dispatch and the return of
-- the scheduler of the algorithm chosen, the connections of interfaces, the IO threads before and after
-- the interface answers, and carnicero. Nothing comes between the critical sections of one step.
use Prim.Native.String.{String}
use so_1c.Base.{ℕ, ◌+◌, ◌≤◌, ◌≡◌, List, Option, none, some, uno, ltb, length, Bool}
use so_1c.Cpu.{Pcb}
use so_1c.Kernel.{Kernel, SProceso}
use so_1c.Kernel.Consola.{crear_proceso, sacar_pid}
use so_1c.Kernel.Planes.{tomar_nuevo, admitir, carnicero}
use so_1c.Kernel.Planificador.{Vuelta}
use so_1c.Kernel.Algoritmo.{Algoritmo, despachar_segun, volver_segun}
use so_1c.Kernel.Io.{escuchar_conexion, empezar_io, terminar_io}
use so_1c.Kernel.Cuenta.{es, presentes}

-- The states that the threads reach under an algorithm, with the process that the CPU has and the one for
-- which PLP waits, where V says what may come back of a process.
pub data Corre (a : Algoritmo) (V : SProceso → Vuelta → Type 0) (s : Kernel)
    : Kernel → Option SProceso → Option SProceso → Type 0 where
  arranque : Corre a V s s none none
  crea :
      {k : Kernel} {o w : Option SProceso} (basura : Pcb) (path : String)
      → Corre a V s k o w
      → Corre a V s (crear_proceso k basura path) o w
  toma :
      {k k' : Kernel} {o : Option SProceso} (p : SProceso)
      → Corre a V s k o none
      → tomar_nuevo k ≡ some (p, k')
      → Corre a V s k' o (some p)
  admite :
      {k k' : Kernel} {o : Option SProceso} {p : SProceso} (memoria : String → ℕ → Option ℕ)
      → Corre a V s k o (some p)
      → admitir memoria p k ≡ some k'
      → Corre a V s k' o none
  despacha :
      {k k' : Kernel} {w : Option SProceso} (p : SProceso)
      → Corre a V s k none w
      → despachar_segun a k ≡ some (p, k')
      → Corre a V s k' (some p) w
  vuelve :
      {k k' : Kernel} {p : SProceso} {w : Option SProceso} (v : Vuelta)
      → Corre a V s k (some p) w
      → V p v
      → volver_segun a k p v ≡ some k'
      → Corre a V s k' none w
  conecta :
      {k : Kernel} {o w : Option SProceso} (nombre : String)
      → Corre a V s k o w
      → Corre a V s (escuchar_conexion k nombre) o w
  empieza_io :
      {k k' : Kernel} {o w : Option SProceso} (n : ℕ) (nombre : String) (b : Bool)
      → Corre a V s k o w
      → empezar_io k n nombre ≡ some (b, k')
      → Corre a V s k' o w
  termina_io :
      {k k' : Kernel} {o w : Option SProceso} (n : ℕ) (nombre : String) (respuesta : ℕ)
      (p : SProceso) (ps : List SProceso)
      → Corre a V s k o w
      → sacar_pid n k.l_blocked ≡ some (p, ps)
      → terminar_io k n nombre respuesta ≡ some k'
      → Corre a V s k' o w
  mata :
      {k k' : Kernel} {o w : Option SProceso} (i : ℕ)
      → Corre a V s k o w
      → carnicero k ≡ some (i, k')
      → Corre a V s k' o w

-- The process that a thread has, as a count.
abbrev pub en_mano : ℕ → Option SProceso → ℕ
en_mano n none = 0
en_mano n (some p) = es n p

-- A pid that was given out is in one place at most, and another in none; semPCP counts the ready.
pub record Sano (k : Kernel) (o w : Option SProceso) : Type 0 where
  pub unico : (n : ℕ) → presentes n k + en_mano n o + en_mano n w ≤ uno (ltb n k.id_pcb)
  pub listos : k.sem_pcp ≡ length k.c_ready + length k.c_ready_plus
