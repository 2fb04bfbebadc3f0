-- ===== src/Kernel.antt =====
-- The kernel's processes, queues and semaphores (utils/src/kernel/kernel.h, kernel.c). A critical
-- section is one step; a process stands in a queue by value, and its pid is its identity.
pub mod Recursos
pub mod Consola
pub mod Planes
pub mod Planificador
pub mod Io
pub mod Cuenta
pub mod Saldo
pub mod Conserva
pub mod Despacho
pub mod Grado
pub mod Algoritmo
pub mod Hilos
pub mod Unico
pub mod Inicio
pub mod Turno
pub mod Muerte
pub mod Terminal
pub mod Guion
pub mod Lineas
use Prim.Native.String.{String}
use so_1c.Base.{
  ℕ, zero, suc, ◌+◌, ◌-◌, Bool, List, [], ◌∷◌, ◌++◌, Option, none, some, if◌then◌else◌, ◌==◌,
}
use so_1c.Base.Int.{ℤ}
use so_1c.Cpu.{Pcb}

-- `estados`
abbrev pub estado_new : ℕ
estado_new = 0

abbrev pub estado_ready : ℕ
estado_ready = 1

abbrev pub estado_ready_plus : ℕ
estado_ready_plus = 2

abbrev pub estado_running : ℕ
estado_running = 3

abbrev pub estado_blocked : ℕ
estado_blocked = 4

abbrev pub estado_finished : ℕ
estado_finished = 5

-- `sProceso`
pub record SProceso : Type 0 where
  pub pcb : Pcb
  pub multifuncion : String
  pub recursos : List String

-- `t_recurso`, less its mutex
pub record Recurso : Type 0 where
  pub nombre : String
  pub instancias : ℤ
  pub bloqueados : List SProceso

-- The globals. A pid_running of `none` is -1; `conexiones` has the names of the IOs.
pub record Kernel : Type 0 where
  pub c_new : List SProceso
  pub c_ready : List SProceso
  pub c_ready_plus : List SProceso
  pub l_blocked : List SProceso
  pub c_exit : List SProceso
  pub recursos : List Recurso
  pub conexiones : List String
  pub sem_pcp : ℕ
  pub sem_plp : ℕ
  pub sem_exit : ℕ
  pub s_multiprogramacion : ℕ
  pub multiprogramacion : ℕ
  pub pid_running : Option ℕ
  pub planificacion_activa : Bool
  pub quantum : ℕ
  pub id_pcb : ℕ
  pub plani_es_vrr : Bool

-- `proceso->pcb.estado = e`
abbrev pub con_estado : ℕ → SProceso → SProceso
con_estado e p = record p { pcb = record p.pcb { estado = e } }

-- `sem_wait`, which gives nothing where the thread would block.
abbrev pub sem_wait : ℕ → Option ℕ
sem_wait zero = none
sem_wait (suc n) = some n

-- `matadero`
unfoldable pub matadero : Kernel → SProceso → String → Kernel
matadero k p motivo = record k {
  s_multiprogramacion =
      if p.pcb.estado == estado_new then k.s_multiprogramacion else suc k.s_multiprogramacion;
  c_exit = k.c_exit ++ record (con_estado estado_finished p) { multifuncion = motivo } ∷ [];
  sem_exit = suc k.sem_exit;
}

-- The pushes of a process on READY and on READY+, each with the post of semPCP.
unfoldable pub a_ready : Kernel → SProceso → Kernel
a_ready k p = record k { c_ready = k.c_ready ++ p ∷ []; sem_pcp = suc k.sem_pcp }

unfoldable pub a_ready_plus : Kernel → SProceso → Kernel
a_ready_plus k p = record k { c_ready_plus = k.c_ready_plus ++ p ∷ []; sem_pcp = suc k.sem_pcp }
