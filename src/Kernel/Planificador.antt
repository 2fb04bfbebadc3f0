-- ===== src/Kernel/Planificador.antt =====
-- The short-term schedulers (kernel.c: planificadorCP_FIFO, planificadorCP_RR, planificadorCP_VRR,
-- get_quantum): a turn is the dispatch, the CPU, and what is done with the process that came back.
use Prim.Native.String.{String}
use so_1c.Base.{
  ℕ, suc, ◌-◌, Bool, true, false, List, [], ◌∷◌, ◌++◌, Option, none, some, ◌>>=◌, if◌then◌else◌,
  ◌==◌, leb,
}
use text.Mathlib.Text.{◌==◌ as str_eq}
use so_1c.Cpu.{Pcb}
use so_1c.Protocolo.{
  codigo, finalizacion, io, io_vector, pedirrecurso, darrecurso, fin_de_quantum, interrupcion, oom,
}
use so_1c.Kernel.{
  Kernel, SProceso, con_estado, matadero, a_ready, a_ready_plus, sem_wait, estado_ready,
  estado_running, estado_blocked, estado_finished,
}
use so_1c.Kernel.Recursos.{buscar_recurso, pedir_recurso, liberar_recurso}
use so_1c.Kernel.Planes.{queue_pop}

-- What the CPU sends back: the reason, the PCB, the code and the text of the packet, and the time
-- that the process was away in milliseconds (of clock_gettime, VRR only).
pub record Vuelta : Type 0 where
  pub motivo : ℕ
  pub pcb : Pcb
  pub segundo : ℕ
  pub texto : String
  pub transcurrido : ℕ

-- The process goes to RUNNING.
unfoldable pub a_running : Kernel → SProceso → SProceso × Kernel
a_running k p = (con_estado estado_running p, record k { pid_running = some p.pcb.pid })

-- The dispatch of FIFO and RR, from READY.
unfoldable pub despachar_ready : Kernel → Option (SProceso × Kernel)
despachar_ready k = sem_wait k.sem_pcp >>= λ s.
    queue_pop k.c_ready >>= λ r. some (a_running (record k { sem_pcp = s; c_ready = r.1 }) r.0)

-- The dispatch of VRR: a process of READY+ comes first.
unfoldable pub despachar_vrr : Kernel → Option (SProceso × Kernel)
despachar_vrr k = sem_wait k.sem_pcp >>= λ s. elim k.c_ready_plus [
  | p ∷ ps ↦ some (a_running (record k { sem_pcp = s; c_ready_plus = ps }) p)
  | [] ↦ queue_pop k.c_ready >>= λ r. some (a_running (record k { sem_pcp = s; c_ready = r.1 }) r.0)
]

-- `get_quantum`
unfoldable pub get_quantum : SProceso → ℕ → SProceso
get_quantum p t = record p {
  pcb = record p.pcb { quantum = if leb t p.pcb.quantum then p.pcb.quantum - t else 0 };
}

-- The cases IO and IO_VECTOR: the process blocks. Where the codes differ it is in `cEXIT` as well.
unfoldable pub caso_io : Kernel → SProceso → Vuelta → Kernel
caso_io k p v =
    if v.segundo == codigo io
    then record k {
      l_blocked =
          k.l_blocked ++ record (con_estado estado_blocked p) { multifuncion = v.texto } ∷ [];
    }
    else record k {
      l_blocked =
          k.l_blocked ++ record (con_estado estado_finished p) { multifuncion = v.texto } ∷ [];
      c_exit = k.c_exit ++ record (con_estado estado_finished p) { multifuncion = v.texto } ∷ [];
      s_multiprogramacion = suc k.s_multiprogramacion;
      sem_exit = suc k.sem_exit;
    }

-- The case PEDIRRECURSO.
unfoldable pub caso_pedir : Kernel → SProceso → Vuelta → Option Kernel
caso_pedir k p v =
    if v.segundo == codigo pedirrecurso
    then pedir_recurso k (record p { multifuncion = v.texto })
    else some (matadero k p "No coinciden los códigos de salida")

-- `list_remove_element` of a name
unfoldable pub quitar_nombre : String → List String → List String
quitar_nombre n [] = []
quitar_nombre n (x ∷ xs) = if str_eq x n then xs else x ∷ quitar_nombre n xs

-- The case DARRECURSO: the process, still in state RUNNING, goes to READY+ under VRR, else to READY.
unfoldable pub caso_dar : Bool → Kernel → SProceso → Vuelta → Option Kernel
caso_dar vrr k p v =
    if v.segundo == codigo darrecurso
    then elim (buscar_recurso v.texto k.recursos) [
      | none ↦ some (matadero k p "Pidio un recurso no existente")
      | some i ↦ liberar_recurso k v.texto >>= λ k'.
          let q = record p {
            recursos = quitar_nombre v.texto p.recursos;
            multifuncion = v.texto;
          } in
          some (if vrr then a_ready_plus k' q else a_ready k' q)
    ]
    else some (matadero k p "No coinciden los códigos de salida")

-- The case FIN_DE_QUANTUM of RR, and of VRR with the quantum recharged.
unfoldable pub caso_quantum : Kernel → SProceso → Kernel
caso_quantum k p = a_ready k (con_estado estado_ready p)

unfoldable pub caso_quantum_vrr : Kernel → SProceso → Kernel
caso_quantum_vrr k p =
    a_ready k (con_estado estado_ready (record p { pcb = record p.pcb { quantum = k.quantum } }))

-- The switch over the reason, by what the three schedulers do with a time used and with FIN_DE_QUANTUM.
unfoldable pub segun_motivo :
    Bool
    → (SProceso → SProceso)
    → (Kernel → SProceso → Option Kernel)
    → Kernel
    → SProceso
    → Vuelta
    → Option Kernel
segun_motivo vrr gastar al_vencer k p v =
    if v.motivo == codigo finalizacion
    then some (matadero k p "Éxito")
    else if v.motivo == codigo io
    then some (caso_io k (gastar p) v)
    else if v.motivo == codigo io_vector
    then some (caso_io k (gastar p) v)
    else if v.motivo == codigo pedirrecurso
    then caso_pedir k (gastar p) v
    else if v.motivo == codigo darrecurso
    then caso_dar vrr k (gastar p) v
    else if v.motivo == codigo fin_de_quantum
    then al_vencer k p
    else if v.motivo == codigo interrupcion
    then some (matadero k p "Interrumpido por Usuario")
    else if v.motivo == codigo oom
    then some (matadero k p "Out of Memory")
    else some (matadero k p "Envio codigo de salida no valido")

-- The process is no longer the running one, and its PCB is what came back.
abbrev pub recibido : Kernel → Kernel
recibido k = record k { pid_running = none }

unfoldable pub volver_fifo : Kernel → SProceso → Vuelta → Option Kernel
volver_fifo k p v =
    segun_motivo false (λ q. q) (λ k' q. some (matadero k' q "Envio codigo de salida no valido"))
      (recibido k) (record p { pcb = v.pcb }) v

unfoldable pub volver_rr : Kernel → SProceso → Vuelta → Option Kernel
volver_rr k p v =
    segun_motivo false (λ q. q) (λ k' q. some (caso_quantum k' q)) (recibido k)
      (record p { pcb = v.pcb }) v

unfoldable pub volver_vrr : Kernel → SProceso → Vuelta → Option Kernel
volver_vrr k p v =
    segun_motivo true (λ q. get_quantum q v.transcurrido) (λ k' q. some (caso_quantum_vrr k' q))
      (recibido k) (record p { pcb = v.pcb }) v
