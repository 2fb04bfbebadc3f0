-- ===== src/Kernel/Consola.antt =====
-- The console of the kernel (kernel.c: get_terminal, get_estado, crear_proceso, finalizar_proceso,
-- buscar_proceso_en_lista, cambiar_multiprogramacion). A pid that is asked for is not negative.
use Prim.Native.String.{String}
use text.Mathlib.Text.{◌==◌ as str_eq}
use so_1c.Base.{
  ℕ, zero, suc, ◌-◌, true, List, [], ◌∷◌, ◌++◌, Option, none, some, ◌>>=◌, ◌||◌, if◌then◌else◌,
  ◌==◌, ltb, ◌+◌,
}
use so_1c.Base.Int.{ℤ, pos, negsuc}
use so_1c.Cpu.{Pcb}
use so_1c.Kernel.{
  Kernel, Recurso, SProceso, matadero, sem_wait, estado_new, estado_ready, estado_ready_plus,
}

-- `fConsola`, with the 0 that ends the kernel and the -1 of an unknown command.
pub data FConsola : Type 0 where
  iniciar_proceso finalizar_proceso_ ejecutar_script_ detener_planificacion_ : FConsola
  iniciar_planificacion_ proceso_estado_ multiprogramacion_ terminar desconocido : FConsola

-- `get_terminal`
unfoldable pub get_terminal : String → FConsola
get_terminal c =
    if str_eq c "INICIAR_PROCESO"
    then iniciar_proceso
    else if str_eq c "FINALIZAR_PROCESO"
    then finalizar_proceso_
    else if str_eq c "EJECUTAR_SCRIPT"
    then ejecutar_script_
    else if str_eq c "DETENER_PLANIFICACION"
    then detener_planificacion_
    else if str_eq c "INICIAR_PLANIFICACION"
    then iniciar_planificacion_
    else if str_eq c "PROCESO_ESTADO"
    then proceso_estado_
    else if str_eq c "MULTIPROGRAMACION"
    then multiprogramacion_
    else if str_eq c "0"
    then terminar
    else desconocido

-- `get_estado`
unfoldable pub get_estado : ℕ → String
get_estado zero = "NEW"
get_estado (suc zero) = "READY"
get_estado (suc (suc zero)) = "READY PLUS"
get_estado (suc (suc (suc zero))) = "RUNNING"
get_estado (suc (suc (suc (suc zero)))) = "BLOCKED"
get_estado (suc (suc (suc (suc (suc zero))))) = "FINISHED"
get_estado (suc (suc (suc (suc (suc (suc n)))))) = "error"

-- `crear_proceso`; `basura` is what malloc left in the other registers and in the rest of the PCB.
unfoldable pub crear_proceso : Kernel → Pcb → String → Kernel
crear_proceso k basura path =
    if k.planificacion_activa
    then record k {
      c_new =
          k.c_new
          ++ record {
            pcb = record basura {
              pid = k.id_pcb;
              pc = 0;
              quantum = k.quantum;
              estado = estado_new;
              registros = record basura.registros { pc = 0 };
            };
            multifuncion = path;
            recursos = [];
          }
            ∷ [];
      id_pcb = suc k.id_pcb;
      sem_plp = suc k.sem_plp;
    }
    else k

-- `list_find` and `list_remove_element` by pid: the first process and the list without it.
unfoldable pub sacar_pid : ℕ → List SProceso → Option (SProceso × List SProceso)
sacar_pid n [] = none
sacar_pid n (p ∷ ps) =
    if p.pcb.pid == n then some (p, ps) else sacar_pid n ps >>= λ r. some (r.0, p ∷ r.1)

unfoldable pub sacar_bloqueado : ℕ → List Recurso → Option (SProceso × List Recurso)
sacar_bloqueado n [] = none
sacar_bloqueado n (r ∷ rs) = elim (sacar_pid n r.bloqueados) [
  | some x ↦ some (x.0, record r { bloqueados = x.1 } ∷ rs)
  | none ↦ sacar_bloqueado n rs >>= λ y. some (y.0, r ∷ y.1)
]

-- What `buscar_proceso_en_lista` does with the process it took out of a list: a process in a READY
-- state takes its post of semPCP along. The scheduling starts again before `matadero`.
unfoldable pub interrumpir : Kernel → SProceso → Option Kernel
interrumpir k p =
    (if (p.pcb.estado == estado_ready) || (p.pcb.estado == estado_ready_plus)
      then sem_wait k.sem_pcp
      else some k.sem_pcp)
    >>= λ s. some (
        matadero (record k { sem_pcp = s; planificacion_activa = true }) p
          "Interrumpido por Usuario")

-- `finalizar_proceso` of a process that does not run: the lists are searched in order.
unfoldable pub finalizar_quieto : Kernel → ℕ → Option Kernel
finalizar_quieto k n = elim (sacar_pid n k.c_new) [
  | some x ↦ interrumpir (record k { c_new = x.1 }) x.0
  | none ↦ elim (sacar_pid n k.c_ready) [
    | some x ↦ interrumpir (record k { c_ready = x.1 }) x.0
    | none ↦ elim (sacar_pid n k.c_ready_plus) [
      | some x ↦ interrumpir (record k { c_ready_plus = x.1 }) x.0
      | none ↦ elim (sacar_pid n k.l_blocked) [
        | some x ↦ interrumpir (record k { l_blocked = x.1 }) x.0
        | none ↦ elim (sacar_bloqueado n k.recursos) [
          | some y ↦ interrumpir (record k { recursos = y.1 }) y.0
          | none ↦ some (record k { planificacion_activa = true })
        ]
      ]
    ]
  ]
]

-- `finalizar_proceso`: for the running process the kernel only sends an interrupt, the first part
-- of the result.
unfoldable pub finalizar_proceso : Kernel → ℕ → Option (Option ℕ × Kernel)
finalizar_proceso k n = elim k.pid_running [
  | some m ↦ if m == n then some (some n, k) else finalizar_quieto k n >>= λ k'. some (none, k')
  | none ↦ finalizar_quieto k n >>= λ k'. some (none, k')
]

-- `sem_wait`, n times
unfoldable pub esperar : ℕ → ℕ → Option ℕ
esperar zero s = some s
esperar (suc n) s = sem_wait s >>= esperar n

-- `cambiar_multiprogramacion`
unfoldable pub cambiar_multiprogramacion : Kernel → ℤ → Option Kernel
cambiar_multiprogramacion k (negsuc n) = some k
cambiar_multiprogramacion k (pos g) =
    if ltb k.multiprogramacion g
    then some (record k {
      s_multiprogramacion = k.s_multiprogramacion + (g - k.multiprogramacion);
      multiprogramacion = g;
    })
    else esperar (k.multiprogramacion - g) k.s_multiprogramacion >>= λ s.
        some (record k { s_multiprogramacion = s; multiprogramacion = g })
