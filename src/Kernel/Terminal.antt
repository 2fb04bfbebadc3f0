-- ===== src/Kernel/Terminal.antt =====
-- The console of the kernel and its scripts (kernel.c: interactuar_consola, ejecutar_script,
-- detener_planificacion, iniciar_planificacion, proceso_estado, listar_procesos).
use Prim.Native.String.{String}
use so_1c.Base.{
  ℕ, zero, suc, true, false, List, [], ◌∷◌, ◌++◌, Option, none, some, ◌>>=◌, if◌then◌else◌, ◌==◌,
  length, map,
}
use so_1c.Base.Int.{ℤ, pos, negsuc}
use so_1c.Cpu.{Pcb}
use so_1c.Lectura.{Linea, fgets, cortar}
use so_1c.Kernel.{
  Kernel, Recurso, SProceso, estado_new, estado_ready, estado_running, estado_blocked,
  estado_finished,
}
use so_1c.Kernel.Consola.{
  FConsola, iniciar_proceso, finalizar_proceso_, ejecutar_script_, detener_planificacion_,
  iniciar_planificacion_, proceso_estado_, multiprogramacion_, terminar, desconocido, get_terminal,
  get_estado, crear_proceso, finalizar_proceso, cambiar_multiprogramacion,
}

-- A line of the list of processes: the name of the state and the pids.
abbrev pub Renglon : Type 0
Renglon = String × List ℕ

-- The kernel, with the pids that were sent to the CPU's interrupts and what `proceso_estado` printed.
pub record Terminal : Type 0 where
  pub nucleo : Kernel
  pub interrupciones : List ℤ
  pub salida : List Renglon

-- The mutexes of the queues go with the flag: while it is false the console has them.
unfoldable pub detener_planificacion : Kernel → Kernel
detener_planificacion k =
    if k.planificacion_activa then record k { planificacion_activa = false } else k

unfoldable pub iniciar_planificacion : Kernel → Kernel
iniciar_planificacion k =
    if k.planificacion_activa then k else record k { planificacion_activa = true }

-- `listar_procesos`
unfoldable pub listar_procesos : List SProceso → ℕ → Renglon
listar_procesos ps estado = (get_estado estado, map (λ p. p.pcb.pid) ps)

-- The line of the process that runs.
unfoldable pub listar_running : Option ℕ → List Renglon
listar_running none = []
listar_running (some n) = (get_estado estado_running, n ∷ []) ∷ []

unfoldable pub listar_recursos : List Recurso → List Renglon
unfolding listar_procesos
listar_recursos [] = []
listar_recursos (r ∷ rs) = listar_procesos r.bloqueados estado_blocked ∷ listar_recursos rs

unfoldable pub listar_todo : Kernel → List Renglon
unfolding listar_procesos listar_running listar_recursos
listar_todo k =
    listar_procesos k.c_new estado_new
    ∷ listar_procesos k.c_ready estado_ready
    ∷ (listar_running k.pid_running
        ++ listar_procesos k.l_blocked estado_blocked
          ∷ (listar_recursos k.recursos ++ listar_procesos k.c_exit estado_finished ∷ []))

-- `proceso_estado`
unfoldable pub proceso_estado : Terminal → Terminal
unfolding detener_planificacion iniciar_planificacion listar_todo
proceso_estado t =
    let d = detener_planificacion t.nucleo in
    record t {
      nucleo = if t.nucleo.planificacion_activa then iniciar_planificacion d else d;
      salida = t.salida ++ listar_todo d;
    }

-- `finalizar_proceso` of what `atoi` gave: while nothing runs, pidRunning is -1 and that pid is sent to
-- the CPU, and another negative pid is not found.
unfoldable pub finalizar_pid : Terminal → ℤ → Option Terminal
unfolding finalizar_proceso detener_planificacion iniciar_planificacion
finalizar_pid t (pos n) = finalizar_proceso t.nucleo n >>= λ r. some (record t {
  nucleo = r.1;
  interrupciones = t.interrupciones ++ elim r.0 [ none ↦ [] | some m ↦ pos m ∷ [] ];
})
finalizar_pid t (negsuc n) =
    let quieto = record t { nucleo = iniciar_planificacion (detener_planificacion t.nucleo) } in
    elim t.nucleo.pid_running [
      | none ↦
          if n == 0
          then some (record t { interrupciones = t.interrupciones ++ negsuc 0 ∷ [] })
          else some quieto
      | some m ↦ some quieto
    ]

-- A round of the loop of `ejecutar_script`, on what `fgets` gave, for the command of a line and the rest
-- of the loop. With nothing to read before the end `fgets` gives NULL, and the assignment faults.
unfoldable pub ronda :
    (Terminal → List ℕ → Option Terminal)
    → (List ℕ → Terminal → Option Terminal)
    → Terminal
    → Linea
    → Option Terminal
unfolding cortar
ronda orden seguir t l = elim l.texto [
  | [] ↦ none
  | c ∷ cs ↦ orden t (cortar l.texto) >>= λ t'. if l.fin then some t' else seguir l.resto t'
]

unfoldable pub bucle_script :
    (Terminal → List ℕ → Option Terminal) → ℕ → List ℕ → Terminal → Option Terminal
bucle_script orden zero bs t = none
bucle_script orden (suc m) bs t = ronda orden (bucle_script orden m) t (fgets 49 bs)

-- `ejecutar_script`, where `abrir` is `fopen` with what the file holds.
unfoldable pub ejecutar_script :
    (String → Option (List ℕ))
    → (Terminal → List ℕ → Option Terminal)
    → Terminal
    → String
    → Option Terminal
unfolding bucle_script
ejecutar_script abrir orden t path = elim (abrir path) [
  | none ↦ some t
  | some bs ↦ bucle_script orden (suc (length bs)) bs t
]

-- The functions of other libraries that the console uses, and what malloc left in a new PCB.
pub record Entorno : Type 0 where
  pub string_split : List ℕ → List String
  pub atoi : String → ℤ
  pub abrir : String → Option (List ℕ)
  pub basura : Pcb

-- The switch of `interactuar_consola`, for what a script does, with mensaje[1]: NULL where the command has
-- no argument, with which `atoi` and `fopen` fault, and so does PLP when it sends the path to the memory;
-- that fault is put where the process is created. The command `0` ends the program.
unfoldable pub segun_comando :
    Entorno
    → (Terminal → String → Option Terminal)
    → Terminal
    → FConsola
    → Option String
    → Option Terminal
unfolding crear_proceso finalizar_pid cambiar_multiprogramacion detener_planificacion
    iniciar_planificacion proceso_estado
segun_comando a script t iniciar_proceso none =
    if t.nucleo.planificacion_activa then none else some t
segun_comando a script t iniciar_proceso (some x) =
    some (record t { nucleo = crear_proceso t.nucleo a.basura x })
segun_comando a script t finalizar_proceso_ x = x >>= λ s. finalizar_pid t (a.atoi s)
segun_comando a script t ejecutar_script_ x = x >>= script t
segun_comando a script t detener_planificacion_ x =
    some (record t { nucleo = detener_planificacion t.nucleo })
segun_comando a script t iniciar_planificacion_ x =
    some (record t { nucleo = iniciar_planificacion t.nucleo })
segun_comando a script t proceso_estado_ x = some (proceso_estado t)
segun_comando a script t multiprogramacion_ x =
    x >>= λ s. cambiar_multiprogramacion t.nucleo (a.atoi s) >>= λ k. some (record t { nucleo = k })
segun_comando a script t terminar x = none
segun_comando a script t desconocido x = some t

-- `mensaje[0]` and `mensaje[1]` of the split text.
unfoldable pub con_mensaje :
    Entorno → (Terminal → String → Option Terminal) → Terminal → List String → Option Terminal
unfolding segun_comando get_terminal
con_mensaje a script t [] = none
con_mensaje a script t (c ∷ []) = segun_comando a script t (get_terminal c) none
con_mensaje a script t (c ∷ x ∷ xs) = segun_comando a script t (get_terminal c) (some x)

-- `interactuar_consola`, with scripts that call scripts down to a depth. `none` is a call that does not
-- return: it faults, waits forever, ends the program or goes deeper.
unfoldable pub interactuar_consola : ℕ → Entorno → Terminal → List ℕ → Option Terminal
unfolding con_mensaje ejecutar_script
interactuar_consola zero a t buffer = con_mensaje a (λ t' x. none) t (a.string_split buffer)
interactuar_consola (suc n) a t buffer =
    con_mensaje a (ejecutar_script a.abrir (interactuar_consola n a)) t (a.string_split buffer)
