-- ===== src/Kernel/Planes.antt =====
-- The long-term scheduler and the end of a process (kernel.c: PLP, enviar_proceso, carnicero).
use so_1c.Base.{ℕ, ◌^◌, List, [], ◌∷◌, Option, none, some, ◌>>=◌}
use so_1c.Kernel.{Kernel, SProceso, con_estado, matadero, a_ready, sem_wait, estado_ready}
use so_1c.Kernel.Recursos.{liberar_todos}
use Prim.Native.String.{String}

-- `queue_pop`; the caller dereferences the NULL of an empty queue.
abbrev pub queue_pop : List SProceso → Option (SProceso × List SProceso)
queue_pop [] = none
queue_pop (p ∷ ps) = some (p, ps)

-- NULL, as an index that no process has.
abbrev pub nulo : ℕ
nulo = 2 ^ 64

-- The first half of a turn of `PLP`: it takes a process off NEW, and then waits for a place.
unfoldable pub tomar_nuevo : Kernel → Option (SProceso × Kernel)
tomar_nuevo k = sem_wait k.sem_plp >>= λ s.
    queue_pop k.c_new >>= λ r. some (r.0, record k { sem_plp = s; c_new = r.1 })

-- The second half, which takes the place. The memory answers the path and the pid with the pointer to
-- the process, or with nothing where it could not open the file.
unfoldable pub admitir : (String → ℕ → Option ℕ) → SProceso → Kernel → Option Kernel
admitir memoria p k = sem_wait k.s_multiprogramacion >>= λ m.
    let k' = record k { s_multiprogramacion = m } in
    elim (memoria p.multifuncion p.pcb.pid) [
      | none ↦ some (
          matadero k' (record p { pcb = record p.pcb { instrucciones = nulo } })
            "La memoria no pudo abrir el archivo")
      | some i ↦ some (
          a_ready k'
            (con_estado estado_ready (record p { pcb = record p.pcb { instrucciones = i } })))
    ]

-- One turn of `PLP`, where no other thread runs between its halves.
unfoldable pub plp : (String → ℕ → Option ℕ) → Kernel → Option Kernel
unfolding tomar_nuevo admitir
plp memoria k = tomar_nuevo k >>= λ r. admitir memoria r.0 r.1

-- One turn of `carnicero`: the pointer that it sends to the memory, and the process's resources back.
unfoldable pub carnicero : Kernel → Option (ℕ × Kernel)
carnicero k = sem_wait k.sem_exit >>= λ s. queue_pop k.c_exit >>= λ r.
    liberar_todos (record k { sem_exit = s; c_exit = r.1 }) (r.0.recursos) >>= λ k'.
    some (r.0.pcb.instrucciones, k')
