-- ===== src/Kernel/Algoritmo.antt =====
-- The scheduler that main starts for ALGORITMO_PLANIFICACION (kernel/src/main.c).
use Prim.Native.String.{String}
use text.Mathlib.Text.{◌==◌ as str_eq}
use so_1c.Base.{Bool, true, false, Option, if◌then◌else◌}
use so_1c.Kernel.{Kernel, SProceso}
use so_1c.Kernel.Planificador.{
  Vuelta, despachar_ready, despachar_vrr, volver_fifo, volver_rr, volver_vrr,
}

pub data Algoritmo : Type 0 where
  fifo rr vrr : Algoritmo

-- Any other name is VRR.
unfoldable pub elegir : String → Algoritmo
elegir nombre = if str_eq nombre "FIFO" then fifo else if str_eq nombre "RR" then rr else vrr

-- `planiEsVrr`
unfoldable pub es_vrr : Algoritmo → Bool
es_vrr fifo = false
es_vrr rr = false
es_vrr vrr = true

-- The two halves of a round of the scheduler, before and after the CPU.
unfoldable pub despachar_segun : Algoritmo → Kernel → Option (SProceso × Kernel)
unfolding despachar_ready despachar_vrr
despachar_segun fifo k = despachar_ready k
despachar_segun rr k = despachar_ready k
despachar_segun vrr k = despachar_vrr k

unfoldable pub volver_segun : Algoritmo → Kernel → SProceso → Vuelta → Option Kernel
unfolding volver_fifo volver_rr volver_vrr
volver_segun fifo k p v = volver_fifo k p v
volver_segun rr k p v = volver_rr k p v
volver_segun vrr k p v = volver_vrr k p v
