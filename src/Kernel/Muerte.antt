-- ===== src/Kernel/Muerte.antt =====
-- FINALIZAR_PROCESO of the process that runs: from the console of the kernel (utils/src/kernel/kernel.c) through
-- the CPU (utils/src/cpu/cpu.c, cpu/src/main.c) and back to the scheduler.
use so_1c.Base.{
  ℕ, suc, ◌^◌, ◌<◌, ◌≡◌, refl, List, [], ◌∷◌, ◌++◌, some, ==_iff, length, arith, inl, inr,
}
use so_1c.Protocolo.{codigo, interrupcion}
use so_1c.Cpu.{Cpu}
use so_1c.Cpu.Ciclo.{Interrupcion, atender_interrupciones, devolver}
use so_1c.Cpu.Leyes.{Para, Alguna, interrupcion_gana}
use so_1c.Cpu.Avisos.{interrupciones, Legales, avisar, interrupciones-avisar}
use so_1c.Kernel.{Kernel, SProceso, matadero}
use so_1c.Kernel.Consola.{finalizar_proceso}
use so_1c.Kernel.Planificador.{Vuelta, volver_fifo, volver_rr, volver_vrr, segun_motivo, recibido}
use so_1c.Kernel.Turno.{recibir_vuelta}

-- What `finalizar_proceso` sends.
abbrev pub de_consola : ℕ → Interrupcion
de_consola n = record { pid = n; motivo = codigo interrupcion }

-- Under each scheduler the process that came back goes to EXIT.
abbrev pub Muere : Kernel → SProceso → Vuelta → Type 0
Muere k p v =
    let fin = matadero (recibido k) (record p { pcb = v.pcb }) "Interrumpido por Usuario" in
    (volver_fifo k p v ≡ some fin) × (volver_rr k p v ≡ some fin) × (volver_vrr k p v ≡ some fin)

muere : (k : Kernel) (p : SProceso) (v : Vuelta) → v.motivo ≡ codigo interrupcion → Muere k p v
unfolding volver_fifo volver_rr volver_vrr segun_motivo codigo
muere k p v e = (rw e refl, rw e refl, rw e refl)

append-Legales : (is js : List Interrupcion) → Legales is → Legales js → Legales (is ++ js)
unfolding Legales
append-Legales [] js h g = g
append-Legales (i ∷ is) js (a, b, h) g = (a, b, append-Legales is js h g)

append-Alguna :
    (is js : List Interrupcion) (n : ℕ)
    → Alguna (Para n (codigo interrupcion)) (is ++ de_consola n ∷ js)
append-Alguna [] js n = inl (refl, refl)
append-Alguna (i ∷ is) js n = inr (append-Alguna is js n)

module _ {M : Type 0} (malloc : ℕ → List ℕ) where
  leer_muerte :
      (t : ℕ) (d : Cpu M)
      → d.se_va ≡ codigo interrupcion
      → (v : Vuelta) × (recibir_vuelta t (devolver d).0 ≡ some (v, []))
        × (v.motivo ≡ codigo interrupcion)
  unfolding recibir_vuelta devolver codigo
  leer_muerte t d e = (
    record { motivo = d.se_va; pcb = d.pcb; segundo = 0; texto = ""; transcurrido = t },
    rw e refl,
    e,
  )

  -- FINALIZAR_PROCESO of the running process, among any interruptions that the kernel sends before and after it:
  -- the thread of the CPU queues exactly what was sent, in its order. Where the check of a round of that
  -- process finds all of it queued, the CPU gives the process back whatever its last instruction asked
  -- for, and under each scheduler the process goes to EXIT as interrupted by the user.
  pub finalizar_proceso-interrupciones :
      (k k' : Kernel) (p : SProceso) (n t : ℕ) (antes despues : List Interrupcion) (c : Cpu M)
      → ((m : ℕ) → length (malloc m) ≡ m)
      → k.pid_running ≡ some n
      → n < 2 ^ 32
      → Legales antes
      → Legales despues
      → c.pcb.pid ≡ n
      → let is = antes ++ de_consola n ∷ despues in
        (finalizar_proceso k n ≡ some (some n, k))
        × (bs : List ℕ) × (avisar malloc is ≡ some bs)
        × (interrupciones (suc (length bs)) bs ≡ some is)
        × (v : Vuelta) × (recibir_vuelta t (devolver (atender_interrupciones is c)).0
            ≡ some (v, []))
        × Muere k' p v
  unfolding finalizar_proceso Legales codigo
  finalizar_proceso-interrupciones k k' p n t antes despues c ley e l h g q =
      let is = antes ++ de_consola n ∷ despues in
      let (bs, a, b, f) =
        interrupciones-avisar malloc ley is
          (append-Legales antes (de_consola n ∷ despues) h (l, omega arith, g)) in
      let z = interrupcion_gana is c (rw q (append-Alguna antes despues n)) in
      let (v, x, y) = leer_muerte t (atender_interrupciones is c) z in
      (
        rw (e, (==_iff n n).1 refl) refl,
        bs,
        a,
        f (suc (length bs)) (omega (arith, b)),
        v,
        x,
        muere k' p v y,
      )
