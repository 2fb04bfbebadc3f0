-- ===== src/Kernel/Guion.antt =====
-- What the console prints and what a script does (kernel.c: proceso_estado, ejecutar_script).
use so_1c.Base.{
  ℕ, ◌+◌, ◌≡◌, refl, List, [], ◌∷◌, ◌++◌, Option, none, some, if◌then◌else◌, ◌==◌, map, uno, arith,
  caso, Bool-cases, inl, inr,
}
use so_1c.Kernel.{Kernel, Recurso, SProceso}
use so_1c.Kernel.Cuenta.{veces, esperando, presentes}
use so_1c.Kernel.Terminal.{
  Terminal, Renglon, listar_procesos, listar_running, listar_recursos, listar_todo, proceso_estado,
  detener_planificacion, iniciar_planificacion,
}

-- The times that a pid is printed.
unfoldable pub apariciones : ℕ → List ℕ → ℕ
apariciones n [] = 0
apariciones n (m ∷ ms) = uno (m == n) + apariciones n ms

unfoldable pub impreso : ℕ → List Renglon → ℕ
unfolding apariciones
impreso n [] = 0
impreso n (r ∷ rs) = apariciones n r.1 + impreso n rs

abbrev pub corriendo : ℕ → Option ℕ → ℕ
corriendo n none = 0
corriendo n (some m) = uno (m == n)

apariciones-map :
    (n : ℕ) (ps : List SProceso) → apariciones n (map (λ p. p.pcb.pid) ps) ≡ veces n ps
unfolding apariciones veces
apariciones-map n [] = refl
apariciones-map n (p ∷ ps) = ground (arith, apariciones-map n ps)

impreso-append : (n : ℕ) (rs qs : List Renglon) → impreso n (rs ++ qs) ≡ impreso n rs + impreso n qs
unfolding impreso
impreso-append n [] qs = omega arith
impreso-append n (r ∷ rs) qs = ground (arith, impreso-append n rs qs)

impreso-listar :
    (n e : ℕ) (ps : List SProceso) (rs : List Renglon)
    → impreso n (listar_procesos ps e ∷ rs) ≡ veces n ps + impreso n rs
unfolding impreso listar_procesos
impreso-listar n e ps rs = ground (arith, apariciones-map n ps)

impreso-recursos : (n : ℕ) (rs : List Recurso) → impreso n (listar_recursos rs) ≡ esperando n rs
unfolding listar_recursos esperando impreso
impreso-recursos n [] = refl
impreso-recursos n (r ∷ rs) =
    ground (arith, impreso-listar n 4 r.bloqueados (listar_recursos rs), impreso-recursos n rs)

impreso-running : (n : ℕ) (o : Option ℕ) → impreso n (listar_running o) ≡ corriendo n o
unfolding listar_running impreso apariciones
impreso-running n none = refl
impreso-running n (some m) = omega arith

impreso-todo :
    (n : ℕ) (k : Kernel)
    → impreso n (listar_todo k) + veces n k.c_ready_plus ≡ presentes n k + corriendo n k.pid_running
unfolding listar_todo presentes impreso
impreso-todo n k =
    rw
      (
        listar_todo,
        impreso-listar n 0 k.c_new,
        impreso-listar n 1 k.c_ready,
        impreso-append n (listar_running k.pid_running),
        impreso-running n k.pid_running,
        impreso-listar n 4 k.l_blocked,
        impreso-append n (listar_recursos k.recursos),
        impreso-recursos n k.recursos,
        impreso-listar n 5 k.c_exit [],
      )
      (omega arith)

-- With the scheduling stopped.
listar-detener : (k : Kernel) → listar_todo (detener_planificacion k) ≡ listar_todo k
unfolding detener_planificacion listar_todo
listar-detener k =
    caso (λ (x : Kernel). listar_todo x ≡ listar_todo k) k.planificacion_activa (λ _. refl)
      (λ _. refl)

vuelve_a_ser :
    (k : Kernel)
    → (if k.planificacion_activa
        then iniciar_planificacion (detener_planificacion k)
        else detener_planificacion k)
      ≡ k
unfolding detener_planificacion iniciar_planificacion
vuelve_a_ser k = elim (Bool-cases k.planificacion_activa) [ inl e ↦ rw e refl | inr e ↦ rw e refl ]

-- proceso_estado leaves the kernel as it was, also its flag of the scheduling, and adds lines that have each
-- pid as many times as the process stands in a queue or is the running one, less the times that it stands
-- in READY+, which is not printed.
pub proceso_estado_lem :
    (t : Terminal)
    → ((proceso_estado t).nucleo ≡ t.nucleo)
      × ((n : ℕ)
          → impreso n (proceso_estado t).salida + veces n t.nucleo.c_ready_plus
            ≡ impreso n t.salida + (presentes n t.nucleo + corriendo n t.nucleo.pid_running))
unfolding proceso_estado
proceso_estado_lem t = (
  vuelve_a_ser t.nucleo,
  λ n.
      rw (listar-detener t.nucleo, impreso-append n t.salida (listar_todo t.nucleo))
        (omega (arith, impreso-todo n t.nucleo)),
)
