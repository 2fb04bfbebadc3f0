-- ===== src/Kernel/Despacho.antt =====
-- The pops of the kernel against its counting semaphores, and what a kill from the console leaves.
use Prim.Native.String.{String}
use so_1c.Base.{
  ℕ, zero, suc, ◌+◌, ◌<◌, ◌≡◌, refl, ◌⊎◌, inl, inr, List, [], ◌∷◌, ◌++◌, Option, none, some, length,
  arith, Option-cases,
}
use so_1c.Kernel.{
  Kernel, SProceso, matadero, a_ready, con_estado, estado_new, estado_ready, estado_running,
  estado_finished,
}
use so_1c.Kernel.Planes.{plp, nulo}
use so_1c.Kernel.Planificador.{despachar_ready, despachar_vrr, a_running}
use so_1c.Kernel.Cuenta.{veces, es, presentes, veces-push}

-- A dispatch that took one process, which runs now.
abbrev pub Despacha : Kernel → Option (SProceso × Kernel) → Type 0
Despacha k o =
    (p : SProceso) × (k' : Kernel) × (o ≡ some (p, k'))
    × (p.pcb.estado ≡ estado_running)
    × (k'.pid_running ≡ some p.pcb.pid)
    × (k'.id_pcb ≡ k.id_pcb)
    × (k'.sem_pcp ≡ length k'.c_ready + length k'.c_ready_plus)
    × ((n : ℕ) → presentes n k' + es n p ≡ presentes n k)
    × ((k.c_ready_plus ≡ []) ⊎ (k'.c_ready ≡ k.c_ready))

despachar_en :
    (k : Kernel) (s : ℕ) (r q : List SProceso)
    → s ≡ length r + length q
    → 0 < s
    → let k0 = record k { sem_pcp = s; c_ready = r; c_ready_plus = q } in
      Despacha k0 (despachar_vrr k0) × (q ≡ [] → Despacha k0 (despachar_ready k0))
unfolding despachar_vrr despachar_ready a_running presentes veces
despachar_en k zero r q h z = absurd (omega arith)
despachar_en k (suc s) [] [] h z = absurd (ground arith)
despachar_en k (suc s) (p ∷ ps) [] h z =
    let k' = record k {
      sem_pcp = s;
      c_ready = ps;
      c_ready_plus = [];
      pid_running = some p.pcb.pid;
    } in
    let d : Despacha (record k { sem_pcp = suc s; c_ready = p ∷ ps; c_ready_plus = [] })
        (some (a_running (record k { sem_pcp = s; c_ready = ps; c_ready_plus = [] }) p)) =
      (
        con_estado estado_running p,
        k',
        refl,
        refl,
        refl,
        refl,
        ground (arith, h),
        (λ n. ground arith),
        inl refl,
      ) in
    (d, λ e. d)
despachar_en k (suc s) r (p ∷ ps) h z =
    let k' = record k {
      sem_pcp = s;
      c_ready = r;
      c_ready_plus = ps;
      pid_running = some p.pcb.pid;
    } in
    (
      (
        con_estado estado_running p,
        k',
        refl,
        refl,
        refl,
        refl,
        ground (arith, h),
        (λ n. ground arith),
        inr refl,
      ),
      λ e. absurd (cc e),
    )

-- Where semPCP counts the ready processes and is not 0, VRR's dispatch never pops an empty queue: one
-- process goes to RUNNING, the others stay in the queues, semPCP counts again, and READY is only
-- touched where READY+ is empty.
pub despachar_vrr-Despacha :
    (k : Kernel)
    → k.sem_pcp ≡ length k.c_ready + length k.c_ready_plus
    → 0 < k.sem_pcp
    → Despacha k (despachar_vrr k)
despachar_vrr-Despacha k h z = (despachar_en k k.sem_pcp k.c_ready k.c_ready_plus h z).0

-- The same of the dispatch of FIFO and RR, which leave READY+ empty.
pub despachar_ready-Despacha :
    (k : Kernel)
    → k.sem_pcp ≡ length k.c_ready + length k.c_ready_plus
    → 0 < k.sem_pcp
    → k.c_ready_plus ≡ []
    → Despacha k (despachar_ready k)
despachar_ready-Despacha k h z e = (despachar_en k k.sem_pcp k.c_ready k.c_ready_plus h z).1 e

-- The process with the pointer that the memory gave, or NULL.
abbrev pub con_instrucciones : ℕ → SProceso → SProceso
con_instrucciones i p = record p { pcb = record p.pcb { instrucciones = i } }

-- A process at the end of EXIT, as `matadero` leaves it.
abbrev pub muerto : SProceso → String → SProceso
muerto p motivo = record (con_estado estado_finished p) { multifuncion = motivo }

-- Where a process goes by the memory's answer, and the semaphore that is posted.
abbrev pub Llega : Option ℕ → SProceso → Kernel → Kernel → Type 0
Llega none p k k' =
    (k'.c_exit
      ≡ k.c_exit ++ muerto (con_instrucciones nulo p) "La memoria no pudo abrir el archivo" ∷ [])
    × (k'.sem_exit ≡ suc k.sem_exit)
    × (k'.c_ready ≡ k.c_ready)
    × (k'.sem_pcp ≡ k.sem_pcp)
Llega (some i) p k k' =
    (k'.c_ready ≡ k.c_ready ++ con_estado estado_ready (con_instrucciones i p) ∷ [])
    × (k'.sem_pcp ≡ suc k.sem_pcp)
    × (k'.c_exit ≡ k.c_exit)
    × (k'.sem_exit ≡ k.sem_exit)

-- A turn of the long-term scheduler: the oldest process of NEW left for the queue that the memory's answer
-- says, and a place of the degree of multiprogramming is taken.
abbrev pub Admite : (String → ℕ → Option ℕ) → Kernel → Option Kernel → Type 0
Admite memoria k o =
    (p : SProceso) × (k' : Kernel) × (o ≡ some k')
    × (k.c_new ≡ p ∷ k'.c_new)
    × (k'.sem_plp ≡ length k'.c_new)
    × (suc k'.s_multiprogramacion ≡ k.s_multiprogramacion)
    × Llega (memoria p.multifuncion p.pcb.pid) p k k'
    × ((n : ℕ) → presentes n k' ≡ presentes n k)

-- Every process is NEW.
abbrev pub Nuevos : List SProceso → Type 0
Nuevos [] = Unit {0}
Nuevos (p ∷ ps) = (p.pcb.estado ≡ estado_new) × Nuevos ps

plp_en :
    (k : Kernel) (memoria : String → ℕ → Option ℕ) (s m : ℕ) (ns : List SProceso)
    → s ≡ length ns
    → 0 < s
    → 0 < m
    → Nuevos ns
    → let k0 = record k { sem_plp = s; s_multiprogramacion = m; c_new = ns } in
      Admite memoria k0 (plp memoria k0)
unfolding plp a_ready matadero presentes veces
plp_en k memoria zero m ns h z y v = absurd (omega arith)
plp_en k memoria (suc s) zero ns h z y v = absurd (omega arith)
plp_en k memoria (suc s) (suc m) [] h z y v = absurd (ground arith)
plp_en k memoria (suc s) (suc m) (p ∷ ps) h z y (e, v) =
    let k0 = record k { sem_plp = suc s; s_multiprogramacion = suc m; c_new = p ∷ ps } in
    let k1 = record k { sem_plp = s; s_multiprogramacion = m; c_new = ps } in
    elim (Option-cases (memoria p.multifuncion p.pcb.pid)) [
      | inl t ↦
          let q = con_instrucciones nulo p in
          let motivo : String = "La memoria no pudo abrir el archivo" in
          (
            p,
            matadero k1 q motivo,
            rw (t, plp) refl,
            refl,
            ground (arith, h),
            ground (arith, e),
            rw t (refl, refl, refl, refl),
            (λ n. ground (arith, veces-push n k.c_exit (muerto q motivo))),
          )
      | inr (i, t) ↦
          let q = con_estado estado_ready (con_instrucciones i p) in
          (
            p,
            a_ready k1 q,
            rw (t, plp) refl,
            refl,
            ground (arith, h),
            refl,
            rw t (refl, refl, refl, refl),
            (λ n. ground (arith, veces-push n k.c_ready q)),
          )
    ]

-- Where semPLP counts the processes of NEW, all in state NEW, and there is one, and the degree of
-- multiprogramming has a place: a turn of `PLP` ends, takes the oldest of NEW and a place, and semPLP counts
-- again. With the memory's pointer it goes to the end of READY, which posts semPCP; where the memory could
-- not open its file it goes to the end of EXIT with a NULL, which posts semEXIT, and the place stays taken.
pub plp-Admite :
    (k : Kernel) (memoria : String → ℕ → Option ℕ)
    → k.sem_plp ≡ length k.c_new
    → 0 < k.sem_plp
    → 0 < k.s_multiprogramacion
    → Nuevos k.c_new
    → Admite memoria k (plp memoria k)
plp-Admite k memoria h z y v = plp_en k memoria k.sem_plp k.s_multiprogramacion k.c_new h z y v
