-- ===== src/Kernel/Conserva.antt =====
-- What the schedulers do with a process that comes back from the CPU, against the kernel's queues.
use Prim.Native.String.{String}
use so_1c.Base.{
  ℕ, ◌+◌, ◌≤◌, ◌≡◌, refl, sym, inl, inr, Bool, true, false, [], ◌∷◌, ◌++◌, Option, some, uno, ◌==◌,
  ==_iff, arith, subst, Option-cases, caso, if◌then◌else◌,
}
use so_1c.Protocolo.{
  codigo, finalizacion, io, io_vector, pedirrecurso, darrecurso, fin_de_quantum, interrupcion, oom,
}
use so_1c.Kernel.{
  Kernel, SProceso, matadero, a_ready, a_ready_plus, con_estado, estado_blocked, estado_ready,
}
use so_1c.Kernel.Recursos.{buscar_recurso}
use so_1c.Kernel.Planificador.{
  Vuelta, get_quantum, caso_io, caso_pedir, caso_dar, caso_quantum, caso_quantum_vrr, segun_motivo,
  recibido, volver_fifo, volver_rr, volver_vrr, quitar_nombre,
}
use so_1c.Kernel.Cuenta.{presentes, Salda, veces-push}
use so_1c.Kernel.Saldo.{
  Salda-trans, Salda-igual, a_ready-Salda, a_ready_plus-Salda, matadero-Salda, pedir_recurso-Salda,
  liberar_recurso-Salda,
}

-- The step ends, and puts one process of pid n in the queues.
abbrev pub Guarda : Kernel → ℕ → Option Kernel → Type 0
Guarda k n o = (k' : Kernel) × (o ≡ some k') × Salda k k' (λ m. uno (n == m))

-- The CPU repeats IO after the reason of a request for an interface, and keeps the pid.
pub record Coherente (p : SProceso) (v : Vuelta) : Type 0 where
  pub mismo : v.pcb.pid ≡ p.pcb.pid
  pub de_io : v.motivo ≡ codigo io → v.segundo ≡ codigo io
  pub de_vector : v.motivo ≡ codigo io_vector → v.segundo ≡ codigo io

matadero-Guarda :
    (k : Kernel) (p : SProceso) (m : String) → Guarda k p.pcb.pid (some (matadero k p m))
matadero-Guarda k p m = (matadero k p m, refl, matadero-Salda k p m)

caso_io-Guarda :
    (k : Kernel) (p : SProceso) (v : Vuelta)
    → v.segundo ≡ codigo io
    → Guarda k p.pcb.pid (some (caso_io k p v))
unfolding caso_io presentes
caso_io-Guarda k p v h =
    let q = record (con_estado estado_blocked p) { multifuncion = v.texto } in
    (
      record k { l_blocked = k.l_blocked ++ q ∷ [] },
      rw ((==_iff v.segundo (codigo io)).1 h, caso_io) refl,
      record {
        cuentas = λ n. ground (arith, veces-push n k.l_blocked q);
        siguiente = refl;
        en_regla = λ r. r;
        listos = refl;
        muertos = refl;
      },
    )

caso_pedir-Guarda : (k : Kernel) (p : SProceso) (v : Vuelta) → Guarda k p.pcb.pid (caso_pedir k p v)
unfolding caso_pedir
caso_pedir-Guarda k p v =
    caso (Guarda k p.pcb.pid) (v.segundo == codigo pedirrecurso)
      (λ t. pedir_recurso-Salda k (record p { multifuncion = v.texto }))
      (λ t. matadero-Guarda k p "No coinciden los códigos de salida")

dar-Guarda :
    (vrr : Bool) (k : Kernel) (p : SProceso)
    → Guarda k p.pcb.pid (some (if vrr then a_ready_plus k p else a_ready k p))
dar-Guarda true k p = (a_ready_plus k p, refl, a_ready_plus-Salda k p)
dar-Guarda false k p = (a_ready k p, refl, a_ready-Salda k p)

caso_dar-Guarda :
    (vrr : Bool) (k : Kernel) (p : SProceso) (v : Vuelta) → Guarda k p.pcb.pid (caso_dar vrr k p v)
unfolding caso_dar
caso_dar-Guarda vrr k p v =
    caso (Guarda k p.pcb.pid) (v.segundo == codigo darrecurso)
      (λ t. elim (Option-cases (buscar_recurso v.texto k.recursos)) [
        | inl e ↦ rw e (matadero-Guarda k p "Pidio un recurso no existente")
        | inr (i, e) ↦
            let (k', l, s) = liberar_recurso-Salda k v.texto i e in
            let q = record p {
              recursos = quitar_nombre v.texto p.recursos;
              multifuncion = v.texto;
            } in
            let (k'', m, s') = dar-Guarda vrr k' q in
            (k'', rw (e, l) m, Salda-igual (Salda-trans s s') λ n. omega arith)
      ])
      (λ t. matadero-Guarda k p "No coinciden los códigos de salida")

segun_motivo-Guarda :
    (vrr : Bool) (gastar : SProceso → SProceso) (al_vencer : Kernel → SProceso → Option Kernel)
    (k : Kernel) (p : SProceso) (v : Vuelta)
    → (gastar p).pcb.pid ≡ p.pcb.pid
    → Guarda k p.pcb.pid (al_vencer k p)
    → (v.motivo ≡ codigo io → v.segundo ≡ codigo io)
    → (v.motivo ≡ codigo io_vector → v.segundo ≡ codigo io)
    → Guarda k p.pcb.pid (segun_motivo vrr gastar al_vencer k p v)
unfolding segun_motivo
segun_motivo-Guarda vrr gastar al_vencer k p v g a h i =
    let G = Guarda k p.pcb.pid in
    let q = gastar p in
    caso G (v.motivo == codigo finalizacion) (λ t. matadero-Guarda k p "Éxito")
      λ _.
        caso G (v.motivo == codigo io)
          (λ t.
            subst (λ n. Guarda k n (some (caso_io k q v))) g
              (caso_io-Guarda k q v (h ((==_iff v.motivo (codigo io)).0 t))))
          λ _.
            caso G (v.motivo == codigo io_vector)
              (λ t.
                subst (λ n. Guarda k n (some (caso_io k q v))) g
                  (caso_io-Guarda k q v (i ((==_iff v.motivo (codigo io_vector)).0 t))))
              λ _.
                caso G (v.motivo == codigo pedirrecurso)
                  (λ t. subst (λ n. Guarda k n (caso_pedir k q v)) g (caso_pedir-Guarda k q v))
                  λ _.
                    caso G (v.motivo == codigo darrecurso)
                      (λ t.
                        subst (λ n. Guarda k n (caso_dar vrr k q v)) g (caso_dar-Guarda vrr k q v))
                      λ _.
                        caso G (v.motivo == codigo fin_de_quantum) (λ t. a)
                          λ _.
                            caso G (v.motivo == codigo interrupcion)
                              (λ t. matadero-Guarda k p "Interrumpido por Usuario")
                              λ _.
                                caso G (v.motivo == codigo oom)
                                  (λ t. matadero-Guarda k p "Out of Memory")
                                  λ _. matadero-Guarda k p "Envio codigo de salida no valido"

-- Under each of the three schedulers, whatever reason the CPU gives, if it keeps the pid and repeats
-- IO in a request for an interface: the turn ends, and the process that came back stands in exactly one
-- queue more, every other process stands in as many queues as before; if each resource had at most as
-- many waiting processes as its instancias is below 0, each still has; and where semPCP and semEXIT
-- counted their queues, they still do.
pub volver-Guarda :
    (k : Kernel) (p : SProceso) (v : Vuelta)
    → Coherente p v
    → Guarda k p.pcb.pid (volver_fifo k p v)
      × Guarda k p.pcb.pid (volver_rr k p v)
      × Guarda k p.pcb.pid (volver_vrr k p v)
unfolding volver_fifo volver_rr volver_vrr caso_quantum caso_quantum_vrr get_quantum presentes
volver-Guarda k p v c = rw (sym c.mismo) (
  (let (k', e, s) =
        segun_motivo-Guarda false (λ q. q)
          (λ k' q. some (matadero k' q "Envio codigo de salida no valido")) k0 p0 v refl
          (matadero-Guarda k0 p0 "Envio codigo de salida no valido") c.de_io c.de_vector in
      (k', e, vista s)),
  (let (k', e, s) =
        segun_motivo-Guarda false (λ q. q) (λ k' q. some (caso_quantum k' q)) k0 p0 v refl
          (
            a_ready k0 (con_estado estado_ready p0),
            refl,
            a_ready-Salda k0 (con_estado estado_ready p0),
          )
          c.de_io c.de_vector in
      (k', e, vista s)),
  (let (k', e, s) =
        segun_motivo-Guarda true (λ q. get_quantum q v.transcurrido)
          (λ k' q. some (caso_quantum_vrr k' q)) k0 p0 v refl
          (a_ready k0 r0, refl, a_ready-Salda k0 r0) c.de_io c.de_vector in
      (k', e, vista s)),
)
  where
    k0 : Kernel
    k0 = recibido k

    p0 : SProceso
    p0 = record p { pcb = v.pcb }

    r0 : SProceso
    r0 = con_estado estado_ready (record p0 { pcb = record v.pcb { quantum = k.quantum } })

    vista : {k' : Kernel} {f : ℕ → ℕ} → Salda k0 k' f → Salda k k' f
    vista s = record {
      cuentas = s.cuentas;
      siguiente = s.siguiente;
      en_regla = s.en_regla;
      listos = s.listos;
      muertos = s.muertos;
    }

-- `get_quantum` never gives a process more than it had, what it takes is at most the time that
-- passed, and a process that used less than its quantum keeps the rest exactly.
pub get_quantum-le :
    (p : SProceso) (t : ℕ)
    → let q = (get_quantum p t).pcb.quantum in
      (q ≤ p.pcb.quantum) × (p.pcb.quantum ≤ q + t) × (t ≤ p.pcb.quantum → q + t ≡ p.pcb.quantum)
unfolding get_quantum
get_quantum-le p t = ground arith
