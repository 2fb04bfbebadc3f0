-- ===== src/Kernel/Turno.antt =====
-- A turn of the CPU as the scheduler sees it: what main of the CPU (cpu/src/main.c) does between the PCB that it
-- gets and the one that it sends back, and what the schedulers (utils/src/kernel/kernel.c) read of it.
use Prim.Native.String.{String}
use so_1c.Base.{
  ℕ, ◌≡◌, refl, subst, ◌<◌, Bool, true, false, not, Bool-cases, inl, inr, List, [], ◌∷◌, Option,
  none, some, if◌then◌else◌, ◌==◌, ==_iff, ◌||◌, ◌&&◌, arith,
}
use so_1c.Protocolo.{codigo, io, io_vector, pedirrecurso, darrecurso}
use so_1c.Memoria.Servidor.{PeticionCpu}
use so_1c.Cpu.{Pcb, Config, Cpu, ServidorMemoria, Paso, ◌>>=◌}
use so_1c.Cpu.Nombres.{EnRango}
use so_1c.Cpu.Ciclo.{
  Interrupcion, Salida, pcb_con, cadena_con, direcciones, despachar, ciclo, correr, devolver,
}
use so_1c.Cpu.Conserva.{partes, Conserva, Bien, Conserva-trans, de_pedir}
use so_1c.Cpu.Transferencias.{pedir}
use so_1c.Cpu.Rondas.{correr-Mantiene}
use so_1c.Kernel.{SProceso}
use so_1c.Kernel.Planificador.{Vuelta}
use so_1c.Kernel.Conserva.{Coherente}

-- The packet that follows the PCB: where the codes have to match and do not, its text stays on the socket,
-- which is `none`.
unfoldable pub con_texto : Bool → ℕ → ℕ → Pcb → List Salida → Option (Vuelta × List Salida)
con_texto iguales t m p (cadena_con o x ∷ os) =
    if iguales && not (o == m)
    then none
    else some (record { motivo = m; pcb = p; segundo = o; texto = x; transcurrido = t }, os)
con_texto iguales t m p os = none

-- What a scheduler reads from the dispatch socket in a turn of t milliseconds, and what it leaves there: the
-- reason and the PCB, and by the reason a packet. Where nothing more comes it waits for ever, `none`.
unfoldable pub recibir_vuelta : ℕ → List Salida → Option (Vuelta × List Salida)
unfolding con_texto
recibir_vuelta t (pcb_con m p ∷ os) =
    if m == codigo darrecurso || m == codigo pedirrecurso
    then con_texto true t m p os
    else (if m == codigo io || m == codigo io_vector
        then con_texto false t m p os
        else some (record { motivo = m; pcb = p; segundo = 0; texto = ""; transcurrido = t }, os))
recibir_vuelta t os = none

-- The vector that the IO thread reads after the scheduler.
abbrev pub pendiente : ℕ → List ℕ → List Salida
pendiente m ds = if m == codigo io_vector then direcciones ds ∷ [] else []

-- What comes back of a process: the PCB with its pid, quantum and instructions and with
-- registers in their widths, and the code that the scheduler compares.
pub record Regreso (p : SProceso) (v : Vuelta) : Type 0 where
  pub coherente : Coherente p v
  pub de_pedir : v.motivo ≡ codigo pedirrecurso → v.segundo ≡ codigo pedirrecurso
  pub de_dar : v.motivo ≡ codigo darrecurso → v.segundo ≡ codigo darrecurso
  pub cuanto : v.pcb.quantum ≡ p.pcb.quantum
  pub instrucciones : v.pcb.instrucciones ≡ p.pcb.instrucciones
  pub rango : EnRango p.pcb.registros → EnRango v.pcb.registros

-- The reads end, the turn comes back and the vector of addresses is what is left.
abbrev pub Leido : SProceso → ℕ → List ℕ → ℕ → List Salida → Type 0
Leido p m ds t os =
    (v : Vuelta) × (recibir_vuelta t os ≡ some (v, pendiente m ds)) × (v.motivo ≡ m) × Regreso p v

-- The messages of a turn that left the CPU in the given state, which is ready for another process.
abbrev pub Vuelve : {M : Type 0} → SProceso → ℕ → List Salida → Cpu M → Type 0
Vuelve p t os d = (m : ℕ) × (0 < m) × Leido p m d.vector_direcciones t os × (d.se_va ≡ 0)

dado : {A : Type 0} {a b : A} → some a ≡ some b → a ≡ b
dado e = cc

module _ {M : Type 0} where
  leer_vuelta :
      (p : SProceso) (t : ℕ) (d : Cpu M)
      → d.pcb.pid ≡ p.pcb.pid
      → d.pcb.quantum ≡ p.pcb.quantum
      → d.pcb.instrucciones ≡ p.pcb.instrucciones
      → (EnRango p.pcb.registros → EnRango d.pcb.registros)
      → Leido p d.se_va d.vector_direcciones t (devolver d).0
  unfolding devolver recibir_vuelta codigo
  leer_vuelta p t d i q c r = elim (Bool-cases (d.se_va == 9 || d.se_va == 8)) [
    | inl e ↦
        rw (e, (==_iff d.se_va d.se_va).1 refl)
          (
            vuelta d.se_va d.a_enviar,
            no_21 (ground (arith, e)),
            refl,
            regresa d.se_va d.a_enviar (ground (arith, e)) (ground (arith, e)) (λ h. h) (λ h. h),
          )
    | inr n ↦ elim (Bool-cases (d.se_va == 20)) [
      | inl e ↦
          rw (n, e)
            (
              vuelta 20 d.a_enviar,
              no_21 (ground (arith, e)),
              refl,
              regresa 20 d.a_enviar (λ _. refl) (λ _. refl) (ground (arith, n)) (ground (arith, n)),
            )
      | inr z ↦ elim (Bool-cases (d.se_va == 21)) [
        | inl e ↦
            rw (n, z, e)
              (
                vuelta 20 d.a_enviar,
                refl,
                refl,
                regresa 20 d.a_enviar (λ _. refl) (λ _. refl) (ground (arith, n))
                    (ground (arith, n)),
              )
        | inr y ↦
            rw (n, z, y)
              (
                vuelta 0 "",
                refl,
                refl,
                regresa 0 "" (ground (arith, z)) (ground (arith, y)) (ground (arith, n))
                    (ground (arith, n)),
              )
      ]
    ]
  ]
    where
      no_21 :
          {v : Vuelta}
          → (d.se_va == 21) ≡ false
          → ◌≡◌ {A = Option (Vuelta × List Salida)}
              (some (v, []))
              (some (v, pendiente d.se_va d.vector_direcciones))
      no_21 h = rw h refl

      vuelta : ℕ → String → Vuelta
      vuelta o x = record {
        motivo = d.se_va;
        pcb = d.pcb;
        segundo = o;
        texto = x;
        transcurrido = t;
      }

      regresa :
          (o : ℕ) (x : String)
          → (d.se_va ≡ 20 → o ≡ 20)
          → (d.se_va ≡ 21 → o ≡ 20)
          → (d.se_va ≡ 8 → o ≡ 8)
          → (d.se_va ≡ 9 → o ≡ 9)
          → Regreso p (vuelta o x)
      regresa o x io_io vector_io pedir dar = record {
        coherente = record { mismo = i; de_io = io_io; de_vector = vector_io };
        de_pedir = pedir;
        de_dar = dar;
        cuanto = q;
        instrucciones = c;
        rango = r;
      }

  con_motivo :
      (c d : Cpu M) (u : Unit {0})
      → ◌≡◌ {A = Unit {0} × Cpu M} (tt, c) (u, d)
      → (c.se_va == 0) ≡ false
      → 0 < d.se_va
  con_motivo c d u e n = subst (λ (x : Unit {0} × Cpu M). 0 < x.1.se_va) e (ground (arith, n))

  module _ (k : Config) (s : ServidorMemoria M) (partir : List ℕ → List String) (atoi : String → ℕ)
      (decimal : ℕ → String) where
    -- A round of the outer loop of main.
    unfoldable pub turno : Pcb → List (List Interrupcion) → Paso M (List Salida)
    unfolding despachar correr devolver
    turno p iss = do
      inicio ← despachar k s partir atoi decimal p
      fin ← correr k s partir atoi decimal iss
      λ c. some (devolver c)

    despachar-Conserva :
        (p : Pcb) (c d : Cpu M) (u : Unit {0})
        → despachar k s partir atoi decimal p c ≡ some (u, d)
        → Conserva (record c { pcb = p }) d
    unfolding despachar
    despachar-Conserva p c d u e =
        let c0 = record c { pcb = p } in
        let q = PeticionCpu.proceso p.instrucciones in
        let (os, d1, f, g) = partes (pedir k s q) _ c0 e in
        subst (λ (x : Unit {0} × Cpu M). Conserva c0 x.1) (dado g)
          (subst (Bien c0) f (de_pedir k s q c0))

    -- The loop leaves with a reason.
    correr-se_va :
        (iss : List (List Interrupcion)) (c d : Cpu M) (u : Unit {0})
        → correr k s partir atoi decimal iss c ≡ some (u, d)
        → 0 < d.se_va
    unfolding correr
    correr-se_va [] c d u e = elim (Bool-cases (c.se_va == 0)) [
      | inl z ↦ cc (rw z at e)
      | inr n ↦ con_motivo c d u (dado (rw n at e)) n
    ]
    correr-se_va (is ∷ iss) c d u e = elim (Bool-cases (c.se_va == 0)) [
      | inl z ↦
          let (v, c1, f, g) = partes (ciclo k s partir atoi decimal is) _ c (rw z at e) in
          correr-se_va iss c1 d u g
      | inr n ↦ con_motivo c d u (dado (rw n at e)) n
    ]

    -- A turn of a process that ends, whatever its program, the answers of the memory and the interruptions:
    -- there is a reason, seVa is 0 again, and what a scheduler reads of the messages is all there and leaves
    -- on the socket only the addresses of an IO_VECTOR. The PCB that it reads has the pid, the quantum
    -- and the instructions of the process and registers in their widths if they were, and the code of the packet
    -- is the one that the scheduler compares it with: IO, PEDIRRECURSO or DARRECURSO.
    pub turno-Regreso :
        (p : SProceso) (iss : List (List Interrupcion)) (t : ℕ) (c d : Cpu M) (os : List Salida)
        → turno p.pcb iss c ≡ some (os, d)
        → Vuelve p t os d
    unfolding turno devolver
    turno-Regreso p iss t c d os e =
        let (u, c1, f, g) = partes (despachar k s partir atoi decimal p.pcb) _ c e in
        let (w, c2, h, i) = partes (correr k s partir atoi decimal iss) _ c1 g in
        let b =
          Conserva-trans (despachar-Conserva p.pcb c c1 u f)
            (subst (Bien c1) h (correr-Mantiene k s partir atoi decimal iss c1)) in
        subst (λ (x : List Salida × Cpu M). Vuelve p t x.0 x.1) (dado i)
          (
            c2.se_va,
            correr-se_va iss c1 c2 w h,
            leer_vuelta p t c2 b.pid b.cuanto b.codigo b.rango,
            refl,
          )
