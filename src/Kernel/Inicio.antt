-- ===== src/Kernel/Inicio.antt =====
-- The start of the kernel (kernel.c: inicializar_kernel).
use Prim.Native.String.{String}
use so_1c.Base.{
  ℕ, ◌≡◌, refl, sym, ◌∙◌, subst, Bool, true, List, [], ◌∷◌, Option, none, some, ◌>>=◌, >>=-eq-some,
  arith,
}
use so_1c.Base.Int.{ℤ}
use so_1c.Kernel.{Kernel, Recurso, SProceso}
use so_1c.Kernel.Cuenta.{esperando, presentes, veces}
use so_1c.Kernel.Hilos.{Corre, Sano}
use so_1c.Kernel.Unico.{Corre-Sano}
use so_1c.Cpu.{Config, Cpu, ServidorMemoria}
use so_1c.Cpu.Ciclo.{Interrupcion, Salida}
use so_1c.Kernel.Planificador.{Vuelta}
use so_1c.Kernel.Conserva.{Coherente}
use so_1c.Kernel.Algoritmo.{elegir, es_vrr}
use so_1c.Kernel.Turno.{turno, recibir_vuelta, turno-Regreso}

-- The loop over RECURSOS and INSTANCIAS_RECURSOS, the second read with `atoi`: with too few of them
-- it goes past their end.
unfoldable pub armar_recursos : List String → List ℤ → Option (List Recurso)
armar_recursos [] is = some []
armar_recursos (n ∷ ns) [] = none
armar_recursos (n ∷ ns) (i ∷ is) = armar_recursos ns is >>= λ rs.
    some (record { nombre = n; instancias = i; bloqueados = [] } ∷ rs)

-- `inicializar_kernel` of the configuration's degree, quantum and resources. `vrr` is what `main`
-- sets planiEsVrr to, and no IO is connected yet.
unfoldable pub inicializar_kernel : ℕ → ℕ → Bool → List String → List ℤ → Option Kernel
unfolding armar_recursos
inicializar_kernel grado q vrr ns is = armar_recursos ns is >>= λ rs. some (record {
  c_new = [];
  c_ready = [];
  c_ready_plus = [];
  l_blocked = [];
  c_exit = [];
  recursos = rs;
  conexiones = [];
  sem_pcp = 0;
  sem_plp = 0;
  sem_exit = 0;
  s_multiprogramacion = grado;
  multiprogramacion = grado;
  pid_running = none;
  planificacion_activa = true;
  quantum = q;
  id_pcb = 1;
  plani_es_vrr = vrr;
})

dado : {A : Type 0} {a b : A} → some a ≡ some b → a ≡ b
dado e = cc

armar-esperando :
    (m : ℕ) (ns : List String) (is : List ℤ) (rs : List Recurso)
    → armar_recursos ns is ≡ some rs
    → esperando m rs ≡ 0
unfolding armar_recursos esperando veces
armar-esperando m [] is rs e = subst (λ (x : List Recurso). esperando m x ≡ 0) (dado e) refl
armar-esperando m (n ∷ ns) [] rs e = cc
armar-esperando m (n ∷ ns) (i ∷ is) rs e =
    let (qs, f, g) = >>=-eq-some (armar_recursos ns is) _ e in
    let h = armar-esperando m ns is qs f in
    subst (λ (x : List Recurso). esperando m x ≡ 0) (dado g) (rw h refl)

inicializar_kernel-Sano :
    (grado q : ℕ) (vrr : Bool) (ns : List String) (is : List ℤ) (k : Kernel)
    → inicializar_kernel grado q vrr ns is ≡ some k
    → Sano k none none
unfolding inicializar_kernel presentes veces
inicializar_kernel-Sano grado q vrr ns is k e =
    let (rs, f, g) = >>=-eq-some (armar_recursos ns is) _ e in
    let h : (m : ℕ) → esperando m rs ≡ 0 = λ m. armar-esperando m ns is rs f in
    subst (λ (x : Kernel). Sano x none none) (dado g)
      (record { unico = λ m. ground (arith, h m); listos = refl })

-- What a CPU gives back of a process, with some program, some answers of its memory and some interruptions.
module _ {M : Type 0} (k : Config) (s : ServidorMemoria M) (partir : List ℕ → List String)
    (atoi : String → ℕ) (decimal : ℕ → String) where
  abbrev pub Regresa : SProceso → Vuelta → Type 0
  Regresa p v =
      (iss : List (List Interrupcion)) × (t : ℕ) × (c : Cpu M) × (d : Cpu M) × (os : List Salida)
      × (resto : List Salida) × (turno k s partir atoi decimal p.pcb iss c ≡ some (os, d))
      × (recibir_vuelta t os ≡ some (v, resto))

  Regresa-Coherente : (p : SProceso) (v : Vuelta) → Regresa p v → Coherente p v
  Regresa-Coherente p v (iss, t, c, d, os, resto, e, f) =
      let (m, z, (w, g, i, r), j) = turno-Regreso k s partir atoi decimal p iss t c d os e in
      subst (λ (x : Vuelta × List Salida). Coherente p x.0) (dado (sym g ∙ f)) r.coherente

  -- From the start of the kernel, with the scheduler that main starts for a name, after any sequence of
  -- steps, one after another, of the console's creations, PLP before and after it has a place, the
  -- dispatch and the return of that scheduler, the connections of interfaces, the two halves of each IO
  -- and carnicero, where what comes back of a process is what the CPU sends after some turn with that
  -- process: each pid that was given out stands in one queue, the CPU or the hand of PLP at most,
  -- another in none, and semPCP counts the ready processes.
  pub inicializar_kernel-Corre :
      (grado q : ℕ) (algoritmo : String) (ns : List String) (is : List ℤ) {k0 r : Kernel}
      {o w : Option SProceso}
      → inicializar_kernel grado q (es_vrr (elegir algoritmo)) ns is ≡ some k0
      → Corre (elegir algoritmo) Regresa k0 r o w
      → Sano r o w
  inicializar_kernel-Corre grado q algoritmo ns is {k0} e c =
      Corre-Sano Regresa-Coherente
        (inicializar_kernel-Sano grado q (es_vrr (elegir algoritmo)) ns is k0 e) c
