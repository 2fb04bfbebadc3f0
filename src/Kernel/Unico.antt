-- ===== src/Kernel/Unico.antt =====
-- Every process is in one place at most, however the threads of the kernel run (utils/src/kernel/kernel.c).
use Prim.Native.String.{String}
use so_1c.Base.{
  ℕ, zero, suc, ◌+◌, ◌≤◌, ◌≡◌, refl, ap, subst, inl, inr, List, [], ◌∷◌, Option, none, some,
  >>=-eq-some, length, arith, caso, Option-cases,
}
use so_1c.Cpu.{Pcb}
use so_1c.Kernel.{Kernel, SProceso, con_estado, sem_wait, estado_ready}
use so_1c.Kernel.Recursos.{buscar_recurso, liberar_recurso, liberar_todos}
use so_1c.Kernel.Consola.{crear_proceso}
use so_1c.Kernel.Planes.{nulo, queue_pop, tomar_nuevo, admitir, carnicero}
use so_1c.Kernel.Planificador.{Vuelta, despachar_ready, despachar_vrr, a_running}
use so_1c.Kernel.Algoritmo.{Algoritmo, fifo, rr, vrr, despachar_segun, volver_segun}
use so_1c.Kernel.Io.{escuchar_conexion}
use so_1c.Kernel.Cuenta.{veces, es, presentes, Salda, veces-push}
use so_1c.Kernel.Saldo.{
  nada-Salda, liberar_recurso-Salda, Salda-trans, Salda-igual, matadero-Salda, a_ready-Salda,
}
use so_1c.Kernel.Conserva.{Coherente, Guarda, volver-Guarda}
use so_1c.Kernel.Despacho.{despachar_vrr-Despacha}
use so_1c.Kernel.Grado.{empezar_io-Salda, terminar_io-Salda}
use so_1c.Kernel.Hilos.{
  Corre, arranque, crea, toma, admite, despacha, vuelve, conecta, empieza_io, termina_io, mata,
  en_mano, Sano,
}

Sano-Salda :
    {k k' : Kernel} {e : ℕ → ℕ} (o w o' w' : Option SProceso)
    → Sano k o w
    → Salda k k' e
    → ((n : ℕ) → e n + en_mano n o' + en_mano n w' ≤ en_mano n o + en_mano n w)
    → Sano k' o' w'
Sano-Salda {k} {k'} o w o' w' h s c = record {
  unico = λ n. ground (arith, h.unico n, s.cuentas n, c n, s.siguiente);
  listos = ground (arith, h.listos, s.listos);
}

mismo : {A : Type 0} {o : Option A} {a b : A} → o ≡ some a → o ≡ some b → a ≡ b
mismo e f = cc

sem_wait-inv : (n s : ℕ) → sem_wait n ≡ some s → n ≡ suc s
sem_wait-inv zero s e = cc
sem_wait-inv (suc n) s e = ground (arith, e)

queue_pop-inv :
    (ps : List SProceso) (r : SProceso × List SProceso) → queue_pop ps ≡ some r → ps ≡ r.0 ∷ r.1
queue_pop-inv [] r e = cc
queue_pop-inv (p ∷ ps) r e = cc

crear-Sano :
    (k : Kernel) (o w : Option SProceso) (basura : Pcb) (path : String)
    → Sano k o w
    → Sano (crear_proceso k basura path) o w
unfolding crear_proceso presentes
crear-Sano k o w basura path h =
    caso (λ (x : Kernel). Sano x o w) k.planificacion_activa
      (λ _. record {
        unico = λ n. ground (arith, h.unico n, veces-push n k.c_new nuevo);
        listos = h.listos;
      })
      (λ _. h)
  where
    nuevo : SProceso
    nuevo = record {
      pcb = record basura {
        pid = k.id_pcb;
        pc = 0;
        quantum = k.quantum;
        estado = 0;
        registros = record basura.registros { pc = 0 };
      };
      multifuncion = path;
      recursos = [];
    }

conectar-Sano :
    (k : Kernel) (o w : Option SProceso) (nombre : String)
    → Sano k o w
    → Sano (escuchar_conexion k nombre) o w
unfolding escuchar_conexion presentes
conectar-Sano k o w nombre h = record { unico = λ n. h.unico n; listos = h.listos }

liberar_todos-Salda :
    (k k' : Kernel) (ns : List String) → liberar_todos k ns ≡ some k' → Salda k k' (λ n. 0)
unfolding liberar_todos liberar_recurso
liberar_todos-Salda k k' [] e = subst (λ x. Salda k x (λ n. 0)) (mismo refl e) (nada-Salda k)
liberar_todos-Salda k k' (n ∷ ns) e =
    let (k1, f, g) = >>=-eq-some (liberar_recurso k n) (λ x. liberar_todos x ns) e in
    let (i, t, u) = >>=-eq-some (buscar_recurso n k.recursos) _ f in
    let (k2, a, s) = liberar_recurso-Salda k n i t in
    Salda-igual
      (Salda-trans (subst (λ x. Salda k x (λ n. 0)) (mismo a f) s) (liberar_todos-Salda k1 k' ns g))
      (λ m. refl)

-- The halves of a turn of PLP.
tomar-Sano :
    (k k' : Kernel) (o : Option SProceso) (p : SProceso)
    → tomar_nuevo k ≡ some (p, k')
    → Sano k o none
    → Sano k' o (some p)
unfolding tomar_nuevo presentes veces
tomar-Sano k k' o p e h =
    let (s, a, e1) = >>=-eq-some (sem_wait k.sem_plp) _ e in
    let (r, b, e2) = >>=-eq-some (queue_pop k.c_new) _ e1 in
    let q = queue_pop-inv k.c_new r b in
    subst (λ (y : SProceso × Kernel). Sano y.1 o (some y.0)) (mismo refl e2)
      (record { unico = λ n. ground (arith, h.unico n, ap (veces n) q); listos = h.listos })

admitir-Salda :
    (k k' : Kernel) (memoria : String → ℕ → Option ℕ) (p : SProceso)
    → admitir memoria p k ≡ some k'
    → Salda k k' (λ n. es n p)
unfolding admitir presentes
admitir-Salda k k' memoria p h =
    let (m, c, e) = >>=-eq-some (sem_wait k.s_multiprogramacion) _ h in
    let k0 = record k { s_multiprogramacion = m } in
    elim (Option-cases (memoria p.multifuncion p.pcb.pid)) [
      | inl t ↦
          let q = record p { pcb = record p.pcb { instrucciones = nulo } } in
          subst (λ x. Salda k x (λ n. es n p)) (mismo refl (rw t at e))
            (desde (matadero-Salda k0 q "La memoria no pudo abrir el archivo"))
      | inr (i, t) ↦
          let q = con_estado estado_ready (record p { pcb = record p.pcb { instrucciones = i } }) in
          subst (λ x. Salda k x (λ n. es n p)) (mismo refl (rw t at e)) (desde (a_ready-Salda k0 q))
    ]
  where
    desde :
        {m : ℕ} {x : Kernel}
        → Salda (record k { s_multiprogramacion = m }) x (λ n. es n p)
        → Salda k x (λ n. es n p)
    desde d = record {
      cuentas = d.cuentas;
      siguiente = d.siguiente;
      en_regla = d.en_regla;
      listos = d.listos;
      muertos = d.muertos;
    }

carnicero-Sano :
    (k k' : Kernel) (o w : Option SProceso) (i : ℕ)
    → carnicero k ≡ some (i, k')
    → Sano k o w
    → Sano k' o w
unfolding carnicero presentes veces
carnicero-Sano k k' o w i e h =
    let (s, a, h1) = >>=-eq-some (sem_wait k.sem_exit) _ e in
    let (r, b, h2) = >>=-eq-some (queue_pop k.c_exit) _ h1 in
    let (x, c, h3) =
      >>=-eq-some (liberar_todos (record k { sem_exit = s; c_exit = r.1 }) (r.0.recursos)) _ h2 in
    let q = queue_pop-inv k.c_exit r b in
    let d = liberar_todos-Salda (record k { sem_exit = s; c_exit = r.1 }) x (r.0.recursos) c in
    subst (λ y. Sano y o w) (segundo h3)
      (Sano-Salda o w o w
        (record { unico = λ n. ground (arith, h.unico n, ap (veces n) q); listos = h.listos }) d
        λ n. omega arith)
  where
    segundo :
        {x y : Kernel} {j l : ℕ} → ◌≡◌ {A = Option (ℕ × Kernel)} (some (j, x)) (some (l, y)) → x ≡ y
    segundo e = cc

ready-Sano :
    (k k' : Kernel) (p : SProceso) (w : Option SProceso)
    → despachar_ready k ≡ some (p, k')
    → Sano k none w
    → Sano k' (some p) w
unfolding despachar_ready a_running presentes veces
ready-Sano k k' p w e h =
    let (s, a, e1) = >>=-eq-some (sem_wait k.sem_pcp) _ e in
    let (r, b, e2) = >>=-eq-some (queue_pop k.c_ready) _ e1 in
    let q = queue_pop-inv k.c_ready r b in
    subst (λ (y : SProceso × Kernel). Sano y.1 (some y.0) w) (mismo refl e2)
      (record {
        unico = λ n. ground (arith, h.unico n, ap (veces n) q);
        listos = ground (arith, h.listos, sem_wait-inv k.sem_pcp s a, ap length q);
      })

vrr-Sano :
    (k k' : Kernel) (p : SProceso) (w : Option SProceso)
    → despachar_vrr k ≡ some (p, k')
    → Sano k none w
    → Sano k' (some p) w
unfolding despachar_vrr
vrr-Sano k k' p w e h =
    let (s, a, _) = >>=-eq-some (sem_wait k.sem_pcp) _ e in
    let (q, x, f, _, _, id, l, u, _) =
      despachar_vrr-Despacha k h.listos (omega (arith, sem_wait-inv k.sem_pcp s a)) in
    subst (λ (y : SProceso × Kernel). Sano y.1 (some y.0) w) (mismo f e)
      (record { unico = λ n. ground (arith, u n, h.unico n, id); listos = l })

despacha-Sano :
    (a : Algoritmo) (k k' : Kernel) (p : SProceso) (w : Option SProceso)
    → despachar_segun a k ≡ some (p, k')
    → Sano k none w
    → Sano k' (some p) w
unfolding despachar_segun
despacha-Sano fifo = ready-Sano
despacha-Sano rr = ready-Sano
despacha-Sano vrr = vrr-Sano

vuelve-Guarda :
    (a : Algoritmo) (k : Kernel) (p : SProceso) (v : Vuelta)
    → Coherente p v
    → Guarda k p.pcb.pid (volver_segun a k p v)
unfolding volver_segun
vuelve-Guarda fifo k p v c = (volver-Guarda k p v c).0
vuelve-Guarda rr k p v c = (volver-Guarda k p v c).1
vuelve-Guarda vrr k p v c = (volver-Guarda k p v c).2

-- From a kernel where each pid that was given out stands in one queue at most, another in none, and
-- semPCP counts the ready processes, where what comes back keeps the pid and repeats IO in a request for
-- an interface: in whatever order the threads take their steps under any algorithm, every process is in
-- one place at most, a queue, the CPU or the hand of PLP, and semPCP counts the ready processes.
pub Corre-Sano :
    {a : Algoritmo} {V : SProceso → Vuelta → Type 0} {s k : Kernel} {o w : Option SProceso}
    → ((p : SProceso) (v : Vuelta) → V p v → Coherente p v)
    → Sano s none none
    → Corre a V s k o w
    → Sano k o w
Corre-Sano g h arranque = h
Corre-Sano {o = o} {w = w} g h (crea {k = k} basura path c) =
    crear-Sano k o w basura path (Corre-Sano g h c)
Corre-Sano {k = k'} {o = o} g h (toma {k = k} p c e) = tomar-Sano k k' o p e (Corre-Sano g h c)
Corre-Sano {k = k'} {o = o} g h (admite {k = k} {p = p} memoria c e) =
    Sano-Salda o (some p) o none (Corre-Sano g h c) (admitir-Salda k k' memoria p e)
      λ n. omega arith
Corre-Sano {a = a} {k = k'} {w = w} g h (despacha {k = k} p c e) =
    despacha-Sano a k k' p w e (Corre-Sano g h c)
Corre-Sano {a = a} {k = k'} {w = w} g h (vuelve {k = k} {p = p} v c u e) =
    let (x, f, d) = vuelve-Guarda a k p v (g p v u) in
    Sano-Salda (some p) w none w (Corre-Sano g h c)
      (subst (λ y. Salda k y (λ n. es n p)) (mismo f e) d) λ n. omega arith
Corre-Sano {o = o} {w = w} g h (conecta {k = k} nombre c) =
    conectar-Sano k o w nombre (Corre-Sano g h c)
Corre-Sano {k = k'} {o = o} {w = w} g h (empieza_io {k = k} n nombre b c e) =
    Sano-Salda o w o w (Corre-Sano g h c) (empezar_io-Salda k n nombre b k' e) λ m. omega arith
Corre-Sano {k = k'} {o = o} {w = w} g h (termina_io {k = k} n nombre respuesta p ps c e f) =
    let (x, f1, d) = terminar_io-Salda k n nombre respuesta p ps e in
    Sano-Salda o w o w (Corre-Sano g h c) (subst (λ y. Salda k y (λ m. 0)) (mismo f1 f) d)
      λ m. omega arith
Corre-Sano {k = k'} {o = o} {w = w} g h (mata {k = k} i c e) =
    carnicero-Sano k k' o w i e (Corre-Sano g h c)
