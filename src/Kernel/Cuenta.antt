-- ===== src/Kernel/Cuenta.antt =====
-- Counting the processes of the kernel's queues, and the balance of a step.
use Prim.Native.String.{String}
use text.Mathlib.Text.{◌==◌ as str_eq}
use so_1c.Base.{
  ℕ, zero, suc, ◌+◌, ◌≤◌, ◌≡◌, refl, inl, inr, List, [], ◌∷◌, ◌++◌, some, >>=-eq-some, poner, uno,
  ◌==◌, length, length-append, get_elem?, arith, Bool-cases,
}
use so_1c.Base.Int.{neg_part}
use so_1c.Kernel.{Kernel, Recurso, SProceso}
use so_1c.Kernel.Recursos.{buscar_recurso}
use so_1c.Kernel.Consola.{sacar_pid}

-- The occurrences of the process with pid n.
abbrev pub es : ℕ → SProceso → ℕ
es n p = uno (p.pcb.pid == n)

unfoldable pub veces : ℕ → List SProceso → ℕ
veces n [] = 0
veces n (p ∷ ps) = es n p + veces n ps

unfoldable pub esperando : ℕ → List Recurso → ℕ
esperando n [] = 0
esperando n (r ∷ rs) = veces n r.bloqueados + esperando n rs

-- In all the queues of the kernel.
unfoldable pub presentes : ℕ → Kernel → ℕ
presentes n k =
    veces n k.c_new
    + veces n k.c_ready
    + veces n k.c_ready_plus
    + veces n k.l_blocked
    + veces n k.c_exit
    + esperando n k.recursos

-- Each resource has at most as many waiting processes as its instancias is below 0.
abbrev pub EnRegla : List Recurso → Type 0
EnRegla [] = Unit {0}
EnRegla (r ∷ rs) = (length r.bloqueados ≤ neg_part r.instancias) × EnRegla rs

-- A step from k to k' that brings in `entra n` processes of pid n: what stands in the queues, the
-- waiting, the next pid, and the two counting semaphores against their queues.
pub record Salda (k k' : Kernel) (entra : ℕ → ℕ) : Type 0 where
  pub cuentas : (n : ℕ) → presentes n k' ≡ presentes n k + entra n
  pub siguiente : k'.id_pcb ≡ k.id_pcb
  pub en_regla : EnRegla k.recursos → EnRegla k'.recursos
  pub listos :
      k'.sem_pcp + (length k.c_ready + length k.c_ready_plus)
      ≡ k.sem_pcp + (length k'.c_ready + length k'.c_ready_plus)
  pub muertos : k'.sem_exit + length k.c_exit ≡ k.sem_exit + length k'.c_exit

pub veces-append : (n : ℕ) (ps qs : List SProceso) → veces n (ps ++ qs) ≡ veces n ps + veces n qs
unfolding veces
veces-append n [] qs = omega arith
veces-append n (p ∷ ps) qs = ground (arith, veces-append n ps qs)

pub veces-push :
    (n : ℕ) (ps : List SProceso) (p : SProceso) → veces n (ps ++ p ∷ []) ≡ veces n ps + es n p
unfolding veces
veces-push n ps p = ground (arith, veces-append n ps (p ∷ []))

pub length-push : (ps : List SProceso) (p : SProceso) → length (ps ++ p ∷ []) ≡ suc (length ps)
length-push ps p = ground (arith, length-append ps (p ∷ []))

-- A process that was found and taken out.
pub sacar_pid-veces :
    (m : ℕ) (ps qs : List SProceso) (p : SProceso)
    → sacar_pid m ps ≡ some (p, qs)
    → (p.pcb.pid ≡ m) × ((n : ℕ) → veces n ps ≡ es n p + veces n qs)
unfolding sacar_pid veces
sacar_pid-veces m [] qs p h = cc
sacar_pid-veces m (x ∷ xs) qs p h = elim (Bool-cases (x.pcb.pid == m)) [
  | inl t ↦ ground (arith, t, h)
  | inr t ↦
      let (r, e, f) = >>=-eq-some (sacar_pid m xs) (λ r. some (r.0, x ∷ r.1)) (rw t at h) in
      let (a, g) = sacar_pid-veces m xs r.1 r.0 e in
      (ground (arith, a, f), λ n. ground (arith, g n, f))
]

-- The resource that `buscar_recurso` names is there.
pub buscar_recurso-get_elem? :
    (s : String) (rs : List Recurso) (i : ℕ)
    → buscar_recurso s rs ≡ some i
    → (r : Recurso) × (get_elem? rs i ≡ some r)
unfolding buscar_recurso
buscar_recurso-get_elem? s [] i h = cc
buscar_recurso-get_elem? s (r ∷ rs) i h = elim (Bool-cases (str_eq s r.nombre)) [
  | inl t ↦ (r, ground (arith, rw t at h))
  | inr t ↦
      let (j, e, f) = >>=-eq-some (buscar_recurso s rs) (λ j. some (suc j)) (rw t at h) in
      let (q, g) = buscar_recurso-get_elem? s rs j e in (q, ground (arith, f, g))
]

-- Writing one resource back.
pub poner-recursos :
    (rs : List Recurso) (i : ℕ) (r r' : Recurso)
    → get_elem? rs i ≡ some r
    → (rs' : List Recurso) × (poner rs i r' ≡ some rs')
      × ((n : ℕ) → esperando n rs' + veces n r.bloqueados ≡ esperando n rs + veces n r'.bloqueados)
      × (EnRegla rs
          → (length r.bloqueados ≤ neg_part r.instancias
              → length r'.bloqueados ≤ neg_part r'.instancias)
          → EnRegla rs')
unfolding esperando
poner-recursos [] i r r' h = cc
poner-recursos (x ∷ xs) zero r r' h =
    (r' ∷ xs, refl, (λ n. ground (arith, h)), λ (a, b) f. (f (ground (arith, a, h)), b))
poner-recursos (x ∷ xs) (suc i) r r' h =
    let (ys, e, c, v) = poner-recursos xs i r r' h in
    (x ∷ ys, rw e refl, (λ n. ground (arith, c n)), λ (a, b) f. (a, v b f))

pub sacar_pid-length :
    (m : ℕ) (ps qs : List SProceso) (p : SProceso)
    → sacar_pid m ps ≡ some (p, qs)
    → length ps ≡ suc (length qs)
unfolding sacar_pid
sacar_pid-length m [] qs p h = cc
sacar_pid-length m (x ∷ xs) qs p h = elim (Bool-cases (x.pcb.pid == m)) [
  | inl t ↦ ground (arith, t, h)
  | inr t ↦
      let (r, e, f) = >>=-eq-some (sacar_pid m xs) (λ r. some (r.0, x ∷ r.1)) (rw t at h) in
      ground (arith, f, sacar_pid-length m xs r.1 r.0 e)
]
