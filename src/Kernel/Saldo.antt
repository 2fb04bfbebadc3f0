-- ===== src/Kernel/Saldo.antt =====
-- The balances of the kernel's operations on resources, of `matadero` and of the pushes.
use Prim.Native.String.{String}
use so_1c.Base.{
  ℕ, zero, suc, ◌+◌, ◌≤◌, ◌≡◌, ◌∙◌, refl, ap, ◌⊎◌, inl, inr, true, false, List, [], ◌∷◌, ◌++◌, some,
  length, get_elem?, arith, Option-cases, caso, if◌then◌else◌,
}
use so_1c.Base.Int.{ℤ, pos, negsuc, ◌+ℤ◌, ◌-ℤ◌, ltb_ℤ, neg_part}
use so_1c.Kernel.{
  Kernel, Recurso, SProceso, matadero, a_ready, a_ready_plus, con_estado, estado_ready,
  estado_ready_plus, estado_blocked,
}
use so_1c.Kernel.Recursos.{
  buscar_recurso, pedir_en, pedir_recurso, liberar_en, liberar_recurso, desbloquear, con_recurso,
}
use so_1c.Kernel.Cuenta.{
  veces, es, presentes, Salda, veces-push, length-push, poner-recursos, buscar_recurso-get_elem?,
}

pub Salda-trans :
    {k k' k'' : Kernel} {e f : ℕ → ℕ} → Salda k k' e → Salda k' k'' f → Salda k k'' (λ n. e n + f n)
Salda-trans a b = record {
  cuentas = λ n. ground (arith, a.cuentas n, b.cuentas n);
  siguiente = b.siguiente ∙ a.siguiente;
  en_regla = λ h. b.en_regla (a.en_regla h);
  listos = ground (arith, a.listos, b.listos);
  muertos = ground (arith, a.muertos, b.muertos);
}

pub Salda-igual :
    {k k' : Kernel} {e f : ℕ → ℕ} → Salda k k' e → ((n : ℕ) → e n ≡ f n) → Salda k k' f
Salda-igual a h = record {
  cuentas = λ n. ground (arith, a.cuentas n, h n);
  siguiente = a.siguiente;
  en_regla = a.en_regla;
  listos = a.listos;
  muertos = a.muertos;
}

pub a_ready-Salda : (k : Kernel) (p : SProceso) → Salda k (a_ready k p) (λ n. es n p)
unfolding a_ready presentes
a_ready-Salda k p = record {
  cuentas = λ n. ground (arith, veces-push n k.c_ready p);
  siguiente = refl;
  en_regla = λ h. h;
  listos = ground (arith, length-push k.c_ready p);
  muertos = refl;
}

pub a_ready_plus-Salda : (k : Kernel) (p : SProceso) → Salda k (a_ready_plus k p) (λ n. es n p)
unfolding a_ready_plus presentes
a_ready_plus-Salda k p = record {
  cuentas = λ n. ground (arith, veces-push n k.c_ready_plus p);
  siguiente = refl;
  en_regla = λ h. h;
  listos = ground (arith, length-push k.c_ready_plus p);
  muertos = refl;
}

pub matadero-Salda :
    (k : Kernel) (p : SProceso) (m : String) → Salda k (matadero k p m) (λ n. es n p)
unfolding matadero presentes
matadero-Salda k p m = record {
  cuentas =
      λ n. ground (arith, veces-push n k.c_exit (record (con_estado 5 p) { multifuncion = m }));
  siguiente = refl;
  en_regla = λ h. h;
  listos = refl;
  muertos = ground (arith, length-push k.c_exit (record (con_estado 5 p) { multifuncion = m }));
}

pub desbloquear-Salda : (k : Kernel) (p : SProceso) → Salda k (desbloquear k p) (λ n. es n p)
unfolding desbloquear
desbloquear-Salda k p =
    caso (λ (x : Kernel). Salda k x (λ n. es n p)) k.plani_es_vrr
      (λ t. a_ready_plus-Salda k (con_estado estado_ready_plus p))
      (λ t. a_ready-Salda k (con_estado estado_ready p))

-- A resource that was written back, with what its queue gained and lost.
con_recurso_lem :
    (k : Kernel) (i : ℕ) (r r' : Recurso) (mas menos : ℕ → ℕ)
    → get_elem? k.recursos i ≡ some r
    → ((n : ℕ) → veces n r'.bloqueados + menos n ≡ veces n r.bloqueados + mas n)
    → (length r.bloqueados ≤ neg_part r.instancias → length r'.bloqueados ≤ neg_part r'.instancias)
    → (k' : Kernel) × (con_recurso k i r' ≡ some k')
      × ((f : ℕ → ℕ) (k'' : Kernel) → Salda k' k'' f → ((n : ℕ) → f n ≡ menos n) → Salda k k'' mas)
unfolding presentes
con_recurso_lem k i r r' mas menos h c v =
    let (rs, e, d, w) = poner-recursos k.recursos i r r' h in
    (
      record k { recursos = rs },
      rw e refl,
      λ f k'' s q. record {
        cuentas = λ n. ground (arith, s.cuentas n, d n, c n, q n);
        siguiente = s.siguiente;
        en_regla = λ g. s.en_regla (w g v);
        listos = s.listos;
        muertos = s.muertos;
      },
    )

pub nada-Salda : (k : Kernel) → Salda k k (λ n. 0)
nada-Salda k = record {
  cuentas = λ n. omega arith;
  siguiente = refl;
  en_regla = λ h. h;
  listos = refl;
  muertos = refl;
}

-- Taking one instance, and giving one back.
menos_una :
    (z : ℤ)
    → ((ltb_ℤ (z -ℤ pos 1) (pos 0) ≡ true) × (neg_part (z -ℤ pos 1) ≡ suc (neg_part z)))
      ⊎ ((ltb_ℤ (z -ℤ pos 1) (pos 0) ≡ false) × (neg_part z ≡ 0))
unfolding ◌-ℤ◌
menos_una (pos zero) = inl (refl, refl)
menos_una (pos (suc n)) = inr (ground arith, refl)
menos_una (negsuc n) = inl (ground arith, ground arith)

mas_una :
    (z : ℤ)
    → ((ltb_ℤ (pos 0) (z +ℤ pos 1) ≡ false) × (suc (neg_part (z +ℤ pos 1)) ≡ neg_part z))
      ⊎ ((ltb_ℤ (pos 0) (z +ℤ pos 1) ≡ true) × (neg_part z ≡ 0) × (neg_part (z +ℤ pos 1) ≡ 0))
unfolding ◌+ℤ◌
mas_una (pos n) = inr (ground arith, refl, ground arith)
mas_una (negsuc n) = inl (ground arith, ground arith)

pedir_en_lem :
    (k : Kernel) (p : SProceso) (i : ℕ) (r : Recurso)
    → get_elem? k.recursos i ≡ some r
    → (k' : Kernel) × (pedir_en k p i r ≡ some k') × Salda k k' (λ n. es n p)
unfolding pedir_en
pedir_en_lem k p i r h = elim (menos_una r.instancias) [
  | inl (a, b) ↦
      let (k', e, s) =
        con_recurso_lem k i r
          (record r {
            instancias = r.instancias -ℤ pos 1;
            bloqueados = r.bloqueados ++ con_estado estado_blocked p ∷ [];
          })
          (λ n. es n p) (λ n. 0) h
          (λ n. ground (arith, veces-push n r.bloqueados (con_estado estado_blocked p)))
          (λ v. ground (arith, v, b, length-push r.bloqueados (con_estado estado_blocked p))) in
      (k', rw a e, s (λ n. 0) k' (nada-Salda k') λ n. refl)
  | inr (a, b) ↦
      let q =
        con_estado (if k.plani_es_vrr then estado_ready_plus else estado_ready)
          (record p { recursos = p.recursos ++ r.nombre ∷ [] }) in
      let (k', e, s) =
        con_recurso_lem k i r (record r { instancias = r.instancias -ℤ pos 1 }) (λ n. es n p)
          (λ n. es n p) h (λ n. refl) (λ v. ground (arith, v, b)) in
      (a_ready k' q, rw (a, e) refl, s (λ n. es n p) (a_ready k' q) (a_ready-Salda k' q) λ n. refl)
]

-- `pedir_recurso` always ends, and its process stands in exactly one queue more: it waits for the
-- resource, is ready again or is on its way out; if each resource had at most as many waiting processes
-- as its instancias is below 0, each still has; and where semPCP and semEXIT counted their queues, they
-- still do.
pub pedir_recurso-Salda :
    (k : Kernel) (p : SProceso)
    → (k' : Kernel) × (pedir_recurso k p ≡ some k') × Salda k k' (λ n. es n p)
unfolding pedir_recurso
pedir_recurso-Salda k p = elim (Option-cases (buscar_recurso p.multifuncion k.recursos)) [
  | inl t ↦ (
    matadero k p "Pidio un recurso no existente",
    rw (t, pedir_recurso) refl,
    matadero-Salda k p "Pidio un recurso no existente",
  )
  | inr (i, t) ↦
      let (r, h) = buscar_recurso-get_elem? p.multifuncion k.recursos i t in
      let (k', e, s) = pedir_en_lem k p i r h in (k', rw (t, h, pedir_recurso) e, s)
]

liberar_en_lem :
    (k : Kernel) (i : ℕ) (r : Recurso) (ps : List SProceso)
    → get_elem? k.recursos i ≡ some r
    → r.bloqueados ≡ ps
    → (k' : Kernel) × (liberar_en k i r ps ≡ some k') × Salda k k' (λ n. 0)
unfolding liberar_en veces
liberar_en_lem k i r [] h q =
    let (k', e, s) =
      con_recurso_lem k i r (record r { instancias = r.instancias +ℤ pos 1 }) (λ n. 0) (λ n. 0) h
        (λ n. refl) (λ v. ground (arith, q)) in
    (k', e, s (λ n. 0) k' (nada-Salda k') λ n. refl)
liberar_en_lem k i r (p ∷ ps) h q = elim (mas_una r.instancias) [
  | inr (a, b, c) ↦
      let (k', e, s) =
        con_recurso_lem k i r (record r { instancias = r.instancias +ℤ pos 1 }) (λ n. 0) (λ n. 0) h
          (λ n. refl) (λ v. ground (arith, v, b, c)) in
      (k', rw a e, s (λ n. 0) k' (nada-Salda k') λ n. refl)
  | inl (a, b) ↦
      let x = record p { recursos = p.recursos ++ r.nombre ∷ [] } in
      let (k', e, s) =
        con_recurso_lem k i r (record r { instancias = r.instancias +ℤ pos 1; bloqueados = ps })
          (λ n. 0) (λ n. es n p) h (λ n. ground (arith, ap (veces n) q))
          (λ v. ground (arith, v, b, ap length q)) in
      (
        desbloquear k' x,
        rw (a, e) refl,
        s (λ n. es n p) (desbloquear k' x) (desbloquear-Salda k' x) λ n. refl,
      )
]

-- `liberar_recurso` of a resource that exists always ends: every process stands in as many queues as
-- before, so the one that is woken up left the resource's queue for a ready one; if each resource had at
-- most as many waiting processes as its instancias is below 0, each still has; and where semPCP and
-- semEXIT counted their queues, they still do.
pub liberar_recurso-Salda :
    (k : Kernel) (nombre : String) (i : ℕ)
    → buscar_recurso nombre k.recursos ≡ some i
    → (k' : Kernel) × (liberar_recurso k nombre ≡ some k') × Salda k k' (λ n. 0)
unfolding liberar_recurso
liberar_recurso-Salda k nombre i t =
    let (r, h) = buscar_recurso-get_elem? nombre k.recursos i t in
    let (k', e, s) = liberar_en_lem k i r r.bloqueados h refl in (k', rw (t, h) e, s)
