-- ===== src/Kernel/Grado.antt =====
-- The degree of multiprogramming, and the two halves of an IO, against the kernel's queues
-- (utils/src/kernel/kernel.c).
use Prim.Native.String.{String}
use so_1c.Base.{
  ℕ, zero, suc, ◌+◌, ◌-◌, ◌≤◌, ◌≡◌, refl, subst, Bool, Bool-cases, Option-cases, inl, inr, List, [],
  ◌∷◌, ◌++◌, Option, some, ◌||◌, ◌==◌, ltb, arith, caso,
}
use so_1c.Base.Int.{pos}
use so_1c.Protocolo.{codigo, io_failure, menos_uno}
use so_1c.Kernel.{Kernel, SProceso, matadero}
use so_1c.Kernel.Recursos.{desbloquear}
use so_1c.Kernel.Consola.{sacar_pid, esperar, cambiar_multiprogramacion}
use so_1c.Kernel.Io.{existe_conexion, empezar_io, quitar_conexion, matar_bloqueado, terminar_io}
use so_1c.Kernel.Cuenta.{es, presentes, Salda, sacar_pid-veces, veces-push}
use so_1c.Kernel.Saldo.{nada-Salda, matadero-Salda, desbloquear-Salda}

esperar_lem : (n s : ℕ) → n ≤ s → esperar n s ≡ some (s - n)
unfolding esperar
esperar_lem zero s h = ground arith
esperar_lem (suc n) zero h = absurd (omega arith)
esperar_lem (suc n) (suc s) h = ground (arith, esperar_lem n s (omega arith))

-- A new degree that is not negative, where the places that it takes away are free: the change ends,
-- and the free places and the degree move by the same amount, so the places in use stay.
pub cambiar_multiprogramacion_lem :
    (k : Kernel) (g : ℕ)
    → k.multiprogramacion ≤ g + k.s_multiprogramacion
    → (k' : Kernel) × (cambiar_multiprogramacion k (pos g) ≡ some k')
      × (k'.multiprogramacion ≡ g)
      × (k'.s_multiprogramacion + k.multiprogramacion ≡ k.s_multiprogramacion + g)
unfolding cambiar_multiprogramacion
cambiar_multiprogramacion_lem k g h =
    caso
      (λ (o : Option Kernel).
        (k' : Kernel) × (o ≡ some k')
        × (k'.multiprogramacion ≡ g)
        × (k'.s_multiprogramacion + k.multiprogramacion ≡ k.s_multiprogramacion + g))
      (ltb k.multiprogramacion g)
      (λ t. (
        record k {
          s_multiprogramacion = k.s_multiprogramacion + (g - k.multiprogramacion);
          multiprogramacion = g;
        },
        refl,
        refl,
        ground arith,
      ))
      (λ t. (
        record k {
          s_multiprogramacion = k.s_multiprogramacion - (k.multiprogramacion - g);
          multiprogramacion = g;
        },
        rw (esperar_lem (k.multiprogramacion - g) k.s_multiprogramacion (omega arith)) refl,
        refl,
        ground arith,
      ))

segundo :
    {A B : Type 0} {a a' : A} {x y : B}
    → ◌≡◌ {A = Option (A × B)} (some (a, x)) (some (a', y))
    → x ≡ y
segundo e = cc

-- A process that left `lBlocked` and came back to a queue.
sacado-Salda :
    (k k' : Kernel) (n : ℕ) (p : SProceso) (ps : List SProceso) (cs : List String)
    → sacar_pid n k.l_blocked ≡ some (p, ps)
    → Salda (record k { l_blocked = ps; conexiones = cs }) k' (λ m. es m p)
    → Salda k k' (λ m. 0)
unfolding presentes
sacado-Salda k k' n p ps cs h s =
    let (a, c) = sacar_pid-veces n k.l_blocked ps p h in
    record {
      cuentas = λ m. ground (arith, s.cuentas m, c m);
      siguiente = s.siguiente;
      en_regla = s.en_regla;
      listos = s.listos;
      muertos = s.muertos;
    }

-- Whatever an interface answers, the end of the IO of a process that is still in `lBlocked` ends: every
-- process stands in as many queues as before; if each resource had at most as many waiting processes as
-- its instancias is below 0, each still has; and where semPCP and semEXIT counted their queues, they
-- still do.
pub terminar_io-Salda :
    (k : Kernel) (n : ℕ) (nombre : String) (respuesta : ℕ) (p : SProceso) (ps : List SProceso)
    → sacar_pid n k.l_blocked ≡ some (p, ps)
    → (k' : Kernel) × (terminar_io k n nombre respuesta ≡ some k') × Salda k k' (λ m. 0)
unfolding terminar_io matar_bloqueado
terminar_io-Salda k n nombre respuesta p ps h =
    caso Sale (respuesta == codigo io_failure)
      (λ t. mata k.conexiones "La IO no admite la operacion solicitada")
      λ _.
        caso Sale ((respuesta == 0) || (respuesta == menos_uno))
          (λ t.
            mata (quitar_conexion nombre k.conexiones)
              "Se intento comunicar con una IO no conectada")
          λ _. rw h (
            desbloquear (record k { l_blocked = ps }) p,
            refl,
            sacado-Salda k (desbloquear (record k { l_blocked = ps }) p) n p ps k.conexiones h
                (desbloquear-Salda (record k { l_blocked = ps }) p),
          )
  where
    Sale : Option Kernel → Type 0
    Sale o = (k' : Kernel) × (o ≡ some k') × Salda k k' (λ m. 0)

    mata :
        (cs : List String) (motivo : String)
        → Sale (matar_bloqueado (record k { conexiones = cs }) n motivo)
    mata cs motivo =
        rw (h, matar_bloqueado)
          (
            matadero (record k { conexiones = cs; l_blocked = ps }) p motivo,
            refl,
            sacado-Salda k (matadero (record k { conexiones = cs; l_blocked = ps }) p motivo) n p ps
                cs h (matadero-Salda (record k { conexiones = cs; l_blocked = ps }) p motivo),
          )

-- Where the first half of an IO ends, its request sent or not, every process stands in as many queues as
-- before, and the rest of `Salda`.
pub empezar_io-Salda :
    (k : Kernel) (n : ℕ) (nombre : String) (b : Bool) (k' : Kernel)
    → empezar_io k n nombre ≡ some (b, k')
    → Salda k k' (λ m. 0)
unfolding empezar_io matar_bloqueado presentes
empezar_io-Salda k n nombre b k' e = elim (Bool-cases (existe_conexion nombre k.conexiones)) [
  | inl t ↦ elim (Option-cases (sacar_pid n k.l_blocked)) [
    | inl f ↦ subst (λ (x : Kernel). Salda k x (λ m. 0)) (segundo (rw (t, f) at e)) (nada-Salda k)
    | inr ((p, ps), f) ↦
        subst (λ (x : Kernel). Salda k x (λ m. 0)) (segundo (rw (t, f) at e))
          (sacado-Salda k (record k { l_blocked = ps ++ p ∷ [] }) n p ps k.conexiones f
            (record {
              cuentas = λ m. ground (arith, veces-push m ps p);
              siguiente = refl;
              en_regla = λ h. h;
              listos = refl;
              muertos = refl;
            }))
  ]
  | inr t ↦ elim (Option-cases (sacar_pid n k.l_blocked)) [
    | inl f ↦ absurd (cc (rw (t, f) at e))
    | inr ((p, ps), f) ↦
        let motivo : String = "Se intento comunicar con una IO no conectada" in
        subst (λ (x : Kernel). Salda k x (λ m. 0)) (segundo (rw (t, f) at e))
          (sacado-Salda k (matadero (record k { l_blocked = ps }) p motivo) n p ps k.conexiones f
            (matadero-Salda (record k { l_blocked = ps }) p motivo))
  ]
]
