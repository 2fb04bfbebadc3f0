-- ===== src/Memoria/Exclusivo.antt =====
-- The frames of different pages, and what traducir_pagina (utils/src/memoria/memoria.c) answers.
use so_1c.Base.{
  ℕ, zero, suc, ◌≤◌, ◌<◌, ◌≡◌, refl, ap, ◌∙◌, true, List, [], ◌∷◌, none, some, arith, length,
  get_elem?, ◌≢◌, if◌then◌else◌, ℕ_discrete, ltb,
}
use so_1c.BitArray.{BitArray}
use so_1c.Protocolo.{operacion, entero, menos_uno, pagina}
use so_1c.Memoria.{Pag, Proceso, Memoria, deref, guardar}
use so_1c.Memoria.Marcos.{paginas_usadas}
use so_1c.Memoria.Tabla.{
  cuenta, total, Prefijo, Debajo, cuenta-pos, usadas-le-total, cuenta-le-total,
}
use so_1c.Memoria.Atender.{traducir_pagina}
use so_1c.Memoria.Duenos.{duenos, deref-Todos, duenos-deref, deref-guardar_ne}
use so_1c.Memoria.Inv.{IsValid}

-- Two used pages of one table on the same frame count twice.
cuenta-dos :
    (ps : List Pag) (x y : ℕ) (a c : Pag)
    → get_elem? ps x ≡ some a
    → get_elem? ps y ≡ some c
    → a.estado ≡ true
    → c.estado ≡ true
    → a.marco ≡ c.marco
    → x ≢ y
    → 2 ≤ cuenta a.marco ps
unfolding cuenta
cuenta-dos [] x y a c e g u w m n = cc
cuenta-dos (p ∷ ps) zero zero a c e g u w m n = absurd (n refl)
cuenta-dos (p ∷ ps) zero (suc y) a c e g u w m n = ground (arith, cuenta-pos ps y c g w)
cuenta-dos (p ∷ ps) (suc x) zero a c e g u w m n = ground (arith, cuenta-pos ps x a e u)
cuenta-dos (p ∷ ps) (suc x) (suc y) a c e g u w m n =
    omega (arith, cuenta-dos ps x y a c e g u w m (λ q. n (ap suc q)))

-- The used pages are those below the page count.
usada_iff :
    (ps : List Pag) (x : ℕ) (a : Pag)
    → Prefijo ps
    → get_elem? ps x ≡ some a
    → a.estado ≡ ltb x (paginas_usadas ps)
unfolding paginas_usadas total
usada_iff [] x a h e = cc
usada_iff (p ∷ ps) zero a h e = ground arith
usada_iff (p ∷ ps) (suc x) a h e =
    ground
      (arith, usada_iff ps x a, cuenta-pos ps x a, cuenta-le-total a.marco ps, usadas-le-total ps)

usada-Debajo :
    (cant : ℕ) (ps : List Pag) (x : ℕ) (a : Pag)
    → Debajo cant ps
    → get_elem? ps x ≡ some a
    → a.estado ≡ true
    → a.marco < cant
usada-Debajo cant [] x a d e u = cc
usada-Debajo cant (p ∷ ps) zero a d e u = ground (arith, d.0)
usada-Debajo cant (p ∷ ps) (suc x) a d e u = usada-Debajo cant ps x a d.1 e u

hay-elem : (ps : List Pag) (x : ℕ) → x < length ps → (a : Pag) × (get_elem? ps x ≡ some a)
hay-elem [] x l = absurd (omega arith)
hay-elem (p ∷ ps) zero l = (p, refl)
hay-elem (p ∷ ps) (suc x) l = hay-elem ps x (omega arith)

module _ {Bits : Type 0} ⦃b : BitArray Bits⦄ where
  open b use {test_bit}

  -- In a valid memory two used pages, of one process or of two, that hold the same frame are the
  -- same page of the same process.
  pub marcos_exclusivos :
      (s : Memoria Bits) (k j x y : ℕ) (p q : Proceso) (a c : Pag)
      → IsValid s
      → deref s.procesos k ≡ some p
      → deref s.procesos j ≡ some q
      → get_elem? p.paginas x ≡ some a
      → get_elem? q.paginas y ≡ some c
      → a.estado ≡ true
      → c.estado ≡ true
      → a.marco ≡ c.marco
      → (k ≡ j) × (x ≡ y)
  marcos_exclusivos s k j x y p q a c v dp dq e g u w m = elim (ℕ_discrete k j) [
    | yes i ↦ (
      i,
      elim (ℕ_discrete x y) [
        | yes z ↦ z
        | no z ↦ absurd (
            omega (
              arith,
              unico,
              duenos-deref a.marco k s.procesos p dp,
              cuenta-dos p.paginas x y a c e (misma i) u w m z,
            ))
      ],
    )
    | no i ↦ absurd (
        omega (
          arith,
          unico,
          duenos-deref a.marco k s.procesos p dp,
          duenos-deref a.marco j (guardar s.procesos k none) q
              (deref-guardar_ne k j s.procesos none i ∙ dq),
          cuenta-pos p.paginas x a e u,
          rw (← m) at (cuenta-pos q.paginas y c g w),
        ))
  ]
    where
      misma : k ≡ j → get_elem? p.paginas y ≡ some c
      misma i =
          let pq : p ≡ q = cc (ap (deref s.procesos) i) in rw (ap (λ (r : Proceso). r.paginas) pq) g

      dentro : a.marco < s.cant_pag
      dentro =
          usada-Debajo s.cant_pag p.paginas x a
            (deref-Todos s.cant_pag k s.procesos p v.todos dp).debajo e u

      unico : duenos a.marco s.procesos ≤ 1
      unico = ground (arith, v.exactos a.marco dentro)

  -- `traducir_pagina` on a valid memory, for a page number of the table: a page below the process's
  -- page count gives its frame, which exists and is marked, and any other page gives -1.
  pub traducir_pagina_lem :
      (s : Memoria Bits) (p : Proceso) (n : ℕ)
      → IsValid s
      → deref s.procesos s.actual ≡ some p
      → n < s.cant_pag
      → (a : Pag) × (get_elem? p.paginas n ≡ some a)
        × (traducir_pagina s n
            ≡ some (
              (if ltb n (paginas_usadas p.paginas)
                    then entero pagina a.marco
                    else operacion menos_uno)
                  ∷ [],
              s,
            ))
        × (n < paginas_usadas p.paginas
            → (a.marco < s.cant_pag) × (test_bit s.bitmap a.marco ≡ true))
  unfolding traducir_pagina
  traducir_pagina_lem s p n v e l =
      let q = deref-Todos s.cant_pag s.actual s.procesos p v.todos e in
      let (a, h) = hay-elem p.paginas n (omega (arith, q.largo)) in
      let u = usada_iff p.paginas n a q.prefijo h in
      (
        a,
        h,
        rw (e, h, u),
        λ k.
            let us : a.estado ≡ true = ground arith in
            let m = usada-Debajo s.cant_pag p.paginas n a q.debajo h us in
            (
              m,
              ground (
                arith,
                v.exactos a.marco m,
                duenos-deref a.marco s.actual s.procesos p e,
                cuenta-pos p.paginas n a h us,
              ),
            ),
      )
