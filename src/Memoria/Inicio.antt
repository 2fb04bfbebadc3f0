-- ===== src/Memoria/Inicio.antt =====
-- inicializar_memoria and inicializar_bitmap (utils/src/memoria/memoria.c), and the states that the
-- requests reach.
use so_1c.Base.{
  ℕ, zero, suc, ◌+◌, ◌/◌, ◌%◌, ◌^◌, ◌<◌, ◌≡◌, refl, ◌∙◌, subst, true, false, List, [], Option, none,
  some, arith, length, get_elem?, ◌==◌, inl, inr, if◌then◌else◌, ◌||◌, leb, Bool-cases,
}
use native.Mathlib.Nat.{mod-add-div'}
use so_1c.BitArray.{BitArray}
use so_1c.Protocolo.{Envio}
use so_1c.Memoria.{Pag, Proceso, Memoria, deref}
use so_1c.Memoria.Servidor.{Peticion}
use so_1c.Memoria.Duenos.{duenos}
use so_1c.Memoria.Exclusivo.{marcos_exclusivos}
use so_1c.Memoria.Valida.{atender, atender-IsValid}
use so_1c.Memoria.Inv.{IsValid}

module _ {Bits : Type 0} ⦃b : BitArray Bits⦄ where
  open b use {tam, test_bit, clean_bit, tam-clean, test-clean}

  -- `inicializar_bitmap`, from index i on, with n indices left.
  unfoldable pub limpiar_desde : ℕ → ℕ → Bits → Bits
  limpiar_desde zero i bm = bm
  limpiar_desde (suc n) i bm = limpiar_desde n (suc i) (clean_bit bm i)

  -- `inicializar_memoria`, over the bit array and the block that were allocated. The size of a page
  -- and the number of pages are cut to the 16 bits of a short; `none` where one is then negative. It
  -- gives up where the size is no multiple of the page size, and faults at a page size of 0.
  unfoldable pub inicializar_memoria : ℕ → ℕ → Bits → List ℕ → Option (Memoria Bits)
  unfolding limpiar_desde
  inicializar_memoria tam_pagina tam_memoria crudo bloque =
      let tam_pag = tam_pagina % 2 ^ 16 in
      let cant_pag = tam_memoria / tam_pag % 2 ^ 16 in
      if tam_pag == 0 || (leb (2 ^ 15) tam_pag || leb (2 ^ 15) cant_pag)
      then none
      else (if tam_memoria % tam_pag == 0
          then some (record {
            tam_pag = tam_pag;
            cant_pag = cant_pag;
            bitmap = limpiar_desde cant_pag 0 crudo;
            contigua = bloque;
            procesos = [];
            actual = 0;
          })
          else none)

  limpiar_lem :
      (n i : ℕ) (bm : Bits)
      → i + n ≡ tam bm
      → (tam (limpiar_desde n i bm) ≡ tam bm)
        × ((f : ℕ)
            → f < tam bm
            → (f < i → test_bit bm f ≡ false)
            → test_bit (limpiar_desde n i bm) f ≡ false)
  unfolding limpiar_desde
  limpiar_lem zero i bm e = (refl, λ f l h. h (omega arith))
  limpiar_lem (suc n) i bm e =
      let (t, h) = limpiar_lem n (suc i) (clean_bit bm i) (omega (arith, tam-clean bm i)) in
      (
        t ∙ tam-clean bm i,
        λ f l k. h f (omega (arith, tam-clean bm i)) (λ q. ground (arith, test-clean bm i f, k)),
      )

  -- Where a short holds the size of a page and the number of pages, the bit array has a bit for each
  -- page and the block as many bytes as the memory, what `inicializar_memoria` sets up is valid.
  pub inicializar_memoria-IsValid :
      (tam_pag tam_memoria : ℕ) (crudo : Bits) (bloque : List ℕ) (s : Memoria Bits)
      → tam_pag < 2 ^ 15
      → tam_memoria / tam_pag < 2 ^ 15
      → tam crudo ≡ tam_memoria / tam_pag
      → length bloque ≡ tam_memoria
      → inicializar_memoria tam_pag tam_memoria crudo bloque ≡ some s
      → IsValid s
  unfolding inicializar_memoria
  inicializar_memoria-IsValid t n crudo bloque s ht hc m l e =
      let (x, y) = limpiar_lem (n / t) 0 crudo (omega (arith, m)) in
      let u : t % 2 ^ 16 ≡ t = omega arith in
      let v : n / t % 2 ^ 16 ≡ n / t = omega arith in
      let a : leb (2 ^ 15) t ≡ false = ground arith in
      let c : leb (2 ^ 15) (n / t) ≡ false = ground arith in
      let k = rw (u, v, a, c) at e in
      elim (Bool-cases (t == 0)) [
        | inl z ↦ absurd (cc (rw z at k))
        | inr p ↦ elim (Bool-cases (n % t == 0)) [
          | inr z ↦ absurd (cc (rw (p, z) at k))
          | inl z ↦ subst IsValid (some_eq (rw (p, z) at k)) (record {
            medida = x ∙ m;
            positivo = ground arith;
            tamanio = ground (arith, mod-add-div' n t);
            todos = tt;
            exactos =
                λ f k. unfold duenos in rw (y f (omega (arith, m)) (λ q. absurd (omega arith)));
          })
        ]
      ]
    where
      some_eq : {s s' : Memoria Bits} → some s ≡ some s' → s ≡ s'
      some_eq e = cc

  module _ (path : List ℕ) (cargar : List ℕ → Option (List (List ℕ))) where
    -- The states that the requests lead to, in whatever order the threads are served.
    pub data Alcanza (s : Memoria Bits) : Memoria Bits → Type 0 where
      inicio : Alcanza s s
      paso :
          {r u : Memoria Bits} (q : Peticion) (o : List Envio)
          → Alcanza s r
          → atender path cargar r q ≡ some (o, u)
          → Alcanza s u

    -- Every memory that the requests lead to from a valid one is valid.
    pub Alcanza-IsValid : {s r : Memoria Bits} → IsValid s → Alcanza s r → IsValid r
    Alcanza-IsValid v inicio = v
    Alcanza-IsValid v (paso {r = r} {u = u} q o a e) =
        atender-IsValid path cargar r q o u (Alcanza-IsValid v a) e

    -- In a memory that `inicializar_memoria` set up with a page size and a number of pages that a short
    -- holds, over a bit array with a bit for each page and a block of the memory's size, after any
    -- requests of the CPU, the kernel and the interfaces, in any order: no frame belongs to two pages.
    -- Two used pages of live processes that hold the same frame are the same page of the same process.
    pub aislamiento :
        (tam_pag tam_memoria : ℕ) (crudo : Bits) (bloque : List ℕ) (s r : Memoria Bits)
        (k j x y : ℕ) (p q : Proceso) (a c : Pag)
        → tam_pag < 2 ^ 15
        → tam_memoria / tam_pag < 2 ^ 15
        → tam crudo ≡ tam_memoria / tam_pag
        → length bloque ≡ tam_memoria
        → inicializar_memoria tam_pag tam_memoria crudo bloque ≡ some s
        → Alcanza s r
        → deref r.procesos k ≡ some p
        → deref r.procesos j ≡ some q
        → get_elem? p.paginas x ≡ some a
        → get_elem? q.paginas y ≡ some c
        → a.estado ≡ true
        → c.estado ≡ true
        → a.marco ≡ c.marco
        → (k ≡ j) × (x ≡ y)
    aislamiento t n crudo bloque s r k j x y p q a c ht hc m l e h =
        marcos_exclusivos r k j x y p q a c
          (Alcanza-IsValid (inicializar_memoria-IsValid t n crudo bloque s ht hc m l e) h)
