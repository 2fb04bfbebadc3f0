-- ===== src/Cpu/Tlb.antt =====
-- MMU (utils/src/cpu/cpu.c) with a TLB against MMU that always asks the memory.
use so_1c.Base.{
  ℕ, ◌≡◌, subst, true, List, [], ◌∷◌, ◌++◌, Option, none, some, ◌==◌, ◌&&◌, Option-cases,
  Bool-cases, inl, inr, arith,
}
use so_1c.Protocolo.{entero, pagina}
use so_1c.Memoria.Servidor.{traducir}
use so_1c.Cpu.{Cpu, Config, EntradaTlb, ServidorMemoria}
use so_1c.Cpu.Mmu.{
  numero_pagina, desplazamiento_de, buscar_tlb, quitar_tlb, sin_primera, marco_de, tras_memoria,
  tras_miss, pedir_pagina, mmu_memoria, mmu_miss, mmu_hit, mmu_pagina, mmu,
}

module _ {M : Type 0} (s : ServidorMemoria M) where
  -- What the memory answers for a page of the process that it runs.
  abbrev pub Responde : M → ℕ → ℕ → Type 0
  Responde m pag f = s.pedir m (traducir pag) ≡ some (entero pagina f ∷ [], m)

  -- The entries of the running process agree with the memory.
  abbrev pub Coherente : ℕ → M → List EntradaTlb → Type 0
  Coherente pid m [] = Unit {0}
  Coherente pid m (e ∷ es) = (e.pid ≡ pid → Responde m e.pagina e.marco) × Coherente pid m es

  pub append-Coherente :
      (pid : ℕ) (m : M) (es : List EntradaTlb) (e : EntradaTlb)
      → Coherente pid m es
      → (e.pid ≡ pid → Responde m e.pagina e.marco)
      → Coherente pid m (es ++ e ∷ [])
  append-Coherente pid m [] e h r = (r, tt)
  append-Coherente pid m (x ∷ es) e h r = (h.0, append-Coherente pid m es e h.1 r)

  pub sin_primera-Coherente :
      (pid : ℕ) (m : M) (es : List EntradaTlb)
      → Coherente pid m es
      → Coherente pid m (sin_primera es)
  sin_primera-Coherente pid m [] h = tt
  sin_primera-Coherente pid m (e ∷ es) h = h.1

  pub quitar-Coherente :
      (pid : ℕ) (m : M) (q pag : ℕ) (es : List EntradaTlb)
      → Coherente pid m es
      → Coherente pid m (quitar_tlb q pag es)
  unfolding quitar_tlb
  quitar-Coherente pid m q pag [] h = tt
  quitar-Coherente pid m q pag (e ∷ es) h = elim (Bool-cases (e.pid == q && e.pagina == pag)) [
    | inl t ↦ rw t h.1
    | inr t ↦ rw t (h.0, quitar-Coherente pid m q pag es h.1)
  ]

  -- What a hit finds.
  pub buscar-Coherente :
      (pid : ℕ) (m : M) (pag : ℕ) (es : List EntradaTlb) (e : EntradaTlb)
      → Coherente pid m es
      → buscar_tlb pid pag es ≡ some e
      → Responde m pag e.marco
  unfolding buscar_tlb
  buscar-Coherente pid m pag [] e h q = cc
  buscar-Coherente pid m pag (x ∷ es) e h q = elim (Bool-cases (x.pid == pid && x.pagina == pag)) [
    | inl t ↦ hallada t (cc (rw t at q)) (pares t)
    | inr t ↦ buscar-Coherente pid m pag es e h.1 (rw t at q)
  ]
    where
      pares : (x.pid == pid && x.pagina == pag) ≡ true → (x.pid ≡ pid) × (x.pagina ≡ pag)
      pares t = ground arith

      hallada :
          (x.pid == pid && x.pagina == pag) ≡ true
          → x ≡ e
          → (x.pid ≡ pid) × (x.pagina ≡ pag)
          → Responde m pag e.marco
      hallada t i (a, c) = rw (← i, ← c) (h.0 a)

  pub entrada-Coherente :
      (pid : ℕ) (m : M) (q pag : ℕ) (es : List EntradaTlb) (e : EntradaTlb)
      → Coherente pid m es
      → buscar_tlb q pag es ≡ some e
      → e.pid ≡ pid
      → Responde m e.pagina e.marco
  unfolding buscar_tlb
  entrada-Coherente pid m q pag [] e h r i = cc
  entrada-Coherente pid m q pag (x ∷ es) e h r i =
      elim (Bool-cases (x.pid == q && x.pagina == pag)) [
        | inl t ↦
            let xe : x ≡ e = cc (rw t at r) in
            subst (λ (y : EntradaTlb). (y.pid ≡ pid → Responde m y.pagina y.marco)) xe h.0 i
        | inr t ↦ entrada-Coherente pid m q pag es e h.1 (rw t at r) i
      ]

  module _ (k : Config) where
    -- The address of a result.
    abbrev pub direccion : Option (ℕ × Cpu M) → Option ℕ
    direccion none = none
    direccion (some (d, c)) = some d

    -- The same CPU with no TLB.
    abbrev pub sin_tlb : Config
    sin_tlb = record k { cant_entradas = 0 }

    miss-memoria :
        (pag desp : ℕ) (c : Cpu M)
        → direccion (mmu_miss k s pag desp c) ≡ direccion (mmu_memoria sin_tlb s pag desp c)
    unfolding mmu_miss mmu_memoria tras_miss tras_memoria pedir_pagina
    miss-memoria pag desp c = ground arith

    hit-memoria :
        (pag desp : ℕ) (c : Cpu M) (e : EntradaTlb)
        → Responde c.memoria pag e.marco
        → some (mmu_hit k s pag desp e c).0 ≡ direccion (mmu_memoria sin_tlb s pag desp c)
    unfolding mmu_hit mmu_memoria pedir_pagina marco_de
    hit-memoria pag desp c e r = ground (arith, r)

    pagina-memoria :
        (pag desp : ℕ) (c : Cpu M)
        → Coherente c.pcb.pid c.memoria c.tlb
        → direccion (mmu_pagina k s pag desp c) ≡ direccion (mmu_pagina sin_tlb s pag desp c)
    unfolding mmu_pagina
    pagina-memoria pag desp c h = elim (Option-cases (buscar_tlb c.pcb.pid pag c.tlb)) [
      | inl q ↦ ground (arith, miss-memoria pag desp c)
      | inr (e, q) ↦
          ground
            (arith, hit-memoria pag desp c e (buscar-Coherente c.pcb.pid c.memoria pag c.tlb e h q))
    ]

    -- While the entries of the running process agree with the memory, MMU with a TLB gives the
    -- address, or the fault, that MMU without one gives.
    pub mmu-sin_tlb :
        (dl : ℕ) (c : Cpu M)
        → Coherente c.pcb.pid c.memoria c.tlb
        → direccion (mmu k s dl c) ≡ direccion (mmu sin_tlb s dl c)
    unfolding mmu
    mmu-sin_tlb dl c h = elim (Option-cases (numero_pagina k.tam_pag dl)) [
      | inl q ↦ ground arith
      | inr (pag, q) ↦ ground (arith, pagina-memoria pag (desplazamiento_de k.tam_pag dl pag) c h)
    ]
