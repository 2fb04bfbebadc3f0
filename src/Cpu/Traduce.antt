-- ===== src/Cpu/Traduce.antt =====
-- What MMU (utils/src/cpu/cpu.c) does where the memory has a frame for the page: the address, and
-- the state that it leaves.
use so_1c.Base.{
  ℕ, ◌+◌, ◌-◌, ◌*◌, ◌/◌, ◌%◌, ◌^◌, ◌≡◌, ◌<◌, ◌≤◌, refl, ◌∙◌, subst, false, true, [], ◌∷◌, ◌++◌,
  Option, some, ◌==◌, ltb, Option-cases, Bool-cases, inl, inr, arith,
}
use native.Mathlib.Nat.{div-add-mod', mod-lt}
use so_1c.Protocolo.{operacion, menos_uno}
use so_1c.Memoria.Servidor.{traducir}
use so_1c.Cpu.{Cpu, Config, EntradaTlb, ServidorMemoria}
use so_1c.Cpu.Mmu.{
  numero_pagina, desplazamiento_de, direccion_fisica, buscar_tlb, quitar_tlb, sin_primera, marco_de,
  acomodar_entradas_tlb, tras_memoria, tras_miss, pedir_pagina, mmu_memoria, mmu_miss, mmu_hit,
  mmu_pagina, mmu,
}
use so_1c.Cpu.Tlb.{
  Responde, Coherente, append-Coherente, sin_primera-Coherente, quitar-Coherente, buscar-Coherente,
  entrada-Coherente, direccion, mmu-sin_tlb,
}

module _ {M : Type 0} (k : Config) (s : ServidorMemoria M) where
  -- A translation that gave an address: the PCB and the memory stay, and the TLB agrees with the memory.
  pub record Traduce (c : Cpu M) (d : ℕ) (r : Option (ℕ × Cpu M)) : Type 0 where
    pub fin : Cpu M
    pub da : r ≡ some (d, fin)
    pub pcb : fin.pcb ≡ c.pcb
    pub memoria : fin.memoria ≡ c.memoria
    pub coherente : Coherente s c.pcb.pid c.memoria fin.tlb

  pedir-Responde :
      (pag f : ℕ) (c : Cpu M)
      → Responde s c.memoria pag f
      → pedir_pagina k s pag c ≡ some (some f, c)
  unfolding pedir_pagina marco_de
  pedir-Responde pag f c r = rw (pedir_pagina, r) refl

  memoria-Traduce :
      (pag desp f : ℕ) (c : Cpu M)
      → Coherente s c.pcb.pid c.memoria c.tlb
      → Responde s c.memoria pag f
      → Traduce c (direccion_fisica k.tam_pag f desp) (mmu_memoria k s pag desp c)
  unfolding mmu_memoria tras_memoria
  memoria-Traduce pag desp f c h r = record {
    fin = c;
    da = rw (mmu_memoria, pedir-Responde pag f c r) refl;
    pcb = refl;
    memoria = refl;
    coherente = h;
  }

  miss-Traduce :
      (pag desp f : ℕ) (c : Cpu M)
      → Coherente s c.pcb.pid c.memoria c.tlb
      → Responde s c.memoria pag f
      → Traduce c (direccion_fisica k.tam_pag f desp) (mmu_miss k s pag desp c)
  unfolding mmu_miss tras_miss acomodar_entradas_tlb
  miss-Traduce pag desp f c h r =
      let e : EntradaTlb = record { pid = c.pcb.pid; marco = f; pagina = pag } in
      elim (Bool-cases (c.libres == 0)) [
        | inl z ↦ record {
          fin = record c { tlb = sin_primera c.tlb ++ e ∷ [] };
          da = rw (mmu_miss, pedir-Responde pag f c r, tras_miss, acomodar_entradas_tlb, z) refl;
          pcb = refl;
          memoria = refl;
          coherente =
              append-Coherente s c.pcb.pid c.memoria (sin_primera c.tlb) e
                (sin_primera-Coherente s c.pcb.pid c.memoria c.tlb h) (λ _. r);
        }
        | inr z ↦ record {
          fin = record c { libres = c.libres - 1; tlb = c.tlb ++ e ∷ [] };
          da = rw (mmu_miss, pedir-Responde pag f c r, tras_miss, acomodar_entradas_tlb, z) refl;
          pcb = refl;
          memoria = refl;
          coherente = append-Coherente s c.pcb.pid c.memoria c.tlb e h (λ _. r);
        }
      ]

  hit-Traduce :
      (pag desp f : ℕ) (e : EntradaTlb) (c : Cpu M)
      → Coherente s c.pcb.pid c.memoria c.tlb
      → Responde s c.memoria pag f
      → buscar_tlb c.pcb.pid pag c.tlb ≡ some e
      → Traduce c (direccion_fisica k.tam_pag f desp) (some (mmu_hit k s pag desp e c))
  unfolding mmu_hit
  hit-Traduce pag desp f e c h r q =
      let w = buscar-Coherente s c.pcb.pid c.memoria pag c.tlb e h q in
      let i : e.marco ≡ f = cc in
      elim (Bool-cases k.lru) [
        | inl z ↦ record {
          fin = record c { tlb = quitar_tlb c.pcb.pid pag c.tlb ++ e ∷ [] };
          da = rw (z, i) refl;
          pcb = refl;
          memoria = refl;
          coherente =
              append-Coherente s c.pcb.pid c.memoria (quitar_tlb c.pcb.pid pag c.tlb) e
                (quitar-Coherente s c.pcb.pid c.memoria c.pcb.pid pag c.tlb h)
                (entrada-Coherente s c.pcb.pid c.memoria c.pcb.pid pag c.tlb e h q);
        }
        | inr z ↦ record { fin = c; da = rw (z, i) refl; pcb = refl; memoria = refl; coherente = h }
      ]

  pagina-Traduce :
      (pag desp f : ℕ) (c : Cpu M)
      → desp ≤ k.tam_pag
      → Coherente s c.pcb.pid c.memoria c.tlb
      → Responde s c.memoria pag f
      → Traduce c (direccion_fisica k.tam_pag f desp) (mmu_pagina k s pag desp c)
  unfolding mmu_pagina
  pagina-Traduce pag desp f c l h r =
      let dentro : ltb k.tam_pag desp ≡ false = ground arith in
      rw dentro (elim (Bool-cases (k.cant_entradas == 0)) [
        | inl z ↦ rw z (memoria-Traduce pag desp f c h r)
        | inr z ↦ rw z (elim (Option-cases (buscar_tlb c.pcb.pid pag c.tlb)) [
          | inl q ↦ rw q (miss-Traduce pag desp f c h r)
          | inr (e, q) ↦ rw q (hit-Traduce pag desp f e c h r q)
        ])
      ])

  -- A page that has a frame.
  pub mmu-Traduce :
      (dl f : ℕ) (c : Cpu M)
      → 0 < k.tam_pag
      → dl < 2 ^ 31
      → Coherente s c.pcb.pid c.memoria c.tlb
      → Responde s c.memoria (dl / k.tam_pag) f
      → Traduce c ((f * k.tam_pag + dl % k.tam_pag) % 2 ^ 32) (mmu k s dl c)
  unfolding mmu numero_pagina
  mmu-Traduce dl f c p l h r =
      let t = k.tam_pag in
      let desp = desplazamiento_de t dl (dl / t) in
      let resto : desp ≡ dl % t = omega (arith, div-add-mod' dl t) in
      let cero : (t == 0) ≡ false = ground arith in
      let menor : ltb dl (2 ^ 31) ≡ true = ground arith in
      rw (cero, menor)
        (subst (λ x. Traduce c ((f * t + x) % 2 ^ 32) (mmu_pagina k s (dl / t) desp c)) resto
          (pagina-Traduce (dl / t) desp f c (omega (arith, mod-lt dl p)) h r))

  -- A page for which the memory answers an operation in place of a frame.
  pub mmu-sin_marco :
      (dl v : ℕ) (c : Cpu M) (m : M)
      → 0 < k.tam_pag
      → dl < 2 ^ 31
      → Coherente s c.pcb.pid c.memoria c.tlb
      → s.pedir c.memoria (traducir (dl / k.tam_pag)) ≡ some (operacion v ∷ [], m)
      → direccion s k (mmu k s dl c) ≡ some menos_uno
  unfolding mmu mmu_pagina numero_pagina mmu_memoria
  mmu-sin_marco dl v c m p l h r =
      let t = k.tam_pag in
      let desp = desplazamiento_de t dl (dl / t) in
      let cero : (t == 0) ≡ false = ground arith in
      let menor : ltb dl (2 ^ 31) ≡ true = ground arith in
      let dentro : ltb t desp ≡ false = ground (arith, div-add-mod' dl t, mod-lt dl p) in
      mmu-sin_tlb s k dl c h
      ∙ rw (cero, menor, dentro, mmu_memoria, pedir_pagina, r, marco_de, tras_memoria) refl
