-- ===== src/Cpu/Cupo.antt =====
-- The TLB that MMU and acomodar_entradas_TLB (utils/src/cpu/cpu.c) leave behind.
use so_1c.Base.{
  ℕ, suc, ◌+◌, ◌^◌, ◌≡◌, ◌<◌, refl, ◌∙◌, subst, List, [], ◌∷◌, ◌++◌, Option, none, some, ◌==◌, ltb,
  ◌&&◌, length, length-append, caso, Option-cases, inl, inr, arith,
}
use so_1c.Protocolo.{Envio, entero, pagina, menos_uno}
use so_1c.Memoria.Servidor.{traducir}
use so_1c.Cpu.{Cpu, Config, EntradaTlb, ServidorMemoria}
use so_1c.Cpu.Mmu.{
  numero_pagina, desplazamiento_de, buscar_tlb, quitar_tlb, sin_primera, marco_de,
  acomodar_entradas_tlb, tras_miss, pedir_pagina, mmu_miss, mmu_hit, mmu_pagina, mmu,
}
use so_1c.Cpu.Tlb.{
  Responde, Coherente, append-Coherente, sin_primera-Coherente, quitar-Coherente, entrada-Coherente,
}

length-quitar :
    (pid pag : ℕ) (es : List EntradaTlb) (e : EntradaTlb)
    → buscar_tlb pid pag es ≡ some e
    → suc (length (quitar_tlb pid pag es)) ≡ length es
unfolding buscar_tlb quitar_tlb
length-quitar pid pag [] e q = cc
length-quitar pid pag (x ∷ es) e q = ground (arith, length-quitar pid pag es e)

marco_de-inv : (os : List Envio) (f : ℕ) → marco_de os ≡ some f → os ≡ entero pagina f ∷ []
unfolding marco_de
marco_de-inv (entero pagina m ∷ []) f e = cc
marco_de-inv os f e = cc

module _ {M : Type 0} (k : Config) (s : ServidorMemoria M) where
  -- The TLB has the entries that are not free, and it agrees with the memory.
  pub record EsTlb (c : Cpu M) : Type 0 where
    pub cupo : c.libres + length c.tlb ≡ k.cant_entradas
    pub coherente : Coherente s c.pcb.pid c.memoria c.tlb

  -- Translation leaves the memory as it was, as `traducir_pagina` does.
  abbrev pub SoloTraduce : Type 0
  SoloTraduce =
      (m : M) (pag : ℕ) (os : List Envio) (m' : M)
      → s.pedir m (traducir pag) ≡ some (os, m')
      → m' ≡ m

  hit-EsTlb :
      (pag desp : ℕ) (e : EntradaTlb) (c : Cpu M)
      → EsTlb c
      → buscar_tlb c.pcb.pid pag c.tlb ≡ some e
      → EsTlb (mmu_hit k s pag desp e c).1
  unfolding mmu_hit
  hit-EsTlb pag desp e c v q =
      caso EsTlb k.lru
        (λ l. record {
          cupo = omega (
            arith,
            v.cupo,
            length-append (quitar_tlb c.pcb.pid pag c.tlb) (e ∷ []),
            length-quitar c.pcb.pid pag c.tlb e q,
          );
          coherente =
              append-Coherente s c.pcb.pid c.memoria (quitar_tlb c.pcb.pid pag c.tlb) e
                (quitar-Coherente s c.pcb.pid c.memoria c.pcb.pid pag c.tlb v.coherente)
                (entrada-Coherente s c.pcb.pid c.memoria c.pcb.pid pag c.tlb e v.coherente q);
        })
        (λ l. v)

  acomodar-EsTlb :
      (e : EntradaTlb) (c : Cpu M)
      → 0 < k.cant_entradas
      → EsTlb c
      → (e.pid ≡ c.pcb.pid → Responde s c.memoria e.pagina e.marco)
      → EsTlb (acomodar_entradas_tlb e c)
  unfolding acomodar_entradas_tlb
  acomodar-EsTlb e c p v r =
      caso EsTlb (c.libres == 0)
        (λ z. record {
          cupo = lleno (ground arith) c.tlb v.cupo;
          coherente =
              append-Coherente s c.pcb.pid c.memoria (sin_primera c.tlb) e
                (sin_primera-Coherente s c.pcb.pid c.memoria c.tlb v.coherente) r;
        })
        (λ z. record {
          cupo = ground (arith, length-append c.tlb (e ∷ []), v.cupo);
          coherente = append-Coherente s c.pcb.pid c.memoria c.tlb e v.coherente r;
        })
    where
      lleno :
          c.libres ≡ 0
          → (es : List EntradaTlb) → c.libres + length es ≡ k.cant_entradas
          → c.libres + length (sin_primera es ++ e ∷ []) ≡ k.cant_entradas
      lleno z [] h = absurd (omega arith)
      lleno z (x ∷ es) h = omega (arith, length-append es (e ∷ []))

  tras_miss-EsTlb :
      (pag desp : ℕ) (r : Option ℕ) (c : Cpu M)
      → 0 < k.cant_entradas
      → EsTlb c
      → ((f : ℕ) → r ≡ some f → Responde s c.memoria pag f)
      → EsTlb (tras_miss k s pag desp r c).1
  unfolding tras_miss
  tras_miss-EsTlb pag desp none c p v h = v
  tras_miss-EsTlb pag desp (some f) c p v h =
      acomodar-EsTlb (record { pid = c.pcb.pid; marco = f; pagina = pag }) c p v (λ _. h f refl)

  pedir-EsTlb :
      (pag : ℕ) (r : Option ℕ) (c c' : Cpu M)
      → SoloTraduce
      → EsTlb c
      → pedir_pagina k s pag c ≡ some (r, c')
      → EsTlb c' × ((f : ℕ) → r ≡ some f → Responde s c'.memoria pag f)
  unfolding pedir_pagina
  pedir-EsTlb pag r c c' h v e = elim (Option-cases (s.pedir c.memoria (traducir pag))) [
    | inl q ↦ absurd (cc (rw (q, pedir_pagina) at e))
    | inr ((os, m), q) ↦ tras os m (h c.memoria pag os m q) q (rw (q, pedir_pagina) at e)
  ]
    where
      tras :
          (os : List Envio) (m : M)
          → m ≡ c.memoria
          → s.pedir c.memoria (traducir pag) ≡ some (os, m)
          → ◌≡◌ {A = Option (Option ℕ × Cpu M)}
              (some (marco_de os, record c { memoria = m }))
              (some (r, c'))
          → EsTlb c' × ((f : ℕ) → r ≡ some f → Responde s c'.memoria pag f)
      tras os m i q z =
          let igual : record c { memoria = m } ≡ c' = cc in
          let mismo : marco_de os ≡ r = cc in
          subst (λ (d : Cpu M). EsTlb d × ((f : ℕ) → r ≡ some f → Responde s d.memoria pag f)) igual
            (
              record { cupo = v.cupo; coherente = rw i v.coherente },
              λ f j. rw (i, rw (i, marco_de-inv os f (mismo ∙ j)) at q),
            )

  miss-EsTlb :
      (pag desp d : ℕ) (c c' : Cpu M)
      → SoloTraduce
      → 0 < k.cant_entradas
      → EsTlb c
      → mmu_miss k s pag desp c ≡ some (d, c')
      → EsTlb c'
  unfolding mmu_miss
  miss-EsTlb pag desp d c c' h p v e = elim (Option-cases (pedir_pagina k s pag c)) [
    | inl q ↦ absurd (cc (rw (q, mmu_miss) at e))
    | inr ((r, c₁), q) ↦
        let (w, x) = pedir-EsTlb pag r c c₁ h v q in
        final r c₁ (rw (q, mmu_miss) at e) (tras_miss-EsTlb pag desp r c₁ p w x)
  ]
    where
      final :
          (r : Option ℕ) (c₁ : Cpu M)
          → some (tras_miss k s pag desp r c₁) ≡ some (d, c')
          → EsTlb (tras_miss k s pag desp r c₁).1
          → EsTlb c'
      final r c₁ z w = subst EsTlb (cc z) w

  igual-EsTlb : (r : ℕ × Cpu M) (d : ℕ) (c' : Cpu M) → some r ≡ some (d, c') → EsTlb r.1 → EsTlb c'
  igual-EsTlb (a, c) d c' e v = subst EsTlb (cc) v

  pagina-EsTlb :
      (pag desp d : ℕ) (c c' : Cpu M)
      → SoloTraduce
      → 0 < k.cant_entradas
      → EsTlb c
      → mmu_pagina k s pag desp c ≡ some (d, c')
      → EsTlb c'
  unfolding mmu_pagina
  pagina-EsTlb pag desp d c c' h p v =
      caso Bien (ltb k.tam_pag desp && ltb desp (2 ^ 31))
        (λ _ e. igual-EsTlb (menos_uno, c) d c' e v)
        λ _.
          caso Bien (k.cant_entradas == 0) (λ z e. absurd (ground arith))
            λ _ e. elim (Option-cases (buscar_tlb c.pcb.pid pag c.tlb)) [
              | inl q ↦ miss-EsTlb pag desp d c c' h p v (rw q at e)
              | inr (x, q) ↦
                  igual-EsTlb (mmu_hit k s pag desp x c) d c' (rw q at e)
                    (hit-EsTlb pag desp x c v q)
            ]
    where
      Bien : Option (ℕ × Cpu M) → Type 0
      Bien r = r ≡ some (d, c') → EsTlb c'

  -- While the TLB is well formed and agrees with the memory, and the memory only answers to a
  -- translation, the TLB that a translation leaves is well formed and agrees with the memory too.
  pub mmu-EsTlb :
      (dl d : ℕ) (c c' : Cpu M)
      → SoloTraduce
      → 0 < k.cant_entradas
      → EsTlb c
      → mmu k s dl c ≡ some (d, c')
      → EsTlb c'
  unfolding mmu
  mmu-EsTlb dl d c c' h p v =
      caso Bien (k.tam_pag == 0) (λ _ e. cc)
        λ _ e. elim (Option-cases (numero_pagina k.tam_pag dl)) [
          | inl q ↦ absurd (cc (rw q at e))
          | inr (pag, q) ↦
              pagina-EsTlb pag (desplazamiento_de k.tam_pag dl pag) d c c' h p v (rw q at e)
        ]
    where
      Bien : Option (ℕ × Cpu M) → Type 0
      Bien r = r ≡ some (d, c') → EsTlb c'
