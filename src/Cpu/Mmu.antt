-- ===== src/Cpu/Mmu.antt =====
-- MMU and acomodar_entradas_TLB (utils/src/cpu/cpu.c): translation of a logical address through the
-- TLB, or by asking the memory.
use so_1c.Base.{
  ℕ, ◌+◌, ◌-◌, ◌*◌, ◌/◌, ◌%◌, ◌^◌, List, [], ◌∷◌, ◌++◌, Option, none, some, if◌then◌else◌, ◌==◌,
  ltb, ◌&&◌,
}
use so_1c.Protocolo.{Envio, entero, menos_uno, pagina}
use so_1c.Memoria.Servidor.{traducir}
use so_1c.Cpu.{Cpu, Config, EntradaTlb, ServidorMemoria, Paso}

-- `DL / tam_pag`, which C rounds towards 0; `none` is a negative page, which the memory would look up
-- before its table.
unfoldable pub numero_pagina : ℕ → ℕ → Option ℕ
numero_pagina t dl =
    if ltb dl (2 ^ 31) then some (dl / t) else (if ltb (2 ^ 32 - dl) t then some 0 else none)

-- `DL - pag*tam_pag`, and `marco*tam_pag + desplazamiento`.
abbrev pub desplazamiento_de : ℕ → ℕ → ℕ → ℕ
desplazamiento_de t dl pag = dl - pag * t

abbrev pub direccion_fisica : ℕ → ℕ → ℕ → ℕ
direccion_fisica t marco desp = (marco * t + desp) % 2 ^ 32

-- The first entry of the process for the page, `list_find`.
unfoldable pub buscar_tlb : ℕ → ℕ → List EntradaTlb → Option EntradaTlb
buscar_tlb pid pag [] = none
buscar_tlb pid pag (e ∷ es) =
    if e.pid == pid && e.pagina == pag then some e else buscar_tlb pid pag es

-- `list_remove_element` of that entry.
unfoldable pub quitar_tlb : ℕ → ℕ → List EntradaTlb → List EntradaTlb
quitar_tlb pid pag [] = []
quitar_tlb pid pag (e ∷ es) =
    if e.pid == pid && e.pagina == pag then es else e ∷ quitar_tlb pid pag es

-- `queue_pop`, and the entry freed.
abbrev pub sin_primera : List EntradaTlb → List EntradaTlb
sin_primera [] = []
sin_primera (e ∷ es) = es

-- What the memory's answer to PAGINA holds: `none` where the operation read is another one.
unfoldable pub marco_de : List Envio → Option ℕ
marco_de (entero pagina m ∷ []) = some m
marco_de os = none

module _ {M : Type 0} where
  -- `acomodar_entradas_TLB`
  unfoldable pub acomodar_entradas_tlb : EntradaTlb → Cpu M → Cpu M
  acomodar_entradas_tlb e c =
      if c.libres == 0
      then record c { tlb = sin_primera c.tlb ++ e ∷ [] }
      else record c { libres = c.libres - 1; tlb = c.tlb ++ e ∷ [] }

  module _ (k : Config) (s : ServidorMemoria M) where
    -- The page's frame as the memory answers it.
    unfoldable pub pedir_pagina : ℕ → Paso M (Option ℕ)
    pedir_pagina pag c = elim (s.pedir c.memoria (traducir pag)) [
      | none ↦ none
      | some (os, m) ↦ some (marco_de os, record c { memoria = m })
    ]

    -- The branch of `MMU` without a TLB, after the answer.
    unfoldable pub tras_memoria : ℕ → Option ℕ → Cpu M → ℕ × Cpu M
    tras_memoria desp none c = (menos_uno, c)
    tras_memoria desp (some m) c = (direccion_fisica k.tam_pag m desp, c)

    unfoldable pub mmu_memoria : ℕ → ℕ → Paso M ℕ
    unfolding tras_memoria
    mmu_memoria pag desp c = elim (pedir_pagina pag c) [
      | none ↦ none
      | some (r, c') ↦ some (tras_memoria desp r c')
    ]

    -- The branch of a TLB miss, after the answer.
    unfoldable pub tras_miss : ℕ → ℕ → Option ℕ → Cpu M → ℕ × Cpu M
    unfolding acomodar_entradas_tlb
    tras_miss pag desp none c = (menos_uno, c)
    tras_miss pag desp (some m) c = (
      direccion_fisica k.tam_pag m desp,
      acomodar_entradas_tlb (record { pid = c.pcb.pid; marco = m; pagina = pag }) c,
    )

    unfoldable pub mmu_miss : ℕ → ℕ → Paso M ℕ
    unfolding tras_miss
    mmu_miss pag desp c = elim (pedir_pagina pag c) [
      | none ↦ none
      | some (r, c') ↦ some (tras_miss pag desp r c')
    ]

    -- The branch of a TLB hit: under LRU the entry becomes the newest.
    unfoldable pub mmu_hit : ℕ → ℕ → EntradaTlb → Cpu M → ℕ × Cpu M
    mmu_hit pag desp e c = (
      direccion_fisica k.tam_pag e.marco desp,
      if k.lru then record c { tlb = quitar_tlb c.pcb.pid pag c.tlb ++ e ∷ [] } else c,
    )

    -- `MMU`, once the page is known. The guard on the displacement is never met.
    unfoldable pub mmu_pagina : ℕ → ℕ → Paso M ℕ
    mmu_pagina pag desp c =
        if ltb k.tam_pag desp && ltb desp (2 ^ 31)
        then some (menos_uno, c)
        else (if k.cant_entradas == 0
            then mmu_memoria pag desp c
            else elim (buscar_tlb c.pcb.pid pag c.tlb) [
              | some e ↦ some (mmu_hit pag desp e c)
              | none ↦ mmu_miss pag desp c
            ])

    -- `MMU`. A division by a page size of 0 faults.
    unfoldable pub mmu : ℕ → Paso M ℕ
    unfolding mmu_pagina mmu_memoria mmu_miss mmu_hit pedir_pagina numero_pagina buscar_tlb
        quitar_tlb marco_de
    mmu dl c = if k.tam_pag == 0 then none else elim (numero_pagina k.tam_pag dl) [
      | none ↦ none
      | some pag ↦ mmu_pagina pag (desplazamiento_de k.tam_pag dl pag) c
    ]

    -- The translations of a list of addresses, in order.
    unfoldable pub mmu_todas : List ℕ → Paso M (List ℕ)
    mmu_todas [] c = some ([], c)
    mmu_todas (d ∷ ds) c = elim (mmu d c) [
      | none ↦ none
      | some (f, c') ↦ elim (mmu_todas ds c') [ none ↦ none | some (fs, c'') ↦ some (f ∷ fs, c'') ]
    ]
