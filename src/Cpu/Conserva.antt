-- ===== src/Cpu/Conserva.antt =====
-- What a step of the CPU (utils/src/cpu/cpu.c) may change of the PCB: the registers only, within their
-- widths. Here the translations and the requests to the memory.
use Prim.Native.String.{String}
use so_1c.Base.{
  ℕ, ◌≡◌, refl, ◌∙◌, Bool, true, false, List, [], ◌∷◌, ◌++◌, ◌^◌, Option, none, some, if◌then◌else◌,
  ◌==◌, ltb, ◌&&◌,
}
use so_1c.Protocolo.{Envio}
use so_1c.Memoria.Servidor.{PeticionCpu, traducir}
use so_1c.Cpu.{Cpu, Config, EntradaTlb, ServidorMemoria, Paso, ◌>>=◌}
use so_1c.Cpu.Nombres.{EnRango, set_registro-EnRango}
use so_1c.Cpu.Mmu.{
  acomodar_entradas_tlb, pedir_pagina, tras_memoria, mmu_memoria, tras_miss, mmu_miss, mmu_hit,
  mmu_pagina, mmu, mmu_todas, quitar_tlb, marco_de, buscar_tlb, numero_pagina, desplazamiento_de,
}
use so_1c.Tramos.{direcciones_logicas}
use so_1c.Cpu.Instrucciones.{poner_registro}
use so_1c.Cpu.Transferencias.{leer_estado, o_falla, pedir, traducciones}

-- The PCB is the same but for its registers, which are in their widths if they were.
pub record Conserva {M : Type 0} (c d : Cpu M) : Type 0 where
  pub pid : d.pcb.pid ≡ c.pcb.pid
  pub contador : d.pcb.pc ≡ c.pcb.pc
  pub cuanto : d.pcb.quantum ≡ c.pcb.quantum
  pub codigo : d.pcb.instrucciones ≡ c.pcb.instrucciones
  pub rango : EnRango c.pcb.registros → EnRango d.pcb.registros

module _ {M : Type 0} where
  -- Of a step that may fault.
  abbrev pub Bien : {A : Type 0} → Cpu M → Option (A × Cpu M) → Type 0
  Bien c none = Unit {0}
  Bien c (some (a, d)) = Conserva c d

  abbrev pub Mantiene : {A : Type 0} → Paso M A → Type 0
  Mantiene m = (c : Cpu M) → Bien c (m c)

  -- The same PCB.
  pub mismo_pcb : (c d : Cpu M) → d.pcb ≡ c.pcb → Conserva c d
  mismo_pcb c d e = record {
    pid = rw e refl;
    contador = rw e refl;
    cuanto = rw e refl;
    codigo = rw e refl;
    rango = λ r. rw e r;
  }

  pub Conserva-trans : {c d e : Cpu M} → Conserva c d → Conserva d e → Conserva c e
  Conserva-trans x y = record {
    pid = y.pid ∙ x.pid;
    contador = y.contador ∙ x.contador;
    cuanto = y.cuanto ∙ x.cuanto;
    codigo = y.codigo ∙ x.codigo;
    rango = λ r. y.rango (x.rango r);
  }

  Bien-trans :
      {A : Type 0} (c d : Cpu M) (o : Option (A × Cpu M)) → Conserva c d → Bien d o → Bien c o
  Bien-trans c d none x y = tt
  Bien-trans c d (some (a, e)) x y = Conserva-trans x y

  pub tras :
      {A B : Type 0} (c : Cpu M) (o : Option (A × Cpu M)) (f : A → Paso M B)
      → Bien c o
      → ((a : A) → Mantiene (f a))
      → Bien c (elim o [ none ↦ none | some (a, d) ↦ f a d ])
  tras c none f x y = tt
  tras c (some (a, d)) f x y = Bien-trans c d (f a d) x (y a d)

  pub de_bind :
      {A B : Type 0} (m : Paso M A) (f : A → Paso M B)
      → Mantiene m
      → ((a : A) → Mantiene (f a))
      → Mantiene (m >>= f)
  de_bind m f h g c = tras c (m c) f (h c) g

  -- A step in a chain that ended, and what follows it.
  pub partes :
      {A B : Type 0} (m : Paso M A) (f : A → Paso M B) (c : Cpu M) {r : B × Cpu M}
      → (m >>= f) c ≡ some r
      → (a : A) × (d : Cpu M) × (m c ≡ some (a, d)) × (f a d ≡ some r)
  partes {A = A} {B = B} m f c {r} e = segun (m c) refl e
    where
      segun :
          (o : Option (A × Cpu M))
          → m c ≡ o
          → (elim o [ none ↦ none | some (a, d) ↦ f a d ]) ≡ some r
          → (a : A) × (d : Cpu M) × (m c ≡ some (a, d)) × (f a d ≡ some r)
      segun none h e = cc
      segun (some (a, d)) h e = (a, d, h, e)

  pub de_leer : Mantiene leer_estado
  de_leer c = mismo_pcb c c refl

  pub de_falla : {A : Type 0} (o : Option A) → Mantiene (o_falla o)
  de_falla none c = tt
  de_falla (some x) c = mismo_pcb c c refl

  pub de_poner : (n : String) (v : ℕ) (c : Cpu M) → Conserva c (poner_registro n v c)
  unfolding poner_registro
  de_poner n v c = record {
    pid = refl;
    contador = refl;
    cuanto = refl;
    codigo = refl;
    rango = set_registro-EnRango n v;
  }

  pub de_si :
      {A : Type 0} (b : Bool) (c : Cpu M) (x y : Option (A × Cpu M))
      → Bien c x
      → Bien c y
      → Bien c (if b then x else y)
  de_si true c x y h k = h
  de_si false c x y h k = k

  de_acomodar : (e : EntradaTlb) (c : Cpu M) → Conserva c (acomodar_entradas_tlb e c)
  unfolding acomodar_entradas_tlb
  de_acomodar e c = mismo_pcb c (acomodar_entradas_tlb e c) (segun (c.libres == 0) _ _ refl refl)
    where
      segun :
          (b : Bool) (x y : Cpu M)
          → x.pcb ≡ c.pcb
          → y.pcb ≡ c.pcb
          → (if b then x else y).pcb ≡ c.pcb
      segun true x y h k = h
      segun false x y h k = k

  module _ (k : Config) (s : ServidorMemoria M) where
    pub de_pedir : (q : PeticionCpu) → Mantiene (pedir k s q)
    de_pedir q c = respuesta (s.pedir c.memoria q)
      where
        respuesta :
            (o : Option (List Envio × M))
            → Bien c (elim o [ none ↦ none | some (os, m) ↦ some (os, record c { memoria = m }) ])
        respuesta none = tt
        respuesta (some (os, m)) = mismo_pcb c (record c { memoria = m }) refl

    de_pagina : (pag : ℕ) → Mantiene (pedir_pagina k s pag)
    unfolding pedir_pagina
    de_pagina pag c = respuesta (s.pedir c.memoria (traducir pag))
      where
        respuesta :
            (o : Option (List Envio × M))
            → Bien c (elim o [
              | none ↦ none
              | some (os, m) ↦ some (marco_de os, record c { memoria = m })
            ])
        respuesta none = tt
        respuesta (some (os, m)) = mismo_pcb c (record c { memoria = m }) refl

    de_memoria : (pag desp : ℕ) → Mantiene (mmu_memoria k s pag desp)
    unfolding mmu_memoria
    de_memoria pag desp c =
        tras c (pedir_pagina k s pag c) (λ r d. some (tras_memoria k s desp r d)) (de_pagina pag c)
          llega
      where
        llega : (r : Option ℕ) (d : Cpu M) → Conserva d (tras_memoria k s desp r d).1
        llega none d = mismo_pcb d d refl
        llega (some m) d = mismo_pcb d d refl

    de_miss : (pag desp : ℕ) → Mantiene (mmu_miss k s pag desp)
    unfolding mmu_miss
    de_miss pag desp c =
        tras c (pedir_pagina k s pag c) (λ r d. some (tras_miss k s pag desp r d)) (de_pagina pag c)
          llega
      where
        llega : (r : Option ℕ) (d : Cpu M) → Conserva d (tras_miss k s pag desp r d).1
        llega none d = mismo_pcb d d refl
        llega (some m) d = de_acomodar (record { pid = d.pcb.pid; marco = m; pagina = pag }) d

    de_hit : (pag desp : ℕ) (e : EntradaTlb) (c : Cpu M) → Conserva c (mmu_hit k s pag desp e c).1
    unfolding mmu_hit
    de_hit pag desp e c =
        segun k.lru (record c { tlb = quitar_tlb c.pcb.pid pag c.tlb ++ e ∷ [] }) refl
      where
        segun : (b : Bool) (x : Cpu M) → x.pcb ≡ c.pcb → Conserva c (if b then x else c)
        segun true x h = mismo_pcb c x h
        segun false x h = mismo_pcb c c refl

    de_mmu_pagina : (pag desp : ℕ) → Mantiene (mmu_pagina k s pag desp)
    unfolding mmu_pagina
    de_mmu_pagina pag desp c =
        de_si (ltb k.tam_pag desp && ltb desp (2 ^ 31)) c _ _ (mismo_pcb c c refl) (
          de_si (k.cant_entradas == 0) c _ _ (de_memoria pag desp c)
            (busca (buscar_tlb c.pcb.pid pag c.tlb)))
      where
        busca :
            (o : Option EntradaTlb)
            → Bien c (elim o [
              | some e ↦ some (mmu_hit k s pag desp e c)
              | none ↦ mmu_miss k s pag desp c
            ])
        busca none = de_miss pag desp c
        busca (some e) = de_hit pag desp e c

    de_mmu : (dl : ℕ) → Mantiene (mmu k s dl)
    unfolding mmu
    de_mmu dl c = de_si (k.tam_pag == 0) c _ _ tt (segun (numero_pagina k.tam_pag dl))
      where
        segun :
            (o : Option ℕ)
            → Bien c (elim o [
              | none ↦ none
              | some pag ↦ mmu_pagina k s pag (desplazamiento_de k.tam_pag dl pag) c
            ])
        segun none = tt
        segun (some pag) = de_mmu_pagina pag (desplazamiento_de k.tam_pag dl pag) c

    de_mmu_todas : (ds : List ℕ) → Mantiene (mmu_todas k s ds)
    unfolding mmu_todas
    de_mmu_todas [] c = mismo_pcb c c refl
    de_mmu_todas (d ∷ ds) c =
        de_bind (mmu k s d) (λ f. mmu_todas k s ds >>= λ fs e. some (f ∷ fs, e)) (de_mmu d)
          (λ f. de_bind (mmu_todas k s ds) _ (de_mmu_todas ds) (λ fs e. mismo_pcb e e refl)) c

    pub de_traducciones : (tam direccion : ℕ) → Mantiene (traducciones k s tam direccion)
    unfolding traducciones
    de_traducciones tam direccion = de_mmu_todas (direcciones_logicas k.tam_pag tam direccion)
