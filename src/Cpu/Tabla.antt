-- ===== src/Cpu/Tabla.antt =====
-- The CPU with the memory module of this system at the other end of its socket
-- (utils/src/cpu/cpu.c, utils/src/memoria/memoria.c): MMU against the page table.
use so_1c.Base.{
  ℕ, ◌+◌, ◌*◌, ◌/◌, ◌%◌, ◌^◌, ◌≡◌, ◌<◌, ◌≤◌, refl, ◌∙◌, ap, false, true, [], ◌∷◌, some, ltb, length,
  arith, if◌then◌else◌, get_elem?, dec_lt,
}
use native.Mathlib.Nat.{div-lt_iff_lt-mul, mul-le-mul_right, mod-lt}
use so_1c.BitArray.{BitArray}
use so_1c.Protocolo.{operacion, entero, menos_uno, pagina}
use so_1c.Memoria.{Pag, Proceso, Memoria, deref}
use so_1c.Memoria.Marcos.{paginas_usadas}
use so_1c.Memoria.Atender.{interactuar_cpu, traducir_pagina}
use so_1c.Memoria.Inv.{IsValid}
use so_1c.Memoria.Exclusivo.{traducir_pagina_lem}
use so_1c.Cpu.{Cpu, Config, ServidorMemoria}
use so_1c.Cpu.Mmu.{mmu}
use so_1c.Cpu.Tlb.{Responde, Coherente, direccion}
use so_1c.Cpu.Traduce.{mmu-Traduce, mmu-sin_marco}

module _ {Bits : Type 0} ⦃b : BitArray Bits⦄ where
  -- The memory module.
  unfoldable pub servidor : ServidorMemoria (Memoria Bits)
  unfolding interactuar_cpu
  servidor = record { pedir = interactuar_cpu }

  -- A CPU that runs the process p of a valid memory, with the page size that the memory told it.
  pub record EnMarcha (k : Config) (c : Cpu (Memoria Bits)) (p : Proceso) : Type 0 where
    pub valida : IsValid c.memoria
    pub viva : deref c.memoria.procesos c.memoria.actual ≡ some p
    pub igual : k.tam_pag ≡ c.memoria.tam_pag
    pub t_pos : 0 < k.tam_pag
    pub entra : c.memoria.cant_pag * k.tam_pag ≤ 2 ^ 31
    pub coherente : Coherente servidor c.pcb.pid c.memoria c.tlb

  -- What the memory answers for a page of the process.
  pub pagina-Responde :
      (k : Config) (c : Cpu (Memoria Bits)) (p : Proceso) (n : ℕ)
      → EnMarcha k c p
      → n < paginas_usadas p.paginas
      → n < c.memoria.cant_pag
      → (a : Pag) × (get_elem? p.paginas n ≡ some a)
        × (a.marco < c.memoria.cant_pag)
        × Responde servidor c.memoria n a.marco
  unfolding servidor
  pagina-Responde k c p n h l d =
      let (a, e, f, g) = traducir_pagina_lem c.memoria p n h.valida h.viva d in
      let u : ltb n (paginas_usadas p.paginas) ≡ true = ground arith in
      (a, e, (g l).0, f ∙ rw u refl)

  -- MMU, with a TLB or without, and the memory of this system: while the entries of the running process
  -- agree with the memory, an address below the number of page-table entries times the page size is
  -- looked up in the page table. Below the process's size it gives the page's frame times the page
  -- size plus the offset, which lies in the user space; from there on it gives -1.
  pub mmu-tabla :
      (k : Config) (c : Cpu (Memoria Bits)) (p : Proceso) (dl : ℕ)
      → EnMarcha k c p
      → dl < c.memoria.cant_pag * k.tam_pag
      → (a : Pag) × (get_elem? p.paginas (dl / k.tam_pag) ≡ some a)
        × (direccion servidor k (mmu k servidor dl c)
            ≡ some (
                if ltb dl (paginas_usadas p.paginas * k.tam_pag)
                then a.marco * k.tam_pag + dl % k.tam_pag
                else menos_uno))
        × (dl < paginas_usadas p.paginas * k.tam_pag
            → a.marco * k.tam_pag + dl % k.tam_pag < length c.memoria.contigua)
  unfolding servidor
  mmu-tabla k c p dl h l =
      let t = k.tam_pag in
      let n = dl / t in
      let (a, e, f, g) =
        traducir_pagina_lem c.memoria p n h.valida h.viva ((div-lt_iff_lt-mul h.t_pos).1 l) in
      (a, e, tabla a f g, (λ q. dentro a (g ((div-lt_iff_lt-mul h.t_pos).1 q)).0))
    where
      dentro :
          (a : Pag)
          → a.marco < c.memoria.cant_pag
          → a.marco * k.tam_pag + dl % k.tam_pag < length c.memoria.contigua
      dentro a m = omega (
        arith,
        h.valida.tamanio,
        ap (λ (x : ℕ). c.memoria.cant_pag * x) h.igual,
        mul-le-mul_right k.tam_pag m,
        mod-lt dl h.t_pos,
      )

      -- The two sides of the process's size.
      tabla :
          (a : Pag)
          → traducir_pagina c.memoria (dl / k.tam_pag)
            ≡ some (
              (if ltb (dl / k.tam_pag) (paginas_usadas p.paginas)
                    then entero pagina a.marco
                    else operacion menos_uno)
                  ∷ [],
              c.memoria,
            )
          → (dl / k.tam_pag < paginas_usadas p.paginas
              → (a.marco < c.memoria.cant_pag) × (b.test_bit c.memoria.bitmap a.marco ≡ true))
          → direccion servidor k (mmu k servidor dl c)
            ≡ some (
                if ltb dl (paginas_usadas p.paginas * k.tam_pag)
                then a.marco * k.tam_pag + dl % k.tam_pag
                else menos_uno)
      tabla a f g = elim (dec_lt dl (paginas_usadas p.paginas * k.tam_pag)) [
        | yes q ↦
            let w = (div-lt_iff_lt-mul h.t_pos).1 q in
            let u : ltb (dl / k.tam_pag) (paginas_usadas p.paginas) ≡ true = ground arith in
            let v : ltb dl (paginas_usadas p.paginas * k.tam_pag) ≡ true = ground arith in
            let r =
              mmu-Traduce k servidor dl a.marco c h.t_pos (omega (arith, h.entra)) h.coherente
                (f ∙ rw u refl) in
            let z : (a.marco * k.tam_pag + dl % k.tam_pag) % 2 ^ 32
                ≡ a.marco * k.tam_pag + dl % k.tam_pag =
              omega (
                arith,
                dentro a (g w).0,
                h.valida.tamanio,
                h.entra,
                ap (λ (x : ℕ). c.memoria.cant_pag * x) h.igual,
              ) in
            rw (r.da, z, v) refl
        | no q ↦
            let w : ltb (dl / k.tam_pag) (paginas_usadas p.paginas) ≡ false =
              ground
                (arith, (div-lt_iff_lt-mul {x = dl} {y = paginas_usadas p.paginas} h.t_pos).0) in
            let v : ltb dl (paginas_usadas p.paginas * k.tam_pag) ≡ false = ground arith in
            rw v (
              mmu-sin_marco k servidor dl menos_uno c c.memoria h.t_pos (omega (arith, h.entra))
                h.coherente (f ∙ rw w refl))
      ]
