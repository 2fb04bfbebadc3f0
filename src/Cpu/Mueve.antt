-- ===== src/Cpu/Mueve.antt =====
-- exe_MOV_OUT and exe_MOV_IN (utils/src/cpu/cpu.c) with the memory module of this system
-- (utils/src/memoria/memoria.c) at the other end of the socket.
use Prim.Native.String.{String}
use so_1c.Base.{
  ℕ, ◌+◌, ◌*◌, ◌/◌, ◌%◌, ◌^◌, ◌≡◌, ◌<◌, ◌≤◌, ◌⊎◌, inl, inr, refl, ◌∙◌, ap, subst, true, List, [],
  ◌∷◌, some, leb, ltb, length, arith, if◌then◌else◌, get_elem?, ◌-◌, >>=-eq-some,
}
use native.Mathlib.Nat.{div-lt_iff_lt-mul, mul-le-mul_right}
use so_1c.BitArray.{BitArray}
use so_1c.Protocolo.{Envio, operacion, entero, pagina, menos_uno}
use so_1c.Tramos.{espacio_en_pag, direcciones_logicas}
use so_1c.Memoria.{Pag, Proceso, Memoria, deref}
use so_1c.Memoria.Marcos.{paginas_usadas}
use so_1c.Memoria.Servidor.{PeticionCpu, leer, escribir, lectura, escritura}
use so_1c.Memoria.Atender.{interactuar_cpu, traducir_pagina}
use so_1c.Memoria.Duenos.{deref-Todos}
use so_1c.Memoria.Acceso.{leer-escribir, leer-escribir_byte}
use so_1c.Cpu.{Cpu, Pcb, Config, ServidorMemoria, EntradaTlb, ◌>>=◌}
use so_1c.Cpu.Nombres.{get_registro, cuanto_leo, EnRango, get-set_registro}
use so_1c.Cpu.Anchos.{cuanto_leo-cases, set_registro-cuanto, get_registro-cuanto}
use so_1c.Cpu.Mmu.{mmu_todas}
use so_1c.Cpu.Tlb.{Responde, Coherente}
use so_1c.Cpu.Traduce.{mmu-Traduce}
use so_1c.Cpu.Tabla.{servidor, EnMarcha, pagina-Responde}
use so_1c.Cpu.Instrucciones.{regs, poner_registro}
use so_1c.Cpu.Transferencias.{pedir, traducciones, exe_mov_in, exe_mov_out}

usadas-le-length : (ps : List Pag) → paginas_usadas ps ≤ length ps
unfolding paginas_usadas
usadas-le-length [] = omega arith
usadas-le-length (p ∷ ps) = ground (arith, usadas-le-length ps)

pedir-da :
    {M : Type 0} (k : Config) (s : ServidorMemoria M) (q : PeticionCpu) (c : Cpu M)
    (os : List Envio) (m : M)
    → s.pedir c.memoria q ≡ some (os, m)
    → pedir k s q c ≡ some (os, record c { memoria = m })
pedir-da k s q c os m e = rw (pedir, e) refl

-- A value of 1 or 4 bytes inside a page, written and read.
leer-escribir_cuanto :
    (m : List ℕ) (t df n v : ℕ)
    → (n ≡ 1) ⊎ (n ≡ 4)
    → df + n ≤ length m
    → v < 256 ^ n
    → (m' : List ℕ) × (escribir m t df n 1 v [] ≡ some m')
      × (leer m' t df n 1 [] ≡ some v)
      × (length m' ≡ length m)
      × ((j : ℕ) → (j < df) ⊎ (df + n ≤ j) → get_elem? m' j ≡ get_elem? m j)
leer-escribir_cuanto m t df n v (inl e) l w =
    let (m', a, c, d, f) = leer-escribir_byte m t df v (omega arith) (rw e at w) in
    (m', rw e a, rw e c, d, (λ j o. f j (omega arith)))
leer-escribir_cuanto m t df n v (inr e) l w =
    let (m', a, c, d, f) = leer-escribir m t df v (omega arith) (rw e at w) in
    (m', rw e a, rw e c, d, (λ j o. f j (omega arith)))

-- A transfer that fits its page has one address.
una-direccion : (t n dl : ℕ) → dl < 2 ^ 31 → dl % t + n ≤ t → direcciones_logicas t n dl ≡ dl ∷ []
unfolding direcciones_logicas espacio_en_pag
una-direccion t n dl l h =
    let positiva : ltb dl (2 ^ 31) ≡ true = ground arith in
    let cabe : leb n (t - dl % t) ≡ true = ground arith in rw (positiva, cabe) refl

module _ {Bits : Type 0} ⦃b : BitArray Bits⦄ where
  -- Writing bytes changes no page table.
  Responde-contigua :
      (m : Memoria Bits) (x : List ℕ) (n f : ℕ)
      → Responde servidor m n f
      → Responde servidor (record m { contigua = x }) n f
  unfolding servidor traducir_pagina
  Responde-contigua m x n f r =
      let (p, d, g) = >>=-eq-some (deref m.procesos m.actual) _ r in
      let (e, i, q) = >>=-eq-some (get_elem? p.paginas n) _ g in
      let w : (if e.estado then entero pagina e.marco else operacion menos_uno) ∷ []
          ≡ entero pagina f ∷ [] =
        cc in
      rw (d, i, w) refl

  Coherente-contigua :
      (pid : ℕ) (m : Memoria Bits) (x : List ℕ) (es : List EntradaTlb)
      → Coherente servidor pid m es
      → Coherente servidor pid (record m { contigua = x }) es
  Coherente-contigua pid m x [] h = tt
  Coherente-contigua pid m x (e ∷ es) h =
      ((λ i. Responde-contigua m x e.pagina e.marco (h.0 i)), Coherente-contigua pid m x es h.1)

  -- A CPU after some bytes of the memory were written.
  contigua-EnMarcha :
      (k : Config) (c c' : Cpu (Memoria Bits)) (p : Proceso) (x : List ℕ)
      → EnMarcha k c p
      → length x ≡ length c.memoria.contigua
      → c'.pcb ≡ c.pcb
      → c'.memoria ≡ record c.memoria { contigua = x }
      → Coherente servidor c.pcb.pid c.memoria c'.tlb
      → EnMarcha k c' p
  contigua-EnMarcha k c c' p x h l e f g =
      let v = h.valida in
      record {
        valida = rw f (record {
          medida = v.medida;
          positivo = v.positivo;
          tamanio = l ∙ v.tamanio;
          todos = v.todos;
          exactos = v.exactos;
        });
        viva = rw f h.viva;
        igual = rw f h.igual;
        t_pos = h.t_pos;
        entra = rw f h.entra;
        coherente = rw (e, f) (Coherente-contigua c.pcb.pid c.memoria x c'.tlb g);
      }

  -- The translation of a register inside one page of the process.
  traducciones-pagina :
      (k : Config) (c : Cpu (Memoria Bits)) (p : Proceso) (dl n : ℕ)
      → EnMarcha k c p
      → 0 < n
      → dl + n ≤ paginas_usadas p.paginas * k.tam_pag
      → dl % k.tam_pag + n ≤ k.tam_pag
      → (a : Pag) × (fin : Cpu (Memoria Bits)) × (get_elem? p.paginas (dl / k.tam_pag) ≡ some a)
        × (traducciones k servidor n dl c ≡ some ((a.marco * k.tam_pag + dl % k.tam_pag) ∷ [], fin))
        × (a.marco * k.tam_pag + dl % k.tam_pag + n ≤ length c.memoria.contigua)
        × (fin.pcb ≡ c.pcb)
        × (fin.memoria ≡ c.memoria)
        × Coherente servidor c.pcb.pid c.memoria fin.tlb
  unfolding traducciones
  traducciones-pagina k c p dl n h z l q =
      let t = k.tam_pag in
      let u = (div-lt_iff_lt-mul {x = dl} {y = paginas_usadas p.paginas} h.t_pos).1 (omega arith) in
      let o =
        (deref-Todos c.memoria.cant_pag c.memoria.actual c.memoria.procesos p h.valida.todos
          h.viva).largo in
      let w : dl / t < c.memoria.cant_pag = omega (arith, o, usadas-le-length p.paginas, u) in
      let (a, e, f, g) = pagina-Responde k c p (dl / t) h u w in
      let menor : dl < 2 ^ 31 =
        omega (arith, (div-lt_iff_lt-mul {x = dl} {y = c.memoria.cant_pag} h.t_pos).0 w, h.entra) in
      let r = mmu-Traduce k servidor dl a.marco c h.t_pos menor h.coherente g in
      let largo = mul-le-mul_right t f in
      let medida = ap (λ (y : ℕ). c.memoria.cant_pag * y) h.igual in
      let df = a.marco * t + dl % t in
      let z' : df % 2 ^ 32 ≡ df = omega (arith, largo, h.entra) in
      (
        a,
        r.fin,
        e,
        rw (traducciones, una-direccion t n dl menor q, mmu_todas, r.da, z') refl,
        omega (arith, largo, h.valida.tamanio, medida),
        r.pcb,
        r.memoria,
        r.coherente,
      )

  -- The two instructions once the address is known.
  mov_out-da :
      (k : Config) (c c1 : Cpu (Memoria Bits)) (p : Proceso) (dir datos : String) (n df : ℕ)
      (x : List ℕ)
      → deref c.memoria.procesos c.memoria.actual ≡ some p
      → cuanto_leo datos ≡ some n
      → traducciones k servidor n (get_registro (regs c) dir) c ≡ some (df ∷ [], c1)
      → c1.memoria ≡ c.memoria
      → escribir c.memoria.contigua c.memoria.tam_pag df n 1 (get_registro (regs c) datos) []
        ≡ some x
      → exe_mov_out k servidor dir datos c
        ≡ some (tt, record c1 { memoria = record c.memoria { contigua = x } })
  unfolding exe_mov_out interactuar_cpu servidor
  mov_out-da k c c1 p dir datos n df x d u g m y =
      let q = escritura df n 1 (get_registro (regs c) datos) [] in
      let w = pedir-da k servidor q c1 [] (record c.memoria { contigua = x }) (rw (m, d, y) refl) in
      rw (u, ◌>>=◌, ◌>>=◌, g, w) refl

  mov_in-da :
      (k : Config) (c c1 : Cpu (Memoria Bits)) (p : Proceso) (dir otro : String) (n dl df v : ℕ)
      → deref c.memoria.procesos c.memoria.actual ≡ some p
      → cuanto_leo otro ≡ some n
      → get_registro (regs c) dir ≡ dl
      → traducciones k servidor n dl c ≡ some (df ∷ [], c1)
      → c1.memoria ≡ c.memoria
      → leer c.memoria.contigua c.memoria.tam_pag df n 1 [] ≡ some v
      → exe_mov_in k servidor otro dir c
        ≡ some (tt, poner_registro otro v (record c1 { memoria = c.memoria }))
  unfolding exe_mov_in interactuar_cpu servidor
  mov_in-da k c c1 p dir otro n dl df v d u i g m y =
      let q = lectura df n 1 [] in
      let w = pedir-da k servidor q c1 (operacion v ∷ []) c.memoria (rw (m, d, y) refl) in
      rw (u, ◌>>=◌, ◌>>=◌, i, g, w) refl

  -- MOV_IN on a CPU after the memory's bytes changed.
  mov_in-tras :
      (k : Config) (c c1 : Cpu (Memoria Bits)) (p : Proceso) (a : Pag) (dir otro : String)
      (n dl v : ℕ) (x : List ℕ)
      → EnMarcha k c p
      → get_registro (regs c) dir ≡ dl
      → cuanto_leo otro ≡ some n
      → 0 < n
      → dl + n ≤ paginas_usadas p.paginas * k.tam_pag
      → dl % k.tam_pag + n ≤ k.tam_pag
      → get_elem? p.paginas (dl / k.tam_pag) ≡ some a
      → length x ≡ length c.memoria.contigua
      → leer x c.memoria.tam_pag (a.marco * k.tam_pag + dl % k.tam_pag) n 1 [] ≡ some v
      → v < 256 ^ n
      → c1.pcb ≡ c.pcb
      → Coherente servidor c.pcb.pid c.memoria c1.tlb
      → (c'' : Cpu (Memoria Bits)) × (exe_mov_in k servidor otro dir
            (record c1 { memoria = record c.memoria { contigua = x } })
          ≡ some (tt, c''))
        × (get_registro (regs c'') otro ≡ v)
  unfolding poner_registro
  mov_in-tras k c c1 p a dir otro n dl v x h i w z l q f s y ancho o r =
      let c' = record c1 { memoria = record c.memoria { contigua = x } } in
      let h' = contigua-EnMarcha k c c' p x h s o refl r in
      let igual : get_registro (regs c') dir ≡ dl =
        ap (λ (d : Pcb). get_registro d.registros dir) o ∙ i in
      let (a2, c2, f2, g2, _, _, m2, _) = traducciones-pagina k c' p dl n h' z l q in
      let mismo : a2 ≡ a = cc in
      let g =
        subst
          (λ (e : Pag).
            traducciones k servidor n dl c'
            ≡ some ((e.marco * k.tam_pag + dl % k.tam_pag) ∷ [], c2))
          mismo g2 in
      (
        poner_registro otro v (record c2 { memoria = c'.memoria }),
        mov_in-da k c' c2 p dir otro n dl (a.marco * k.tam_pag + dl % k.tam_pag) v h.viva w igual g
            m2 y,
        get-set_registro c2.pcb.registros otro v
            ∙ set_registro-cuanto c2.pcb.registros v otro n w ancho,
      )

  -- A process of a valid memory writes a register of 1 or 4 bytes, each in its width, at an address that
  -- another register holds, inside one of its pages, with a TLB that agrees with the memory or none.
  -- MOV_OUT succeeds; the page tables, the bitmap and the size of the memory stay, and so does every
  -- byte outside the ones that the page table names. MOV_IN from the same register of address then
  -- succeeds, and leaves the value in any register of the same size.
  pub mov_in-mov_out :
      (k : Config) (c : Cpu (Memoria Bits)) (p : Proceso) (dir datos otro : String) (n : ℕ)
      → EnMarcha k c p
      → EnRango (regs c)
      → cuanto_leo datos ≡ some n
      → cuanto_leo otro ≡ some n
      → get_registro (regs c) dir + n ≤ paginas_usadas p.paginas * k.tam_pag
      → get_registro (regs c) dir % k.tam_pag + n ≤ k.tam_pag
      → let dl = get_registro (regs c) dir in
        (a : Pag) × (c' c'' : Cpu (Memoria Bits)) × (x : List ℕ) × (get_elem? p.paginas
            (dl / k.tam_pag)
          ≡ some a)
        × (exe_mov_out k servidor dir datos c ≡ some (tt, c'))
        × (c'.memoria ≡ record c.memoria { contigua = x })
        × (length x ≡ length c.memoria.contigua)
        × ((j : ℕ)
            → (j < a.marco * k.tam_pag + dl % k.tam_pag)
              ⊎ (a.marco * k.tam_pag + dl % k.tam_pag + n ≤ j)
            → get_elem? x j ≡ get_elem? c.memoria.contigua j)
        × (exe_mov_in k servidor otro dir c' ≡ some (tt, c''))
        × (get_registro (regs c'') otro ≡ get_registro (regs c) datos)
  mov_in-mov_out k c p dir datos otro n h e u w l q =
      let dl = get_registro (regs c) dir in
      let casos = cuanto_leo-cases datos n u in
      let positivo : 0 < n = omega arith in
      let (a, c1, f, g, i, o, m, r) = traducciones-pagina k c p dl n h positivo l q in
      let v = get_registro (regs c) datos in
      let df = a.marco * k.tam_pag + dl % k.tam_pag in
      let ancho = get_registro-cuanto (regs c) e datos n u in
      let (x, y, z, s, j) =
        leer-escribir_cuanto c.memoria.contigua c.memoria.tam_pag df n v casos i ancho in
      let (c'', t, d) =
        mov_in-tras k c c1 p a dir otro n dl v x h refl w positivo l q f s z ancho o r in
      (
        a,
        record c1 { memoria = record c.memoria { contigua = x } },
        c'',
        x,
        f,
        mov_out-da k c c1 p dir datos n df x h.viva u g m y,
        refl,
        s,
        j,
        t,
        d,
      )
