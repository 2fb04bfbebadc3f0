-- ===== src/Memoria/Valida.antt =====
-- The memory's invariant and its requests (utils/src/memoria/memoria.c).
use so_1c.Base.{
  ℕ, zero, suc, ◌≡◌, refl, sym, ◌∙◌, subst, List, [], ◌∷◌, ◌++◌, Option, none, some, arith, length,
  get_elem?, ◌⊎◌, inl, inr, ◌>>=◌, >>=-eq-some, Option-cases, dec_lt,
}
use so_1c.BitArray.{BitArray}
use so_1c.Protocolo.{Envio}
use so_1c.Memoria.{Memoria, deref}
use so_1c.Memoria.Marcos.{paginas_usadas, nueva_tabla_paginas}
use so_1c.Memoria.Tabla.{nueva_tabla-vacia, cuenta-nueva}
use so_1c.Memoria.Servidor.{
  Peticion, cpu, kernel, io, Atendido, PeticionCpu, leer, escribir, leer_string, escribir_string,
  proceso, fetch_de, traducir, mas_pagina, menos_pagina, tam_proceso, lectura, escritura,
  lectura_str, escritura_str, iniciar, finalizar, escribir_io, leer_io,
}
use so_1c.Memoria.Atender.{
  interactuar_cpu, interactuar_kernel, interactuar_io, recibir_proceso, liberar_proceso,
  aniadir_paginas, sacar_paginas, traducir_pagina, buscar_instruccion, tamanio_proceso,
}
use so_1c.Memoria.Acceso.{length-escribir, length-escribir_string}
use so_1c.Memoria.Duenos.{append-Todos, duenos-append}
use so_1c.Memoria.Inv.{
  IsValid, aniadir_paginas_lem, sacar_paginas_lem, sacar_paginas-none, liberar_proceso_lem,
}

module _ {Bits : Type 0} ⦃b : BitArray Bits⦄ where
  open b use {tam, test_bit, clean_bit, tam-clean, test-clean}

  -- Two results that are one have one state.
  valido-some :
      (o o' : List Envio) (s s' : Memoria Bits)
      → IsValid s
      → ◌≡◌ {A = Option (List Envio × Memoria Bits)} (some (o, s)) (some (o', s'))
      → IsValid s'
  valido-some o o' s s' v e = subst IsValid (cc) v

  aniadir-IsValid :
      (s : Memoria Bits) (n : ℕ) (o : List Envio) (s' : Memoria Bits)
      → IsValid s
      → aniadir_paginas s n ≡ some (o, s')
      → IsValid s'
  unfolding aniadir_paginas
  aniadir-IsValid s n o s' v e =
      let (p, d, f) = >>=-eq-some (deref s.procesos s.actual) _ e in
      let r = aniadir_paginas_lem s n p v d in valido-some _ o r.0 s' r.3.valido (sym r.2 ∙ e)

  sacar-IsValid :
      (s : Memoria Bits) (n : ℕ) (o : List Envio) (s' : Memoria Bits)
      → IsValid s
      → sacar_paginas s n ≡ some (o, s')
      → IsValid s'
  unfolding sacar_paginas
  sacar-IsValid s n o s' v e =
      let (p, d, f) = >>=-eq-some (deref s.procesos s.actual) _ e in
      elim (dec_lt (paginas_usadas p.paginas) n) [
        | yes l ↦ absurd (cc (sacar_paginas-none s n p v d l))
        | no l ↦
            let r = sacar_paginas_lem s n p v d (omega arith) in
            valido-some _ o r.0 s' r.3.valido (sym r.2 ∙ e)
      ]

  liberar-IsValid :
      (s : Memoria Bits) (k : ℕ) (o : List Envio) (s' : Memoria Bits)
      → IsValid s
      → liberar_proceso s k ≡ some (o, s')
      → IsValid s'
  unfolding liberar_proceso
  liberar-IsValid s zero o s' v e = valido-some _ o s s' v e
  liberar-IsValid s (suc k) o s' v e =
      let (p, d, f) = >>=-eq-some (deref s.procesos (suc k)) _ e in
      let r = liberar_proceso_lem s (suc k) p v d in valido-some _ o r.0 s' r.2 (sym r.1 ∙ e)

  -- A write to the user space.
  bytes-IsValid :
      (s : Memoria Bits) (o : List Envio) (s' : Memoria Bits) (r : Option (List ℕ))
      → IsValid s
      → ((m : List ℕ) → r ≡ some m → length m ≡ length s.contigua)
      → ◌>>=◌ {B = List Envio × Memoria Bits} r (λ m. some ([], record s { contigua = m }))
        ≡ some (o, s')
      → IsValid s'
  bytes-IsValid s o s' none v h e = cc
  bytes-IsValid s o s' (some m) v h e =
      valido-some _ o _ s'
        (record {
          medida = v.medida;
          positivo = v.positivo;
          tamanio = h m refl ∙ v.tamanio;
          todos = v.todos;
          exactos = v.exactos;
        })
        e

  -- A handler that only reads.
  lee-IsValid {ℓ} :
      {A : Type ℓ} (r : Option A) (f : A → List Envio) (s : Memoria Bits) (o : List Envio)
      (s' : Memoria Bits)
      → IsValid s
      → ◌>>=◌ {B = List Envio × Memoria Bits} r (λ x. some (f x, s)) ≡ some (o, s')
      → IsValid s'
  lee-IsValid none f s o s' v e = cc
  lee-IsValid (some x) f s o s' v e = valido-some _ o s s' v e

  -- `recibir_proceso` always answers with a pointer; from a valid memory it leaves a valid one.
  pub recibir_proceso-IsValid :
      (path : List ℕ) (cargar : List ℕ → Option (List (List ℕ))) (s : Memoria Bits)
      (nombre : List ℕ) (pid : ℕ) {o : List Envio} {s' : Memoria Bits}
      → IsValid s
      → recibir_proceso path cargar s nombre pid ≡ some (o, s')
      → IsValid s'
  unfolding recibir_proceso
  recibir_proceso-IsValid path cargar s nombre pid {o} {s'} v e =
      segun (Option-cases (cargar (path ++ nombre)))
    where
      nuevo :
          (is : List (List ℕ))
          → IsValid (record s {
            procesos =
                s.procesos
                ++ some (record {
                  pid = pid;
                  instrucciones = is;
                  paginas = nueva_tabla_paginas s.cant_pag;
                })
                  ∷ [];
          })
      nuevo is =
          let (z, w, k, d) = nueva_tabla-vacia s.cant_pag s.cant_pag in
          record {
            medida = v.medida;
            positivo = v.positivo;
            tamanio = v.tamanio;
            todos =
                append-Todos s.cant_pag s.procesos _ v.todos
                  (record { largo = k; prefijo = omega (arith, z, w); debajo = d });
            exactos = λ f l. omega (
              arith,
              v.exactos f l,
              cuenta-nueva f s.cant_pag,
              duenos-append f s.procesos (record {
                pid = pid;
                instrucciones = is;
                paginas = nueva_tabla_paginas s.cant_pag;
              }),
            );
          }

      segun :
          (cargar (path ++ nombre) ≡ none)
            ⊎ ((is : List (List ℕ)) × (cargar (path ++ nombre) ≡ some is))
          → IsValid s'
      segun (inl q) = valido-some _ o s s' v (rw (q, recibir_proceso) at e)
      segun (inr (is, q)) = valido-some _ o _ s' (nuevo is) (rw (q, recibir_proceso) at e)

  -- A request of the CPU that is served keeps the memory valid.
  pub interactuar_cpu-IsValid :
      (s : Memoria Bits) (q : PeticionCpu) (o : List Envio) (s' : Memoria Bits)
      → IsValid s
      → interactuar_cpu s q ≡ some (o, s')
      → IsValid s'
  unfolding interactuar_cpu traducir_pagina buscar_instruccion tamanio_proceso
  interactuar_cpu-IsValid s (proceso k) o s' v e =
      valido-some _ o (record s { actual = k }) s'
        (record {
          medida = v.medida;
          positivo = v.positivo;
          tamanio = v.tamanio;
          todos = v.todos;
          exactos = v.exactos;
        })
        e
  interactuar_cpu-IsValid s (fetch_de n) o s' v e =
      let (p, d, f) = >>=-eq-some (deref s.procesos s.actual) _ e in
      lee-IsValid (get_elem? p.instrucciones n) _ s o s' v f
  interactuar_cpu-IsValid s (traducir n) o s' v e =
      let (p, d, f) = >>=-eq-some (deref s.procesos s.actual) _ e in
      lee-IsValid (get_elem? p.paginas n) _ s o s' v f
  interactuar_cpu-IsValid s (mas_pagina n) o s' v e = aniadir-IsValid s n o s' v e
  interactuar_cpu-IsValid s (menos_pagina n) o s' v e = sacar-IsValid s n o s' v e
  interactuar_cpu-IsValid s tam_proceso o s' v e =
      lee-IsValid (deref s.procesos s.actual) _ s o s' v e
  interactuar_cpu-IsValid s (lectura df n c ds) o s' v e =
      let (p, d, f) = >>=-eq-some (deref s.procesos s.actual) _ e in
      lee-IsValid (leer s.contigua s.tam_pag df n c ds) _ s o s' v f
  interactuar_cpu-IsValid s (escritura df n c w ds) o s' v e =
      let (p, d, f) = >>=-eq-some (deref s.procesos s.actual) _ e in
      bytes-IsValid s o s' (escribir s.contigua s.tam_pag df n c w ds) v
        (length-escribir s.contigua s.tam_pag df n c w ds) f
  interactuar_cpu-IsValid s (lectura_str rs) o s' v e =
      let (p, d, f) = >>=-eq-some (deref s.procesos s.actual) _ e in
      lee-IsValid (leer_string s.contigua s.tam_pag rs) _ s o s' v f
  interactuar_cpu-IsValid s (escritura_str xs rs) o s' v e =
      let (p, d, f) = >>=-eq-some (deref s.procesos s.actual) _ e in
      bytes-IsValid s o s' (escribir_string s.contigua xs rs 0) v
        (length-escribir_string s.contigua xs rs 0) f

  module _ (path : List ℕ) (cargar : List ℕ → Option (List (List ℕ))) where
    abbrev pub atender : Memoria Bits → Peticion → Atendido (Memoria Bits)
    atender s (cpu q) = interactuar_cpu s q
    atender s (kernel q) = interactuar_kernel path cargar s q
    atender s (io q) = interactuar_io s q

    -- Any request of the CPU, the kernel or an interface that is served keeps the memory valid.
    pub atender-IsValid :
        (s : Memoria Bits) (q : Peticion) (o : List Envio) (s' : Memoria Bits)
        → IsValid s
        → atender s q ≡ some (o, s')
        → IsValid s'
    unfolding interactuar_kernel interactuar_io
    atender-IsValid s (cpu q) o s' v e = interactuar_cpu-IsValid s q o s' v e
    atender-IsValid s (kernel (iniciar nombre pid)) o s' v e =
        recibir_proceso-IsValid path cargar s nombre pid v e
    atender-IsValid s (kernel (finalizar k)) o s' v e = liberar-IsValid s k o s' v e
    atender-IsValid s (io (escribir_io xs pid rs)) o s' v e =
        bytes-IsValid s o s' (escribir_string s.contigua xs rs 0) v
          (length-escribir_string s.contigua xs rs 0) e
    atender-IsValid s (io (leer_io pid rs)) o s' v e =
        lee-IsValid (leer_string s.contigua s.tam_pag rs) _ s o s' v e
