-- ===== src/Memoria/Atender.antt =====
-- interactuar_cpu, interactuar_Kernel and interactuar_IO: the handlers over the memory's state.
use so_1c.Base.{
  ℕ, zero, suc, ◌*◌, ◌/◌, List, [], ◌∷◌, ◌++◌, Option, none, some, ◌>>=◌, get_elem?, length,
  if◌then◌else◌,
}
use so_1c.BitArray.{BitArray}
use so_1c.Protocolo.{
  codigo, menos_uno, operacion, entero, texto, puntero, nuevo_proceso, fetch, pagina, oom,
  lectura_string,
}
use so_1c.Memoria.{Proceso, Memoria, deref, guardar}
use so_1c.Memoria.Marcos.{
  nueva_tabla_paginas, paginas_usadas, aniadir_bucle, sacar_bucle, liberar_bucle,
}
use so_1c.Memoria.Servidor.{
  Atendido, PeticionCpu, PeticionKernel, leer, escribir, leer_string, escribir_string, proceso,
  fetch_de, traducir, mas_pagina, menos_pagina, tam_proceso, lectura, escritura, lectura_str,
  escritura_str, iniciar, finalizar, PeticionIo, escribir_io, leer_io,
}

module _ {Bits : Type 0} where
  -- `tam_proc`, of the process that the CPU runs.
  unfoldable pub tam_proc : Memoria Bits → Proceso → ℕ
  tam_proc s p = paginas_usadas p.paginas * s.tam_pag

  -- `traducir_pagina`
  unfoldable pub traducir_pagina : Memoria Bits → ℕ → Atendido (Memoria Bits)
  traducir_pagina s n = deref s.procesos s.actual >>= λ p. get_elem? p.paginas n >>= λ e.
      some ((if e.estado then entero pagina e.marco else operacion menos_uno) ∷ [], s)

  -- `buscar_instruccion`; past the last instruction it reads the final NULL, or beyond.
  unfoldable pub buscar_instruccion : Memoria Bits → ℕ → Atendido (Memoria Bits)
  buscar_instruccion s n = deref s.procesos s.actual >>= λ p.
      get_elem? p.instrucciones n >>= λ i. some (texto fetch i ∷ [], s)

  -- One round of `interactuar_IO`; the pid that an interface sends is only logged.
  unfoldable pub interactuar_io : Memoria Bits → PeticionIo → Atendido (Memoria Bits)
  interactuar_io s (escribir_io xs pid rs) =
      escribir_string s.contigua xs rs 0 >>= λ m. some ([], record s { contigua = m })
  interactuar_io s (leer_io pid rs) =
      leer_string s.contigua s.tam_pag rs >>= λ xs. some (texto lectura_string xs ∷ [], s)

  -- `tamanio_proceso`
  unfoldable pub tamanio_proceso : Memoria Bits → Atendido (Memoria Bits)
  unfolding tam_proc
  tamanio_proceso s = deref s.procesos s.actual >>= λ p. some (operacion (tam_proc s p) ∷ [], s)

module _ {Bits : Type 0} ⦃b : BitArray Bits⦄ where
  -- `aniadir_paginas`
  unfoldable pub aniadir_paginas : Memoria Bits → ℕ → Atendido (Memoria Bits)
  unfolding tam_proc
  aniadir_paginas s n = deref s.procesos s.actual >>= λ p.
      aniadir_bucle s.cant_pag n s.bitmap (tam_proc s p / s.tam_pag) p.paginas >>= λ r. some (
        (if r.0 then operacion 1 else operacion (codigo oom)) ∷ [],
        record s {
          bitmap = r.1;
          procesos = guardar s.procesos s.actual (some (record p { paginas = r.2 }));
        },
      )

  -- `sacar_paginas` answers nothing.
  unfoldable pub sacar_paginas : Memoria Bits → ℕ → Atendido (Memoria Bits)
  unfolding tam_proc
  sacar_paginas s n = deref s.procesos s.actual >>= λ p.
      sacar_bucle n s.bitmap (tam_proc s p / s.tam_pag) p.paginas >>= λ r. some (
        [],
        record s {
          bitmap = r.0;
          procesos = guardar s.procesos s.actual (some (record p { paginas = r.1 }));
        },
      )

  -- One round of `interactuar_cpu`.
  unfoldable pub interactuar_cpu : Memoria Bits → PeticionCpu → Atendido (Memoria Bits)
  interactuar_cpu s (proceso k) = some ([], record s { actual = k })
  interactuar_cpu s (fetch_de n) = buscar_instruccion s n
  interactuar_cpu s (traducir n) = traducir_pagina s n
  interactuar_cpu s (mas_pagina n) = aniadir_paginas s n
  interactuar_cpu s (menos_pagina n) = sacar_paginas s n
  interactuar_cpu s tam_proceso = tamanio_proceso s
  interactuar_cpu s (lectura df n c ds) = deref s.procesos s.actual >>= λ _.
      leer s.contigua s.tam_pag df n c ds >>= λ v. some (operacion v ∷ [], s)
  interactuar_cpu s (escritura df n c v ds) = deref s.procesos s.actual >>= λ _.
      escribir s.contigua s.tam_pag df n c v ds >>= λ m. some ([], record s { contigua = m })
  interactuar_cpu s (lectura_str rs) = deref s.procesos s.actual >>= λ _.
      leer_string s.contigua s.tam_pag rs >>= λ xs. some (texto lectura_string xs ∷ [], s)
  interactuar_cpu s (escritura_str xs rs) = deref s.procesos s.actual >>= λ _.
      escribir_string s.contigua xs rs 0 >>= λ m. some ([], record s { contigua = m })

  -- `liberar_proceso`: a NULL pointer frees nothing.
  unfoldable pub liberar_proceso : Memoria Bits → ℕ → Atendido (Memoria Bits)
  liberar_proceso s zero = some ([], s)
  liberar_proceso s (suc k) = deref s.procesos (suc k) >>= λ p. some (
    [],
    record s {
      bitmap = liberar_bucle p.paginas s.bitmap;
      procesos = guardar s.procesos (suc k) none;
    },
  )

  module _ (path : List ℕ) (cargar : List ℕ → Option (List (List ℕ))) where
    -- `recibir_proceso`; `path` is PATH_INSTRUCCIONES, and `cargar` is `cargar_proceso` of a path.
    unfoldable pub recibir_proceso : Memoria Bits → List ℕ → ℕ → Atendido (Memoria Bits)
    recibir_proceso s nombre pid = elim (cargar (path ++ nombre)) [
      | none ↦ some (puntero nuevo_proceso 0 ∷ [], s)
      | some is ↦ some (
        puntero nuevo_proceso (suc (length s.procesos)) ∷ [],
        record s {
          procesos =
              s.procesos
              ++ some (record {
                pid = pid;
                instrucciones = is;
                paginas = nueva_tabla_paginas s.cant_pag;
              })
                ∷ [];
        },
      )
    ]

    -- One round of `interactuar_Kernel`.
    unfoldable pub interactuar_kernel : Memoria Bits → PeticionKernel → Atendido (Memoria Bits)
    interactuar_kernel s (iniciar nombre pid) = recibir_proceso s nombre pid
    interactuar_kernel s (finalizar k) = liberar_proceso s k
