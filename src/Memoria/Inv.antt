-- ===== src/Memoria/Inv.antt =====
-- The invariant of the memory module, and its operations on frames (utils/src/memoria/memoria.c).
use so_1c.Base.{
  ℕ, zero, suc, ◌+◌, ◌-◌, ◌*◌, ◌/◌, ◌≤◌, ◌<◌, ◌≡◌, refl, sym, ◌∙◌, List, [], ◌∷◌, none, some, uno,
  length, get_elem?, ◌≢◌, min, leb, if◌then◌else◌,
}
use native.Mathlib.Nat.{mul-div_cancel}
use so_1c.BitArray.{BitArray}
use so_1c.Protocolo.{operacion, codigo, oom}
use so_1c.Memoria.{Pag, Proceso, Memoria, deref, guardar}
use so_1c.Memoria.Marcos.{paginas_usadas, liberar_bucle}
use so_1c.Memoria.Buscar.{libres}
use so_1c.Memoria.Ampliar.{EsTabla, aniadir_bucle-Ampliada}
use so_1c.Memoria.Reducir.{sacar_bucle-Reducida, sacar_bucle-none, liberar_bucle-duenos}
use so_1c.Memoria.Atender.{tam_proc, aniadir_paginas, sacar_paginas, liberar_proceso}
use so_1c.Memoria.Duenos.{
  duenos, Todos, deref-Todos, guardar-none-Todos, guardar-some-Todos, duenos-deref, duenos-guardar,
  deref-guardar, deref-guardar_ne,
}

module _ {Bits : Type 0} ⦃b : BitArray Bits⦄ where
  open b use {tam, test_bit}

  -- Frames are marked exactly when a page of a live process holds them, and then one does.
  pub record IsValid (s : Memoria Bits) : Type 0 where
    pub medida : tam s.bitmap ≡ s.cant_pag
    pub positivo : 0 < s.tam_pag
    pub tamanio : length s.contigua ≡ s.cant_pag * s.tam_pag
    pub todos : Todos s.cant_pag s.procesos
    pub exactos : (f : ℕ) → f < s.cant_pag → duenos f s.procesos ≡ uno (test_bit s.bitmap f)

  -- The frames of all processes but the one behind a pointer.
  abbrev pub otros : Memoria Bits → ℕ → ℕ → ℕ
  otros s k f = duenos f (guardar s.procesos k none)

  -- A live process beside the others.
  pub tabla_de :
      (s : Memoria Bits) (k : ℕ) (p : Proceso)
      → IsValid s
      → deref s.procesos k ≡ some p
      → EsTabla s.cant_pag (otros s k) s.bitmap p.paginas
  tabla_de s k p v e =
      let q = deref-Todos s.cant_pag k s.procesos p v.todos e in
      record {
        medida = v.medida;
        largo = q.largo;
        prefijo = q.prefijo;
        debajo = q.debajo;
        duenos = λ f l. sym (duenos-deref f k s.procesos p e) ∙ v.exactos f l;
      }

  -- Putting a table back.
  pub tabla-IsValid :
      (s : Memoria Bits) (k : ℕ) (p : Proceso) (bm : Bits) (ps : List Pag)
      → IsValid s
      → deref s.procesos k ≡ some p
      → EsTabla s.cant_pag (otros s k) bm ps
      → IsValid (record s {
        bitmap = bm;
        procesos = guardar s.procesos k (some (record p { paginas = ps }));
      })
  tabla-IsValid s k p bm ps v e t = record {
    medida = t.medida;
    positivo = v.positivo;
    tamanio = v.tamanio;
    todos =
        guardar-some-Todos s.cant_pag k s.procesos (record p { paginas = ps }) v.todos
          (record { largo = t.largo; prefijo = t.prefijo; debajo = t.debajo });
    exactos = λ f l. duenos-guardar f k s.procesos p (record p { paginas = ps }) e ∙ t.duenos f l;
  }

  -- The page count of the C code, the size divided by the page size, is the number of pages.
  pub tam_proc-div :
      (s : Memoria Bits) (p : Proceso)
      → IsValid s
      → tam_proc s p / s.tam_pag ≡ paginas_usadas p.paginas
  unfolding tam_proc
  tam_proc-div s p v = mul-div_cancel (paginas_usadas p.paginas) v.positivo

  -- What a successful change of the running process's table leaves behind.
  pub record Cambio (s : Memoria Bits) (p p' : Proceso) (s' : Memoria Bits) : Type 0 where
    pub valido : IsValid s'
    pub actual_nuevo : deref s'.procesos s.actual ≡ some p'
    pub demas : (j : ℕ) → s.actual ≢ j → deref s'.procesos j ≡ deref s.procesos j
    pub bytes : s'.contigua ≡ s.contigua
    pub mismo_pid : p'.pid ≡ p.pid
    pub mismo_codigo : p'.instrucciones ≡ p.instrucciones

  cambio :
      (s : Memoria Bits) (p : Proceso) (bm : Bits) (ps : List Pag)
      → IsValid s
      → deref s.procesos s.actual ≡ some p
      → EsTabla s.cant_pag (otros s s.actual) bm ps
      → Cambio s p
          (record p { paginas = ps })
          (record s {
            bitmap = bm;
            procesos = guardar s.procesos s.actual (some (record p { paginas = ps }));
          })
  cambio s p bm ps v e t = record {
    valido = tabla-IsValid s s.actual p bm ps v e t;
    actual_nuevo = deref-guardar s.actual s.procesos p _ e;
    demas = λ j n. deref-guardar_ne s.actual j s.procesos _ n;
    bytes = refl;
    mismo_pid = refl;
    mismo_codigo = refl;
  }

  -- `aniadir_paginas` on a valid memory whose running process is live: the answer is 1 exactly when
  -- as many frames are free as pages asked for, and OOM otherwise; the process grows by the pages
  -- asked for, or by every free frame at OOM, its earlier pages keep their frames, the other processes
  -- and the bytes stay, and the memory is valid again.
  pub aniadir_paginas_lem :
      (s : Memoria Bits) (n : ℕ) (p : Proceso)
      → IsValid s
      → deref s.procesos s.actual ≡ some p
      → let l = libres s.cant_pag s.bitmap in
        (s' : Memoria Bits) × (p' : Proceso) × (aniadir_paginas s n
          ≡ some ((if leb n l then operacion 1 else operacion (codigo oom)) ∷ [], s'))
        × Cambio s p p' s'
        × (paginas_usadas p'.paginas ≡ paginas_usadas p.paginas + min n l)
        × ((j : ℕ) → j < paginas_usadas p.paginas → get_elem? p'.paginas j ≡ get_elem? p.paginas j)
        × (libres s'.cant_pag s'.bitmap ≡ l - n)
  unfolding aniadir_paginas
  aniadir_paginas_lem s n p v e =
      let (r, q, a) =
        aniadir_bucle-Ampliada s.cant_pag n (otros s s.actual) s.bitmap p.paginas
          (tabla_de s s.actual p v e) in
      (
        record s {
          bitmap = r.1;
          procesos = guardar s.procesos s.actual (some (record p { paginas = r.2 }));
        },
        record p { paginas = r.2 },
        rw (e, tam_proc-div s p v, q, a.exito),
        cambio s p r.1 r.2 v e a.tabla,
        a.crecio,
        a.conserva,
        a.quedan,
      )

  -- `sacar_paginas` on a valid memory whose running process is live, asked for at most its pages:
  -- it answers nothing, the process loses its last pages and keeps the others, their frames become
  -- free, the other processes and the bytes stay, and the memory is valid again.
  pub sacar_paginas_lem :
      (s : Memoria Bits) (n : ℕ) (p : Proceso)
      → IsValid s
      → deref s.procesos s.actual ≡ some p
      → n ≤ paginas_usadas p.paginas
      → (s' : Memoria Bits) × (p' : Proceso) × (sacar_paginas s n ≡ some ([], s'))
        × Cambio s p p' s'
        × (paginas_usadas p'.paginas + n ≡ paginas_usadas p.paginas)
        × ((j : ℕ) → j < paginas_usadas p'.paginas → get_elem? p'.paginas j ≡ get_elem? p.paginas j)
        × (libres s'.cant_pag s'.bitmap ≡ libres s.cant_pag s.bitmap + n)
  unfolding sacar_paginas
  sacar_paginas_lem s n p v e l =
      let (r, q, a) =
        sacar_bucle-Reducida s.cant_pag n (paginas_usadas p.paginas) (otros s s.actual) s.bitmap
          p.paginas (tabla_de s s.actual p v e) refl l in
      (
        record s {
          bitmap = r.0;
          procesos = guardar s.procesos s.actual (some (record p { paginas = r.1 }));
        },
        record p { paginas = r.1 },
        rw (e, tam_proc-div s p v, q),
        cambio s p r.0 r.1 v e a.tabla,
        a.quedan,
        a.conserva,
        a.devueltos,
      )

  -- On a valid memory, asked for more pages than the live running process has, `sacar_paginas` indexes
  -- its table at -1: it faults.
  pub sacar_paginas-none :
      (s : Memoria Bits) (n : ℕ) (p : Proceso)
      → IsValid s
      → deref s.procesos s.actual ≡ some p
      → paginas_usadas p.paginas < n
      → sacar_paginas s n ≡ none
  unfolding sacar_paginas
  sacar_paginas-none s n p v e l = rw (
    e,
    tam_proc-div s p v,
    sacar_bucle-none s.cant_pag n (paginas_usadas p.paginas) (otros s s.actual) s.bitmap p.paginas
        (tabla_de s s.actual p v e) refl l,
  )

  -- `liberar_proceso` of a live process on a valid memory: the process is gone, the others and the
  -- bytes stay, a frame is marked afterwards exactly when another process holds it, and the memory
  -- is valid again.
  pub liberar_proceso_lem :
      (s : Memoria Bits) (k : ℕ) (p : Proceso)
      → IsValid s
      → deref s.procesos k ≡ some p
      → (s' : Memoria Bits) × (liberar_proceso s k ≡ some ([], s'))
        × IsValid s'
        × (deref s'.procesos k ≡ none)
        × ((j : ℕ) → k ≢ j → deref s'.procesos j ≡ deref s.procesos j)
        × ((f : ℕ) → f < s.cant_pag → uno (test_bit s'.bitmap f) ≡ otros s k f)
        × (s'.contigua ≡ s.contigua)
  unfolding liberar_proceso
  liberar_proceso_lem s zero p v e = cc
  liberar_proceso_lem s (suc k) p v e =
      let t = tabla_de s (suc k) p v e in
      let (m, d) =
        liberar_bucle-duenos s.cant_pag (otros s (suc k)) s.bitmap p.paginas t.medida t.prefijo
          t.debajo t.duenos in
      (
        record s {
          bitmap = liberar_bucle p.paginas s.bitmap;
          procesos = guardar s.procesos (suc k) none;
        },
        rw e,
        record {
          medida = m;
          positivo = v.positivo;
          tamanio = v.tamanio;
          todos = guardar-none-Todos s.cant_pag (suc k) s.procesos v.todos;
          exactos = d;
        },
        deref-guardar (suc k) s.procesos p none e,
        (λ j n. deref-guardar_ne (suc k) j s.procesos none n),
        (λ f l. sym (d f l)),
        refl,
      )
