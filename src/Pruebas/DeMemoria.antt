-- ===== src/Pruebas/DeMemoria.antt =====
-- A memory of two pages of 4 bytes, with one process that has one page and then two.
use so_1c.Bytes.{valor_de}
use so_1c.Memoria.Servidor.{leer, escribir, escribir_bucle}
use so_1c.Memoria.Cruce.{leer-escribir_cruzado}
use so_1c.Base.{
  replicate, ℕ, ◌+◌, ◌≡◌, ◌≢◌, ◌<◌, refl, Bool, true, false, List, [], ◌∷◌, Option, none, some, uno,
  get_elem?, arith, suma,
}
use so_1c.BitArray.{lista_bits}
use so_1c.Protocolo.{operacion, codigo, oom, puntero, nuevo_proceso}
use so_1c.Memoria.{Pag, Proceso, Memoria, deref}
use so_1c.Memoria.Marcos.{
  nueva_tabla_paginas, paginas_usadas, buscar_marco, buscar_desde, aniadir_bucle, sacar_bucle,
}
use so_1c.Memoria.Buscar.{libres}
use so_1c.Memoria.Servidor.{cpu, kernel, proceso, mas_pagina, menos_pagina, iniciar}
use so_1c.Memoria.Atender.{
  aniadir_paginas, sacar_paginas, liberar_proceso, recibir_proceso, interactuar_cpu,
  interactuar_kernel, tam_proc,
}
use so_1c.Memoria.Inv.{
  IsValid, Cambio, otros, aniadir_paginas_lem, sacar_paginas_lem, sacar_paginas-none,
  liberar_proceso_lem,
}
use so_1c.Memoria.Valida.{atender-IsValid}
use so_1c.Memoria.Inicio.{
  limpiar_desde, inicializar_memoria, inicializar_memoria-IsValid, Alcanza, inicio, paso,
  Alcanza-IsValid, aislamiento,
}

abbrev bytes : List ℕ
bytes = 0 ∷ 1 ∷ 2 ∷ 3 ∷ 4 ∷ 5 ∷ 6 ∷ 7 ∷ []

-- After the start.
abbrev vacia : Memoria (List Bool)
vacia = record {
  tam_pag = 4;
  cant_pag = 2;
  bitmap = false ∷ false ∷ [];
  contigua = bytes;
  procesos = [];
  actual = 0;
}

abbrev carga : List ℕ → Option (List (List ℕ))
carga n = some []

abbrev pub con : List Pag → Proceso
con ps = record { pid = 7; instrucciones = []; paginas = ps }

abbrev pub libre0 : Pag
libre0 = record { marco = 0; estado = false }

abbrev pub usada0 : Pag
usada0 = record { marco = 0; estado = true }

-- With one process, which the CPU runs, and with its first page.
abbrev cargada : Memoria (List Bool)
cargada = record vacia { procesos = some (con (libre0 ∷ libre0 ∷ [])) ∷ [] }

abbrev corriendo : Memoria (List Bool)
corriendo = record cargada { actual = 1 }

abbrev pub una : Memoria (List Bool)
una = record corriendo {
  bitmap = true ∷ false ∷ [];
  procesos = some (con (usada0 ∷ libre0 ∷ [])) ∷ [];
}

vacia-IsValid : IsValid vacia
unfolding inicializar_memoria limpiar_desde
vacia-IsValid =
    inicializar_memoria-IsValid 4 8 (true ∷ false ∷ []) bytes vacia (omega arith) (omega arith) refl
      refl refl

llega : Alcanza [] carga vacia una
unfolding interactuar_cpu interactuar_kernel recibir_proceso nueva_tabla_paginas aniadir_paginas
    tam_proc paginas_usadas aniadir_bucle buscar_marco buscar_desde
llega =
    paso {r = corriendo} (cpu (mas_pagina 1)) (operacion 1 ∷ [])
      (paso {r = cargada} (cpu (proceso 1)) []
        (paso {r = vacia} (kernel (iniciar [] 7)) (puntero nuevo_proceso 1 ∷ []) inicio refl) refl)
      refl

Alcanza-IsValid_example : IsValid una
Alcanza-IsValid_example = Alcanza-IsValid [] carga vacia-IsValid llega

pub valida : IsValid una
valida = Alcanza-IsValid [] carga vacia-IsValid llega

atender-IsValid_example : IsValid corriendo
unfolding interactuar_cpu sacar_paginas sacar_bucle tam_proc paginas_usadas
atender-IsValid_example =
    atender-IsValid [] carga una (cpu (menos_pagina 1)) [] corriendo valida refl

aislamiento_example : (◌≡◌ {A = ℕ} 1 1) × (◌≡◌ {A = ℕ} 0 0)
unfolding inicializar_memoria limpiar_desde
aislamiento_example =
    aislamiento [] carga 4 8 (true ∷ false ∷ []) bytes vacia una 1 1 0 0
      (con (usada0 ∷ libre0 ∷ [])) (con (usada0 ∷ libre0 ∷ [])) usada0 usada0 (omega arith)
      (omega arith) refl refl refl llega refl refl refl refl refl refl refl

aniadir_paginas_lem_example :
    (s' : Memoria (List Bool)) × (p' : Proceso) × (aniadir_paginas una 2
      ≡ some (operacion (codigo oom) ∷ [], s'))
    × Cambio una (con (usada0 ∷ libre0 ∷ [])) p' s'
    × (paginas_usadas p'.paginas ≡ 2)
    × ((j : ℕ) → j < 1 → get_elem? p'.paginas j ≡ get_elem? (usada0 ∷ libre0 ∷ []) j)
    × (libres s'.cant_pag s'.bitmap ≡ 0)
unfolding libres paginas_usadas suma
aniadir_paginas_lem_example = aniadir_paginas_lem una 2 (con (usada0 ∷ libre0 ∷ [])) valida refl

sacar_paginas_lem_example :
    (s' : Memoria (List Bool)) × (p' : Proceso) × (sacar_paginas una 1 ≡ some ([], s'))
    × Cambio una (con (usada0 ∷ libre0 ∷ [])) p' s'
    × (paginas_usadas p'.paginas + 1 ≡ 1)
    × ((j : ℕ)
        → j < paginas_usadas p'.paginas
        → get_elem? p'.paginas j ≡ get_elem? (usada0 ∷ libre0 ∷ []) j)
    × (libres s'.cant_pag s'.bitmap ≡ 2)
unfolding libres paginas_usadas suma
sacar_paginas_lem_example =
    sacar_paginas_lem una 1 (con (usada0 ∷ libre0 ∷ [])) valida refl (ground arith)

sacar_paginas-none_example : sacar_paginas una 2 ≡ none
unfolding paginas_usadas
sacar_paginas-none_example =
    sacar_paginas-none una 2 (con (usada0 ∷ libre0 ∷ [])) valida refl (ground arith)

liberar_proceso_lem_example :
    (s' : Memoria (List Bool)) × (liberar_proceso una 1 ≡ some ([], s'))
    × IsValid s'
    × (deref s'.procesos 1 ≡ none)
    × ((j : ℕ) → 1 ≢ j → deref s'.procesos j ≡ deref una.procesos j)
    × ((f : ℕ) → f < 2 → uno (lista_bits.test_bit s'.bitmap f) ≡ otros una 1 f)
    × (s'.contigua ≡ bytes)
liberar_proceso_lem_example = liberar_proceso_lem una 1 (con (usada0 ∷ libre0 ∷ [])) valida refl

-- 67305985 has the bytes 1, 2, 3 and 4; pages of 4 bytes, the second one follows the first.
leer-escribir_cruzado_example :
    (x : ℕ) × (leer (0 ∷ 0 ∷ 1 ∷ 2 ∷ 2 ∷ 2 ∷ 0 ∷ 0 ∷ []) 4 2 4 2 (4 ∷ [])
      ≡ some (valor_de (x ∷ 2 ∷ 2 ∷ 2 ∷ [])))
unfolding escribir escribir_bucle
leer-escribir_cruzado_example =
    leer-escribir_cruzado (replicate 8 0) (0 ∷ 0 ∷ 1 ∷ 2 ∷ 2 ∷ 2 ∷ 0 ∷ 0 ∷ []) 4 2 4 2 67305985
      (4 ∷ []) (omega arith) refl
