-- ===== src/Pruebas/DeCarga.antt =====
-- A process of a file of two lines, the last of which ends.
use so_1c.Base.{ℕ, suc, ◌≡◌, refl, Bool, List, [], ◌∷◌, Option, some, get_elem?, length, arith}
use so_1c.BitArray.{lista_bits}
use so_1c.Protocolo.{texto, puntero, nuevo_proceso, fetch}
use so_1c.Memoria.{Memoria}
use so_1c.Memoria.Atender.{recibir_proceso, buscar_instruccion}
use so_1c.Memoria.Carga.{
  en_buffer, cargar_bucle, queue_a_array, cargar_proceso, ultima,
  buscar_instruccion-recibir_proceso,
}
use so_1c.Lectura.{fgets, cortar, Limpia, Caben, unir}
use so_1c.Pruebas.DeMemoria.{una}

abbrev abrir : List ℕ → Option (List ℕ)
abrir n = some (65 ∷ 10 ∷ 66 ∷ 10 ∷ [])

abbrev instrucciones : List (List ℕ)
instrucciones = (65 ∷ []) ∷ (66 ∷ []) ∷ (66 ∷ []) ∷ []

cargadas : cargar_proceso abrir (0 ∷ []) (80 ∷ []) ≡ some (some instrucciones)
unfolding cargar_proceso cargar_bucle queue_a_array en_buffer fgets cortar
cargadas = refl

buscar_instruccion-recibir_proceso_example :
    (s' : Memoria (List Bool)) × (recibir_proceso [] (λ n. some instrucciones) una (80 ∷ []) 7
      ≡ some (puntero nuevo_proceso (suc (length una.procesos)) ∷ [], s'))
    × ((n : ℕ) (i : List ℕ)
        → get_elem? instrucciones n ≡ some i
        → buscar_instruccion (record s' { actual = suc (length una.procesos) }) n
          ≡ some (texto fetch i ∷ [], record s' { actual = suc (length una.procesos) }))
unfolding ultima cortar unir Limpia Caben
buscar_instruccion-recibir_proceso_example =
    buscar_instruccion-recibir_proceso [] (0 ∷ []) (80 ∷ []) abrir (λ n. some instrucciones) una 7
      ((65 ∷ []) ∷ (66 ∷ []) ∷ []) [] cargadas refl
      ((refl, refl, tt), omega arith, ((refl, refl, tt), omega arith, tt)) tt (omega arith)
      (omega arith)
