-- ===== src/Interfaces/Consola.antt =====
-- The generic, STDIN and STDOUT interfaces (utils/src/entradasalida/entradasalida.c): one round of
-- the loop of each. A `none` is a fault, or a wait that never ends.
use Prim.Native.String.{String}
use text.Mathlib.Text.{◌==◌ as str_eq}
use so_1c.Base.{
  none, ltb, ℕ, zero, suc, List, [], ◌∷◌, ◌++◌, Option, some, ◌>>=◌, if◌then◌else◌, get_elem?,
}
use so_1c.Protocolo.{codigo, io_success, io_failure, escritura_string, lectura_string}
use so_1c.Memoria.Servidor.{hasta_nul}
use so_1c.Sockets.{
  recibir_operacion, recibir_buffer, recibir_vector, enviar_operacion, enviar_string,
}
use so_1c.Interfaces.{Vuelta, termina, sigue, recibir_pedido, pedazos, enviar_pedazos}

-- What a round leaves: the bytes sent to the kernel, what the kernel sent that is not read, the
-- memory on the other socket, what is typed and not read, and what was printed.
pub record Salida (M : Type 0) : Type 0 where
  pub a_kernel : List ℕ
  pub de_kernel : List ℕ
  pub memoria : M
  pub teclado : List ℕ
  pub pantalla : List ℕ

-- `getchar`: EOF is -1, kept as a `char`.
unfoldable pub getchar : List ℕ → ℕ × List ℕ
getchar [] = (255, [])
getchar (c ∷ cs) = (c, cs)

-- n calls of it.
unfoldable pub leer_teclado : ℕ → List ℕ → List ℕ × List ℕ
unfolding getchar
leer_teclado zero cs = ([], cs)
leer_teclado (suc n) cs = let c = getchar cs in let r = leer_teclado n c.1 in (c.0 ∷ r.0, r.1)

module _ (string_n_split : List ℕ → List String) where
  -- `crear_interfaz_generica`: the answer, and what is not read. `string_n_split` gives 3 words at most, the
  -- last with what follows.
  unfoldable pub interfaz_generica : List ℕ → Option (Vuelta (List ℕ × List ℕ))
  interfaz_generica s = recibir_pedido string_n_split s >>= λ v. elim v [
    | termina ↦ some termina
    | sigue p ↦ get_elem? p.instruccion 0 >>= λ op.
        if str_eq op "IO_GEN_SLEEP"
        then (get_elem? p.instruccion 2 >>= λ u.
            some (sigue (enviar_operacion (codigo io_success), p.resto)))
        else some (sigue (enviar_operacion (codigo io_failure), p.resto))
  ]

-- The index of the last byte written to an array, where r bytes are set aside for it.
abbrev pub en_reserva : ℕ → ℕ → Option ℕ
en_reserva r n = if ltb n r then some n else none

-- The memory at the other end of a socket takes what is sent, and answers.
module _ (malloc : ℕ → List ℕ) (string_split : List ℕ → List String) (atoi : String → ℕ)
    {M : Type 0} (enviar : M → List ℕ → Option (List ℕ × M)) (tam_pagina : ℕ) where
  -- `crear_interfaz_stdin`, for sizes that are not negative. `reserva` is what the compiler sets aside on the
  -- stack for an array of n bytes: `valor[tamaño]` is written as well.
  unfoldable pub interfaz_stdin : (ℕ → ℕ) → M → List ℕ → List ℕ → Option (Vuelta (Salida M))
  unfolding leer_teclado
  interfaz_stdin reserva m s cs = recibir_pedido string_split s >>= λ v. elim v [
    | termina ↦ some termina
    | sigue p ↦ get_elem? p.instruccion 2 >>= λ tamanio. get_elem? p.instruccion 3 >>= λ cuantas.
        get_elem? p.instruccion 0 >>= λ op. recibir_vector (atoi cuantas) p.resto >>= λ ds.
        if str_eq op "IO_STDIN_READ"
        then (let (valor, cs') = leer_teclado (atoi tamanio) cs in
            en_reserva (reserva (atoi tamanio)) (atoi tamanio) >>= λ nul.
            pedazos tam_pagina (atoi tamanio) ds.0 >>= λ ps.
            enviar_string malloc (valor ++ 0 ∷ []) (codigo escritura_string) >>= λ e.
            enviar m (e ++ (enviar_operacion p.pid ++ enviar_pedazos ps)) >>= λ r. some (
              sigue (record {
                a_kernel = enviar_operacion (codigo io_success);
                de_kernel = ds.1;
                memoria = r.1;
                teclado = (getchar cs').1;
                pantalla = [];
              })))
        else some (
            sigue (record {
              a_kernel = enviar_operacion (codigo io_failure);
              de_kernel = ds.1;
              memoria = m;
              teclado = cs;
              pantalla = [];
            }))
  ]

  -- `crear_interfaz_stdout`; the answer of the memory is an operation code and a buffer.
  unfoldable pub interfaz_stdout : M → List ℕ → List ℕ → Option (Vuelta (Salida M))
  interfaz_stdout m s cs = recibir_pedido string_split s >>= λ v. elim v [
    | termina ↦ some termina
    | sigue p ↦ get_elem? p.instruccion 0 >>= λ op. get_elem? p.instruccion 2 >>= λ tamanio.
        get_elem? p.instruccion 3 >>= λ cuantas. recibir_vector (atoi cuantas) p.resto >>= λ ds.
        if str_eq op "IO_STDOUT_WRITE"
        then (pedazos tam_pagina (atoi tamanio) ds.0 >>= λ ps.
            enviar m (
              enviar_operacion (codigo lectura_string)
              ++ (enviar_operacion p.pid ++ enviar_pedazos ps))
            >>= λ r. recibir_operacion r.0 >>= λ c. recibir_buffer c.1 >>= λ b. some (
                sigue (record {
                  a_kernel = enviar_operacion (codigo io_success);
                  de_kernel = ds.1;
                  memoria = r.1;
                  teclado = cs;
                  pantalla = hasta_nul b.0 ++ 32 ∷ 10 ∷ [];
                })))
        else some (
            sigue (record {
              a_kernel = enviar_operacion (codigo io_failure);
              de_kernel = ds.1;
              memoria = m;
              teclado = cs;
              pantalla = [];
            }))
  ]
