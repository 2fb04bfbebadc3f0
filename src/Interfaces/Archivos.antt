-- ===== src/Interfaces/Archivos.antt =====
-- The file system's interface (utils/src/entradasalida/entradasalida.c: crear_interfaz_fs): one round
-- of its loop over DialFS. A `none` is a fault, or a wait that never ends.
use Prim.Native.String.{String}
use text.Mathlib.Text.{◌==◌ as str_eq}
use so_1c.Base.{ℕ, Bool, true, false, List, ◌++◌, Option, some, ◌>>=◌, if◌then◌else◌, get_elem?}
use so_1c.BitArray.{BitArray}
use so_1c.Protocolo.{codigo, io_success, io_failure, escritura_string, lectura_string}
use so_1c.Memoria.Servidor.{hasta_nul}
use so_1c.DialFs.{Fs}
use so_1c.DialFs.Operaciones.{crear_fs, eliminar_fs, escribir_fs, leer_fs}
use so_1c.DialFs.Truncar.{truncar_fs}
use so_1c.Sockets.{
  recibir_operacion, recibir_buffer, recibir_vector, enviar_operacion, enviar_string,
}
use so_1c.Interfaces.{Vuelta, termina, sigue, Pedido, recibir_pedido, pedazos, enviar_pedazos}

-- What a round leaves: the answer to the kernel, what the kernel sent that is not read, the memory on
-- the other socket, and the file system.
pub record SalidaFs (Bits M : Type 0) : Type 0 where
  pub a_kernel : List ℕ
  pub de_kernel : List ℕ
  pub memoria : M
  pub fs : Fs Bits

-- The memory at the other end of a socket takes what is sent, and answers. `detras` is what the heap
-- holds after the block that `leer_fs` allocates, which no NUL ends.
module _ (malloc : ℕ → List ℕ) (detras : List ℕ) (string_split : List ℕ → List String)
    (atoi : String → ℕ) {Bits M : Type 0} ⦃b : BitArray Bits⦄
    (enviar : M → List ℕ → Option (List ℕ × M)) (tam_pagina : ℕ) where
  -- IO_FS_WRITE; a text that does not fit the file is only logged.
  unfoldable pub caso_escribir : Fs Bits → M → Pedido → Option (SalidaFs Bits M)
  caso_escribir f m p = get_elem? p.instruccion 3 >>= λ tamanio.
      get_elem? p.instruccion 4 >>= λ cuantas. recibir_vector (atoi cuantas) p.resto >>= λ ds.
      get_elem? p.instruccion 2 >>= λ nombre. get_elem? p.instruccion 5 >>= λ offset.
      pedazos tam_pagina (atoi tamanio) ds.0 >>= λ ps.
      enviar m
        (enviar_operacion (codigo lectura_string) ++ (enviar_operacion p.pid ++ enviar_pedazos ps))
      >>= λ r. recibir_operacion r.0 >>= λ c. recibir_buffer c.1 >>= λ cadena.
          escribir_fs f nombre (hasta_nul cadena.0) (atoi offset) >>= λ w. some (record {
            a_kernel = enviar_operacion (codigo io_success);
            de_kernel = ds.1;
            memoria = r.1;
            fs = w.1;
          })

  -- IO_FS_READ
  unfoldable pub caso_leer : Fs Bits → M → Pedido → Option (SalidaFs Bits M)
  caso_leer f m p = get_elem? p.instruccion 3 >>= λ tamanio.
      get_elem? p.instruccion 4 >>= λ cuantas. recibir_vector (atoi cuantas) p.resto >>= λ ds.
      get_elem? p.instruccion 2 >>= λ nombre. get_elem? p.instruccion 5 >>= λ offset.
      leer_fs f nombre (atoi offset) (atoi tamanio) >>= λ leido.
      pedazos tam_pagina (atoi tamanio) ds.0 >>= λ ps.
      enviar_string malloc (leido ++ detras) (codigo escritura_string) >>= λ e.
      enviar m (e ++ (enviar_operacion p.pid ++ enviar_pedazos ps)) >>= λ r. some (record {
        a_kernel = enviar_operacion (codigo io_success);
        de_kernel = ds.1;
        memoria = r.1;
        fs = f;
      })

  -- The other cases, with the answer to the kernel and the file system after it.
  abbrev pub contestar : M → Pedido → Bool → Fs Bits → SalidaFs Bits M
  contestar m p bien f = record {
    a_kernel = enviar_operacion (if bien then codigo io_success else codigo io_failure);
    de_kernel = p.resto;
    memoria = m;
    fs = f;
  }

  unfoldable pub caso_crear : Fs Bits → M → Pedido → Option (SalidaFs Bits M)
  caso_crear f m p = get_elem? p.instruccion 2 >>= λ nombre.
      let r = crear_fs f nombre in some (contestar m p r.0 r.1)

  unfoldable pub caso_eliminar : Fs Bits → M → Pedido → Option (SalidaFs Bits M)
  caso_eliminar f m p = get_elem? p.instruccion 2 >>= λ nombre.
      eliminar_fs f nombre >>= λ g. some (contestar m p true g)

  unfoldable pub caso_truncar : Fs Bits → M → Pedido → Option (SalidaFs Bits M)
  caso_truncar f m p = get_elem? p.instruccion 2 >>= λ nombre. get_elem? p.instruccion 3 >>= λ tam.
      truncar_fs f nombre (atoi tam) >>= λ g. some (contestar m p true g)

  -- `crear_interfaz_fs`
  unfoldable pub interfaz_fs : Fs Bits → M → List ℕ → Option (Vuelta (SalidaFs Bits M))
  unfolding caso_escribir caso_leer caso_crear caso_eliminar caso_truncar
  interfaz_fs f m s = recibir_pedido string_split s >>= λ v. elim v [
    | termina ↦ some termina
    | sigue p ↦ get_elem? p.instruccion 0 >>= λ op.
        (if str_eq op "IO_FS_CREATE"
          then caso_crear f m p
          else if str_eq op "IO_FS_DELETE"
          then caso_eliminar f m p
          else if str_eq op "IO_FS_TRUNCATE"
          then caso_truncar f m p
          else if str_eq op "IO_FS_WRITE"
          then caso_escribir f m p
          else if str_eq op "IO_FS_READ"
          then caso_leer f m p
          else some (contestar m p false f))
        >>= λ r. some (sigue r)
  ]
