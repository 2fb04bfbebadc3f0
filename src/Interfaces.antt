-- ===== src/Interfaces.antt =====
-- The I/O interfaces (utils/src/entradasalida/entradasalida.c) as they speak to the kernel and to the
-- memory over sockets: what a request is, and what is sent for the pieces of a transfer.
pub mod Enlace
pub mod Consola
pub mod Mensajes
pub mod Leyes
pub mod Eco
pub mod Archivos
pub mod Copia
pub mod Rechazo
use Prim.Native.String.{String}
use so_1c.Base.{
  ℕ, zero, suc, ◌+◌, List, [], ◌∷◌, ◌++◌, Option, none, some, ◌>>=◌, if◌then◌else◌, ◌==◌, leb,
  length,
}
use so_1c.Protocolo.{codigo, operacion_io}
use so_1c.Tramos.{espacio_en_pag, tramos}
use so_1c.Memoria.Servidor.{hasta_nul}
use so_1c.Sockets.{
  recibir_operacion, recibir_buffer, enviar_operacion, enviar_string, enviar_vector,
}

-- A round of an interface's loop: it ends where the code is not OPERACION_IO.
pub data Vuelta (A : Type 0) : Type 0 where
  termina : Vuelta A
  sigue : A → Vuelta A

-- What every interface reads of a request first: the words of the instruction and the pid; and what
-- the kernel sent after them.
pub record Pedido : Type 0 where
  pub instruccion : List String
  pub pid : ℕ
  pub resto : List ℕ

-- The first part of a round; `string_split` gives the words of a text.
unfoldable pub recibir_pedido : (List ℕ → List String) → List ℕ → Option (Vuelta Pedido)
recibir_pedido string_split s = recibir_operacion s >>= λ c.
    if c.0 == codigo operacion_io
    then (recibir_buffer c.1 >>= λ b. recibir_operacion b.1 >>= λ p.
        some
          (sigue (record { instruccion = string_split (hasta_nul b.0); pid = p.0; resto = p.1 })))
    else some termina

-- The (size, address) pairs for a transfer of `tamanio` bytes: one where it fits the first page; else
-- one for each address. Without the address that is used, the vector is read out of range.
unfoldable pub pedazos : ℕ → ℕ → List ℕ → Option (List (ℕ × ℕ))
unfolding tramos
pedazos t tamanio [] = none
pedazos t tamanio (d ∷ []) =
    if leb tamanio (espacio_en_pag t d) then some ((tamanio, d) ∷ []) else none
pedazos t tamanio (d ∷ e ∷ ds) = some (tramos t tamanio (espacio_en_pag t d) (d ∷ e ∷ ds))

-- How the pairs are sent.
unfoldable pub enviar_pares : List (ℕ × ℕ) → List ℕ
enviar_pares [] = []
enviar_pares ((n, d) ∷ ps) = enviar_operacion n ++ (enviar_operacion d ++ enviar_pares ps)

-- Their number, and then the pairs.
unfoldable pub enviar_pedazos : List (ℕ × ℕ) → List ℕ
unfolding enviar_pares
enviar_pedazos ps = enviar_operacion (length ps) ++ enviar_pares ps

-- The kernel's request (kernel.c: atender_solicitud_IO), with the addresses of the instructions that
-- have some.
unfoldable pub enviar_pedido : (ℕ → List ℕ) → List ℕ → ℕ → List ℕ → Option (List ℕ)
enviar_pedido malloc texto pid direcciones =
    enviar_string malloc texto (codigo operacion_io) >>= λ m.
    some (m ++ (enviar_operacion pid ++ enviar_vector direcciones))
