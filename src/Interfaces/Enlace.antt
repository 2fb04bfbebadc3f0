-- ===== src/Interfaces/Enlace.antt =====
-- The memory's server of the interfaces, over bytes (utils/src/memoria/memoria.c: interactuar_IO, and
-- what leer_string and escribir_string read).
use so_1c.Base.{ℕ, zero, suc, List, [], ◌∷◌, ◌++◌, Option, none, some, ◌>>=◌, if◌then◌else◌, ◌==◌}
use so_1c.Protocolo.{
  codigo, menos_uno, escritura_string, lectura_string, Envio, operacion, entero, texto, puntero,
}
use so_1c.Memoria.{Memoria}
use so_1c.Memoria.Servidor.{PeticionIo, escribir_io, leer_io}
use so_1c.Memoria.Atender.{interactuar_io}
use so_1c.Sockets.{
  recibir_operacion, recibir_buffer, enviar_operacion, enviar_string, enviar_int, enviar_puntero,
}

-- What one round takes off the socket: a request, an unexpected code, or the end of the connection.
pub data Recibido : Type 0 where
  pide : PeticionIo → Recibido
  inesperada : Recibido
  desconectado : Recibido

-- The loop over the pairs.
unfoldable pub recibir_pares : ℕ → List ℕ → Option (List (ℕ × ℕ) × List ℕ)
recibir_pares zero s = some ([], s)
recibir_pares (suc k) s = recibir_operacion s >>= λ n.
    recibir_operacion n.1 >>= λ d. recibir_pares k d.1 >>= λ r. some ((n.0, d.0) ∷ r.0, r.1)

unfoldable pub recibir_pedazos : List ℕ → Option (List (ℕ × ℕ) × List ℕ)
unfolding recibir_pares
recibir_pedazos s = recibir_operacion s >>= λ k. recibir_pares k.0 k.1

unfoldable pub recibir_io : List ℕ → Option (Recibido × List ℕ)
unfolding recibir_pedazos
recibir_io s = recibir_operacion s >>= λ c.
    if c.0 == codigo escritura_string
    then (recibir_buffer c.1 >>= λ b. recibir_operacion b.1 >>= λ p.
        recibir_pedazos p.1 >>= λ r. some (pide (escribir_io b.0 p.0 r.0), r.1))
    else if c.0 == codigo lectura_string
    then (recibir_operacion c.1 >>= λ p.
        recibir_pedazos p.1 >>= λ r. some (pide (leer_io p.0 r.0), r.1))
    else if c.0 == menos_uno
    then some (desconectado, c.1)
    else some (inesperada, c.1)

module _ (malloc : ℕ → List ℕ) where
  -- The bytes of one call of the enviar_ functions.
  unfoldable pub bytes_envio : Envio → Option (List ℕ)
  bytes_envio (operacion v) = some (enviar_operacion v)
  bytes_envio (entero c v) = enviar_int malloc v (codigo c)
  bytes_envio (texto c xs) = enviar_string malloc xs (codigo c)
  bytes_envio (puntero c k) = enviar_puntero malloc k (codigo c)

  unfoldable pub bytes_envios : List Envio → Option (List ℕ)
  unfolding bytes_envio
  bytes_envios [] = some []
  bytes_envios (e ∷ es) = bytes_envio e >>= λ xs. bytes_envios es >>= λ ys. some (xs ++ ys)

  -- One round of `interactuar_IO`: what it answers, what it left unread, and the memory.
  unfoldable pub servir_io :
      {Bits : Type 0} → Memoria Bits → List ℕ → Option ((List ℕ × List ℕ) × Memoria Bits)
  unfolding recibir_io bytes_envios
  servir_io m s = recibir_io s >>= λ q. elim q.0 [
    | pide p ↦ interactuar_io m p >>= λ a. bytes_envios a.0 >>= λ xs. some ((xs, q.1), a.1)
    | inesperada ↦ some (([], q.1), m)
    | desconectado ↦ some (([], q.1), m)
  ]

  -- The server as an interface uses it: bytes left unread would be taken as operation codes.
  unfoldable pub enlace : {Bits : Type 0} → Memoria Bits → List ℕ → Option (List ℕ × Memoria Bits)
  unfolding servir_io
  enlace m s = servir_io m s >>= λ r. elim r.0.1 [ [] ↦ some (r.0.0, r.1) | _ ∷ _ ↦ none ]
