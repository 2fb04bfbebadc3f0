-- ===== src/Sockets.antt =====
-- Messages on a socket (utils/src/sockets/sockets.c): how the enviar_ functions lay them out, and how
-- the recibir_ functions take them off. A socket is the list of the bytes that were sent and not yet
-- received; the layout is that of a 64-bit little-endian machine.
pub mod Bloques
pub mod Paquetes
pub mod Registro
pub mod Termina
pub mod Saludos
use so_1c.Base.{
  ltb, if◌then◌else◌, ℕ, zero, suc, ◌+◌, ◌*◌, ◌/◌, ◌%◌, ◌^◌, List, [], ◌∷◌, ◌++◌, Option, none,
  some, ◌>>=◌, length,
}
use so_1c.Bytes.{escribir_en, leer_en, valor_de}
use so_1c.Memoria.Servidor.{hasta_nul}
use so_1c.Protocolo.{menos_uno, OpCode, codigo, paquete, mensaje}

-- A number in n bytes, least significant first: an `int` is 4 of them, a pointer 8.
unfoldable pub palabra : ℕ → ℕ → List ℕ
palabra zero v = []
palabra (suc n) v = v % 256 ∷ palabra n (v / 256)

-- `t_paquete` and its `t_buffer`
pub record Paquete : Type 0 where
  pub codigo_operacion : ℕ
  pub size : ℕ
  pub stream : List ℕ

-- `recv` with MSG_WAITALL of n bytes; `none` where the other end closes before they are there, which
-- leaves the buffer with what malloc found.
unfoldable pub recv : ℕ → List ℕ → Option (List ℕ × List ℕ)
recv zero s = some ([], s)
recv (suc n) [] = none
recv (suc n) (x ∷ s) = recv n s >>= λ r. some (x ∷ r.0, r.1)

-- The number in the next n bytes.
unfoldable pub recv_palabra : ℕ → List ℕ → Option (ℕ × List ℕ)
recv_palabra n s = recv n s >>= λ r. some (valor_de r.0, r.1)

-- A size as an `int`: a negative one is a fault of the `malloc` and the copy that take it.
abbrev pub con_signo : ℕ → Option ℕ
con_signo n = if ltb n (2 ^ 31) then some n else none

-- `recibir_operacion`: -1 where the other end closed.
unfoldable pub recibir_operacion : List ℕ → Option (ℕ × List ℕ)
unfolding recv_palabra
recibir_operacion [] = some (menos_uno, [])
recibir_operacion (x ∷ s) = recv_palabra 4 (x ∷ s)

-- `recibir_buffer`
unfoldable pub recibir_buffer : List ℕ → Option (List ℕ × List ℕ)
unfolding recv_palabra
recibir_buffer s = recv_palabra 4 s >>= λ n. con_signo n.0 >>= λ t. recv t n.1

-- `recibir_int` and `recibir_puntero`: the first bytes of the buffer.
unfoldable pub recibir_int : List ℕ → Option (ℕ × List ℕ)
unfolding recibir_buffer
recibir_int s = recibir_buffer s >>= λ r. recv_palabra 4 r.0 >>= λ v. some (v.0, r.1)

unfoldable pub recibir_puntero : List ℕ → Option (ℕ × List ℕ)
unfolding recibir_buffer
recibir_puntero s = recibir_buffer s >>= λ r. recv_palabra 8 r.0 >>= λ v. some (v.0, r.1)

-- `recibir_vector` of n entries.
unfoldable pub recibir_vector : ℕ → List ℕ → Option (List ℕ × List ℕ)
recibir_vector zero s = some ([], s)
recibir_vector (suc n) s =
    recibir_operacion s >>= λ v. recibir_vector n v.1 >>= λ r. some (v.0 ∷ r.0, r.1)

-- The loop of `recibir_paquete` over what is left of the buffer, with fuel.
unfoldable pub recibir_valores : ℕ → List ℕ → Option (List (List ℕ))
recibir_valores f [] = some []
recibir_valores zero (x ∷ s) = none
recibir_valores (suc f) (x ∷ s) = recv_palabra 4 (x ∷ s) >>= λ n.
    con_signo n.0 >>= λ t. recv t n.1 >>= λ r. recibir_valores f r.1 >>= λ vs. some (r.0 ∷ vs)

-- `recibir_paquete`
unfoldable pub recibir_paquete : List ℕ → Option (List (List ℕ) × List ℕ)
unfolding recibir_buffer recibir_valores
recibir_paquete s =
    recibir_buffer s >>= λ r. recibir_valores (length r.0) r.0 >>= λ vs. some (vs, r.1)

-- `recibir_recurso`
unfoldable pub recibir_recurso : List ℕ → Option (Paquete × List ℕ)
recibir_recurso s = recv_palabra 4 s >>= λ c. recv_palabra 4 c.1 >>= λ n. con_signo n.0 >>= λ t.
    recv t n.1 >>= λ r. some (record { codigo_operacion = c.0; size = t; stream = r.0 }, r.1)

-- `enviar_operacion`
unfoldable pub enviar_operacion : ℕ → List ℕ
enviar_operacion c = palabra 4 c

-- `enviar_vector`
unfoldable pub enviar_vector : List ℕ → List ℕ
unfolding enviar_operacion
enviar_vector [] = []
enviar_vector (v ∷ vs) = enviar_operacion v ++ enviar_vector vs

-- `crear_paquete`, with `crear_buffer`
unfoldable pub crear_paquete : Paquete
crear_paquete = record { codigo_operacion = codigo paquete; size = 0; stream = [] }

-- What `malloc` returns is a block with bytes of no meaning.
module _ (malloc : ℕ → List ℕ) where
  -- `serializar_paquete` into a block of the given number of bytes.
  unfoldable pub serializar_paquete : Paquete → ℕ → Option (List ℕ)
  serializar_paquete p bytes = escribir_en (malloc bytes) 0 (palabra 4 p.codigo_operacion) >>= λ m.
      escribir_en m 4 (palabra 4 p.size) >>= λ m'.
      leer_en p.stream 0 p.size >>= λ s. escribir_en m' 8 s

  -- `enviar_paquete`
  unfoldable pub enviar_paquete : Paquete → Option (List ℕ)
  unfolding serializar_paquete
  enviar_paquete p = con_signo (p.size + 8) >>= λ n. serializar_paquete p n

  -- A packet whose stream is copied into a block of its size, and sent.
  unfoldable pub enviar_bytes : ℕ → List ℕ → Option (List ℕ)
  unfolding enviar_paquete
  enviar_bytes c xs = escribir_en (malloc (length xs)) 0 xs >>= λ s.
      enviar_paquete (record { codigo_operacion = c; size = length xs; stream = s })

  -- `enviar_string` of a text that a NUL follows.
  unfoldable pub enviar_string : List ℕ → ℕ → Option (List ℕ)
  unfolding enviar_bytes
  enviar_string cadena c = enviar_bytes c (hasta_nul cadena ++ 0 ∷ [])

  -- `enviar_mensaje`
  unfoldable pub enviar_mensaje : List ℕ → Option (List ℕ)
  unfolding enviar_string
  enviar_mensaje cadena = enviar_string cadena (codigo mensaje)

  -- `enviar_int` and `enviar_puntero`
  unfoldable pub enviar_int : ℕ → ℕ → Option (List ℕ)
  unfolding enviar_bytes
  enviar_int valor c = enviar_bytes c (palabra 4 valor)

  unfoldable pub enviar_puntero : ℕ → ℕ → Option (List ℕ)
  unfolding enviar_bytes
  enviar_puntero puntero c = enviar_bytes c (palabra 8 puntero)

  -- `agregar_a_paquete`, where the new size is an `int`; `realloc` keeps the bytes and adds some of no meaning.
  unfoldable pub agregar_a_paquete : Paquete → List ℕ → Option Paquete
  agregar_a_paquete p valor = con_signo (p.size + (length valor + 4)) >>= λ n.
      escribir_en (p.stream ++ malloc (length valor + 4)) p.size (palabra 4 (length valor)) >>= λ m.
      escribir_en m (p.size + 4) valor >>= λ m'. some (record p { size = n; stream = m' })

  -- Several values, in order.
  unfoldable pub agregar_todos : Paquete → List (List ℕ) → Option Paquete
  unfolding agregar_a_paquete
  agregar_todos p [] = some p
  agregar_todos p (v ∷ vs) = agregar_a_paquete p v >>= λ q. agregar_todos q vs
