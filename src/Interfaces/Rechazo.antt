-- ===== src/Interfaces/Rechazo.antt =====
-- What the interfaces do with requests that are not theirs (utils/src/entradasalida/entradasalida.c).
use Prim.Native.String.{String}
use so_1c.Base.{ℕ, ◌^◌, ◌<◌, ◌≡◌, refl, subst, List, [], ◌∷◌, ◌++◌, Option, none, some, length}
use so_1c.Protocolo.{codigo, io_success, io_failure}
use so_1c.Sockets.{enviar_operacion, enviar_vector}
use so_1c.Interfaces.{Vuelta, sigue, recibir_pedido, enviar_pedido}
use so_1c.Interfaces.Consola.{Salida, interfaz_generica, interfaz_stdin, interfaz_stdout}
use so_1c.Interfaces.Mensajes.{Enteros, recibir_vector-enviar_vector, recibir_pedido-enviar_pedido}
use so_1c.Interfaces.Leyes.{EsTexto}

module _ (malloc : ℕ → List ℕ) (ley : (n : ℕ) → length (malloc n) ≡ n)
    (string_split string_n_split : List ℕ → List String) where
  -- The bytes of a request, read by the generic interface.
  generico :
      (pedido : List ℕ) (pid : ℕ) (ds s bytes : List ℕ)
      → EsTexto pedido
      → pid < 2 ^ 32
      → enviar_pedido malloc pedido pid ds ≡ some bytes
      → recibir_pedido string_n_split (bytes ++ s)
        ≡ some (
            sigue (record {
              instruccion = string_n_split pedido;
              pid = pid;
              resto = enviar_vector ds ++ s;
            }))
  generico pedido pid ds s bytes e p b =
      let (bytes', b', r) =
        recibir_pedido-enviar_pedido malloc ley string_n_split pedido pid ds s e.sin_nul e.largo_lt
          p in
      let f : bytes' ≡ bytes = cc in subst (λ (x : List ℕ). Leido x) f r
    where
      Leido : List ℕ → Type 0
      Leido x =
          recibir_pedido string_n_split (x ++ s)
          ≡ some (
              sigue (record {
                instruccion = string_n_split pedido;
                pid = pid;
                resto = enviar_vector ds ++ s;
              }))

  -- A request of IO_GEN_SLEEP has three words. The generic interface answers IO_SUCCESS; STDIN and STDOUT
  -- read a fourth word before they look at the operation, so they fault where they should answer
  -- IO_FAILURE, whatever memory they speak to.
  pub sleep-consola :
      (atoi : String → ℕ) (reserva : ℕ → ℕ) {M : Type 0} (enviar : M → List ℕ → Option (List ℕ × M))
      (t : ℕ) (m : M) (pedido : List ℕ) (nombre u : String) (pid : ℕ) (s cs : List ℕ)
      → EsTexto pedido
      → string_split pedido ≡ "IO_GEN_SLEEP" ∷ nombre ∷ u ∷ []
      → string_n_split pedido ≡ "IO_GEN_SLEEP" ∷ nombre ∷ u ∷ []
      → pid < 2 ^ 32
      → (bytes : List ℕ) × (enviar_pedido malloc pedido pid [] ≡ some bytes)
        × (interfaz_generica string_n_split (bytes ++ s)
            ≡ some (sigue (enviar_operacion (codigo io_success), s)))
        × (interfaz_stdin malloc string_split atoi enviar t reserva m (bytes ++ s) cs ≡ none)
        × (interfaz_stdout malloc string_split atoi enviar t m (bytes ++ s) cs ≡ none)
  unfolding interfaz_generica interfaz_stdin interfaz_stdout enviar_vector
  sleep-consola atoi reserva enviar t m pedido nombre u pid s cs e w x p =
      let (bytes, b, r) =
        recibir_pedido-enviar_pedido malloc ley string_split pedido pid [] s e.sin_nul e.largo_lt
          p in
      (bytes, b, rw (generico pedido pid [] s bytes e p b, x) refl, rw (r, w) refl, rw (r, w) refl)

  -- IO_FAILURE, with what is left on the kernel's socket and nothing else changed.
  abbrev pub rechaza : {M : Type 0} → M → List ℕ → List ℕ → Vuelta (Salida M)
  rechaza m s cs = sigue (record {
    a_kernel = enviar_operacion (codigo io_failure);
    de_kernel = s;
    memoria = m;
    teclado = cs;
    pantalla = [];
  })

  -- Requests of IO_STDIN_READ and IO_STDOUT_WRITE, with addresses. The generic interface answers both
  -- IO_FAILURE and leaves the addresses unread, which it will take for the next operation. STDIN and STDOUT
  -- answer the other one's IO_FAILURE, have read the addresses, and leave the memory and what was typed as
  -- they were.
  pub otra-consola :
      (atoi : String → ℕ) (reserva : ℕ → ℕ) {M : Type 0} (enviar : M → List ℕ → Option (List ℕ × M))
      (t : ℕ) (m : M) (lee imprime : List ℕ) (nombre nombre' a k resto resto' : String) (pid : ℕ)
      (ds s cs : List ℕ)
      → EsTexto lee
      → EsTexto imprime
      → string_split lee ≡ "IO_STDIN_READ" ∷ nombre ∷ a ∷ k ∷ []
      → string_split imprime ≡ "IO_STDOUT_WRITE" ∷ nombre' ∷ a ∷ k ∷ []
      → string_n_split lee ≡ "IO_STDIN_READ" ∷ nombre ∷ resto ∷ []
      → string_n_split imprime ≡ "IO_STDOUT_WRITE" ∷ nombre' ∷ resto' ∷ []
      → atoi k ≡ length ds
      → Enteros ds
      → pid < 2 ^ 32
      → let falla = enviar_operacion (codigo io_failure) in
        (b b' : List ℕ) × (enviar_pedido malloc lee pid ds ≡ some b)
        × (enviar_pedido malloc imprime pid ds ≡ some b')
        × (interfaz_generica string_n_split (b ++ s) ≡ some (sigue (falla, enviar_vector ds ++ s)))
        × (interfaz_generica string_n_split (b' ++ s) ≡ some (sigue (falla, enviar_vector ds ++ s)))
        × (interfaz_stdout malloc string_split atoi enviar t m (b ++ s) cs ≡ some (rechaza m s cs))
        × (interfaz_stdin malloc string_split atoi enviar t reserva m (b' ++ s) cs
            ≡ some (rechaza m s cs))
  unfolding interfaz_generica interfaz_stdin interfaz_stdout
  otra-consola atoi reserva enviar t m lee imprime nombre nombre' a k resto resto' pid ds s cs e e'
        w w' x x' l n p =
      let v = recibir_vector-enviar_vector ds s n in
      let (b, c, r) =
        recibir_pedido-enviar_pedido malloc ley string_split lee pid ds s e.sin_nul e.largo_lt p in
      let (b', c', r') =
        recibir_pedido-enviar_pedido malloc ley string_split imprime pid ds s e'.sin_nul e'.largo_lt
          p in
      (
        b,
        b',
        c,
        c',
        rw (generico lee pid ds s b e p c, x) refl,
        rw (generico imprime pid ds s b' e' p c', x') refl,
        rw (r, w, l, v) refl,
        rw (r', w', l, v) refl,
      )
