-- ===== src/Interfaces/Mensajes.antt =====
-- What the kernel and the interfaces send each other and the memory is what the other end takes off
-- (utils/src/entradasalida/entradasalida.c, utils/src/memoria/memoria.c).
use Prim.Native.String.{String}
use mathlib.Core.List.{append_assoc, append-nil}
use so_1c.Base.{
  ℕ, ◌+◌, ◌^◌, ◌<◌, ◌≡◌, refl, ◌∙◌, List, [], ◌∷◌, ◌++◌, some, length, length-append, arith,
}
use so_1c.Protocolo.{codigo, escritura_string, lectura_string}
use so_1c.Memoria.Servidor.{hasta_nul, escribir_io, leer_io}
use so_1c.Sockets.{
  recibir_operacion, recibir_vector, enviar_operacion, enviar_vector, enviar_string,
}
use so_1c.Sockets.Paquetes.{
  formato, recibir_operacion-palabra, recibir-formato, enviar_bytes-formato,
}
use so_1c.Interfaces.{sigue, recibir_pedido, enviar_pares, enviar_pedazos, enviar_pedido}
use so_1c.Interfaces.Enlace.{recibir_pares, recibir_pedazos, recibir_io, pide}

-- Every number fits an `int`.
unfoldable pub Enteros : List ℕ → Type 0
Enteros [] = Unit {0}
Enteros (d ∷ ds) = (d < 2 ^ 32) × Enteros ds

unfoldable pub Pares : List (ℕ × ℕ) → Type 0
Pares [] = Unit {0}
Pares ((n, d) ∷ ps) = (n < 2 ^ 32) × (d < 2 ^ 32) × Pares ps

pub recibir_operacion-enviar_operacion :
    (c : ℕ) (s : List ℕ) → c < 2 ^ 32 → recibir_operacion (enviar_operacion c ++ s) ≡ some (c, s)
unfolding enviar_operacion
recibir_operacion-enviar_operacion c s h = recibir_operacion-palabra c s h

-- A vector of numbers that fit an `int`, whatever its length: the receiver that knows the length takes
-- off the same numbers, and what was sent after them stays.
pub recibir_vector-enviar_vector :
    (ds s : List ℕ) → Enteros ds → recibir_vector (length ds) (enviar_vector ds ++ s) ≡ some (ds, s)
unfolding Enteros recibir_vector enviar_vector
recibir_vector-enviar_vector [] s h = refl
recibir_vector-enviar_vector (d ∷ ds) s (a, h) =
    rw
      (
        append_assoc,
        recibir_operacion-enviar_operacion d (enviar_vector ds ++ s) a,
        recibir_vector-enviar_vector ds s h,
      )
      refl

recibir_pares-enviar_pares :
    (ps : List (ℕ × ℕ)) (s : List ℕ)
    → Pares ps
    → recibir_pares (length ps) (enviar_pares ps ++ s) ≡ some (ps, s)
unfolding Pares recibir_pares enviar_pares
recibir_pares-enviar_pares [] s h = refl
recibir_pares-enviar_pares ((n, d) ∷ ps) s (a, b, h) =
    rw
      (
        append_assoc,
        append_assoc,
        recibir_operacion-enviar_operacion n (enviar_operacion d ++ (enviar_pares ps ++ s)) a,
        recibir_operacion-enviar_operacion d (enviar_pares ps ++ s) b,
        recibir_pares-enviar_pares ps s h,
      )
      refl

pub recibir_pedazos-enviar_pedazos :
    (ps : List (ℕ × ℕ)) (s : List ℕ)
    → length ps < 2 ^ 32
    → Pares ps
    → recibir_pedazos (enviar_pedazos ps ++ s) ≡ some (ps, s)
unfolding recibir_pedazos enviar_pedazos
recibir_pedazos-enviar_pedazos ps s l h =
    rw (append_assoc, recibir_operacion-enviar_operacion (length ps) (enviar_pares ps ++ s) l)
      (recibir_pares-enviar_pares ps s h)

-- What follows a text with no NUL in it goes on to the next NUL.
pub hasta_nul-append :
    (xs ys : List ℕ) → hasta_nul xs ≡ xs → hasta_nul (xs ++ ys) ≡ xs ++ hasta_nul ys
unfolding hasta_nul
hasta_nul-append [] ys h = refl
hasta_nul-append (x ∷ xs) ys h = ground (arith, hasta_nul-append xs ys)

-- A text ends where its NUL was put.
pub hasta_nul-nul : (xs ys : List ℕ) → hasta_nul xs ≡ xs → hasta_nul (xs ++ 0 ∷ ys) ≡ xs
unfolding hasta_nul
hasta_nul-nul xs ys h = hasta_nul-append xs (0 ∷ ys) h ∙ append-nil xs

-- The request for the pieces of a text to be read.
pub recibir_io-lectura :
    (pid : ℕ) (ps : List (ℕ × ℕ)) (s : List ℕ)
    → pid < 2 ^ 32
    → length ps < 2 ^ 32
    → Pares ps
    → recibir_io (
        enviar_operacion (codigo lectura_string)
        ++ (enviar_operacion pid ++ (enviar_pedazos ps ++ s)))
      ≡ some (pide (leer_io pid ps), s)
unfolding recibir_io codigo
recibir_io-lectura pid ps s p l h =
    rw
      (
        recibir_operacion-enviar_operacion 28 (enviar_operacion pid ++ (enviar_pedazos ps ++ s))
            (omega arith),
        recibir_operacion-enviar_operacion pid (enviar_pedazos ps ++ s) p,
        recibir_pedazos-enviar_pedazos ps s l h,
      )
      refl

module _ (malloc : ℕ → List ℕ) (ley : (n : ℕ) → length (malloc n) ≡ n) where
  -- `enviar_string` of a text without a NUL in it, before the one that ends it.
  pub enviar_string-formato :
      (xs ys : List ℕ) (c : ℕ)
      → hasta_nul (xs ++ ys) ≡ xs
      → length xs + 9 < 2 ^ 31
      → enviar_string malloc (xs ++ ys) c ≡ some (formato c (xs ++ 0 ∷ []))
  unfolding enviar_string
  enviar_string-formato xs ys c h l = rw h (
      enviar_bytes-formato malloc ley c (xs ++ 0 ∷ [])
        (omega (arith, length-append xs (0 ∷ []), l)))

  -- The kernel's request.
  pub recibir_pedido-enviar_pedido :
      (string_split : List ℕ → List String) (texto : List ℕ) (pid : ℕ) (ds s : List ℕ)
      → hasta_nul texto ≡ texto
      → length texto + 9 < 2 ^ 31
      → pid < 2 ^ 32
      → (bytes : List ℕ) × (enviar_pedido malloc texto pid ds ≡ some bytes)
        × (recibir_pedido string_split (bytes ++ s)
            ≡ some (
                sigue (record {
                  instruccion = string_split texto;
                  pid = pid;
                  resto = enviar_vector ds ++ s;
                })))
  unfolding enviar_pedido recibir_pedido codigo enviar_string
  recibir_pedido-enviar_pedido string_split texto pid ds s n l p =
      let v = enviar_vector ds ++ s in
      let (r, f, g) =
        recibir-formato 11 (texto ++ 0 ∷ []) (enviar_operacion pid ++ v) (omega arith)
          (omega (arith, length-append texto (0 ∷ []))) in
      (
        formato 11 (texto ++ 0 ∷ []) ++ (enviar_operacion pid ++ enviar_vector ds),
        rw
            (
              n,
              enviar_bytes-formato malloc ley 11 (texto ++ 0 ∷ [])
                  (omega (arith, length-append texto (0 ∷ []), l)),
            )
            refl,
        rw
            (
              append_assoc,
              append_assoc,
              f,
              g,
              hasta_nul-nul texto [] n,
              recibir_operacion-enviar_operacion pid v p,
            )
            refl,
      )

  -- The request for a text to be written: what is sent of a `char *` ends at its first NUL.
  pub recibir_io-escritura :
      (cadena xs : List ℕ) (pid : ℕ) (ps : List (ℕ × ℕ)) (s : List ℕ)
      → hasta_nul cadena ≡ xs
      → length xs + 9 < 2 ^ 31
      → pid < 2 ^ 32
      → length ps < 2 ^ 32
      → Pares ps
      → (e : List ℕ) × (enviar_string malloc cadena (codigo escritura_string) ≡ some e)
        × (recibir_io (e ++ (enviar_operacion pid ++ (enviar_pedazos ps ++ s)))
            ≡ some (pide (escribir_io (xs ++ 0 ∷ []) pid ps), s))
  unfolding codigo recibir_io enviar_string
  recibir_io-escritura cadena xs pid ps s n k p l h =
      let t = enviar_pedazos ps ++ s in
      let (r, f, g) =
        recibir-formato 29 (xs ++ 0 ∷ []) (enviar_operacion pid ++ t) (omega arith)
          (omega (arith, length-append xs (0 ∷ []))) in
      (
        formato 29 (xs ++ 0 ∷ []),
        rw n (
            enviar_bytes-formato malloc ley 29 (xs ++ 0 ∷ [])
              (omega (arith, length-append xs (0 ∷ []), k))),
        rw
            (
              f,
              g,
              recibir_operacion-enviar_operacion pid t p,
              recibir_pedazos-enviar_pedazos ps s l h,
            )
            refl,
      )
