-- ===== src/Sockets/Saludos.antt =====
-- Texts to be printed (utils/src/sockets/sockets.c: enviar_mensaje, recibir_mensaje, interactuar).
use so_1c.Base.{
  ℕ, zero, suc, ◌+◌, ◌^◌, ◌<◌, ◌≡◌, refl, List, [], ◌∷◌, ◌++◌, Option, none, some, ◌>>=◌,
  if◌then◌else◌, ◌==◌, length, arith, length-append, Bool-cases, inl, inr, map,
}
use so_1c.Memoria.Servidor.{hasta_nul}
use so_1c.Protocolo.{menos_uno, codigo, mensaje}
use so_1c.Sockets.{recibir_operacion, recibir_buffer, enviar_mensaje, enviar_string}
use so_1c.Sockets.Paquetes.{formato, recibir-formato, enviar_bytes-formato}

-- The text that `%s` prints of a block: up to its first NUL; without one it reads past the block.
unfoldable pub impreso : List ℕ → Option (List ℕ)
impreso [] = none
impreso (x ∷ xs) = if x == 0 then some [] else impreso xs >>= λ ys. some (x ∷ ys)

-- `recibir_mensaje`: what it prints.
unfoldable pub recibir_mensaje : List ℕ → Option (List ℕ × List ℕ)
unfolding impreso
recibir_mensaje s = recibir_buffer s >>= λ r. impreso r.0 >>= λ t. some (t, r.1)

-- `interactuar`: what it prints in the given number of rounds, until the other end closes. A code that it does not
-- know is skipped, and what follows it is read as the next code.
unfoldable pub interactuar : ℕ → List ℕ → Option (List (List ℕ))
unfolding recibir_mensaje
interactuar zero s = none
interactuar (suc f) s = recibir_operacion s >>= λ o.
    if o.0 == codigo mensaje
    then (recibir_mensaje o.1 >>= λ m. interactuar f m.1 >>= λ ts. some (m.0 ∷ ts))
    else (if o.0 == menos_uno then some [] else interactuar f o.1)

impreso-hasta_nul : (xs : List ℕ) → impreso (hasta_nul xs ++ 0 ∷ []) ≡ some (hasta_nul xs)
unfolding impreso hasta_nul
impreso-hasta_nul [] = refl
impreso-hasta_nul (x ∷ xs) = elim (Bool-cases (x == 0)) [
  | inl e ↦ rw e refl
  | inr n ↦ rw (n, n, impreso-hasta_nul xs) refl
]

-- Each text fits a packet.
unfoldable pub Cortos : List (List ℕ) → Type 0
Cortos [] = Unit {0}
Cortos (t ∷ ts) = (length (hasta_nul t) + 9 < 2 ^ 31) × Cortos ts

module _ (malloc : ℕ → List ℕ) where
  -- The `enviar_mensaje` of each text, one after another.
  unfoldable pub saludar : List (List ℕ) → Option (List ℕ)
  saludar [] = some []
  saludar (t ∷ ts) = enviar_mensaje malloc t >>= λ b. saludar ts >>= λ bs. some (b ++ bs)

  module _ (ley : (n : ℕ) → length (malloc n) ≡ n) where
    cierra : (f : ℕ) → 0 < f → interactuar f [] ≡ some []
    unfolding interactuar recibir_operacion codigo
    cierra zero l = absurd (omega arith)
    cierra (suc f) l = refl

    -- A round takes one message.
    uno_mas :
        (t : List ℕ) (ts : List (List ℕ)) (bs : List ℕ) (f : ℕ)
        → length (hasta_nul t) + 9 < 2 ^ 31
        → interactuar f bs ≡ some ts
        → interactuar (suc f) (formato 0 (hasta_nul t ++ 0 ∷ []) ++ bs) ≡ some (hasta_nul t ∷ ts)
    unfolding interactuar recibir_mensaje codigo
    uno_mas t ts bs f a e =
        let x = hasta_nul t in
        let (r, j, q) =
          recibir-formato 0 (x ++ 0 ∷ []) bs (omega arith)
            (omega (arith, length-append x (0 ∷ []), a)) in
        rw (j, q, impreso-hasta_nul t, e) refl

    sigue :
        (t : List ℕ) (ts : List (List ℕ)) (bs : List ℕ) (f : ℕ)
        → length (hasta_nul t) + 9 < 2 ^ 31
        → ((n : ℕ) → length ts < n → interactuar n bs ≡ some (map hasta_nul ts))
        → suc (length ts) < f
        → interactuar f (formato 0 (hasta_nul t ++ 0 ∷ []) ++ bs)
          ≡ some (hasta_nul t ∷ map hasta_nul ts)
    sigue t ts bs zero a g l = absurd (omega (arith, l))
    sigue t ts bs (suc f) a g l = uno_mas t (map hasta_nul ts) bs f a (g f (omega (arith, l)))

    -- Texts of any characters that fit a packet: what `interactuar` prints of their messages is each text up
    -- to its first NUL, in the order in which they were sent, and a round for each and one more are enough.
    pub interactuar-enviar_mensaje :
        (ts : List (List ℕ))
        → Cortos ts
        → (bs : List ℕ) × (saludar ts ≡ some bs)
          × ((f : ℕ) → length ts < f → interactuar f bs ≡ some (map hasta_nul ts))
    unfolding Cortos saludar enviar_mensaje enviar_string codigo
    interactuar-enviar_mensaje [] h = ([], refl, λ f l. cierra f (omega (arith, l)))
    interactuar-enviar_mensaje (t ∷ ts) (a, h) =
        let (bs, e, g) = interactuar-enviar_mensaje ts h in
        (
          formato 0 (hasta_nul t ++ 0 ∷ []) ++ bs,
          rw
              (
                enviar_bytes-formato malloc ley 0 (hasta_nul t ++ 0 ∷ [])
                    (omega (arith, length-append (hasta_nul t) (0 ∷ []), a)),
                e,
              )
              refl,
          λ f l. sigue t ts bs f a g l,
        )
