-- ===== src/Sockets/Paquetes.antt =====
-- What the packets of sockets.c (utils/src/sockets/sockets.c) look like on the socket, and what the
-- other end takes off.
use mathlib.Core.List.{append_assoc, append-nil}
use so_1c.Base.{
  ℕ, zero, suc, ◌+◌, ◌^◌, ◌≤◌, ◌<◌, ◌≡◌, refl, subst, ap, sym, ◌∙◌, List, [], ◌∷◌, ◌++◌, some,
  ◌>>=◌, length, length-append, length-drop, drop, arith,
}
use so_1c.Protocolo.{codigo}
use so_1c.Sockets.{
  palabra, recv, recv_palabra, recibir_operacion, recibir_buffer, recibir_valores, recibir_paquete,
  Paquete, serializar_paquete, enviar_paquete, enviar_bytes, crear_paquete, agregar_a_paquete,
  con_signo, agregar_todos,
}
use so_1c.Sockets.Bloques.{
  length-palabra, recv-append, recv_palabra-palabra, escribir_en-append, drop-todo, leer_en-todo,
}

-- A packet on the socket: the code, the size and the stream.
unfoldable pub formato : ℕ → List ℕ → List ℕ
formato c xs = palabra 4 c ++ (palabra 4 (length xs) ++ xs)

-- The values of a packet in its stream, each after its size.
unfoldable pub codificar : List (List ℕ) → List ℕ
codificar [] = []
codificar (v ∷ vs) = palabra 4 (length v) ++ (v ++ codificar vs)

pub recibir_operacion-palabra :
    (c : ℕ) (s : List ℕ) → c < 2 ^ 32 → recibir_operacion (palabra 4 c ++ s) ≡ some (c, s)
unfolding recibir_operacion palabra
recibir_operacion-palabra c s h = recv_palabra-palabra 4 c s h

pub cabe : (n : ℕ) → n < 2 ^ 31 → con_signo n ≡ some n
cabe n h = ground (arith, h)

-- The receiver's two calls for a packet.
pub recibir-formato :
    (c : ℕ) (xs s : List ℕ)
    → c < 2 ^ 32
    → length xs < 2 ^ 31
    → (r : List ℕ) × (recibir_operacion (formato c xs ++ s) ≡ some (c, r))
      × (recibir_buffer r ≡ some (xs, s))
unfolding formato recibir_buffer
recibir-formato c xs s h l = (
  palabra 4 (length xs) ++ (xs ++ s),
  rw (append_assoc, append_assoc)
      (recibir_operacion-palabra c (palabra 4 (length xs) ++ (xs ++ s)) h),
  rw (recv_palabra-palabra 4 (length xs) (xs ++ s) (omega (arith, l)), cabe (length xs) l)
      (recv-append xs s),
)

recibir_valores-suc :
    (f n : ℕ) (s : List ℕ)
    → recibir_valores (suc f) (palabra 4 n ++ s) ≡ (
        recv_palabra 4 (palabra 4 n ++ s) >>= λ n'. con_signo n'.0 >>= λ t.
        recv t n'.1 >>= λ r. recibir_valores f r.1 >>= λ vs. some (r.0 ∷ vs))
unfolding recibir_valores palabra
recibir_valores-suc f n s = refl

-- The loop of `recibir_paquete` ends within as many rounds as there are bytes.
recibir_valores-codificar :
    (f : ℕ) (vs : List (List ℕ))
    → length (codificar vs) ≤ f
    → length (codificar vs) < 2 ^ 31
    → recibir_valores f (codificar vs) ≡ some vs
unfolding recibir_valores codificar
recibir_valores-codificar zero [] h l = refl
recibir_valores-codificar (suc f) [] h l = refl
recibir_valores-codificar zero (v ∷ vs) h l = absurd (
    omega (
      arith,
      length-append (palabra 4 (length v)) (v ++ codificar vs),
      length-palabra 4 (length v),
    ))
recibir_valores-codificar (suc f) (v ∷ vs) h l =
    let a = length-append (palabra 4 (length v)) (v ++ codificar vs) in
    let b = length-palabra 4 (length v) in
    let c = length-append v (codificar vs) in
    rw
      (
        recibir_valores-suc f (length v) (v ++ codificar vs),
        recv_palabra-palabra 4 (length v) (v ++ codificar vs) (omega (arith, a, b, c)),
        cabe (length v) (omega (arith, a, b, c)),
        recv-append v (codificar vs),
        recibir_valores-codificar f vs (omega (arith, a, b, c)) (omega (arith, a, b, c)),
      )
      refl

module _ (malloc : ℕ → List ℕ) (ley : (n : ℕ) → length (malloc n) ≡ n) where
  serializar-formato :
      (c : ℕ) (xs : List ℕ)
      → length xs + 8 < 2 ^ 31
      → enviar_paquete malloc (record { codigo_operacion = c; size = length xs; stream = xs })
        ≡ some (formato c xs)
  unfolding enviar_paquete serializar_paquete formato
  serializar-formato c xs h =
      let b = malloc (length xs + 8) in
      let p = palabra 4 c in
      let q = palabra 4 (length xs) in
      let r = drop (length p) b in
      let t = drop (length q) r in
      let lb = ley (length xs + 8) in
      let lp = length-palabra 4 c in
      let lq = length-palabra 4 (length xs) in
      let lr = length-drop (length p) b in
      let lt = length-drop (length q) r in
      rw
        (
          cabe (length xs + 8) h,
          escribir_en-append [] b p 0 refl (omega (arith, lb, lp)),
          escribir_en-append p r q 4 lp (omega (arith, lb, lp, lq, lr)),
          leer_en-todo xs,
          ← append_assoc p q t,
          escribir_en-append (p ++ q) t xs 8 (omega (arith, lp, lq, length-append p q))
              (omega (arith, lb, lp, lq, lr, lt)),
          drop-todo t (length xs) (omega (arith, lb, lp, lq, lr, lt)),
          append-nil xs,
          append_assoc p q xs,
        )
        refl

  -- A packet whose size is that of its stream.
  pub enviar_paquete-formato :
      (c c' n : ℕ) (st xs : List ℕ)
      → c ≡ c'
      → n ≡ length st
      → st ≡ xs
      → n + 8 < 2 ^ 31
      → enviar_paquete malloc (record { codigo_operacion = c; size = n; stream = st })
        ≡ some (formato c' xs)
  enviar_paquete-formato c c' n st xs e f g h =
      rw (e, f, g)
        (serializar-formato c' xs
          (subst (λ (m : ℕ). m + 8 < 2 ^ 31) (f ∙ ap (λ (z : List ℕ). length z) g) h))

  -- A stream that is copied and sent.
  pub enviar_bytes-formato :
      (c : ℕ) (xs : List ℕ)
      → length xs + 8 < 2 ^ 31
      → enviar_bytes malloc c xs ≡ some (formato c xs)
  unfolding enviar_bytes
  enviar_bytes-formato c xs h =
      let l = ley (length xs) in
      rw
        (
          escribir_en-append [] (malloc (length xs)) xs 0 refl (omega arith),
          drop-todo (malloc (length xs)) (length xs) (omega arith),
          append-nil xs,
        )
        (serializar-formato c xs h)

  agregar_a_paquete-append :
      (p : Paquete) (v : List ℕ)
      → p.size ≡ length p.stream
      → p.size + (length v + 4) < 2 ^ 31
      → (q : Paquete) × (agregar_a_paquete malloc p v ≡ some q)
        × (q.codigo_operacion ≡ p.codigo_operacion)
        × (q.size ≡ length q.stream)
        × (q.stream ≡ p.stream ++ (palabra 4 (length v) ++ v))
  unfolding agregar_a_paquete
  agregar_a_paquete-append p v e h =
      let b = malloc (length v + 4) in
      let w = palabra 4 (length v) in
      let t = drop (length w) b in
      let lb = ley (length v + 4) in
      let lw = length-palabra 4 (length v) in
      let lt = length-drop (length w) b in
      let m = (p.stream ++ w) ++ v in
      (
        record p { size = p.size + (length v + 4); stream = m },
        rw
            (
              cabe (p.size + (length v + 4)) h,
              escribir_en-append p.stream b w p.size (omega arith) (omega (arith, lb, lw)),
              ← append_assoc p.stream w t,
              escribir_en-append (p.stream ++ w) t v (p.size + 4)
                  (omega (arith, lw, length-append p.stream w)) (omega (arith, lb, lw, lt)),
              drop-todo t (length v) (omega (arith, lb, lw, lt)),
              append-nil v,
            )
            refl,
        refl,
        omega (arith, lw, length-append (p.stream ++ w) v, length-append p.stream w),
        append_assoc p.stream w v,
      )

  agregar_todos-codificar :
      (p : Paquete) (vs : List (List ℕ))
      → p.size ≡ length p.stream
      → p.size + length (codificar vs) < 2 ^ 31
      → (q : Paquete) × (agregar_todos malloc p vs ≡ some q)
        × (q.codigo_operacion ≡ p.codigo_operacion)
        × (q.size ≡ length q.stream)
        × (q.stream ≡ p.stream ++ codificar vs)
  unfolding agregar_todos codificar
  agregar_todos-codificar p [] e l = (p, refl, refl, e, sym (append-nil p.stream))
  agregar_todos-codificar p (v ∷ vs) e l =
      let w = length-append (palabra 4 (length v)) (v ++ codificar vs) in
      let y = length-palabra 4 (length v) in
      let z = length-append v (codificar vs) in
      let (q, a, b, c, d) = agregar_a_paquete-append p v e (omega (arith, w, y, z, l)) in
      let o = length-append p.stream (palabra 4 (length v) ++ v) in
      let u = length-append (palabra 4 (length v)) v in
      let t = ap (λ (x : List ℕ). length x) d in
      let (r, f, g, h, i) =
        agregar_todos-codificar q vs c (omega (arith, w, y, z, l, o, u, t, c, e)) in
      (r, rw a f, g ∙ b, h, i ∙ rw (d, append_assoc, append_assoc) refl)

  -- A packet that `agregar_a_paquete` built of any values, of less than 2 ^ 31 - 8 bytes in all: building
  -- and sending it succeeds, whatever malloc and realloc found; the receiver takes off PAQUETE, then
  -- `recibir_paquete` ends and gives the values in order, and what was sent after it stays.
  pub recibir_paquete-enviar_paquete :
      (vs : List (List ℕ)) (s : List ℕ)
      → length (codificar vs) + 8 < 2 ^ 31
      → (p : Paquete) × (bytes r : List ℕ) × (agregar_todos malloc crear_paquete vs ≡ some p)
        × (enviar_paquete malloc p ≡ some bytes)
        × (recibir_operacion (bytes ++ s) ≡ some (1, r))
        × (recibir_paquete r ≡ some (vs, s))
  unfolding crear_paquete recibir_paquete codigo
  recibir_paquete-enviar_paquete vs s l =
      let (p, a, b, c, d) = agregar_todos-codificar crear_paquete vs refl (omega (arith, l)) in
      let (r, f, g) = recibir-formato 1 (codificar vs) s (omega arith) (omega (arith, l)) in
      (
        p,
        formato 1 (codificar vs),
        r,
        a,
        enviar_paquete-formato p.codigo_operacion 1 p.size p.stream (codificar vs) b c d
            (omega (arith, l, c, ap (λ (z : List ℕ). length z) d)),
        f,
        rw
            (
              g,
              recibir_valores-codificar (length (codificar vs)) vs (omega arith) (omega (arith, l)),
            )
            refl,
      )
