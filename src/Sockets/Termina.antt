-- ===== src/Sockets/Termina.antt =====
-- The loop of recibir_paquete (utils/src/sockets/sockets.c) ends.
use so_1c.Base.{
  ℕ, zero, suc, ◌+◌, ◌≤◌, ◌≡◌, refl, ap, List, [], ◌∷◌, some, >>=-eq-some, Option-cases, inl, inr,
  length, arith,
}
use so_1c.Sockets.{recv, recv_palabra, con_signo, recibir_valores}

-- What is left after n bytes were taken off.
length-recv :
    (n : ℕ) (s : List ℕ) (r : List ℕ × List ℕ) → recv n s ≡ some r → n + length r.1 ≡ length s
unfolding recv
length-recv zero s r e = let f : s ≡ r.1 = cc in omega (arith, ap (λ (z : List ℕ). length z) f)
length-recv (suc n) [] r e = cc
length-recv (suc n) (x ∷ s) r e =
    let (q, a, f) = >>=-eq-some (recv n s) _ e in
    let g : q.1 ≡ r.1 = cc in omega (arith, length-recv n s q a, ap (λ (z : List ℕ). length z) g)

pub length-recv_palabra :
    (n : ℕ) (s : List ℕ) (r : ℕ × List ℕ) → recv_palabra n s ≡ some r → n + length r.1 ≡ length s
unfolding recv_palabra
length-recv_palabra n s r e =
    let (q, a, f) = >>=-eq-some (recv n s) _ e in
    let g : q.1 ≡ r.1 = cc in omega (arith, length-recv n s q a, ap (λ (z : List ℕ). length z) g)

valores-igual :
    (f g : ℕ) (s : List ℕ) → length s ≤ f → length s ≤ g → recibir_valores f s ≡ recibir_valores g s
unfolding recibir_valores
valores-igual zero zero s h k = refl
valores-igual zero (suc g) [] h k = refl
valores-igual (suc f) zero [] h k = refl
valores-igual (suc f) (suc g) [] h k = refl
valores-igual zero (suc g) (x ∷ s) h k = absurd (omega arith)
valores-igual (suc f) zero (x ∷ s) h k = absurd (omega arith)
valores-igual (suc f) (suc g) (x ∷ s) h k = elim (Option-cases (recv_palabra 4 (x ∷ s))) [
  | inl a ↦ rw a refl
  | inr (n, a) ↦ elim (Option-cases (con_signo n.0)) [
    | inl d ↦ rw (a, d) refl
    | inr (t, d) ↦ elim (Option-cases (recv t n.1)) [
      | inl b ↦ rw (a, d, b) refl
      | inr (r, b) ↦
          let l = length-recv_palabra 4 (x ∷ s) n a in
          let q = length-recv t n.1 r b in
          rw (a, d, b, valores-igual f g r.1 (omega arith) (omega arith)) refl
    ]
  ]
]

-- Whatever the bytes, the loop of `recibir_paquete` ends within as many rounds as there are bytes in the
-- buffer: with any more fuel its result is the same, a list of values or a read past the end.
pub recibir_valores-acaba :
    (f : ℕ) (s : List ℕ) → length s ≤ f → recibir_valores f s ≡ recibir_valores (length s) s
recibir_valores-acaba f s h = valores-igual f (length s) s h (omega arith)
