-- ===== src/Sockets/Bloques.antt =====
-- Numbers and blocks of bytes, written one after another and taken off again.
use so_1c.Base.{
  ℕ, zero, suc, ◌*◌, ◌/◌, ◌^◌, ◌≤◌, ◌<◌, ◌≡◌, refl, ap, List, [], ◌∷◌, ◌++◌, some, length, drop,
  arith, subst,
}
use so_1c.Bytes.{escribir_en, leer_en, valor_de}
use so_1c.Sockets.{palabra, recv, recv_palabra}

pub length-palabra : (n v : ℕ) → length (palabra n v) ≡ n
unfolding palabra
length-palabra zero v = refl
length-palabra (suc n) v = ap suc (length-palabra n (v / 256))

potencia : (n : ℕ) → 256 ^ suc n ≡ 256 * 256 ^ n
potencia n = omega arith

pub valor-palabra : (n v : ℕ) → v < 256 ^ n → valor_de (palabra n v) ≡ v
unfolding palabra valor_de
valor-palabra zero v h = ground arith
valor-palabra (suc n) v h = omega (arith, valor-palabra n (v / 256) (omega (arith, potencia n)))

-- The bytes that stand first are taken off, and the others stay.
pub recv-append : (xs s : List ℕ) → recv (length xs) (xs ++ s) ≡ some (xs, s)
unfolding recv
recv-append [] s = refl
recv-append (x ∷ xs) s = rw (recv-append xs s) refl

pub recv_palabra-palabra :
    (n v : ℕ) (s : List ℕ) → v < 256 ^ n → recv_palabra n (palabra n v ++ s) ≡ some (v, s)
unfolding recv_palabra
recv_palabra-palabra n v s h = rw (largo, valor-palabra n v h) refl
  where
    largo : recv n (palabra n v ++ s) ≡ some (palabra n v, s)
    largo =
        subst (λ k. recv k (palabra n v ++ s) ≡ some (palabra n v, s)) (length-palabra n v)
          (recv-append (palabra n v) s)

-- Writing over the block that follows a prefix.
pub escribir_en-append :
    (pre blk xs : List ℕ) (d : ℕ)
    → length pre ≡ d
    → length xs ≤ length blk
    → escribir_en (pre ++ blk) d xs ≡ some (pre ++ (xs ++ drop (length xs) blk))
unfolding escribir_en
escribir_en-append (p ∷ pre) blk xs zero e l = absurd (omega arith)
escribir_en-append (p ∷ pre) blk xs (suc d) e l =
    rw (escribir_en-append pre blk xs d (omega arith) l) refl
escribir_en-append [] blk xs (suc d) e l = absurd (omega arith)
escribir_en-append [] blk [] zero e l = ground arith
escribir_en-append [] [] (x ∷ xs) zero e l = absurd (omega arith)
escribir_en-append [] (b ∷ blk) (x ∷ xs) zero e l =
    rw (escribir_en-append [] blk xs zero refl (omega arith)) refl

pub drop-todo {ℓ} : {A : Type ℓ} (xs : List A) (n : ℕ) → length xs ≤ n → drop n xs ≡ []
drop-todo [] zero h = refl
drop-todo [] (suc n) h = refl
drop-todo (x ∷ xs) zero h = absurd (omega arith)
drop-todo (x ∷ xs) (suc n) h = drop-todo xs n (omega arith)

pub leer_en-todo : (xs : List ℕ) → leer_en xs 0 (length xs) ≡ some xs
unfolding leer_en
leer_en-todo [] = refl
leer_en-todo (x ∷ xs) = rw (leer_en-todo xs) refl
