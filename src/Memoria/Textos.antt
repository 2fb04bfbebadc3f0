-- ===== src/Memoria/Textos.antt =====
-- leer_string and escribir_string (utils/src/memoria/memoria.c) over pieces that do not overlap.
use so_1c.Base.{
  ℕ, zero, suc, ◌+◌, ◌≤◌, ◌<◌, ◌≡◌, refl, ◌∙◌, ◌⊎◌, inl, inr, List, [], ◌∷◌, ◌++◌, some, length,
  get_elem?, arith, subst, >>=-eq-some,
}
use native.Mathlib.Numerals.{unary_clauses}
use so_1c.Bytes.{
  leer_en, escrito, escribir_en-escrito, length-escrito, leer_en-escrito, get_elem?-escrito,
  leer_en-total, leer_en-congr,
}
use so_1c.Tramos.Leyes.{bytes_de}
use so_1c.Memoria.Servidor.{leer_tramos, escribir_string}

-- The byte j is in none of the pieces.
unfoldable pub Fuera : ℕ → List (ℕ × ℕ) → Type 0
Fuera j [] = Unit {0}
Fuera j ((n, d) ∷ ps) = ((j < d) ⊎ (d + n ≤ j)) × Fuera j ps

-- The n bytes from d on meet none of the pieces.
unfoldable pub Separado : ℕ → ℕ → List (ℕ × ℕ) → Type 0
Separado n d [] = Unit {0}
Separado n d ((n', d') ∷ ps) = ((d + n ≤ d') ⊎ (d' + n' ≤ d)) × Separado n d ps

-- The pieces lie in a memory of the given size, and no two of them meet.
unfoldable pub Disjuntos : ℕ → List (ℕ × ℕ) → Type 0
unfolding Separado
Disjuntos l [] = Unit {0}
Disjuntos l ((n, d) ∷ ps) = (d + n ≤ l) × Separado n d ps × Disjuntos l ps

Separado-Fuera : (n d j : ℕ) (ps : List (ℕ × ℕ)) → Separado n d ps → d ≤ j → j < d + n → Fuera j ps
unfolding Separado Fuera
Separado-Fuera n d j [] h p q = tt
Separado-Fuera n d j ((n', d') ∷ ps) (inl a, h) p q =
    (inl (omega arith), Separado-Fuera n d j ps h p q)
Separado-Fuera n d j ((n', d') ∷ ps) (inr a, h) p q =
    (inr (omega arith), Separado-Fuera n d j ps h p q)

-- A read is a read of its first bytes, then of the others.
leer_en-suma :
    (m : List ℕ) (k a b : ℕ) (xs ys : List ℕ)
    → leer_en m k a ≡ some xs
    → leer_en m (k + a) b ≡ some ys
    → leer_en m k (a + b) ≡ some (xs ++ ys)
unfolding leer_en
leer_en-suma m zero zero b xs ys e f =
    let g : [] ≡ xs = ground arith in
    let z : 0 + b ≡ b = omega arith in
    rw z (subst (λ zs. leer_en m 0 b ≡ some (zs ++ ys)) g (simp unary_clauses at f))
leer_en-suma [] zero (suc a) b xs ys e f = cc
leer_en-suma (x ∷ m) zero (suc a) b xs ys e f =
    let (zs, g, h) = >>=-eq-some (leer_en m 0 a) _ e in
    let i = leer_en-suma m 0 a b zs ys g (simp unary_clauses at f) in
    let w : x ∷ zs ≡ xs = ground arith in
    let z : suc (a + b) ≡ suc a + b = omega arith in
    subst (λ ws. leer_en (x ∷ m) 0 (suc a + b) ≡ some (ws ++ ys)) w
      (subst (λ c. leer_en (x ∷ m) 0 c ≡ some (x ∷ (zs ++ ys))) z (rw i refl))
leer_en-suma [] (suc k) a b xs ys e f = cc
leer_en-suma (x ∷ m) (suc k) a b xs ys e f =
    let z : suc k + a ≡ suc (k + a) = omega arith in
    leer_en-suma m k a b xs ys e (subst (λ c. leer_en (x ∷ m) c b ≡ some ys) z f)

leer_en-nada : (m : List ℕ) (k : ℕ) → k ≤ length m → leer_en m k 0 ≡ some []
unfolding leer_en
leer_en-nada m zero h = refl
leer_en-nada [] (suc k) h = absurd (omega arith)
leer_en-nada (x ∷ m) (suc k) h = leer_en-nada m k (omega arith)

-- Writing pieces that do not meet, then reading them.
pub leer_tramos-escribir_string :
    (m : List ℕ) (l : ℕ) (cadena : List ℕ) (ps : List (ℕ × ℕ)) (k : ℕ)
    → length m ≡ l
    → Disjuntos l ps
    → k + bytes_de ps ≤ length cadena
    → (m' xs : List ℕ) × (escribir_string m cadena ps k ≡ some m')
      × (leer_tramos m' ps ≡ some xs)
      × (leer_en cadena k (bytes_de ps) ≡ some xs)
      × (length m' ≡ l)
      × ((j : ℕ) → Fuera j ps → get_elem? m' j ≡ get_elem? m j)
unfolding escribir_string leer_tramos bytes_de Disjuntos Fuera
leer_tramos-escribir_string m l cadena [] k z h v =
    (m, [], refl, refl, leer_en-nada cadena k (omega arith), z, (λ j f. refl))
leer_tramos-escribir_string m l cadena ((n, d) ∷ ps) k z (a, s, h) v =
    let (xs, e, f) = leer_en-total cadena k n (omega arith) in
    let m1 = escrito m d xs in
    let c = length-escrito m d xs (omega arith) in
    let (m', ys, g, i, o, p, q) =
      leer_tramos-escribir_string m1 l cadena ps (k + n) (omega arith) h (omega arith) in
    let t : leer_en m1 d n ≡ some xs =
      subst (λ b. leer_en m1 d b ≡ some xs) f (leer_en-escrito m d xs (omega arith)) in
    (
      m',
      xs ++ ys,
      rw (e, escribir_en-escrito m d xs (omega arith)) g,
      rw
          (
            leer_en-congr m' m1 d n (omega arith) (λ j u w. q j (Separado-Fuera n d j ps s u w)),
            t,
            i,
          )
          refl,
      leer_en-suma cadena k n (bytes_de ps) xs ys e o,
      p,
      (λ j u.
          q j u.1
          ∙ get_elem?-escrito m d xs j (omega arith)
              (elim u.0 [ inl b ↦ inl b | inr b ↦ inr (omega arith) ])),
    )
