-- ===== src/Memoria/Cruce.antt =====
-- A register of 4 bytes that crosses the end of a page, through escribir and leer (utils/src/memoria/memoria.c).
use so_1c.Base.{
  ℕ, zero, suc, ◌/◌, ◌%◌, ◌≡◌, ◌≢◌, refl, subst, List, [], ◌∷◌, none, some, get_elem?, ◌==◌, poner,
  >>=-eq-some, ◌⊎◌, inl, inr, false, arith, replicate,
}
use so_1c.Bytes.{valor_de}
use so_1c.Memoria.Servidor.{en_pagina, escribir_bucle, leer_bucle, leer, escribir}

-- Byte 1 of a value.
abbrev pub byte_1 : ℕ → ℕ
byte_1 v = v / 256 % 256

dado : {A : Type 0} {a b : A} → some a ≡ some b → a ≡ b
dado e = cc

junta : {P : Type 0} → P ⊎ P → P
junta (inl p) = p
junta (inr p) = p

poner-escrito :
    (xs : List ℕ) (i v : ℕ) (ys : List ℕ) → poner xs i v ≡ some ys → get_elem? ys i ≡ some v
poner-escrito [] i v ys e = cc
poner-escrito (x ∷ xs) zero v ys e = subst (λ (z : List ℕ). get_elem? z 0 ≡ some v) (dado e) refl
poner-escrito (x ∷ xs) (suc i) v ys e =
    let (zs, p, q) = >>=-eq-some (poner xs i v) _ e in
    subst (λ (z : List ℕ). get_elem? z (suc i) ≡ some v) (dado q) (poner-escrito xs i v zs p)

-- A byte that is there stays there, or is the one that is written.
poner-queda :
    (xs : List ℕ) (i v : ℕ) (ys : List ℕ) (j x : ℕ)
    → poner xs i v ≡ some ys
    → get_elem? xs j ≡ some x
    → (get_elem? ys j ≡ some x) ⊎ (get_elem? ys j ≡ some v)
poner-queda [] i v ys j x e h = cc
poner-queda (y ∷ xs) zero v ys zero x e h = inr (poner-escrito (y ∷ xs) zero v ys e)
poner-queda (y ∷ xs) zero v ys (suc j) x e h =
    inl (subst (λ (z : List ℕ). get_elem? z (suc j) ≡ some x) (dado e) h)
poner-queda (y ∷ xs) (suc i) v ys zero x e h =
    let (zs, p, q) = >>=-eq-some (poner xs i v) _ e in
    inl (subst (λ (z : List ℕ). get_elem? z 0 ≡ some x) (dado q) h)
poner-queda (y ∷ xs) (suc i) v ys (suc j) x e h =
    let (zs, p, q) = >>=-eq-some (poner xs i v) _ e in
    subst (λ (z : List ℕ). (get_elem? z (suc j) ≡ some x) ⊎ (get_elem? z (suc j) ≡ some v)) (dado q)
      (poner-queda xs i v zs j x p h)

bucle-queda :
    (m : List ℕ) (t v k df : ℕ) (ds : List ℕ) (r : List ℕ × List ℕ) (j x : ℕ)
    → escribir_bucle m t v k df ds ≡ some r
    → get_elem? m j ≡ some x
    → (get_elem? r.0 j ≡ some x) ⊎ (get_elem? r.0 j ≡ some (byte_1 v))
unfolding escribir_bucle
bucle-queda m t v zero df ds r j x e h =
    inl (subst (λ (z : List ℕ × List ℕ). get_elem? z.0 j ≡ some x) (dado e) h)
bucle-queda m t v (suc k) df ds r j x e h =
    let (q, a, f) = >>=-eq-some (en_pagina t df ds) _ e in
    let (m', c, g) = >>=-eq-some (poner m q.0 (byte_1 v)) _ f in
    elim (poner-queda m q.0 (byte_1 v) m' j x c h) [
      | inl y ↦ bucle-queda m' t v k (suc q.0) q.1 r j x g y
      | inr y ↦ inr (junta (bucle-queda m' t v k (suc q.0) q.1 r j (byte_1 v) g y))
    ]

-- Every byte after the first is read back as byte 1.
bucle-leido :
    (m : List ℕ) (t v k df : ℕ) (ds : List ℕ) (r : List ℕ × List ℕ)
    → escribir_bucle m t v k df ds ≡ some r
    → leer_bucle r.0 t k df ds ≡ some (replicate k (byte_1 v), r.1)
unfolding escribir_bucle leer_bucle
bucle-leido m t v zero df ds r e =
    subst (λ (z : List ℕ × List ℕ). leer_bucle z.0 t 0 df ds ≡ some ([], z.1)) (dado e) refl
bucle-leido m t v (suc k) df ds r e =
    let (q, a, f) = >>=-eq-some (en_pagina t df ds) _ e in
    let (m', c, g) = >>=-eq-some (poner m q.0 (byte_1 v)) _ f in
    let y = poner-escrito m q.0 (byte_1 v) m' c in
    let z = junta (bucle-queda m' t v k (suc q.0) q.1 r q.0 (byte_1 v) g y) in
    rw (a, z, bucle-leido m' t v k (suc q.0) q.1 r g) refl

-- A value that `escribir` writes over more than one page is read back by `leer` from the same addresses with byte 1
-- of it in the places of bytes 1, 2 and 3, whatever bytes 2 and 3 were.
pub leer-escribir_cruzado :
    (m m' : List ℕ) (t df tamanio cant v : ℕ) (ds : List ℕ)
    → cant ≢ 1
    → escribir m t df tamanio cant v ds ≡ some m'
    → (x : ℕ) × (leer m' t df tamanio cant ds
        ≡ some (valor_de (x ∷ byte_1 v ∷ byte_1 v ∷ byte_1 v ∷ [])))
unfolding escribir leer
leer-escribir_cruzado m m' t df tamanio cant v ds n e =
    let z = otra cant n in
    let (m1, c, f) = >>=-eq-some (poner m df (v % 256)) _ (rw z at e) in
    let (r, g, h) = >>=-eq-some (escribir_bucle m1 t v 3 (suc df) ds) _ f in
    let (i, o) = sin_resto r h in
    let l =
      subst (λ (y : List ℕ). leer_bucle y t 3 (suc df) ds ≡ some (replicate 3 (byte_1 v), r.1)) i
        (bucle-leido m1 t v 3 (suc df) ds r g) in
    elim (bucle-queda m1 t v 3 (suc df) ds r df (v % 256) g (poner-escrito m df (v % 256) m1 c)) [
      | inl y ↦
          (v % 256, rw (z, subst (λ (w : List ℕ). get_elem? w df ≡ some (v % 256)) i y, l, o) refl)
      | inr y ↦ (
        byte_1 v,
        rw (z, subst (λ (w : List ℕ). get_elem? w df ≡ some (byte_1 v)) i y, l, o) refl,
      )
    ]
  where
    otra : (c : ℕ) → c ≢ 1 → (c == 1) ≡ false
    otra c n = ground (arith, n)

    sin_resto :
        (r : List ℕ × List ℕ)
        → (elim r.1 [ [] ↦ some r.0 | _ ∷ _ ↦ none ]) ≡ some m'
        → (r.0 ≡ m') × (r.1 ≡ [])
    sin_resto (a, []) h = (dado h, refl)
    sin_resto (a, _ ∷ _) h = cc
