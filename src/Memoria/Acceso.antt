-- ===== src/Memoria/Acceso.antt =====
-- The user space through leer, escribir and escribir_string (utils/src/memoria/memoria.c).
use so_1c.Base.{
  ℕ, zero, suc, ◌+◌, ◌/◌, ◌%◌, ◌^◌, ◌≤◌, ◌<◌, ◌≡◌, ap, ◌∙◌, List, [], ◌∷◌, none, some, arith,
  length, get_elem?, ◌==◌, ◌≢◌, ◌⊎◌, inl, inr, if◌then◌else◌, ◌>>=◌, poner, >>=-eq-some, Bool-cases,
}
use so_1c.Bytes.{
  leer_en, escribir_en, escrito, escribir_en-escrito, escribir_en-inv, length-escrito,
  leer_en-escrito, get_elem?-escrito, bytes32, valor_de, valor-bytes32,
}
use so_1c.Memoria.Servidor.{en_pagina, escribir_bucle, leer, escribir, escribir_string}

-- A register of 4 bytes inside one page: `escribir` succeeds, keeps the size of the memory and every
-- byte outside the four, and `leer` gives the value back.
pub leer-escribir :
    (m : List ℕ) (t df v : ℕ)
    → df + 4 ≤ length m
    → v < 2 ^ 32
    → (m' : List ℕ) × (escribir m t df 4 1 v [] ≡ some m')
      × (leer m' t df 4 1 [] ≡ some v)
      × (length m' ≡ length m)
      × ((j : ℕ) → (j < df) ⊎ (df + 4 ≤ j) → get_elem? m' j ≡ get_elem? m j)
unfolding leer escribir bytes32
leer-escribir m t df v h b = (
  escrito m df (bytes32 v),
  escribir_en-escrito m df (bytes32 v) (omega arith),
  rw (leer_en-escrito m df (bytes32 v) (omega arith)) (ap some (valor-bytes32 v b)),
  length-escrito m df (bytes32 v) (omega arith),
  (λ j o. get_elem?-escrito m df (bytes32 v) j (omega arith) o),
)

-- A register of 1 byte inside the memory: `escribir` succeeds, keeps the size of the memory and every
-- other byte, and `leer` gives the value back.
pub leer-escribir_byte :
    (m : List ℕ) (t df v : ℕ)
    → df < length m
    → v < 256
    → (m' : List ℕ) × (escribir m t df 1 1 v [] ≡ some m')
      × (leer m' t df 1 1 [] ≡ some v)
      × (length m' ≡ length m)
      × ((j : ℕ) → j ≢ df → get_elem? m' j ≡ get_elem? m j)
unfolding leer escribir
leer-escribir_byte m t df v h b = (
  escrito m df (v % 256 ∷ []),
  escribir_en-escrito m df (v % 256 ∷ []) (omega arith),
  rw (leer_en-escrito m df (v % 256 ∷ []) (omega arith)) (ap some (unfold valor_de in omega arith)),
  length-escrito m df (v % 256 ∷ []) (omega arith),
  (λ j o. get_elem?-escrito m df (v % 256 ∷ []) j (omega arith) (omega arith)),
)

length-poner :
    (xs : List ℕ) (i v : ℕ) (ys : List ℕ) → poner xs i v ≡ some ys → length ys ≡ length xs
length-poner [] i v ys e = cc
length-poner (x ∷ xs) zero v ys e = ground arith
length-poner (x ∷ xs) (suc i) v ys e =
    let (zs, p, q) = >>=-eq-some (poner xs i v) _ e in ground (arith, length-poner xs i v zs p)

length-escribir_bucle :
    (m : List ℕ) (t v k df : ℕ) (ds : List ℕ) (r : List ℕ × List ℕ)
    → escribir_bucle m t v k df ds ≡ some r
    → length r.0 ≡ length m
unfolding escribir_bucle
length-escribir_bucle m t v zero df ds r e = ground arith
length-escribir_bucle m t v (suc k) df ds r e =
    let (q, a, f) = >>=-eq-some (en_pagina t df ds) _ e in
    let (m', c, g) = >>=-eq-some (poner m q.0 (v / 256 % 256)) _ f in
    length-escribir_bucle m' t v k (suc q.0) q.1 r g ∙ length-poner m q.0 _ m' c

length-escribir_en :
    (m : List ℕ) (d : ℕ) (bs m' : List ℕ) → escribir_en m d bs ≡ some m' → length m' ≡ length m
length-escribir_en m d bs m' e =
    let (l, q) = escribir_en-inv m d bs m' e in ap length q ∙ length-escrito m d bs l

-- Whatever `escribir` is asked for, the memory keeps its size.
pub length-escribir :
    (m : List ℕ) (t df n c v : ℕ) (ds m' : List ℕ)
    → escribir m t df n c v ds ≡ some m'
    → length m' ≡ length m
unfolding escribir
length-escribir m t df n c v ds m' e = elim (Bool-cases (c == 1)) [
  | inl u ↦ una (rw u at e)
  | inr u ↦ varias (rw u at e)
]
  where
    una :
        (if n == 4
            then escribir_en m df (bytes32 v)
            else (if n == 1 then escribir_en m df (v % 256 ∷ []) else none))
          ≡ some m'
        → length m' ≡ length m
    una h =
        ground
          (arith, length-escribir_en m df (bytes32 v) m', length-escribir_en m df (v % 256 ∷ []) m')

    varias :
        (poner m df (v % 256) >>= λ w.
        escribir_bucle w t v 3 (suc df) ds >>= λ r. elim r.1 [ [] ↦ some r.0 | _ ∷ _ ↦ none ])
          ≡ some m'
        → length m' ≡ length m
    varias h =
        let (w, a, f) = >>=-eq-some (poner m df (v % 256)) _ h in
        let (r, g, i) = >>=-eq-some (escribir_bucle w t v 3 (suc df) ds) _ f in
        ground
          (arith, length-poner m df (v % 256) w a, length-escribir_bucle w t v 3 (suc df) ds r g)

pub length-escribir_string :
    (m cadena : List ℕ) (rs : List (ℕ × ℕ)) (k : ℕ) (m' : List ℕ)
    → escribir_string m cadena rs k ≡ some m'
    → length m' ≡ length m
unfolding escribir_string
length-escribir_string m cadena [] k m' e = ground arith
length-escribir_string m cadena ((n, d) ∷ rs) k m' e =
    let (xs, a, f) = >>=-eq-some (leer_en cadena k n) _ e in
    let (w, c, g) = >>=-eq-some (escribir_en m d xs) _ f in
    length-escribir_string w cadena rs (k + n) m' g ∙ length-escribir_en m d xs w c
