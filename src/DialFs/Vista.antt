-- ===== src/DialFs/Vista.antt =====
-- The files of DialFS (utils/src/entradasalida/entradasalida.c) apart from where they lie: their names
-- and contents, and how many of them a block belongs to.
use Prim.Native.String.{String}
use so_1c.Base.{
  ℕ, ◌+◌, ◌*◌, ◌≡◌, ◌≤◌, ◌<◌, ◌⊎◌, ◌↔◌, inl, inr, refl, ap, ◌∙◌, subst, Bool, true, List, [], ◌∷◌,
  ◌++◌, Option, some, ◌==◌, ==_iff, ◌&&◌, if◌then◌else◌, uno, leb, ltb, arith, Bool-cases,
}
use so_1c.Bytes.{leer_en}
use so_1c.Tramos.{ceil_div}
use so_1c.DialFs.{EntradaFat, buscar_bloque, mover_entrada}
use so_1c.DialFs.Bits.{en_tramo}

-- Of each entry.
abbrev pub Todas : (EntradaFat → Type 0) → List EntradaFat → Type 0
Todas P [] = Unit {0}
Todas P (e ∷ es) = P e × Todas P es

-- Names and contents, of the files that `v` picks by name.
unfoldable pub archivos :
    (String → Bool) → ℕ → List ℕ → List EntradaFat → List (String × Option (List ℕ))
archivos v t m [] = []
archivos v t m (e ∷ es) =
    if v e.nombre
    then (e.nombre, leer_en m (e.bloque_inicial * t) e.largo) ∷ archivos v t m es
    else archivos v t m es

-- Whether block j is of a file that is picked.
abbrev pub peso : (String → Bool) → ℕ → EntradaFat → ℕ → ℕ
peso v t e j = uno (v e.nombre && en_tramo (ceil_div e.largo t) e.bloque_inicial j)

-- The files that block j is of.
unfoldable pub ocupan : (String → Bool) → ℕ → List EntradaFat → ℕ → ℕ
ocupan v t [] j = 0
ocupan v t (e ∷ es) j = peso v t e j + ocupan v t es j

-- The blocks that the files that are picked have.
unfoldable pub cuantos : (String → Bool) → ℕ → List EntradaFat → ℕ
cuantos v t [] = 0
cuantos v t (e ∷ es) = (if v e.nombre then ceil_div e.largo t else 0) + cuantos v t es

mismo : {A : Type 0} {x y : A} → some x ≡ some y → x ≡ y
mismo e = cc

pub Todas-append :
    (P : EntradaFat → Type 0) (xs ys : List EntradaFat)
    → Todas P (xs ++ ys) ↔ (Todas P xs × Todas P ys)
Todas-append P [] ys = (λ h. (tt, h), λ h. h.1)
Todas-append P (a ∷ xs) ys =
    let (f, g) = Todas-append P xs ys in
    (λ h. let (x, y) = f h.1 in ((h.0, x), y), λ h. (h.0.0, g (h.0.1, h.1)))

pub Todas-map :
    (P Q : EntradaFat → Type 0) (es : List EntradaFat)
    → ((e : EntradaFat) → P e → Q e)
    → Todas P es
    → Todas Q es
Todas-map P Q [] f h = tt
Todas-map P Q (e ∷ es) f h = (f e h.0, Todas-map P Q es f h.1)

pub Todas-dos :
    (P Q R : EntradaFat → Type 0) (es : List EntradaFat)
    → ((e : EntradaFat) → P e → Q e → R e)
    → Todas P es
    → Todas Q es
    → Todas R es
Todas-dos P Q R [] f h k = tt
Todas-dos P Q R (e ∷ es) f h k = (f e h.0 k.0, Todas-dos P Q R es f h.1 k.1)

pub ocupan-append :
    (v : String → Bool) (t : ℕ) (xs ys : List EntradaFat) (j : ℕ)
    → ocupan v t (xs ++ ys) j ≡ ocupan v t xs j + ocupan v t ys j
unfolding ocupan
ocupan-append v t [] ys j = omega arith
ocupan-append v t (a ∷ xs) ys j = ground (arith, ocupan-append v t xs ys j)

pub cuantos-append :
    (v : String → Bool) (t : ℕ) (xs ys : List EntradaFat)
    → cuantos v t (xs ++ ys) ≡ cuantos v t xs + cuantos v t ys
unfolding cuantos
cuantos-append v t [] ys = omega arith
cuantos-append v t (x ∷ xs) ys = omega (arith, cuantos-append v t xs ys)

-- One entry and the others.
pub Todas-medio :
    (P : EntradaFat → Type 0) (xs ys : List EntradaFat) (e : EntradaFat)
    → Todas P (xs ++ e ∷ ys) ↔ (Todas P (xs ++ ys) × P e)
Todas-medio P xs ys e = (
  λ a. let (f, g) = (Todas-append P xs (e ∷ ys)).0 a in ((Todas-append P xs ys).1 (f, g.1), g.0),
  λ a. let (f, g) = (Todas-append P xs ys).0 a.0 in (Todas-append P xs (e ∷ ys)).1 (f, (a.1, g)),
)

pub ocupan-medio :
    (v : String → Bool) (t : ℕ) (xs ys : List EntradaFat) (e : EntradaFat) (j : ℕ)
    → ocupan v t (xs ++ e ∷ ys) j ≡ ocupan v t (xs ++ ys) j + peso v t e j
unfolding ocupan
ocupan-medio v t xs ys e j =
    omega (arith, ocupan-append v t xs (e ∷ ys) j, ocupan-append v t xs ys j)

pub archivos-append :
    (v : String → Bool) (t : ℕ) (m : List ℕ) (xs ys : List EntradaFat)
    → archivos v t m (xs ++ ys) ≡ archivos v t m xs ++ archivos v t m ys
unfolding archivos
archivos-append v t m [] ys = refl
archivos-append v t m (a ∷ xs) ys = elim (Bool-cases (v a.nombre)) [
  | inl e ↦ rw (e, archivos-append v t m xs ys) refl
  | inr e ↦ rw (e, archivos-append v t m xs ys) refl
]

pub archivos-medio :
    (v : String → Bool) (t : ℕ) (m : List ℕ) (xs ys : List EntradaFat) (e : EntradaFat)
    → v e.nombre ≡ true
    → archivos v t m (xs ++ e ∷ ys)
      ≡ archivos v t m xs
        ++ (e.nombre, leer_en m (e.bloque_inicial * t) e.largo) ∷ archivos v t m ys
unfolding archivos
archivos-medio v t m xs ys e p = archivos-append v t m xs (e ∷ ys) ∙ rw p refl

-- Where the entry at a block stands, and what moving it does.
pub buscar_bloque-parte :
    (i h : ℕ) (es : List EntradaFat) (e : EntradaFat)
    → buscar_bloque i es ≡ some e
    → (e.bloque_inicial ≡ i)
      × (xs : List EntradaFat) × (ys : List EntradaFat) × (es ≡ xs ++ e ∷ ys)
      × (mover_entrada i h es ≡ xs ++ record e { bloque_inicial = h } ∷ ys)
unfolding buscar_bloque mover_entrada
buscar_bloque-parte i h [] e q = cc
buscar_bloque-parte i h (x ∷ es) e q = elim (Bool-cases (x.bloque_inicial == i)) [
  | inl c ↦
      let w : x ≡ e = mismo (rw c at q) in
      (
        subst (λ (y : EntradaFat). y.bloque_inicial ≡ i) w ((==_iff x.bloque_inicial i).0 c),
        [],
        es,
        rw w refl,
        rw c (ap (λ (y : EntradaFat). record y { bloque_inicial = h } ∷ es) w),
      )
  | inr c ↦
      let (b, xs, ys, u, w) = buscar_bloque-parte i h es e (rw c at q) in
      (
        b,
        x ∷ xs,
        ys,
        ap (λ (l : List EntradaFat). x ∷ l) u,
        rw c (ap (λ (l : List EntradaFat). x ∷ l) w),
      )
]

-- A block that is of a file, where such a file begins at it.
pub buscar_bloque-ocupan :
    (v : String → Bool) (t i : ℕ) (es : List EntradaFat)
    → 0 < ocupan v t es i
    → Todas (λ e. 0 < peso v t e i → e.bloque_inicial ≡ i) es
    → (e : EntradaFat) × (buscar_bloque i es ≡ some e)
unfolding buscar_bloque ocupan
buscar_bloque-ocupan v t i [] p h = absurd (omega arith)
buscar_bloque-ocupan v t i (x ∷ es) p h = elim (Bool-cases (x.bloque_inicial == i)) [
  | inl c ↦ (x, rw c refl)
  | inr c ↦ elim (Bool-cases (ltb 0 (peso v t x i))) [
    | inl q ↦ absurd (ground (arith, h.0, c, q))
    | inr q ↦ let (e, w) = buscar_bloque-ocupan v t i es (ground (arith, q, p)) h.1 in (e, rw c w)
  ]
]

pub peso-uno :
    (v : String → Bool) (t : ℕ) (e : EntradaFat) (j : ℕ)
    → v e.nombre ≡ true
    → e.bloque_inicial ≤ j
    → j < e.bloque_inicial + ceil_div e.largo t
    → peso v t e j ≡ 1
peso-uno v t e j p a c = rw p (ground arith)

pub peso-inv :
    (v : String → Bool) (t : ℕ) (e : EntradaFat) (j : ℕ)
    → 0 < peso v t e j
    → (v e.nombre ≡ true) × (e.bloque_inicial ≤ j) × (j < e.bloque_inicial + ceil_div e.largo t)
peso-inv v t e j h = elim (Bool-cases (v e.nombre)) [
  | inl p ↦ let w = (rw p at h) in (p, ground (arith, w), ground (arith, w))
  | inr p ↦ absurd (omega (arith, rw p at h))
]

-- On one side of n blocks, for a file that is picked.
abbrev pub Aparte : (String → Bool) → ℕ → ℕ → ℕ → EntradaFat → Type 0
Aparte v t h n e =
    v e.nombre ≡ true → (e.bloque_inicial + ceil_div e.largo t ≤ h) ⊎ (h + n ≤ e.bloque_inicial)

-- A file that has none of n blocks lies on one side of them.
pub peso-aparte :
    (v : String → Bool) (t h n : ℕ) (e : EntradaFat)
    → v e.nombre ≡ true
    → 0 < n
    → 0 < ceil_div e.largo t
    → ((j : ℕ) → h ≤ j → j < h + n → peso v t e j ≡ 0)
    → (e.bloque_inicial + ceil_div e.largo t ≤ h) ⊎ (h + n ≤ e.bloque_inicial)
peso-aparte v t h n e p q r f = elim (Bool-cases (leb (e.bloque_inicial + ceil_div e.largo t) h)) [
  | inl a ↦ inl (ground arith)
  | inr a ↦ elim (Bool-cases (leb (h + n) e.bloque_inicial)) [
    | inl c ↦ inr (ground arith)
    | inr c ↦ elim (Bool-cases (leb h e.bloque_inicial)) [
      | inl d ↦ absurd (ground (arith, f e.bloque_inicial, peso-uno v t e e.bloque_inicial p))
      | inr d ↦ absurd (ground (arith, f h, peso-uno v t e h p))
    ]
  ]
]

-- Files that lie apart from n blocks where no file is.
pub ocupan-Aparte :
    (v : String → Bool) (t h n : ℕ) (es : List EntradaFat)
    → 0 < n
    → ((j : ℕ) → h ≤ j → j < h + n → ocupan v t es j ≡ 0)
    → Todas (λ e. v e.nombre ≡ true → 0 < ceil_div e.largo t) es
    → Todas (Aparte v t h n) es
unfolding ocupan
ocupan-Aparte v t h n [] q f a = tt
ocupan-Aparte v t h n (e ∷ es) q f a = (
  λ p. peso-aparte v t h n e p q (a.0 p) (λ j c d. ground (arith, f j c d)),
  ocupan-Aparte v t h n es q (λ j c d. ground (arith, f j c d)) a.1,
)

-- The same contents in other blocks.
pub archivos-congr :
    (v : String → Bool) (t : ℕ) (m m' : List ℕ) (es : List EntradaFat)
    → Todas
        (λ e.
          v e.nombre ≡ true
          → leer_en m (e.bloque_inicial * t) e.largo ≡ leer_en m' (e.bloque_inicial * t) e.largo)
        es
    → archivos v t m es ≡ archivos v t m' es
unfolding archivos
archivos-congr v t m m' [] h = refl
archivos-congr v t m m' (e ∷ es) h = elim (Bool-cases (v e.nombre)) [
  | inl p ↦ rw (p, h.0 p, archivos-congr v t m m' es h.1) refl
  | inr p ↦ rw (p, archivos-congr v t m m' es h.1) refl
]
