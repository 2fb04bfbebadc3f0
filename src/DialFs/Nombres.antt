-- ===== src/DialFs/Nombres.antt =====
-- The names of the FAT and of the metadata files (utils/src/entradasalida/entradasalida.c).
use Prim.Native.String.{String}
use text.Mathlib.Text.{◌==◌ as str_eq}
use text.Mathlib.TextEquality.{eq_iff}
use so_1c.Base.{
  ℕ, ◌≡◌, refl, sym, ap, subst, Bool, true, false, List, [], ◌∷◌, ◌++◌, none, some, ◌||◌, ◌==◌,
  Bool-cases, inl, inr,
}
use so_1c.DialFs.{
  EntradaFat, buscar_entrada, buscar_bloque, cambiar_entrada, mover_entrada, quitar_entrada,
  guardar_metadata,
}
use so_1c.DialFs.Disco.{es_especial, armar_fat}

unfoldable pub nombres : List EntradaFat → List String
nombres [] = []
nombres (e ∷ es) = e.nombre ∷ nombres es

-- Whether a name is among others.
unfoldable pub esta : String → List String → Bool
esta n [] = false
esta n (m ∷ ms) = str_eq m n || esta n ms

unfoldable pub Distintos : List String → Type 0
unfolding esta
Distintos [] = Unit {0}
Distintos (m ∷ ms) = (esta m ms ≡ false) × Distintos ms

unfoldable pub Comunes : List String → Type 0
unfolding es_especial
Comunes [] = Unit {0}
Comunes (m ∷ ms) = (es_especial m ≡ false) × Comunes ms

pub str_eq_sym : (s t : String) → str_eq s t ≡ false → str_eq t s ≡ false
str_eq_sym s t h = elim (Bool-cases (str_eq t s)) [
  | inl e ↦ let f = (eq_iff s t).1 (sym ((eq_iff t s).0 e)) in absurd (cc)
  | inr e ↦ e
]

str_eq_refl : (s : String) → str_eq s s ≡ true
str_eq_refl s = (eq_iff s s).1 refl

-- The names of the restart.
pub armar-Comunes : (es : List EntradaFat) → Comunes (nombres es) → armar_fat es ≡ es
unfolding armar_fat nombres Comunes
armar-Comunes [] h = refl
armar-Comunes (e ∷ es) h = rw (h.0, armar-Comunes es h.1) refl

pub buscar-esta :
    (n : String) (es : List EntradaFat) (e : EntradaFat)
    → buscar_entrada n es ≡ some e
    → (esta n (nombres es) ≡ true) × (e.nombre ≡ n)
unfolding esta nombres buscar_entrada
buscar-esta n [] e h = cc
buscar-esta n (x ∷ es) e h = elim (Bool-cases (str_eq x.nombre n)) [
  | inl t ↦
      let w : x ≡ e = cc (rw t at h) in
      (rw t refl, subst (λ (y : EntradaFat). y.nombre ≡ n) w ((eq_iff x.nombre n).0 t))
  | inr t ↦ rw t (buscar-esta n es e (rw t at h))
]

pub buscar-no_esta :
    (n : String) (es : List EntradaFat) → buscar_entrada n es ≡ none → esta n (nombres es) ≡ false
unfolding esta nombres buscar_entrada
buscar-no_esta n [] h = refl
buscar-no_esta n (x ∷ es) h = elim (Bool-cases (str_eq x.nombre n)) [
  | inl t ↦ absurd (cc (rw t at h))
  | inr t ↦ rw t (buscar-no_esta n es (rw t at h))
]

-- A new file.
pub nombres-append :
    (es : List EntradaFat) (e : EntradaFat) → nombres (es ++ e ∷ []) ≡ nombres es ++ e.nombre ∷ []
unfolding nombres
nombres-append [] e = refl
nombres-append (x ∷ es) e = ap (λ ms. x.nombre ∷ ms) (nombres-append es e)

pub guardar-nuevo :
    (es : List EntradaFat) (e : EntradaFat)
    → esta e.nombre (nombres es) ≡ false
    → guardar_metadata e es ≡ es ++ e ∷ []
unfolding esta nombres guardar_metadata
guardar-nuevo [] e h = refl
guardar-nuevo (x ∷ es) e h = elim (Bool-cases (str_eq x.nombre e.nombre)) [
  | inl t ↦ absurd (cc (rw t at h))
  | inr t ↦ rw (t, guardar-nuevo es e (rw t at h)) refl
]

esta-append :
    (n m : String) (ms : List String)
    → esta n ms ≡ false
    → str_eq m n ≡ false
    → esta n (ms ++ m ∷ []) ≡ false
unfolding esta
esta-append n m [] h k = rw k refl
esta-append n m (x ∷ ms) h k = elim (Bool-cases (str_eq x n)) [
  | inl t ↦ absurd (cc (rw t at h))
  | inr t ↦ rw t (esta-append n m ms (rw t at h) k)
]

pub Distintos-append :
    (ms : List String) (n : String) → Distintos ms → esta n ms ≡ false → Distintos (ms ++ n ∷ [])
unfolding Distintos esta
Distintos-append [] n h k = (refl, tt)
Distintos-append (m ∷ ms) n h k = elim (Bool-cases (str_eq m n)) [
  | inl t ↦ absurd (cc (rw t at k))
  | inr t ↦ (esta-append m n ms h.0 (str_eq_sym m n t), Distintos-append ms n h.1 (rw t at k))
]

pub Comunes-append :
    (ms : List String) (n : String) → Comunes ms → es_especial n ≡ false → Comunes (ms ++ n ∷ [])
unfolding Comunes
Comunes-append [] n h k = (k, tt)
Comunes-append (m ∷ ms) n h k = (h.0, Comunes-append ms n h.1 k)

-- A file less.
esta-quitar :
    (n m : String) (es : List EntradaFat)
    → esta n (nombres es) ≡ false
    → esta n (nombres (quitar_entrada m es)) ≡ false
unfolding esta nombres quitar_entrada
esta-quitar n m [] h = refl
esta-quitar n m (x ∷ es) h = elim (Bool-cases (str_eq x.nombre n)) [
  | inl t ↦ absurd (cc (rw t at h))
  | inr t ↦ elim (Bool-cases (str_eq x.nombre m)) [
    | inl u ↦ rw u (rw t at h)
    | inr u ↦ rw (u, nombres, t) (esta-quitar n m es (rw t at h))
  ]
]

pub quitar-Distintos :
    (n : String) (es : List EntradaFat)
    → Distintos (nombres es)
    → Distintos (nombres (quitar_entrada n es))
unfolding Distintos nombres quitar_entrada
quitar-Distintos n [] h = tt
quitar-Distintos n (x ∷ es) h = elim (Bool-cases (str_eq x.nombre n)) [
  | inl t ↦ rw t h.1
  | inr t ↦ rw t (esta-quitar x.nombre n es h.0, quitar-Distintos n es h.1)
]

pub quitar-Comunes :
    (n : String) (es : List EntradaFat)
    → Comunes (nombres es)
    → Comunes (nombres (quitar_entrada n es))
unfolding Comunes nombres quitar_entrada
quitar-Comunes n [] h = tt
quitar-Comunes n (x ∷ es) h = elim (Bool-cases (str_eq x.nombre n)) [
  | inl t ↦ rw t h.1
  | inr t ↦ rw t (h.0, quitar-Comunes n es h.1)
]

-- A change of a file's block and size.
pub cambiar-guardar :
    (n : String) (b l : ℕ) (es : List EntradaFat)
    → esta n (nombres es) ≡ true
    → guardar_metadata (record { nombre = n; bloque_inicial = b; largo = l }) es
      ≡ cambiar_entrada n b l es
unfolding esta nombres cambiar_entrada guardar_metadata
cambiar-guardar n b l [] h = cc
cambiar-guardar n b l (x ∷ es) h = elim (Bool-cases (str_eq x.nombre n)) [
  | inl t ↦ rw (t, (eq_iff x.nombre n).0 t) refl
  | inr t ↦ rw (t, cambiar-guardar n b l es (rw t at h)) refl
]

pub nombres-cambiar :
    (n : String) (b l : ℕ) (es : List EntradaFat) → nombres (cambiar_entrada n b l es) ≡ nombres es
unfolding nombres cambiar_entrada
nombres-cambiar n b l [] = refl
nombres-cambiar n b l (x ∷ es) = elim (Bool-cases (str_eq x.nombre n)) [
  | inl t ↦ rw t refl
  | inr t ↦ rw (t, nombres, nombres-cambiar n b l es) refl
]

-- A file that is moved.
esta-bloque :
    (m : String) (a : ℕ) (es : List EntradaFat) (e : EntradaFat)
    → buscar_bloque a es ≡ some e
    → esta m (nombres es) ≡ false
    → str_eq e.nombre m ≡ false
unfolding esta nombres buscar_bloque
esta-bloque m a [] e h k = cc
esta-bloque m a (x ∷ es) e h k = elim (Bool-cases (str_eq x.nombre m)) [
  | inl t ↦ absurd (cc (rw t at k))
  | inr t ↦ elim (Bool-cases (x.bloque_inicial == a)) [
    | inl u ↦
        let w : x ≡ e = cc (rw u at h) in subst (λ (y : EntradaFat). str_eq y.nombre m ≡ false) w t
    | inr u ↦ esta-bloque m a es e (rw u at h) (rw t at k)
  ]
]

pub mover-guardar :
    (a h : ℕ) (es : List EntradaFat) (e : EntradaFat)
    → buscar_bloque a es ≡ some e
    → Distintos (nombres es)
    → guardar_metadata (record e { bloque_inicial = h }) es ≡ mover_entrada a h es
unfolding nombres buscar_bloque Distintos mover_entrada guardar_metadata
mover-guardar a h [] e f k = cc
mover-guardar a h (x ∷ es) e f k = elim (Bool-cases (x.bloque_inicial == a)) [
  | inl u ↦ let w : x ≡ e = cc (rw u at f) in rw (u, ← w, str_eq_refl x.nombre) refl
  | inr u ↦
      let g = rw u at f in
      rw
        (
          u,
          str_eq_sym e.nombre x.nombre (esta-bloque x.nombre a es e g k.0),
          mover-guardar a h es e g k.1,
        )
        refl
]

pub nombres-mover : (a h : ℕ) (es : List EntradaFat) → nombres (mover_entrada a h es) ≡ nombres es
unfolding nombres mover_entrada
nombres-mover a h [] = refl
nombres-mover a h (x ∷ es) = elim (Bool-cases (x.bloque_inicial == a)) [
  | inl t ↦ rw t refl
  | inr t ↦ rw (t, nombres, nombres-mover a h es) refl
]
