-- ===== src/DialFs/Orden.antt =====
-- The order in which `readdir` gives the files (utils/src/entradasalida/entradasalida.c: iniciar_fs).
use Prim.Native.String.{String}
use text.Mathlib.Text.{◌==◌ as str_eq}
use so_1c.Base.{◌≡◌, refl, ◌∙◌, List, [], ◌∷◌, Bool-cases, inl, inr}
use so_1c.DialFs.{EntradaFat}
use so_1c.DialFs.Nombres.{nombres, esta, Distintos, Comunes, str_eq_sym}

-- The same elements in another order.
pub data Reordena {ℓ} {A : Type ℓ} : List A → List A → Type ℓ where
  fin : Reordena [] []
  igual : (x : A) {xs ys : List A} → Reordena xs ys → Reordena (x ∷ xs) (x ∷ ys)
  cruce : (x y : A) (xs : List A) → Reordena (x ∷ y ∷ xs) (y ∷ x ∷ xs)
  luego : {xs ys zs : List A} → Reordena xs ys → Reordena ys zs → Reordena xs zs

nombres-Reordena : {es fs : List EntradaFat} → Reordena es fs → Reordena (nombres es) (nombres fs)
unfolding nombres
nombres-Reordena fin = fin
nombres-Reordena (igual e d) = igual e.nombre (nombres-Reordena d)
nombres-Reordena (cruce e f es) = cruce e.nombre f.nombre (nombres es)
nombres-Reordena (luego d k) = luego (nombres-Reordena d) (nombres-Reordena k)

esta-Reordena : (n : String) {l m : List String} → Reordena l m → esta n l ≡ esta n m
unfolding esta
esta-Reordena n fin = refl
esta-Reordena n (igual x d) = rw (esta-Reordena n d) refl
esta-Reordena n (cruce x y l) = elim (Bool-cases (str_eq x n)) [
  | inl h ↦ elim (Bool-cases (str_eq y n)) [ inl k ↦ rw (h, k) refl | inr k ↦ rw (h, k) refl ]
  | inr h ↦ rw h refl
]
esta-Reordena n (luego d k) = esta-Reordena n d ∙ esta-Reordena n k

-- Names that differ do so in any order.
Distintos-Reordena : {l m : List String} → Reordena l m → Distintos l → Distintos m
unfolding Distintos esta
Distintos-Reordena fin h = tt
Distintos-Reordena (igual x d) h = (rw (esta-Reordena x d) at h.0, Distintos-Reordena d h.1)
Distintos-Reordena (cruce x y l) h = elim (Bool-cases (str_eq y x)) [
  | inl k ↦ absurd (cc (rw k at h.0))
  | inr k ↦ rw (str_eq_sym y x k) (h.1.0, (rw k at h.0, h.1.1))
]
Distintos-Reordena (luego d k) h = Distintos-Reordena k (Distintos-Reordena d h)

Comunes-Reordena : {l m : List String} → Reordena l m → Comunes l → Comunes m
unfolding Comunes
Comunes-Reordena fin h = tt
Comunes-Reordena (igual x d) h = (h.0, Comunes-Reordena d h.1)
Comunes-Reordena (cruce x y l) h = (h.1.0, (h.0, h.1.1))
Comunes-Reordena (luego d k) h = Comunes-Reordena k (Comunes-Reordena d h)

-- The names of the same files in another order.
pub orden-Distintos :
    {es fs : List EntradaFat} → Reordena es fs → Distintos (nombres es) → Distintos (nombres fs)
orden-Distintos d h = Distintos-Reordena (nombres-Reordena d) h

pub orden-Comunes :
    {es fs : List EntradaFat} → Reordena es fs → Comunes (nombres es) → Comunes (nombres fs)
orden-Comunes d h = Comunes-Reordena (nombres-Reordena d) h
