-- ===== src/Lectura.antt =====
-- The reading of a text file by lines, with `feof`, `fgets` and `strcspn` as kernel.c (ejecutar_script) and
-- memoria.c (cargar_proceso) do it.
use so_1c.Base.{
  ℕ, zero, suc, ◌<◌, ◌≤◌, ◌≡◌, refl, Bool, true, false, List, [], ◌∷◌, ◌++◌, ◌||◌, if◌then◌else◌,
  ◌==◌, length, length-append, arith,
}

-- What `fgets` left in the buffer, what is left of the file, and whether it met the end.
pub record Linea : Type 0 where
  pub texto : List ℕ
  pub resto : List ℕ
  pub fin : Bool

-- `fgets` of at most so many bytes.
unfoldable pub fgets : ℕ → List ℕ → Linea
fgets zero bs = record { texto = []; resto = bs; fin = false }
fgets (suc n) [] = record { texto = []; resto = []; fin = true }
fgets (suc n) (c ∷ bs) =
    let l = fgets n bs in
    if c == 10
    then record { texto = c ∷ []; resto = bs; fin = false }
    else record l { texto = c ∷ l.texto }

-- The buffer as a text: up to the first line break, or NUL.
unfoldable pub cortar : List ℕ → List ℕ
cortar [] = []
cortar (c ∷ cs) = if (c == 0) || (c == 10) then [] else c ∷ cortar cs

-- No NUL and no line break.
unfoldable pub Limpia : List ℕ → Type 0
Limpia [] = Unit {0}
Limpia (c ∷ cs) = ((c == 0) ≡ false) × ((c == 10) ≡ false) × Limpia cs

-- Lines that fit the buffer with their line break.
unfoldable pub Caben : List (List ℕ) → Type 0
unfolding Limpia
Caben [] = Unit {0}
Caben (l ∷ ls) = Limpia l × (length l ≤ 48) × Caben ls

-- A file of lines that end, and of a last text.
unfoldable pub unir : List (List ℕ) → List ℕ → List ℕ
unir [] u = u
unir (l ∷ ls) u = l ++ 10 ∷ unir ls u

pub fgets-linea :
    (n : ℕ) (l r : List ℕ)
    → Limpia l
    → length l < n
    → fgets n (l ++ 10 ∷ r) ≡ record { texto = l ++ 10 ∷ []; resto = r; fin = false }
unfolding fgets Limpia
fgets-linea zero l r c h = absurd (omega (arith, h))
fgets-linea (suc n) [] r c h = refl
fgets-linea (suc n) (x ∷ l) r c h = rw (c.1, fgets-linea n l r c.2 (omega (arith, h))) refl

pub fgets-fin :
    (n : ℕ) (u : List ℕ)
    → Limpia u
    → length u < n
    → fgets n u ≡ record { texto = u; resto = []; fin = true }
unfolding fgets Limpia
fgets-fin zero u c h = absurd (omega (arith, h))
fgets-fin (suc n) [] c h = refl
fgets-fin (suc n) (x ∷ u) c h = rw (c.1, fgets-fin n u c.2 (omega (arith, h))) refl

pub cortar-linea : (l : List ℕ) → Limpia l → cortar (l ++ 10 ∷ []) ≡ l
unfolding cortar Limpia
cortar-linea [] c = refl
cortar-linea (x ∷ l) c = rw (c.0, c.1, cortar-linea l c.2) refl

pub cortar-fin : (u : List ℕ) → Limpia u → cortar u ≡ u
unfolding cortar Limpia
cortar-fin [] c = refl
cortar-fin (x ∷ u) c = rw (c.0, c.1, cortar-fin u c.2) refl

pub length-unir : (ls : List (List ℕ)) (u : List ℕ) → length ls ≤ length (unir ls u)
unfolding unir
length-unir [] u = omega arith
length-unir (l ∷ ls) u = ground (arith, length-append l (10 ∷ unir ls u), length-unir ls u)
