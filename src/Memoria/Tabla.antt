-- ===== src/Memoria/Tabla.antt =====
-- The pages of one process against the frame bitmap: the count of the pages that hold a frame, and
-- what writing the first unused entry or the last used one does to it.
use so_1c.Base.{
  ℕ, zero, suc, ◌+◌, ◌≤◌, ◌<◌, ◌≡◌, refl, true, false, List, [], ◌∷◌, some, arith, uno, suma,
  suma-suc, suma-zero, Bool-cases, ◌==◌, length, set, poner, get_elem?, ◌&&◌, suma-add, ◌⊎◌, inl,
  inr,
}
use so_1c.Memoria.{Pag}
use so_1c.Memoria.Marcos.{paginas_usadas, nueva_tabla_paginas}

-- How many pages of the table hold the frame.
unfoldable pub cuenta : ℕ → List Pag → ℕ
cuenta f [] = 0
cuenta f (p ∷ ps) = uno (p.estado && p.marco == f) + cuenta f ps

-- How many entries are used.
unfoldable pub total : List Pag → ℕ
total [] = 0
total (p ∷ ps) = uno p.estado + total ps

-- The used entries come first.
abbrev pub Prefijo : List Pag → Type 0
Prefijo ps = total ps ≡ paginas_usadas ps

-- The frames of the used entries lie below the bound.
abbrev pub Debajo : ℕ → List Pag → Type 0
Debajo cant [] = Unit {0}
Debajo cant (p ∷ ps) = (p.estado ≡ true → p.marco < cant) × Debajo cant ps

-- The page that `aniadir_paginas` writes.
abbrev pub usada : ℕ → Pag
usada m = record { marco = m; estado = true }

-- The page that `sacar_paginas` writes.
abbrev pub libre : Pag → Pag
libre p = record p { estado = false }

pub poner-eq-set {ℓ} :
    {A : Type ℓ} (xs : List A) (i : ℕ) (v : A) → i < length xs → poner xs i v ≡ some (set xs i v)
poner-eq-set [] i v l = elim l [ ]
poner-eq-set (x ∷ xs) zero v l = refl
poner-eq-set (x ∷ xs) (suc i) v l = ground (arith, poner-eq-set xs i v)

pub usadas-le-total : (ps : List Pag) → paginas_usadas ps ≤ total ps
unfolding paginas_usadas total
usadas-le-total [] = omega arith
usadas-le-total (p ∷ ps) = ground (arith, usadas-le-total ps)

pub total-le-length : (ps : List Pag) → total ps ≤ length ps
unfolding total
total-le-length [] = omega arith
total-le-length (p ∷ ps) = ground (arith, total-le-length ps)

-- The first unused entry, written.
module _ (m : ℕ) where
  usadas-set-ge :
      (ps : List Pag) (i : ℕ)
      → i ≡ paginas_usadas ps
      → i < length ps
      → suc i ≤ paginas_usadas (set ps i (usada m))
  unfolding paginas_usadas
  usadas-set-ge [] i e l = absurd (omega arith)
  usadas-set-ge (p ∷ ps) zero e l = ground arith
  usadas-set-ge (p ∷ ps) (suc i) e l = ground (arith, usadas-set-ge ps i)

  total-set :
      (ps : List Pag) (i : ℕ)
      → i ≡ paginas_usadas ps
      → i < length ps
      → total (set ps i (usada m)) ≡ suc (total ps)
  unfolding paginas_usadas total
  total-set [] i e l = absurd (omega arith)
  total-set (p ∷ ps) zero e l = ground arith
  total-set (p ∷ ps) (suc i) e l = ground (arith, total-set ps i)

  pub usadas-set :
      (ps : List Pag) (i : ℕ)
      → i ≡ paginas_usadas ps
      → i < length ps
      → Prefijo ps
      → paginas_usadas (set ps i (usada m)) ≡ suc i
  usadas-set ps i e l x =
      omega
        (arith, usadas-set-ge ps i e l, total-set ps i e l, usadas-le-total (set ps i (usada m)))

  pub set-Prefijo :
      (ps : List Pag) (i : ℕ)
      → i ≡ paginas_usadas ps
      → i < length ps
      → Prefijo ps
      → Prefijo (set ps i (usada m))
  set-Prefijo ps i e l x = omega (arith, usadas-set ps i e l x, total-set ps i e l)

  pub cuenta-set :
      (f : ℕ) (ps : List Pag) (i : ℕ)
      → i ≡ paginas_usadas ps
      → i < length ps
      → cuenta f (set ps i (usada m)) ≡ cuenta f ps + uno (m == f)
  unfolding paginas_usadas cuenta
  cuenta-set f [] i e l = absurd (omega arith)
  cuenta-set f (p ∷ ps) zero e l = ground arith
  cuenta-set f (p ∷ ps) (suc i) e l = ground (arith, cuenta-set f ps i)

  pub set-Debajo :
      (cant : ℕ) (ps : List Pag) (i : ℕ)
      → m < cant
      → Debajo cant ps
      → Debajo cant (set ps i (usada m))
  set-Debajo cant [] i l d = d
  set-Debajo cant (p ∷ ps) zero l d = (λ _. l, d.1)
  set-Debajo cant (p ∷ ps) (suc i) l d = (d.0, set-Debajo cant ps i l d.1)

-- The last used entry, cleared.
pub record Quitada (cant i : ℕ) (ps : List Pag) (p : Pag) : Type 0 where
  pub hallada : get_elem? ps i ≡ some p
  pub en_uso : p.estado ≡ true
  pub acotada : p.marco < cant
  pub total_menos : total ps ≡ suc (total (set ps i (libre p)))
  pub usadas_menos : paginas_usadas (set ps i (libre p)) ≡ i
  pub debajo : Debajo cant (set ps i (libre p))

pub quitada_lem :
    (cant i : ℕ) (ps : List Pag)
    → paginas_usadas ps ≡ suc i
    → Debajo cant ps
    → (p : Pag) × Quitada cant i ps p
unfolding paginas_usadas total
quitada_lem cant i [] e d = cc
quitada_lem cant zero (p ∷ ps) e d = (p, ground arith)
quitada_lem cant (suc i) (p ∷ ps) e d =
    let (q, r) = quitada_lem cant i ps (ground arith) d.1 in (q, ground (arith, r))

pub cuenta-libre :
    (f : ℕ) (ps : List Pag) (i : ℕ) (p : Pag)
    → get_elem? ps i ≡ some p
    → p.estado ≡ true
    → cuenta f ps ≡ cuenta f (set ps i (libre p)) + uno (p.marco == f)
unfolding cuenta
cuenta-libre f [] i p e u = cc
cuenta-libre f (q ∷ ps) zero p e u = ground arith
cuenta-libre f (q ∷ ps) (suc i) p e u = ground (arith, cuenta-libre f ps i p e u)

-- A used page is counted.
pub cuenta-pos :
    (ps : List Pag) (i : ℕ) (p : Pag)
    → get_elem? ps i ≡ some p
    → p.estado ≡ true
    → 0 < cuenta p.marco ps
unfolding cuenta
cuenta-pos [] i p e u = cc
cuenta-pos (q ∷ ps) zero p e u = ground arith
cuenta-pos (q ∷ ps) (suc i) p e u = ground (arith, cuenta-pos ps i p e u)

cuenta_en : (cant m : ℕ) → m < cant → suma cant (λ f. uno (m == f)) ≡ 1
cuenta_en cant m l = omega (
  arith,
  suma-suc cant (λ f. uno (m == f)) (λ f. 0) m l (λ j k ne. ground arith) (ground arith),
  suma-zero cant (λ f. 0) (λ j k. refl),
)

-- Summed over the frames, the counts are the used pages.
pub suma-cuenta :
    (cant : ℕ) (ps : List Pag) → Debajo cant ps → suma cant (λ f. cuenta f ps) ≡ total ps
unfolding cuenta total
suma-cuenta cant [] d = suma-zero cant (λ f. 0) (λ j k. refl)
suma-cuenta cant (p ∷ ps) d = omega (
  arith,
  suma-add cant (λ f. uno (p.estado && p.marco == f)) (λ f. cuenta f ps),
  suma-cuenta cant ps d.1,
  propia (Bool-cases p.estado),
)
  where
    propia :
        (p.estado ≡ true) ⊎ (p.estado ≡ false)
        → suma cant (λ f. uno (p.estado && p.marco == f)) ≡ uno p.estado
    propia (inl u) = rw u (cuenta_en cant p.marco (d.0 u))
    propia (inr u) = rw u (suma-zero cant (λ f. 0) (λ j k. refl))

-- A new table has no used page.
pub nueva_tabla-vacia :
    (cant n : ℕ)
    → (paginas_usadas (nueva_tabla_paginas n) ≡ 0)
      × (total (nueva_tabla_paginas n) ≡ 0)
      × (length (nueva_tabla_paginas n) ≡ n)
      × Debajo cant (nueva_tabla_paginas n)
unfolding nueva_tabla_paginas paginas_usadas total
nueva_tabla-vacia cant zero = (refl, refl, refl, tt)
nueva_tabla-vacia cant (suc n) = ground (arith, nueva_tabla-vacia cant n)

pub cuenta-nueva : (f n : ℕ) → cuenta f (nueva_tabla_paginas n) ≡ 0
unfolding nueva_tabla_paginas cuenta
cuenta-nueva f zero = refl
cuenta-nueva f (suc n) = ground (arith, cuenta-nueva f n)

pub cuenta-le-total : (f : ℕ) (ps : List Pag) → cuenta f ps ≤ total ps
unfolding cuenta total
cuenta-le-total f [] = omega arith
cuenta-le-total f (p ∷ ps) = ground (arith, cuenta-le-total f ps)
