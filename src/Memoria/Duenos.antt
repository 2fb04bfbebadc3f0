-- ===== src/Memoria/Duenos.antt =====
-- The owners of the frames over all live processes, and what writing through one pointer does.
use so_1c.Base.{
  ℕ, zero, suc, ◌+◌, ◌≡◌, refl, List, [], ◌∷◌, ◌++◌, Option, none, some, arith, length, ◌≢◌,
}
use so_1c.Memoria.{Proceso, deref, guardar}
use so_1c.Memoria.Tabla.{cuenta, Prefijo, Debajo}

-- The pages of live processes that hold the frame.
unfoldable pub duenos : ℕ → List (Option Proceso) → ℕ
duenos f [] = 0
duenos f (none ∷ ps) = duenos f ps
duenos f (some p ∷ ps) = cuenta f p.paginas + duenos f ps

-- A page table of CANT entries, used ones first, on frames that exist.
pub record EsProceso (cant : ℕ) (p : Proceso) : Type 0 where
  pub largo : length p.paginas ≡ cant
  pub prefijo : Prefijo p.paginas
  pub debajo : Debajo cant p.paginas

abbrev pub Todos : ℕ → List (Option Proceso) → Type 0
Todos cant [] = Unit {0}
Todos cant (none ∷ ps) = Todos cant ps
Todos cant (some p ∷ ps) = EsProceso cant p × Todos cant ps

pub deref-Todos :
    (cant k : ℕ) (ps : List (Option Proceso)) (p : Proceso)
    → Todos cant ps
    → deref ps k ≡ some p
    → EsProceso cant p
deref-Todos cant zero ps p t e = cc
deref-Todos cant (suc k) [] p t e = cc
deref-Todos cant (suc zero) (none ∷ ps) p t e = cc
deref-Todos cant (suc zero) (some q ∷ ps) p t e = ground (arith, t.0)
deref-Todos cant (suc (suc k)) (none ∷ ps) p t e = deref-Todos cant (suc k) ps p t e
deref-Todos cant (suc (suc k)) (some q ∷ ps) p t e = deref-Todos cant (suc k) ps p t.1 e

pub guardar-none-Todos :
    (cant k : ℕ) (ps : List (Option Proceso)) → Todos cant ps → Todos cant (guardar ps k none)
guardar-none-Todos cant zero ps t = t
guardar-none-Todos cant (suc k) [] t = t
guardar-none-Todos cant (suc zero) (none ∷ ps) t = t
guardar-none-Todos cant (suc zero) (some q ∷ ps) t = t.1
guardar-none-Todos cant (suc (suc k)) (none ∷ ps) t = guardar-none-Todos cant (suc k) ps t
guardar-none-Todos cant (suc (suc k)) (some q ∷ ps) t =
    (t.0, guardar-none-Todos cant (suc k) ps t.1)

pub guardar-some-Todos :
    (cant k : ℕ) (ps : List (Option Proceso)) (p : Proceso)
    → Todos cant ps
    → EsProceso cant p
    → Todos cant (guardar ps k (some p))
guardar-some-Todos cant zero ps p t v = t
guardar-some-Todos cant (suc k) [] p t v = t
guardar-some-Todos cant (suc zero) (none ∷ ps) p t v = (v, t)
guardar-some-Todos cant (suc zero) (some q ∷ ps) p t v = (v, t.1)
guardar-some-Todos cant (suc (suc k)) (none ∷ ps) p t v = guardar-some-Todos cant (suc k) ps p t v
guardar-some-Todos cant (suc (suc k)) (some q ∷ ps) p t v =
    (t.0, guardar-some-Todos cant (suc k) ps p t.1 v)

-- The owners, split into one process and the others.
pub duenos-deref :
    (f k : ℕ) (ps : List (Option Proceso)) (p : Proceso)
    → deref ps k ≡ some p
    → duenos f ps ≡ duenos f (guardar ps k none) + cuenta f p.paginas
unfolding duenos
duenos-deref f zero ps p e = cc
duenos-deref f (suc k) [] p e = cc
duenos-deref f (suc zero) (none ∷ ps) p e = cc
duenos-deref f (suc zero) (some q ∷ ps) p e = ground arith
duenos-deref f (suc (suc k)) (none ∷ ps) p e = duenos-deref f (suc k) ps p e
duenos-deref f (suc (suc k)) (some q ∷ ps) p e = omega (arith, duenos-deref f (suc k) ps p e)

pub duenos-guardar :
    (f k : ℕ) (ps : List (Option Proceso)) (p q : Proceso)
    → deref ps k ≡ some p
    → duenos f (guardar ps k (some q)) ≡ duenos f (guardar ps k none) + cuenta f q.paginas
unfolding duenos
duenos-guardar f zero ps p q e = cc
duenos-guardar f (suc k) [] p q e = cc
duenos-guardar f (suc zero) (none ∷ ps) p q e = cc
duenos-guardar f (suc zero) (some r ∷ ps) p q e = omega arith
duenos-guardar f (suc (suc k)) (none ∷ ps) p q e = duenos-guardar f (suc k) ps p q e
duenos-guardar f (suc (suc k)) (some r ∷ ps) p q e =
    omega (arith, duenos-guardar f (suc k) ps p q e)

pub duenos-append :
    (f : ℕ) (ps : List (Option Proceso)) (p : Proceso)
    → duenos f (ps ++ some p ∷ []) ≡ duenos f ps + cuenta f p.paginas
unfolding duenos
duenos-append f [] p = omega arith
duenos-append f (none ∷ ps) p = duenos-append f ps p
duenos-append f (some q ∷ ps) p = omega (arith, duenos-append f ps p)

pub append-Todos :
    (cant : ℕ) (ps : List (Option Proceso)) (p : Proceso)
    → Todos cant ps
    → EsProceso cant p
    → Todos cant (ps ++ some p ∷ [])
append-Todos cant [] p t v = (v, tt)
append-Todos cant (none ∷ ps) p t v = append-Todos cant ps p t v
append-Todos cant (some q ∷ ps) p t v = (t.0, append-Todos cant ps p t.1 v)

-- Reading back through the same pointer, and through another.
pub deref-guardar :
    (k : ℕ) (ps : List (Option Proceso)) (p : Proceso) (q : Option Proceso)
    → deref ps k ≡ some p
    → deref (guardar ps k q) k ≡ q
deref-guardar zero ps p q e = cc
deref-guardar (suc k) [] p q e = cc
deref-guardar (suc zero) (x ∷ ps) p q e = refl
deref-guardar (suc (suc k)) (x ∷ ps) p q e = deref-guardar (suc k) ps p q e

pub deref-guardar_ne :
    (k j : ℕ) (ps : List (Option Proceso)) (q : Option Proceso)
    → k ≢ j
    → deref (guardar ps k q) j ≡ deref ps j
deref-guardar_ne zero j ps q n = refl
deref-guardar_ne (suc k) j [] q n = refl
deref-guardar_ne (suc k) zero (x ∷ ps) q n = cero k
  where
    cero : (k : ℕ) → deref (guardar (x ∷ ps) (suc k) q) 0 ≡ none
    cero zero = refl
    cero (suc k) = refl
deref-guardar_ne (suc zero) (suc zero) (x ∷ ps) q n = absurd (n refl)
deref-guardar_ne (suc zero) (suc (suc j)) (x ∷ ps) q n = refl
deref-guardar_ne (suc (suc k)) (suc zero) (x ∷ ps) q n = refl
deref-guardar_ne (suc (suc k)) (suc (suc j)) (x ∷ ps) q n =
    deref-guardar_ne (suc k) (suc j) ps q (λ e. n (omega (arith, e)))
