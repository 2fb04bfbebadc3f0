-- ===== src/Kernel/Lineas.antt =====
-- The lines of a script of the kernel's console (kernel.c: ejecutar_script).
use Prim.Native.String.{String}
use so_1c.Base.{
  ℕ, zero, suc, ◌≤◌, ◌≡◌, refl, true, false, List, [], ◌∷◌, ◌++◌, Option, none, some, ◌>>=◌, length,
  arith,
}
use so_1c.Lectura.{
  Limpia, Caben, unir, fgets-linea, fgets-fin, cortar-linea, cortar-fin, length-unir,
}
use so_1c.Kernel.Terminal.{Terminal, ronda, bucle_script, ejecutar_script}

-- The commands of the lines, in order.
unfoldable pub en_orden :
    (Terminal → List ℕ → Option Terminal) → List (List ℕ) → Terminal → Option Terminal
en_orden orden [] t = some t
en_orden orden (l ∷ ls) t = orden t l >>= en_orden orden ls

-- The last text: with none, the script faults.
unfoldable pub al_final :
    (Terminal → List ℕ → Option Terminal) → List ℕ → Terminal → Option Terminal
al_final orden [] t = none
al_final orden (c ∷ cs) t = orden t (c ∷ cs)

solo_some : {A : Type 0} (o : Option A) → (o >>= λ x. some x) ≡ o
solo_some none = refl
solo_some (some x) = refl

seguido :
    {A : Type 0} {f : A → Option A} (g h : A → Option A) (o : Option A)
    → ((x : A) → f x ≡ (g x >>= h))
    → (o >>= f) ≡ (o >>= g >>= h)
seguido g h none e = refl
seguido g h (some x) e = e x

-- A round of the loop.
ronda-linea :
    (orden : Terminal → List ℕ → Option Terminal) (seguir : List ℕ → Terminal → Option Terminal)
    (t : Terminal) (l r : List ℕ)
    → Limpia l
    → ronda orden seguir t (record { texto = l ++ 10 ∷ []; resto = r; fin = false })
      ≡ (orden t l >>= seguir r)
unfolding ronda
ronda-linea orden seguir t [] r c = refl
ronda-linea orden seguir t (x ∷ l) r c = rw (cortar-linea (x ∷ l) c) refl

ronda-fin :
    (orden : Terminal → List ℕ → Option Terminal) (seguir : List ℕ → Terminal → Option Terminal)
    (t : Terminal) (u : List ℕ)
    → Limpia u
    → ronda orden seguir t (record { texto = u; resto = []; fin = true }) ≡ al_final orden u t
unfolding ronda al_final
ronda-fin orden seguir t [] c = refl
ronda-fin orden seguir t (x ∷ u) c = rw (cortar-fin (x ∷ u) c) (solo_some (orden t (x ∷ u)))

bucle_script-unir :
    (orden : Terminal → List ℕ → Option Terminal) (m : ℕ) (ls : List (List ℕ)) (u : List ℕ)
    (t : Terminal)
    → length ls ≤ m
    → Caben ls
    → Limpia u
    → length u ≤ 48
    → bucle_script orden (suc m) (unir ls u) t ≡ (en_orden orden ls t >>= al_final orden u)
unfolding unir en_orden Caben bucle_script
bucle_script-unir orden m [] u t k c d h =
    rw (fgets-fin 49 u d (omega (arith, h))) (ronda-fin orden (bucle_script orden m) t u d)
bucle_script-unir orden zero (l ∷ ls) u t k c d h = absurd (omega (arith, k))
bucle_script-unir orden (suc m) (l ∷ ls) u t k c d h =
    rw
      (
        fgets-linea 49 l (unir ls u) c.0 (omega (arith, c.1)),
        ronda-linea orden (bucle_script orden (suc m)) t l (unir ls u) c.0,
      )
      (seguido (en_orden orden ls) (al_final orden u) (orden t l)
        λ t'. bucle_script-unir orden m ls u t' (omega (arith, k)) c.2 d h)

-- ejecutar_script of a file whose lines have no NUL and at most 48 characters: it runs the commands of the
-- lines that end, in order, and then that of the text after the last line break; where there is no such
-- text it faults, and where a command does not return neither does the script.
pub ejecutar_script-unir :
    (abrir : String → Option (List ℕ)) (orden : Terminal → List ℕ → Option Terminal) (t : Terminal)
    (path : String) (ls : List (List ℕ)) (u : List ℕ)
    → abrir path ≡ some (unir ls u)
    → Caben ls
    → Limpia u
    → length u ≤ 48
    → ejecutar_script abrir orden t path ≡ (en_orden orden ls t >>= al_final orden u)
unfolding ejecutar_script
ejecutar_script-unir abrir orden t path ls u e c d h =
    rw (ejecutar_script, e)
      (bucle_script-unir orden (length (unir ls u)) ls u t (length-unir ls u) c d h)
