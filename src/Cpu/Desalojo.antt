-- ===== src/Cpu/Desalojo.antt =====
-- The end of a turn by an interruption (utils/src/cpu/cpu.c, cpu/src/main.c): whatever the program, the process
-- leaves the CPU in the round that finds it queued.
use Prim.Native.String.{String}
use so_1c.Base.{
  ℕ, ◌<◌, ◌≡◌, refl, ap, subst, ◌∙◌, inl, inr, List, [], ◌∷◌, ◌++◌, true, false, Option, none, some,
  ◌==◌, arith, Bool-cases,
}
use so_1c.Protocolo.{codigo, fin_de_quantum}
use so_1c.Cpu.{Cpu, Config, ServidorMemoria, Paso, ◌>>=◌}
use so_1c.Cpu.Ciclo.{Interrupcion, atender_interrupcion, atender_interrupciones, ciclo, correr}
use so_1c.Cpu.Conserva.{Bien}
use so_1c.Cpu.Leyes.{Para, Alguna, pid-atender}
use so_1c.Cpu.Rondas.{de_ciclo, ciclo-atiende}

module _ {M : Type 0} where
  sigue_fuera :
      (is : List Interrupcion) (c : Cpu M) → 0 < c.se_va → 0 < (atender_interrupciones is c).se_va
  unfolding atender_interrupciones atender_interrupcion codigo
  sigue_fuera [] c h = h
  sigue_fuera (i ∷ is) c h = sigue_fuera is (atender_interrupcion i c) (ground (arith, h))

  vence :
      (is : List Interrupcion) (c : Cpu M)
      → Alguna (Para c.pcb.pid (codigo fin_de_quantum)) is
      → 0 < (atender_interrupciones is c).se_va
  unfolding atender_interrupciones atender_interrupcion codigo
  vence [] c a = absurd a
  vence (i ∷ is) c (inl (p, q)) = sigue_fuera is (atender_interrupcion i c) (ground (arith, p, q))
  vence (i ∷ is) c (inr h) = vence is (atender_interrupcion i c) (rw (pid-atender i c) h)

  encadena :
      (m : Paso M (Unit {0})) (f : Unit {0} → Paso M (Unit {0})) (c d : Cpu M)
      → m c ≡ some (tt, d)
      → (m >>= f) c ≡ f tt d
  encadena m f c d e =
      ap
        (λ (o : Option (Unit {0} × Cpu M)). elim o as (λ x. Option (Unit {0} × Cpu M)) [
          | none ↦ none
          | some x ↦ f x.0 x.1
        ])
        e

  fuera : (c : Cpu M) → 0 < c.se_va → (c.se_va == 0) ≡ false
  fuera c h = ground (arith, h)

  module _ (k : Config) (s : ServidorMemoria M) (partir : List ℕ → List String) (atoi : String → ℕ)
      (decimal : ℕ → String) where
    -- From these states a round does not fault, and leads to another of them.
    abbrev pub SinFallas : (Cpu M → Type 0) → Type 0
    SinFallas I =
        (is : List Interrupcion) (c : Cpu M)
        → I c
        → (d : Cpu M) × (ciclo k s partir atoi decimal is c ≡ some (tt, d)) × I d

    -- The loop ends, with a reason.
    abbrev pub Sale : List (List Interrupcion) → Cpu M → Type 0
    Sale iss c = (d : Cpu M) × (correr k s partir atoi decimal iss c ≡ some (tt, d)) × (0 < d.se_va)

    ya_salio : (iss : List (List Interrupcion)) (c : Cpu M) → 0 < c.se_va → Sale iss c
    unfolding correr
    ya_salio [] c h = (c, rw (fuera c h) refl, h)
    ya_salio (is ∷ iss) c h = (c, rw (fuera c h) refl, h)

    una_ronda :
        (is : List Interrupcion) (iss : List (List Interrupcion)) (c d : Cpu M)
        → ciclo k s partir atoi decimal is c ≡ some (tt, d)
        → (c.se_va == 0) ≡ true
        → Sale iss d
        → Sale (is ∷ iss) c
    unfolding correr
    una_ronda is iss c d e z (f, g, h) = (
      f,
      rw z (
          encadena (ciclo k s partir atoi decimal is) (λ u. correr k s partir atoi decimal iss) c d
            e
          ∙ g),
      h,
    )

    -- Whatever the program, in states from which rounds do not fault and stay in them: the loop ends, with a reason,
    -- at the latest in the round that finds the end of the quantum of its process queued, whatever is
    -- queued in the rounds before and after.
    pub correr-acaba :
        (I : Cpu M → Type 0) (antes despues : List (List Interrupcion)) (is : List Interrupcion)
        (c : Cpu M)
        → SinFallas I
        → I c
        → Alguna (Para c.pcb.pid (codigo fin_de_quantum)) is
        → Sale (antes ++ is ∷ despues) c
    correr-acaba I [] despues is c n i a = elim (Bool-cases (c.se_va == 0)) [
      | inl z ↦
          let (d, e, j) = n is c i in
          let (x, p, q) = ciclo-atiende k s partir atoi decimal is c d tt e in
          una_ronda is despues c d e z
            (ya_salio despues d (subst (λ (y : Cpu M). 0 < y.se_va) q (vence is x (rw p a))))
      | inr z ↦ ya_salio (is ∷ despues) c (ground (arith, z))
    ]
    correr-acaba I (js ∷ antes) despues is c n i a = elim (Bool-cases (c.se_va == 0)) [
      | inl z ↦
          let (d, e, j) = n js c i in
          let p = (subst (Bien c) e ((de_ciclo k s partir atoi decimal js).sigue c)).pid in
          una_ronda js (antes ++ is ∷ despues) c d e z
            (correr-acaba I antes despues is d n j (rw p a))
      | inr z ↦ ya_salio (js ∷ antes ++ is ∷ despues) c (ground (arith, z))
    ]
