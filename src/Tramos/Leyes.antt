-- ===== src/Tramos/Leyes.antt =====
-- The sizes of the pieces of a transfer (utils/src/cpu/cpu.c).
use so_1c.Base.{
  ℕ, zero, suc, ◌+◌, ◌-◌, ◌*◌, ◌/◌, ◌%◌, ◌^◌, ◌<◌, ◌≤◌, ◌≡◌, refl, ◌∙◌, ap, ◌≢◌, List, [], ◌∷◌,
  ◌==◌, if◌then◌else◌, arith, length, ℕ_discrete, Bool-cases, inl, inr, true, false,
}
use native.Mathlib.Nat.{div-add-mod', mod-lt, mul-add-div_right, div-eq_of_lt}
use so_1c.Tramos.{
  entra, ceil_div, espacio_en_pag, pag_necesarias, siguientes, direcciones_logicas, tramos_resto,
  tramos,
}

-- The bytes of all the pieces.
unfoldable pub bytes_de : List (ℕ × ℕ) → ℕ
bytes_de [] = 0
bytes_de ((n, d) ∷ rs) = n + bytes_de rs

bytes-resto : (t u d : ℕ) (ds : List ℕ) → bytes_de (tramos_resto t u (d ∷ ds)) ≡ length ds * t + u
unfolding bytes_de tramos_resto
bytes-resto t u d [] = omega arith
bytes-resto t u d (e ∷ ds) = omega (arith, bytes-resto t u e ds)

length-siguientes : (t d n : ℕ) → length (siguientes t d n) ≡ n
unfolding siguientes
length-siguientes t d zero = refl
length-siguientes t d (suc n) = omega (arith, length-siguientes t (d + t) n)

-- ceil(a / t) is the quotient, and one more where there is a remainder.
pub ceil_div-justo : (a t : ℕ) → 0 < t → a % t ≡ 0 → ceil_div a t ≡ a / t
unfolding ceil_div
ceil_div-justo a t p z = rw (e, mul-add-div_right p (a / t) (t - 1)) (omega (arith, menor))
  where
    e : a + t - 1 ≡ a / t * t + (t - 1)
    e = omega (arith, div-add-mod' a t)

    menor : (t - 1) / t ≡ 0
    menor = div-eq_of_lt {n = t - 1} {m = t} (omega arith)

pub ceil_div-pasado : (a t : ℕ) → 0 < t → a % t ≢ 0 → ceil_div a t ≡ a / t + 1
unfolding ceil_div
ceil_div-pasado a t p z = rw (e, mul-add-div_right p (a / t + 1) (a % t - 1)) (omega (arith, menor))
  where
    e : a + t - 1 ≡ (a / t + 1) * t + (a % t - 1)
    e = omega (arith, div-add-mod' a t)

    menor : (a % t - 1) / t ≡ 0
    menor = div-eq_of_lt {n = a % t - 1} {m = t} (omega (arith, mod-lt a p))

-- After the first piece, whole pages and the remainder, or a page where that is 0.
bytes-pags :
    (t a : ℕ) (ds : List ℕ)
    → 0 < t
    → 0 < a
    → length ds ≡ ceil_div a t
    → bytes_de (tramos_resto t (if a % t == 0 then t else a % t) ds) ≡ a
bytes-pags t a [] p q e = elim (ℕ_discrete (a % t) 0) [
  | yes z ↦
      absurd (omega (arith, div-add-mod' a t, ap (λ (k : ℕ). k * t) (e ∙ ceil_div-justo a t p z)))
  | no z ↦ absurd (omega (arith, ceil_div-pasado a t p z))
]
bytes-pags t a (d ∷ ds) p q e = elim (Bool-cases (a % t == 0)) [
  | inl z ↦ rw z (
      omega (
        arith,
        bytes-resto t t d ds,
        div-add-mod' a t,
        nulo z,
        ap (λ (k : ℕ). k * t) (e ∙ ceil_div-justo a t p (nulo z)),
      ))
  | inr z ↦ rw z (
      omega (
        arith,
        bytes-resto t (a % t) d ds,
        div-add-mod' a t,
        ap (λ (k : ℕ). k * t) (e ∙ ceil_div-pasado a t p (no_nulo z)),
      ))
]
  where
    nulo : (a % t == 0) ≡ true → a % t ≡ 0
    nulo z = ground arith

    no_nulo : (a % t == 0) ≡ false → a % t ≢ 0
    no_nulo z = ground arith

-- For every transfer that starts at an address that is not negative, with as many physical addresses
-- as were translated, the pieces add up to its size.
pub bytes-tramos :
    (t tam d : ℕ) (ds : List ℕ)
    → 0 < t
    → d < 2 ^ 31
    → length ds ≡ length (direcciones_logicas t tam d)
    → bytes_de (tramos t tam (espacio_en_pag t d) ds) ≡ tam
unfolding direcciones_logicas tramos bytes_de pag_necesarias
bytes-tramos t tam d [] p q e = elim (Bool-cases (entra tam (espacio_en_pag t d))) [
  | inl z ↦ absurd (cc (rw z at e))
  | inr z ↦ absurd (cc (rw z at e))
]
bytes-tramos t tam d (x ∷ ds) p q e = elim (Bool-cases (entra tam (espacio_en_pag t d))) [
  | inl z ↦ rw z (omega arith)
  | inr z ↦
      rw (z, bytes_de)
        (omega (
          arith,
          bytes-pags t (tam - espacio_en_pag t d) ds p (ground arith) (largo (rw z at e)),
          mayor z,
        ))
]
  where
    esp : ℕ
    esp = espacio_en_pag t d

    mayor : entra tam esp ≡ false → esp < tam
    mayor z = ground arith

    largo :
        suc (length ds) ≡ suc (length (siguientes t (d + esp) (pag_necesarias t tam esp - 1)))
        → length ds ≡ ceil_div (tam - esp) t
    largo h =
        omega (arith, length-siguientes t (d + esp) (pag_necesarias t tam esp - 1), necesarias)
      where
        necesarias : pag_necesarias t tam esp ≡ ceil_div (tam - esp) t + 1
        necesarias = refl

-- The pieces are no more than the addresses, and none is larger than a page.
resto-pagina :
    (t u : ℕ) (ds : List ℕ)
    → u ≤ t
    → (length (tramos_resto t u ds) ≡ length ds)
      × (bytes_de (tramos_resto t u ds) ≤ length (tramos_resto t u ds) * t)
unfolding tramos_resto bytes_de
resto-pagina t u [] h = (refl, omega arith)
resto-pagina t u (d ∷ []) h = (refl, omega arith)
resto-pagina t u (d ∷ e ∷ ds) h =
    let (a, b) = resto-pagina t u (e ∷ ds) h in (ap suc a, omega arith)

pub tramos-pagina :
    (t tam d : ℕ) (ds : List ℕ)
    → 0 < t
    → d < 2 ^ 31
    → tam < 2 ^ 31
    → let ps = tramos t tam (espacio_en_pag t d) ds in
      (length ps ≤ length ds) × (bytes_de ps ≤ length ps * t)
unfolding tramos bytes_de espacio_en_pag
tramos-pagina t tam d [] p q r = (omega arith, omega arith)
tramos-pagina t tam d (x ∷ ds) p q r =
    let (a, b) =
      resto-pagina t
        (if (tam - espacio_en_pag t d) % t == 0 then t else (tam - espacio_en_pag t d) % t) ds
        ultimo in
    elim (Bool-cases (entra tam (espacio_en_pag t d))) [
      | inl z ↦ rw z (omega arith, ground (arith, espacio))
      | inr z ↦ rw z (omega arith, omega (arith, espacio))
    ]
  where
    espacio : espacio_en_pag t d ≤ t
    espacio = ground arith

    ultimo : (if (tam - espacio_en_pag t d) % t == 0 then t else (tam - espacio_en_pag t d) % t) ≤ t
    ultimo = ground (arith, mod-lt (tam - espacio_en_pag t d) p)
