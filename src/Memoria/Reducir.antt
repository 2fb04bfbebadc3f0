-- ===== src/Memoria/Reducir.antt =====
-- The loops of sacar_paginas and liberar_proceso (utils/src/memoria/memoria.c).
use so_1c.Base.{
  ℕ, zero, suc, ◌+◌, ◌≤◌, ◌<◌, ◌≡◌, refl, List, [], ◌∷◌, none, some, arith, uno, Bool-cases,
  if◌then◌else◌, length, set, get_elem?, length-set, get_elem?-set_ne, ◌∙◌, inl, inr,
}
use so_1c.BitArray.{BitArray}
use so_1c.Memoria.{Pag}
use so_1c.Memoria.Marcos.{paginas_usadas, sacar_bucle, liberar_bucle}
use so_1c.Memoria.Buscar.{libres, libres-clean}
use so_1c.Memoria.Tabla.{
  cuenta, total, Prefijo, Debajo, libre, poner-eq-set, Quitada, quitada_lem, cuenta-libre,
  total-le-length, cuenta-pos, cuenta-le-total,
}
use so_1c.Memoria.Ampliar.{EsTabla}

module _ {Bits : Type 0} ⦃b : BitArray Bits⦄ where
  open b use {tam, test_bit, set_bit, clean_bit, tam-set, tam-clean, test-set, test-clean}

  -- One round of `sacar_paginas`.
  sacar_una :
      (cant i : ℕ) (otros : ℕ → ℕ) (bm : Bits) (ps : List Pag) (p : Pag)
      → EsTabla cant otros bm ps
      → Quitada cant i ps p
      → paginas_usadas ps ≡ suc i
      → EsTabla cant otros (clean_bit bm p.marco) (set ps i (libre p))
        × (libres cant (clean_bit bm p.marco) ≡ suc (libres cant bm))
  sacar_una cant i otros bm ps p v q e = (
    record {
      medida = omega (arith, tam-clean bm p.marco, v.medida);
      largo = omega (arith, length-set ps i (libre p), v.largo);
      prefijo = omega (arith, q.total_menos, q.usadas_menos, v.prefijo);
      debajo = q.debajo;
      duenos = λ j k. ground (
        arith,
        cuenta-libre j ps i p q.hallada q.en_uso,
        v.duenos j k,
        test-clean bm p.marco j,
        v.medida,
        q.acotada,
      );
    },
    libres-clean cant p.marco bm v.medida q.acotada
        (ground (arith, cuenta-pos ps i p q.hallada q.en_uso, v.duenos p.marco q.acotada)),
  )

  -- What `sacar_bucle` promises for n pages.
  pub record Reducida (cant n : ℕ) (otros : ℕ → ℕ) (bm : Bits) (ps : List Pag) (r : Bits × List Pag)
      : Type 0 where
    pub tabla : EsTabla cant otros r.0 r.1
    pub quedan : paginas_usadas r.1 + n ≡ paginas_usadas ps
    pub devueltos : libres cant r.0 ≡ libres cant bm + n
    pub conserva : (j : ℕ) → j < paginas_usadas r.1 → get_elem? r.1 j ≡ get_elem? ps j

  -- With as many pages to give back as asked, the loop ends and does what `Reducida` says.
  pub sacar_bucle-Reducida :
      (cant n i : ℕ) (otros : ℕ → ℕ) (bm : Bits) (ps : List Pag)
      → EsTabla cant otros bm ps
      → paginas_usadas ps ≡ i
      → n ≤ i
      → (r : Bits × List Pag) × (sacar_bucle n bm i ps ≡ some r) × Reducida cant n otros bm ps r
  unfolding sacar_bucle
  sacar_bucle-Reducida cant zero i otros bm ps v e l = (
    (bm, ps),
    refl,
    record { tabla = v; quedan = omega arith; devueltos = omega arith; conserva = λ j k. refl },
  )
  sacar_bucle-Reducida cant (suc n) zero otros bm ps v e l = absurd (omega arith)
  sacar_bucle-Reducida cant (suc n) (suc i) otros bm ps v e l =
      let (p, q) = quitada_lem cant i ps e v.debajo in
      let (v', s) = sacar_una cant i otros bm ps p v q e in
      let (r, eq, a) =
        sacar_bucle-Reducida cant n i otros (clean_bit bm p.marco) (set ps i (libre p)) v'
          q.usadas_menos (omega arith) in
      let dentro : i < length ps = omega (arith, e, v.prefijo, total-le-length ps) in
      (
        r,
        rw (q.hallada, poner-eq-set ps i (libre p) dentro) eq,
        record {
          tabla = a.tabla;
          quedan = omega (arith, a.quedan, q.usadas_menos);
          devueltos = omega (arith, a.devueltos, s);
          conserva = λ j k.
              a.conserva j k
              ∙ get_elem?-set_ne ps (libre p) (omega (arith, a.quedan, q.usadas_menos));
        },
      )

  -- Asked for more pages than the process has, the loop runs into index -1.
  pub sacar_bucle-none :
      (cant n i : ℕ) (otros : ℕ → ℕ) (bm : Bits) (ps : List Pag)
      → EsTabla cant otros bm ps
      → paginas_usadas ps ≡ i
      → i < n
      → sacar_bucle n bm i ps ≡ none
  unfolding sacar_bucle
  sacar_bucle-none cant zero i otros bm ps v e l = absurd (omega arith)
  sacar_bucle-none cant (suc n) zero otros bm ps v e l = refl
  sacar_bucle-none cant (suc n) (suc i) otros bm ps v e l =
      let (p, q) = quitada_lem cant i ps e v.debajo in
      let (v', s) = sacar_una cant i otros bm ps p v q e in
      let dentro : i < length ps = omega (arith, e, v.prefijo, total-le-length ps) in
      rw (q.hallada, poner-eq-set ps i (libre p) dentro)
        (sacar_bucle-none cant n i otros (clean_bit bm p.marco) (set ps i (libre p)) v'
          q.usadas_menos (omega arith))

  -- `liberar_proceso` gives back exactly the frames of its table.
  pub liberar_bucle-duenos :
      (cant : ℕ) (otros : ℕ → ℕ) (bm : Bits) (ps : List Pag)
      → tam bm ≡ cant
      → Prefijo ps
      → Debajo cant ps
      → ((f : ℕ) → f < cant → otros f + cuenta f ps ≡ uno (test_bit bm f))
      → (tam (liberar_bucle ps bm) ≡ cant)
        × ((f : ℕ) → f < cant → otros f ≡ uno (test_bit (liberar_bucle ps bm) f))
  unfolding liberar_bucle cuenta total paginas_usadas
  liberar_bucle-duenos cant otros bm [] t x d h = (t, λ f l. omega (arith, h f l))
  liberar_bucle-duenos cant otros bm (p ∷ ps) t x d h = elim (Bool-cases p.estado) [
    | inl u ↦
        rw (u, if◌then◌else◌)
          (liberar_bucle-duenos cant otros (clean_bit bm p.marco) ps
            (omega (arith, tam-clean bm p.marco)) (ground arith) d.1
            (λ f l.
              ground
                (arith, h f l, h p.marco (d.0 u), test-clean bm p.marco f, cuenta-le-total f ps)))
    | inr u ↦ rw (u, if◌then◌else◌) (t, λ f l. ground (arith, h f l, cuenta-le-total f ps))
  ]
