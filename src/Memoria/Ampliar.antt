-- ===== src/Memoria/Ampliar.antt =====
-- The loops of aniadir_paginas and sacar_paginas against the frames that other processes own.
use so_1c.Base.{
  ℕ, zero, suc, ◌+◌, ◌-◌, ◌<◌, ◌≡◌, refl, Bool, true, false, List, none, some, arith, uno, suma-le,
  min, leb, length, set, get_elem?, get_elem?-set_ne, ◌∙◌, length-set, Option-cases, inl, inr, ◌⊎◌,
}
use so_1c.BitArray.{BitArray}
use so_1c.Memoria.{Pag}
use so_1c.Memoria.Marcos.{paginas_usadas, buscar_marco, aniadir_bucle}
use so_1c.Memoria.Buscar.{
  libres, Primero, buscar_marco-Primero, libres-set, libres-zero, libres-pos, ocupados-add-libres,
}
use so_1c.Memoria.Tabla.{
  cuenta, total, Prefijo, Debajo, usada, poner-eq-set, usadas-set, set-Prefijo, cuenta-set,
  set-Debajo, suma-cuenta,
}

module _ {Bits : Type 0} ⦃b : BitArray Bits⦄ where
  open b use {tam, test_bit, set_bit, clean_bit, tam-set, tam-clean, test-set, test-clean}

  -- A table beside the frames of others, `otros f` of which hold the frame f: a frame is marked
  -- exactly when it has an owner, and then one.
  pub record EsTabla (cant : ℕ) (otros : ℕ → ℕ) (bm : Bits) (ps : List Pag) : Type 0 where
    pub medida : tam bm ≡ cant
    pub largo : length ps ≡ cant
    pub prefijo : Prefijo ps
    pub debajo : Debajo cant ps
    pub duenos : (f : ℕ) → f < cant → otros f + cuenta f ps ≡ uno (test_bit bm f)

  -- A process cannot own all the frames while one is free.
  usadas-lt :
      (cant : ℕ) (otros : ℕ → ℕ) (bm : Bits) (ps : List Pag) (m : ℕ)
      → EsTabla cant otros bm ps
      → m < cant
      → test_bit bm m ≡ false
      → total ps < cant
  usadas-lt cant otros bm ps m v l f = omega (
    arith,
    suma-cuenta cant ps v.debajo,
    suma-le cant (λ k. cuenta k ps) (λ k. uno (test_bit bm k)) (λ k j. omega (arith, v.duenos k j)),
    ocupados-add-libres cant bm,
    libres-pos cant m bm l f,
  )

  -- One round of `aniadir_paginas`.
  agregar-EsTabla :
      (cant : ℕ) (otros : ℕ → ℕ) (bm : Bits) (ps : List Pag) (m : ℕ)
      → EsTabla cant otros bm ps
      → m < cant
      → test_bit bm m ≡ false
      → (paginas_usadas ps < length ps)
        × EsTabla cant otros (set_bit bm m) (set ps (paginas_usadas ps) (usada m))
        × (paginas_usadas (set ps (paginas_usadas ps) (usada m)) ≡ suc (paginas_usadas ps))
  agregar-EsTabla cant otros bm ps m v l f = (
    hay,
    record {
      medida = omega (arith, tam-set bm m, v.medida);
      largo = omega (arith, length-set ps (paginas_usadas ps) (usada m), v.largo);
      prefijo = set-Prefijo m ps (paginas_usadas ps) refl hay v.prefijo;
      debajo = set-Debajo m cant ps (paginas_usadas ps) l v.debajo;
      duenos = λ j k. ground (
        arith,
        cuenta-set m j ps (paginas_usadas ps) refl hay,
        v.duenos j k,
        test-set bm m j,
        v.medida,
      );
    },
    usadas-set m ps (paginas_usadas ps) refl hay v.prefijo,
  )
    where
      hay : paginas_usadas ps < length ps
      hay = omega (arith, usadas-lt cant otros bm ps m v l f, v.prefijo, v.largo)

  -- What `aniadir_bucle` promises for n pages: success exactly when n frames are free, otherwise
  -- every free frame is taken; the old entries stay.
  pub record Ampliada (cant n : ℕ) (otros : ℕ → ℕ) (bm : Bits) (ps : List Pag)
      (r : Bool × Bits × List Pag) : Type 0 where
    pub tabla : EsTabla cant otros r.1 r.2
    pub exito : r.0 ≡ leb n (libres cant bm)
    pub crecio : paginas_usadas r.2 ≡ paginas_usadas ps + min n (libres cant bm)
    pub quedan : libres cant r.1 ≡ libres cant bm - n
    pub conserva : (j : ℕ) → j < paginas_usadas ps → get_elem? r.2 j ≡ get_elem? ps j

  aniadir-none :
      (cant n i : ℕ) (bm : Bits) (ps : List Pag)
      → buscar_marco cant bm ≡ none
      → aniadir_bucle cant (suc n) bm i ps ≡ some (false, bm, ps)
  unfolding aniadir_bucle
  aniadir-none cant n i bm ps e = rw (e, aniadir_bucle)

  aniadir-some :
      (cant n i m : ℕ) (bm bm' : Bits) (ps : List Pag)
      → buscar_marco cant bm ≡ some (m, bm')
      → i < length ps
      → aniadir_bucle cant (suc n) bm i ps ≡ aniadir_bucle cant n bm' (suc i) (set ps i (usada m))
  unfolding aniadir_bucle
  aniadir-some cant n i m bm bm' ps e l = ground (arith, poner-eq-set ps i (usada m) l)

  -- The loop ends, faults nowhere, and does what `Ampliada` says.
  pub aniadir_bucle-Ampliada :
      (cant n : ℕ) (otros : ℕ → ℕ) (bm : Bits) (ps : List Pag)
      → EsTabla cant otros bm ps
      → (r : Bool × Bits × List Pag) × (aniadir_bucle cant n bm (paginas_usadas ps) ps ≡ some r)
        × Ampliada cant n otros bm ps r
  unfolding aniadir_bucle
  aniadir_bucle-Ampliada cant zero otros bm ps v = (
    (true, bm, ps),
    refl,
    record {
      tabla = v;
      exito = ground arith;
      crecio = omega arith;
      quedan = omega arith;
      conserva = λ j k. refl;
    },
  )
  aniadir_bucle-Ampliada cant (suc n) otros bm ps v =
      segun (Option-cases (buscar_marco cant bm)) (buscar_marco-Primero cant bm) (λ m.
        aniadir_bucle-Ampliada cant n otros (set_bit bm m) (set ps (paginas_usadas ps) (usada m)))
    where
      i : ℕ
      i = paginas_usadas ps

      Meta : Type 0
      Meta =
          (r : Bool × Bits × List Pag) × (aniadir_bucle cant (suc n) bm i ps ≡ some r)
          × Ampliada cant (suc n) otros bm ps r

      lleno : libres cant bm ≡ 0 → Ampliada cant (suc n) otros bm ps (false, bm, ps)
      lleno z = record {
        tabla = v;
        exito = ground arith;
        crecio = omega arith;
        quedan = omega arith;
        conserva = λ j k. refl;
      }

      segun :
          (buscar_marco cant bm ≡ none) ⊎ ((a : ℕ × Bits) × (buscar_marco cant bm ≡ some a))
          → Primero cant 0 bm (buscar_marco cant bm)
          → ((m : ℕ)
              → EsTabla cant otros (set_bit bm m) (set ps i (usada m))
              → (r : Bool × Bits × List Pag) × (aniadir_bucle cant n
                    (set_bit bm m)
                    (paginas_usadas (set ps i (usada m)))
                    (set ps i (usada m))
                  ≡ some r)
                × Ampliada cant n otros (set_bit bm m) (set ps i (usada m)) r)
          → Meta
      segun (inl q) p ih = (
        (false, bm, ps),
        aniadir-none cant n i bm ps q,
        lleno (libres-zero cant bm (λ j l. (rw q at p) j (omega arith) l)),
      )
      segun (inr ((m, bm'), q)) p ih =
          let (l, f, e, antes) = rw q at p in
          let (hay, v', u) = agregar-EsTabla cant otros bm ps m v l f in
          let (r, eq, a) = ih m v' in
          (
            r,
            aniadir-some cant n i m bm bm' ps q hay ∙ rw (e, ← u) eq,
            record {
              tabla = a.tabla;
              exito = ground (arith, a.exito, libres-set cant m bm v.medida l f);
              crecio = omega (arith, a.crecio, u, libres-set cant m bm v.medida l f);
              quedan = omega (arith, a.quedan, libres-set cant m bm v.medida l f);
              conserva = λ j k.
                  a.conserva j (omega (arith, u)) ∙ get_elem?-set_ne ps (usada m) (omega arith);
            },
          )
