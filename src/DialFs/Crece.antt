-- ===== src/DialFs/Crece.antt =====
-- truncar_fs where the file grows by compacting (utils/src/entradasalida/entradasalida.c).
use Prim.Native.String.{String}
use text.Mathlib.Text.{◌==◌ as str_eq}
use text.Mathlib.TextEquality.{eq_iff}
use so_1c.Base.{
  ℕ, ◌+◌, ◌*◌, ◌≡◌, ◌≤◌, ◌<◌, inl, inr, refl, ap, ◌∙◌, Bool, true, false, not, List, [], ◌∷◌, some,
  if◌then◌else◌, uno, length, arith, Bool-cases, suma-congr,
}
use so_1c.BitArray.{BitArray}
use so_1c.Memoria.Buscar.{libres}
use so_1c.DialFs.{Fs, EntradaFat, buscar_entrada, cambiar_entrada, limpiar_bits}
use so_1c.DialFs.Bits.{en_tramo, test-limpiar_bits, tam-limpiar_bits}
use so_1c.DialFs.Truncar.{bloques_de}
use so_1c.DialFs.Nombres.{nombres, esta, Distintos}
use so_1c.DialFs.Vista.{Todas, Todas-map, archivos, ocupan, cuantos}
use so_1c.DialFs.Marcha.{Ajena, Marcha-libre}
use so_1c.DialFs.Compacta.{Entero, Junto, Formado, Marcha-Formado}
use so_1c.DialFs.Cuenta.{suma-ocupan, suma-libres, libres-bajos}

-- The other names.
abbrev pub otro : String → String → Bool
otro n m = not (str_eq m n)

mismo : {A : Type 0} {x y : A} → some x ≡ some y → x ≡ y
mismo e = cc

sin_nombre :
    (n : String) (es : List EntradaFat)
    → esta n (nombres es) ≡ false
    → Todas (λ d. str_eq d.nombre n ≡ false) es
unfolding esta nombres
sin_nombre n [] h = tt
sin_nombre n (x ∷ es) h = elim (Bool-cases (str_eq x.nombre n)) [
  | inl t ↦ absurd (cc (rw t at h))
  | inr t ↦ (t, sin_nombre n es (rw t at h))
]

-- The only entry of a name.
pub unico :
    (n : String) (es : List EntradaFat) (e : EntradaFat)
    → Distintos (nombres es)
    → buscar_entrada n es ≡ some e
    → Todas (λ d. str_eq d.nombre n ≡ true → d ≡ e) es
unfolding Distintos nombres buscar_entrada
unico n [] e d h = tt
unico n (x ∷ es) e d h = elim (Bool-cases (str_eq x.nombre n)) [
  | inl t ↦
      let k : esta n (nombres es) ≡ false = rw (← (eq_iff x.nombre n).0 t) d.0 in
      (
        λ _. mismo (rw t at h),
        Todas-map (λ y. str_eq y.nombre n ≡ false) (λ y. str_eq y.nombre n ≡ true → y ≡ e) es
            (λ y f g. absurd (cc)) (sin_nombre n es k),
      )
  | inr t ↦ (λ g. absurd (cc), unico n es e d.1 (rw t at h))
]

-- A change of a file's entry, for the others and for itself.
pub archivos-cambiar :
    (n : String) (c l t : ℕ) (m : List ℕ) (es : List EntradaFat)
    → archivos (otro n) t m (cambiar_entrada n c l es) ≡ archivos (otro n) t m es
unfolding archivos cambiar_entrada
archivos-cambiar n c l t m [] = refl
archivos-cambiar n c l t m (x ∷ es) = elim (Bool-cases (str_eq x.nombre n)) [
  | inl e ↦ rw (e, archivos, e) refl
  | inr e ↦ rw (e, archivos, e, archivos-cambiar n c l t m es) refl
]

pub ocupan-cambiar :
    (n : String) (c l t : ℕ) (es : List EntradaFat) (j : ℕ)
    → ocupan (otro n) t (cambiar_entrada n c l es) j ≡ ocupan (otro n) t es j
unfolding ocupan cambiar_entrada
ocupan-cambiar n c l t [] j = refl
ocupan-cambiar n c l t (x ∷ es) j = elim (Bool-cases (str_eq x.nombre n)) [
  | inl e ↦ rw (e, ocupan, e) refl
  | inr e ↦ rw (e, ocupan, e, ocupan-cambiar n c l t es j) refl
]

pub cambiar-Entero :
    (n : String) (c l t m : ℕ) (es : List EntradaFat)
    → Todas (Entero (otro n) t m) es
    → Todas (Entero (otro n) t m) (cambiar_entrada n c l es)
unfolding cambiar_entrada
cambiar-Entero n c l t m [] a = tt
cambiar-Entero n c l t m (x ∷ es) a = elim (Bool-cases (str_eq x.nombre n)) [
  | inl e ↦ rw e (λ z. absurd (cc), a.1)
  | inr e ↦ rw e (a.0, cambiar-Entero n c l t m es a.1)
]

pub buscar-cambiar :
    (n : String) (c l : ℕ) (es : List EntradaFat)
    → esta n (nombres es) ≡ true
    → buscar_entrada n (cambiar_entrada n c l es)
      ≡ some (record { nombre = n; bloque_inicial = c; largo = l })
unfolding buscar_entrada cambiar_entrada esta nombres
buscar-cambiar n c l [] h = cc
buscar-cambiar n c l (x ∷ es) h = elim (Bool-cases (str_eq x.nombre n)) [
  | inl e ↦ rw (e, buscar_entrada, e, (eq_iff x.nombre n).0 e) refl
  | inr e ↦ rw (e, buscar_entrada, e) (buscar-cambiar n c l es (rw e at h))
]

module _ {Bits : Type 0} ⦃b : BitArray Bits⦄ where
  open b use {tam, test_bit}

  -- Each used block is of one file, the files fit, and none is empty but the one of an entry, which then has
  -- one block.
  pub record Repartido (s : Fs Bits) (e : EntradaFat) : Type 0 where
    pub medida : 0 < s.tam_bloque
    pub bits : s.cant_bloques ≤ tam s.bitmap
    pub bytes : s.cant_bloques * s.tam_bloque ≤ length s.bloques
    pub cuenta :
        (j : ℕ)
        → j < s.cant_bloques
        → ocupan (otro e.nombre) s.tam_bloque s.fat j
            + uno (en_tramo (bloques_de s.tam_bloque e.largo) e.bloque_inicial j)
          ≡ uno (test_bit s.bitmap j)
    pub caben : Todas (Entero (otro e.nombre) s.tam_bloque s.cant_bloques) s.fat
    pub cabe : e.bloque_inicial + bloques_de s.tam_bloque e.largo ≤ s.cant_bloques

  -- Files and free blocks fill the disk.
  Formado-libres :
      (v : String → Bool) (s : Fs Bits)
      → Formado v s
      → cuantos v s.tam_bloque s.fat + libres s.cant_bloques s.bitmap ≡ s.cant_bloques
  Formado-libres v s w = omega (
    arith,
    suma-libres s.cant_bloques s.bitmap,
    suma-ocupan v s.tam_bloque s.cant_bloques s.fat w.caben,
    suma-congr s.cant_bloques (ocupan v s.tam_bloque s.fat) (λ k. uno (test_bit s.bitmap k))
        w.cuenta,
  )

  -- The blocks that are left after compacting.
  pub Junto-libres :
      (v : String → Bool) (s r : Fs Bits) (h : ℕ)
      → Formado v s
      → Junto v s r h
      → h + libres s.cant_bloques s.bitmap ≡ s.cant_bloques
  Junto-libres v s r h w j = omega (
    arith,
    Formado-libres v s w,
    Formado-libres v r (Marcha-Formado v r h r.cant_bloques j.marcha),
    libres-bajos r.cant_bloques h r.bitmap j.marcha.orden j.marcha.bajos
        (λ k x y. Marcha-libre k j.marcha x y),
    j.mismos.pesan,
    ap (λ t. cuantos v t r.fat) j.mismos.medida,
    j.mismos.cantidad,
  )

  -- The file system without the blocks of a file.
  abbrev pub sin_archivo : Fs Bits → EntradaFat → Fs Bits
  sin_archivo s e =
      let a = bloques_de s.tam_bloque e.largo in
      record s {
        bitmap = limpiar_bits a e.bloque_inicial (limpiar_bits a e.bloque_inicial s.bitmap);
      }

  pub una_vez :
      (s : Fs Bits) (e : EntradaFat) (j : ℕ)
      → Repartido s e
      → j < s.cant_bloques
      → let a = bloques_de s.tam_bloque e.largo in
        test_bit (limpiar_bits a e.bloque_inicial s.bitmap) j
        ≡ (if en_tramo a e.bloque_inicial j then false else test_bit s.bitmap j)
  una_vez s e j w l =
      test-limpiar_bits (bloques_de s.tam_bloque e.largo) e.bloque_inicial j s.bitmap
        (omega (arith, w.cabe, w.bits)) (omega (arith, w.bits))

  pub dos_veces :
      (s : Fs Bits) (e : EntradaFat) (j : ℕ)
      → Repartido s e
      → j < s.cant_bloques
      → let a = bloques_de s.tam_bloque e.largo in
        test_bit (sin_archivo s e).bitmap j ≡ test_bit (limpiar_bits a e.bloque_inicial s.bitmap) j
  dos_veces s e j w l =
      let a = bloques_de s.tam_bloque e.largo in
      let bm = limpiar_bits a e.bloque_inicial s.bitmap in
      let z = tam-limpiar_bits a e.bloque_inicial s.bitmap in
      test-limpiar_bits a e.bloque_inicial j bm (omega (arith, w.cabe, w.bits, z))
        (omega (arith, w.bits, z))
      ∙ ground (arith, una_vez s e j w l)

  pub sin_archivo-Formado :
      (s : Fs Bits) (e : EntradaFat) → Repartido s e → Formado (otro e.nombre) (sin_archivo s e)
  sin_archivo-Formado s e w =
      let a = bloques_de s.tam_bloque e.largo in
      record {
        medida = w.medida;
        bits = omega (
          arith,
          w.bits,
          tam-limpiar_bits a e.bloque_inicial s.bitmap,
          tam-limpiar_bits a e.bloque_inicial (limpiar_bits a e.bloque_inicial s.bitmap),
        );
        bytes = w.bytes;
        cuenta = λ j l. ground (arith, w.cuenta j l, una_vez s e j w l, dos_veces s e j w l);
        caben = w.caben;
      }

  -- The entry of the file begins at a free block.
  pub sin_archivo-Ajena :
      (s : Fs Bits) (e : EntradaFat)
      → Repartido s e
      → 0 < bloques_de s.tam_bloque e.largo
      → Todas (λ d. str_eq d.nombre e.nombre ≡ true → d ≡ e) s.fat
      → Todas (Ajena (otro e.nombre) s.cant_bloques 0 (sin_archivo s e).bitmap) s.fat
  sin_archivo-Ajena s e w p =
      Todas-map (λ d. str_eq d.nombre e.nombre ≡ true → d ≡ e)
        (Ajena (otro e.nombre) s.cant_bloques 0 (sin_archivo s e).bitmap) s.fat
        λ d f z x y.
          let q = ap (λ (g : EntradaFat). g.bloque_inicial) (f (es_ese d z)) in
          ground (arith, dos_veces s e d.bloque_inicial w y, una_vez s e d.bloque_inicial w y, q, p)
    where
      es_ese : (d : EntradaFat) → otro e.nombre d.nombre ≡ false → str_eq d.nombre e.nombre ≡ true
      es_ese d z = elim (Bool-cases (str_eq d.nombre e.nombre)) [ inl t ↦ t | inr t ↦ absurd (cc) ]
