-- ===== src/Memoria/Carga.antt =====
-- The reading of a process's instructions (memoria.c: cargar_proceso, queue_a_array).
use so_1c.Base.{
  ℕ, zero, suc, ◌<◌, ◌≤◌, ◌^◌, ◌≡◌, refl, ap, true, List, [], ◌∷◌, ◌++◌, Option, none, some, ◌>>=◌,
  if◌then◌else◌, ltb, get_elem?, length, length-append, arith,
}
use so_1c.BitArray.{BitArray}
use so_1c.Protocolo.{texto, puntero, nuevo_proceso, fetch}
use so_1c.Memoria.{Memoria, Proceso, deref}
use so_1c.Memoria.Marcos.{nueva_tabla_paginas}
use so_1c.Memoria.Atender.{recibir_proceso, buscar_instruccion}
use so_1c.Lectura.{
  fgets, cortar, Limpia, Caben, unir, fgets-linea, fgets-fin, cortar-linea, cortar-fin, length-unir,
}

-- What is in the buffer after `fgets`: where it read nothing, what was there before.
unfoldable pub en_buffer : List ℕ → List ℕ → List ℕ
en_buffer antes [] = antes
en_buffer antes (c ∷ cs) = c ∷ cs

-- The loop of `cargar_proceso`, for so many rounds at most: the instructions in their order.
unfoldable pub cargar_bucle : ℕ → List ℕ → List ℕ → List (List ℕ)
unfolding en_buffer cortar
cargar_bucle zero bs antes = []
cargar_bucle (suc m) bs antes =
    let l = fgets 49 bs in
    let ahora = en_buffer antes l.texto in
    let otras = cargar_bucle m l.resto ahora in cortar ahora ∷ (if l.fin then [] else otras)

-- `queue_a_array`: the size and the index are of 16 bits, and where they do not hold it the array is
-- too short.
unfoldable pub queue_a_array : List (List ℕ) → Option (List (List ℕ))
queue_a_array is = if ltb (length is) (2 ^ 15) then some is else none

-- `cargar_proceso`, with the text that malloc left in the buffer, and a NULL where `fopen` fails.
unfoldable pub cargar_proceso :
    (List ℕ → Option (List ℕ)) → List ℕ → List ℕ → Option (Option (List (List ℕ)))
cargar_proceso abrir basura nombre = elim (abrir nombre) [
  | none ↦ some none
  | some bs ↦ queue_a_array (cargar_bucle (suc (length bs)) bs basura) >>= λ is. some (some is)
]

-- The last instruction: the text after the last line break or, with none, the line before once more;
-- with no line, what the buffer held.
unfoldable pub ultima : List ℕ → List (List ℕ) → List ℕ → List ℕ
ultima antes [] [] = antes
ultima antes [] (c ∷ cs) = c ∷ cs
ultima antes (l ∷ ls) u = ultima l ls u

en_buffer-linea : (antes l : List ℕ) → en_buffer antes (l ++ 10 ∷ []) ≡ l ++ 10 ∷ []
unfolding en_buffer
en_buffer-linea antes [] = refl
en_buffer-linea antes (c ∷ l) = refl

cortar-ultima :
    (antes u : List ℕ) → Limpia u → cortar (en_buffer antes u) ≡ ultima (cortar antes) [] u
unfolding en_buffer ultima
cortar-ultima antes [] c = refl
cortar-ultima antes (x ∷ u) c = cortar-fin (x ∷ u) c

cargar_bucle-unir :
    (m : ℕ) (ls : List (List ℕ)) (u antes : List ℕ)
    → length ls ≤ m
    → Caben ls
    → Limpia u
    → length u ≤ 48
    → cargar_bucle (suc m) (unir ls u) antes ≡ ls ++ ultima (cortar antes) ls u ∷ []
unfolding cargar_bucle unir Caben ultima
cargar_bucle-unir m [] u antes k c d h =
    rw (fgets-fin 49 u d (omega (arith, h)), cortar-ultima antes u d) refl
cargar_bucle-unir zero (l ∷ ls) u antes k c d h = absurd (omega (arith, k))
cargar_bucle-unir (suc m) (l ∷ ls) u antes k c d h =
    let e = cargar_bucle-unir m ls u (l ++ 10 ∷ []) (omega (arith, k)) c.2 d h in
    rw
      (
        fgets-linea 49 l (unir ls u) c.0 (omega (arith, c.1)),
        en_buffer-linea antes l,
        cortar-linea l c.0,
      )
      (ap (λ is. l ∷ is) (rw (cortar-linea l c.0) at e))

en_array : (is : List (List ℕ)) → length is < 2 ^ 15 → queue_a_array is ≡ some is
unfolding queue_a_array
en_array is h = let q : ltb (length is) (2 ^ 15) ≡ true = ground (arith, h) in rw q refl

cargar_proceso-unir :
    (abrir : List ℕ → Option (List ℕ)) (basura nombre : List ℕ) (ls : List (List ℕ)) (u : List ℕ)
    → abrir nombre ≡ some (unir ls u)
    → Caben ls
    → Limpia u
    → length u ≤ 48
    → suc (length ls) < 2 ^ 15
    → cargar_proceso abrir basura nombre ≡ some (some (ls ++ ultima (cortar basura) ls u ∷ []))
unfolding cargar_proceso
cargar_proceso-unir abrir basura nombre ls u e c d h n =
    let fin = ultima (cortar basura) ls u in
    let w = cargar_bucle-unir (length (unir ls u)) ls u basura (length-unir ls u) c d h in
    let q = en_array (ls ++ fin ∷ []) (omega (arith, n, length-append ls (fin ∷ []))) in
    rw (cargar_proceso, e, w, q) refl

deref-push :
    (ps : List (Option Proceso)) (p : Option Proceso) → deref (ps ++ p ∷ []) (suc (length ps)) ≡ p
deref-push [] p = refl
deref-push (x ∷ ps) p = deref-push ps p

module _ {Bits : Type 0} ⦃b : BitArray Bits⦄ where
  -- The kernel asks for a process of a file whose lines have no NUL and at most 48 characters, less than
  -- 2^15 - 1 of them. The memory answers the pointer to a new process, and while the CPU runs that one, each
  -- fetch of n answers line n of the file: those that end, then the text after the last line break or, with
  -- none, the line before once more.
  pub buscar_instruccion-recibir_proceso :
      (path basura nombre : List ℕ) (abrir : List ℕ → Option (List ℕ))
      (cargar : List ℕ → Option (List (List ℕ))) (s : Memoria Bits) (pid : ℕ) (ls : List (List ℕ))
      (u : List ℕ)
      → cargar_proceso abrir basura (path ++ nombre) ≡ some (cargar (path ++ nombre))
      → abrir (path ++ nombre) ≡ some (unir ls u)
      → Caben ls
      → Limpia u
      → length u ≤ 48
      → suc (length ls) < 2 ^ 15
      → (s' : Memoria Bits) × (recibir_proceso path cargar s nombre pid
          ≡ some (puntero nuevo_proceso (suc (length s.procesos)) ∷ [], s'))
        × ((n : ℕ) (i : List ℕ)
            → get_elem? (ls ++ ultima (cortar basura) ls u ∷ []) n ≡ some i
            → buscar_instruccion (record s' { actual = suc (length s.procesos) }) n
              ≡ some (texto fetch i ∷ [], record s' { actual = suc (length s.procesos) }))
  unfolding recibir_proceso buscar_instruccion
  buscar_instruccion-recibir_proceso path basura nombre abrir cargar s pid ls u e f c d h n =
      let is = ls ++ ultima (cortar basura) ls u ∷ [] in
      let w : cargar (path ++ nombre) ≡ some is =
        cc (cargar_proceso-unir abrir basura (path ++ nombre) ls u f c d h n) in
      let p : Proceso = record {
        pid = pid;
        instrucciones = is;
        paginas = nueva_tabla_paginas s.cant_pag;
      } in
      (
        record s { procesos = s.procesos ++ some p ∷ [] },
        rw (recibir_proceso, w) refl,
        λ m i g. rw (deref-push s.procesos (some p), g) refl,
      )
