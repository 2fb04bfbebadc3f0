-- ===== src/Memoria/Marcos.antt =====
-- Frames and page tables: buscar_marco, the loops of aniadir_paginas, sacar_paginas and
-- liberar_proceso, tam_proc and nuevaTablaPaginas (utils/src/memoria/memoria.c).
use so_1c.Base.{
  ℕ, zero, suc, Bool, true, false, List, [], ◌∷◌, Option, none, some, ◌>>=◌, poner, get_elem?,
  if◌then◌else◌,
}
use so_1c.BitArray.{BitArray}
use so_1c.Memoria.{Pag}

-- `nuevaTablaPaginas`: n unused entries. The frames are not initialised by the code; 0 stands for them.
unfoldable pub nueva_tabla_paginas : ℕ → List Pag
nueva_tabla_paginas zero = []
nueva_tabla_paginas (suc n) = record { marco = 0; estado = false } ∷ nueva_tabla_paginas n

-- The number of pages that `tam_proc` counts: the used entries before the first unused one.
unfoldable pub paginas_usadas : List Pag → ℕ
paginas_usadas [] = zero
paginas_usadas (p ∷ ps) = if p.estado then suc (paginas_usadas ps) else zero

module _ {Bits : Type 0} ⦃b : BitArray Bits⦄ where
  open b use {test_bit, set_bit, clean_bit}

  -- The `while` of `buscar_marco` at index i, with that many indices left.
  unfoldable pub buscar_desde : ℕ → ℕ → Bits → Option (ℕ × Bits)
  buscar_desde zero i bm = none
  buscar_desde (suc n) i bm =
      if test_bit bm i then buscar_desde n (suc i) bm else some (i, set_bit bm i)

  -- `buscar_marco`; `none` is -1.
  unfoldable pub buscar_marco : ℕ → Bits → Option (ℕ × Bits)
  unfolding buscar_desde
  buscar_marco cant bm = buscar_desde cant 0 bm

  -- The loop of `aniadir_paginas`: `false` is the return after OOM.
  unfoldable pub aniadir_bucle : ℕ → ℕ → Bits → ℕ → List Pag → Option (Bool × Bits × List Pag)
  aniadir_bucle cant zero bm i ps = some (true, bm, ps)
  aniadir_bucle cant (suc n) bm i ps = elim (buscar_marco cant bm) [
    | none ↦ some (false, bm, ps)
    | some (m, bm') ↦ poner ps i (record { marco = m; estado = true }) >>= λ ps'.
        aniadir_bucle cant n bm' (suc i) ps'
  ]

  -- The loop of `sacar_paginas`, where `i` is the source's index plus one: it faults at -1.
  unfoldable pub sacar_bucle : ℕ → Bits → ℕ → List Pag → Option (Bits × List Pag)
  sacar_bucle zero bm i ps = some (bm, ps)
  sacar_bucle (suc n) bm zero ps = none
  sacar_bucle (suc n) bm (suc i) ps = get_elem? ps i >>= λ p.
      poner ps i (record p { estado = false }) >>= λ ps'. sacar_bucle n (clean_bit bm p.marco) i ps'

  -- The loop of `liberar_proceso`.
  unfoldable pub liberar_bucle : List Pag → Bits → Bits
  liberar_bucle [] bm = bm
  liberar_bucle (p ∷ ps) bm = if p.estado then liberar_bucle ps (clean_bit bm p.marco) else bm
