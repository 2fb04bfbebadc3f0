-- ===== src/Cpu/Leyes.antt =====
-- What the instructions on registers and the check of interruptions do.
use Prim.Native.String.{String}
use so_1c.Base.{
  ℕ, ◌+◌, ◌^◌, ◌≡◌, ◌≢◌, ◌<◌, refl, ap, sym, ◌∙◌, List, [], ◌∷◌, if◌then◌else◌, ◌==◌, arith, ◌⊎◌,
  inl, inr, Bool-cases, ℕ_discrete,
}
use so_1c.Protocolo.{codigo, interrupcion}
use so_1c.Cpu.{Cpu}
use so_1c.Cpu.Nombres.{set_registro, get_registro, get-set_registro, EnRango, get_registro-lt, u32}
use so_1c.Cpu.Instrucciones.{regs, poner_registro, exe_sum, exe_sub, exe_jnz, add_int}
use so_1c.Cpu.Ciclo.{Interrupcion, atender_interrupcion, atender_interrupciones, avanzar_pc}

-- An interruption for the process.
abbrev pub Para : ℕ → ℕ → Interrupcion → Type 0
Para pid m i = (i.pid ≡ pid) × (i.motivo ≡ m)

-- One of the list suits.
abbrev pub Alguna : (Interrupcion → Type 0) → List Interrupcion → Type 0
Alguna P [] = ⊥
Alguna P (i ∷ is) = P i ⊎ Alguna P is

module _ {M : Type 0} where
  -- `exe_SUB` adds: with every register in its width, whatever the two names, it leaves the CPU as
  -- `exe_SUM` does.
  pub exe_sub-exe_sum :
      (destino origen : String) (c : Cpu M)
      → EnRango (regs c)
      → exe_sub destino origen c ≡ exe_sum destino origen c
  unfolding exe_sub exe_sum
  exe_sub-exe_sum destino origen c h =
      ap (λ (v : ℕ). poner_registro destino v c)
        (omega (arith, get_registro-lt destino h, get_registro-lt origen h))

  -- After `exe_SUM` the register holds what `set_registro` kept of the sum of the two.
  pub get-exe_sum :
      (destino origen : String) (c : Cpu M)
      → let v = add_int (get_registro (regs c) destino) (get_registro (regs c) origen) in
        get_registro (regs (exe_sum destino origen c)) destino ≡ (set_registro (regs c) destino v).1
  unfolding exe_sum poner_registro
  get-exe_sum destino origen c = get-set_registro (regs c) destino _

  -- `exe_JNZ` and the `PC++` that follows it: with a register other than 0 the next instruction is the
  -- one named, and otherwise the one after.
  pub exe_jnz-avanzar_pc :
      (atoi : String → ℕ) (registro numero : String) (c : Cpu M)
      → atoi numero < 2 ^ 32
      → (regs (avanzar_pc (exe_jnz atoi registro numero c))).pc
        ≡ (if get_registro (regs c) registro == 0 then u32 ((regs c).pc + 1) else atoi numero)
  unfolding exe_jnz avanzar_pc poner_registro set_registro
  exe_jnz-avanzar_pc atoi registro numero c h =
      elim (Bool-cases (get_registro (regs c) registro == 0)) [
        | inl z ↦ rw z refl
        | inr z ↦ rw z (omega arith)
      ]

  pub pid-atender : (i : Interrupcion) (c : Cpu M) → (atender_interrupcion i c).pcb ≡ c.pcb
  unfolding atender_interrupcion
  pid-atender i c = ground arith

  sigue-interrupcion :
      (is : List Interrupcion) (c : Cpu M)
      → c.se_va ≡ codigo interrupcion
      → (atender_interrupciones is c).se_va ≡ codigo interrupcion
  unfolding atender_interrupciones atender_interrupcion codigo
  sigue-interrupcion [] c e = e
  sigue-interrupcion (i ∷ is) c e = sigue-interrupcion is (atender_interrupcion i c) (ground arith)

  -- An INTERRUPCION for the running process decides why it leaves the CPU, wherever it stands in the
  -- queue and whatever else is queued or was decided before.
  pub interrupcion_gana :
      (is : List Interrupcion) (c : Cpu M)
      → Alguna (Para c.pcb.pid (codigo interrupcion)) is
      → (atender_interrupciones is c).se_va ≡ codigo interrupcion
  unfolding atender_interrupciones atender_interrupcion
  interrupcion_gana [] c a = absurd a
  interrupcion_gana (i ∷ is) c (inl h) =
      sigue-interrupcion is (atender_interrupcion i c) (ground arith)
  interrupcion_gana (i ∷ is) c (inr h) =
      interrupcion_gana is (atender_interrupcion i c) (rw (pid-atender i c) h)

  ignorada :
      (i : Interrupcion) (c : Cpu M)
      → c.se_va ≢ 0
      → ¬ Para c.pcb.pid (codigo interrupcion) i
      → atender_interrupcion i c ≡ c
  unfolding atender_interrupcion codigo
  ignorada i c n a = elim (ℕ_discrete c.pcb.pid i.pid) [
    | yes p ↦ elim (ℕ_discrete i.motivo 5) [ yes q ↦ absurd (a (sym p, q)) | no q ↦ ground arith ]
    | no p ↦ ground arith
  ]

  -- The end of the quantum never replaces a reason that the instruction gave: with no INTERRUPCION for
  -- the process in the queue, a reason that was set stays.
  pub motivo_queda :
      (is : List Interrupcion) (c : Cpu M)
      → c.se_va ≢ 0
      → ¬ Alguna (Para c.pcb.pid (codigo interrupcion)) is
      → (atender_interrupciones is c).se_va ≡ c.se_va
  unfolding atender_interrupciones atender_interrupcion codigo
  motivo_queda [] c n a = refl
  motivo_queda (i ∷ is) c n a =
      ap (λ (d : Cpu M). (atender_interrupciones is d).se_va) (ignorada i c n (λ p. a (inl p)))
      ∙ motivo_queda is c n (λ x. a (inr x))
