-- ===== src/Cpu/Anchos.antt =====
-- The registers that cuanto_leo knows, and their widths (utils/src/cpu/cpu.c).
use Prim.Native.String.{String}
use text.Mathlib.Text.{◌==◌ as str_eq}
use text.Mathlib.TextEquality.{eq_iff}
use so_1c.Base.{ℕ, ◌^◌, ◌≡◌, ◌<◌, sym, subst, true, Option, some, caso, arith, ◌⊎◌}
use so_1c.Cpu.{Registros}
use so_1c.Cpu.Nombres.{set_registro, get_registro, cuanto_leo, EnRango}

-- What holds of each of the eight names holds of a name of known size.
por_nombre :
    (P : String → ℕ → Type 0)
    → P "AX" 1
    → P "BX" 1
    → P "CX" 1
    → P "DX" 1
    → P "EAX" 4
    → P "EBX" 4
    → P "ECX" 4
    → P "EDX" 4
    → (n : String) (w : ℕ) → cuanto_leo n ≡ some w
    → P n w
unfolding cuanto_leo
por_nombre P p0 p1 p2 p3 p4 p5 p6 p7 n w =
    caso Da (str_eq n "AX") (λ e h. lleva "AX" 1 p0 e (cc))
      λ _.
        caso Da (str_eq n "BX") (λ e h. lleva "BX" 1 p1 e (cc))
          λ _.
            caso Da (str_eq n "CX") (λ e h. lleva "CX" 1 p2 e (cc))
              λ _.
                caso Da (str_eq n "DX") (λ e h. lleva "DX" 1 p3 e (cc))
                  λ _.
                    caso Da (str_eq n "EAX") (λ e h. lleva "EAX" 4 p4 e (cc))
                      λ _.
                        caso Da (str_eq n "EBX") (λ e h. lleva "EBX" 4 p5 e (cc))
                          λ _.
                            caso Da (str_eq n "ECX") (λ e h. lleva "ECX" 4 p6 e (cc))
                              λ _.
                                caso Da (str_eq n "EDX") (λ e h. lleva "EDX" 4 p7 e (cc))
                                  (λ _ h. cc)
  where
    Da : Option ℕ → Type 0
    Da o = o ≡ some w → P n w

    lleva : (m : String) (k : ℕ) → P m k → str_eq n m ≡ true → k ≡ w → P n w
    lleva m k p e i = subst (P n) i (subst (λ s. P s k) (sym ((eq_iff n m).0 e)) p)

pub cuanto_leo-cases : (n : String) (w : ℕ) → cuanto_leo n ≡ some w → (w ≡ 1) ⊎ (w ≡ 4)
unfolding cuanto_leo
cuanto_leo-cases n w h = ground arith

pub set_registro-cuanto :
    (r : Registros) (v : ℕ) (n : String) (w : ℕ)
    → cuanto_leo n ≡ some w
    → v < 256 ^ w
    → (set_registro r n v).1 ≡ v
unfolding set_registro
set_registro-cuanto r v =
    por_nombre (λ n w. v < 256 ^ w → (set_registro r n v).1 ≡ v) (λ h. omega arith)
      (λ h. omega arith) (λ h. omega arith) (λ h. omega arith) (λ h. omega arith) (λ h. omega arith)
      (λ h. omega arith) (λ h. omega arith)

pub get_registro-cuanto :
    (r : Registros)
    → EnRango r
    → (n : String) (w : ℕ) → cuanto_leo n ≡ some w
    → get_registro r n < 256 ^ w
unfolding get_registro
get_registro-cuanto r h =
    por_nombre (λ n w. get_registro r n < 256 ^ w) h.ax_lt h.bx_lt h.cx_lt h.dx_lt h.eax_lt h.ebx_lt
      h.ecx_lt h.edx_lt
