-- ===== src/Cpu/Nombres.antt =====
-- set_registro, get_registro and cuanto_leo (utils/src/cpu/cpu.c): the registers by name.
use Prim.Native.String.{String}
use text.Mathlib.Text.{◌==◌ as str_eq}
use so_1c.Base.{ℕ, ◌%◌, ◌^◌, ◌≡◌, ◌<◌, Option, none, some, if◌then◌else◌, caso, arith}
use so_1c.Protocolo.{menos_uno}
use so_1c.Cpu.{Registros}

-- Conversion to `uint8_t` and `uint32_t`.
abbrev pub u8 : ℕ → ℕ
u8 v = v % 2 ^ 8

abbrev pub u32 : ℕ → ℕ
u32 v = v % 2 ^ 32

-- `set_registro`: the registers, and the value returned. An unknown name changes nothing.
unfoldable pub set_registro : Registros → String → ℕ → Registros × ℕ
set_registro r n v =
    if str_eq n "PC"
    then (record r { pc = u32 v }, u32 v)
    else if str_eq n "AX"
    then (record r { ax = u8 v }, u8 v)
    else if str_eq n "BX"
    then (record r { bx = u8 v }, u8 v)
    else if str_eq n "CX"
    then (record r { cx = u8 v }, u8 v)
    else if str_eq n "DX"
    then (record r { dx = u8 v }, u8 v)
    else if str_eq n "EAX"
    then (record r { eax = u32 v }, u32 v)
    else if str_eq n "EBX"
    then (record r { ebx = u32 v }, u32 v)
    else if str_eq n "ECX"
    then (record r { ecx = u32 v }, u32 v)
    else if str_eq n "EDX"
    then (record r { edx = u32 v }, u32 v)
    else if str_eq n "SI"
    then (record r { si = u32 v }, u32 v)
    else if str_eq n "DI"
    then (record r { di = u32 v }, u32 v)
    else (r, menos_uno)

-- `get_registro`
unfoldable pub get_registro : Registros → String → ℕ
get_registro r n =
    if str_eq n "PC"
    then r.pc
    else if str_eq n "AX"
    then r.ax
    else if str_eq n "BX"
    then r.bx
    else if str_eq n "CX"
    then r.cx
    else if str_eq n "DX"
    then r.dx
    else if str_eq n "EAX"
    then r.eax
    else if str_eq n "EBX"
    then r.ebx
    else if str_eq n "ECX"
    then r.ecx
    else if str_eq n "EDX"
    then r.edx
    else if str_eq n "SI"
    then r.si
    else if str_eq n "DI"
    then r.di
    else menos_uno

-- `cuanto_leo`; `none` is -1.
unfoldable pub cuanto_leo : String → Option ℕ
cuanto_leo n =
    if str_eq n "AX"
    then some 1
    else if str_eq n "BX"
    then some 1
    else if str_eq n "CX"
    then some 1
    else if str_eq n "DX"
    then some 1
    else if str_eq n "EAX"
    then some 4
    else if str_eq n "EBX"
    then some 4
    else if str_eq n "ECX"
    then some 4
    else if str_eq n "EDX"
    then some 4
    else none

-- Reading a register after writing it gives what `set_registro` returned, whatever the name.
pub get-set_registro :
    (r : Registros) (n : String) (v : ℕ)
    → get_registro (set_registro r n v).0 n ≡ (set_registro r n v).1
unfolding get_registro set_registro
get-set_registro r n v =
    caso Leido (str_eq n "PC") (λ e0. ground arith)
      λ n0.
        caso Leido (str_eq n "AX") (λ e1. ground arith)
          λ n1.
            caso Leido (str_eq n "BX") (λ e2. ground arith)
              λ n2.
                caso Leido (str_eq n "CX") (λ e3. ground arith)
                  λ n3.
                    caso Leido (str_eq n "DX") (λ e4. ground arith)
                      λ n4.
                        caso Leido (str_eq n "EAX") (λ e5. ground arith)
                          λ n5.
                            caso Leido (str_eq n "EBX") (λ e6. ground arith)
                              λ n6.
                                caso Leido (str_eq n "ECX") (λ e7. ground arith)
                                  λ n7.
                                    caso Leido (str_eq n "EDX") (λ e8. ground arith)
                                      λ n8.
                                        caso Leido (str_eq n "SI") (λ e9. ground arith)
                                          λ n9.
                                            caso Leido (str_eq n "DI") (λ e10. ground arith)
                                              λ n10. ground arith
  where
    Leido : Registros × ℕ → Type 0
    Leido p = get_registro p.0 n ≡ p.1

-- The registers fit their widths.
pub record EnRango (r : Registros) : Type 0 where
  pub pc_lt : r.pc < 2 ^ 32
  pub ax_lt : r.ax < 2 ^ 8
  pub bx_lt : r.bx < 2 ^ 8
  pub cx_lt : r.cx < 2 ^ 8
  pub dx_lt : r.dx < 2 ^ 8
  pub eax_lt : r.eax < 2 ^ 32
  pub ebx_lt : r.ebx < 2 ^ 32
  pub ecx_lt : r.ecx < 2 ^ 32
  pub edx_lt : r.edx < 2 ^ 32
  pub si_lt : r.si < 2 ^ 32
  pub di_lt : r.di < 2 ^ 32

-- Where every register is in its width, writing any value to any name leaves every register in its
-- width.
pub set_registro-EnRango :
    {r : Registros} (n : String) (v : ℕ) → EnRango r → EnRango (set_registro r n v).0
unfolding set_registro
set_registro-EnRango n v h =
    caso (λ (p : Registros × ℕ). EnRango p.0) (str_eq n "PC") (λ e0. ground arith)
      λ n0.
        caso (λ (p : Registros × ℕ). EnRango p.0) (str_eq n "AX") (λ e1. ground arith)
          λ n1.
            caso (λ (p : Registros × ℕ). EnRango p.0) (str_eq n "BX") (λ e2. ground arith)
              λ n2.
                caso (λ (p : Registros × ℕ). EnRango p.0) (str_eq n "CX") (λ e3. ground arith)
                  λ n3.
                    caso (λ (p : Registros × ℕ). EnRango p.0) (str_eq n "DX") (λ e4. ground arith)
                      λ n4.
                        caso (λ (p : Registros × ℕ). EnRango p.0) (str_eq n "EAX")
                          (λ e5. ground arith)
                          λ n5.
                            caso (λ (p : Registros × ℕ). EnRango p.0) (str_eq n "EBX")
                              (λ e6. ground arith)
                              λ n6.
                                caso (λ (p : Registros × ℕ). EnRango p.0) (str_eq n "ECX")
                                  (λ e7. ground arith)
                                  λ n7.
                                    caso (λ (p : Registros × ℕ). EnRango p.0) (str_eq n "EDX")
                                      (λ e8. ground arith)
                                      λ n8.
                                        caso (λ (p : Registros × ℕ). EnRango p.0) (str_eq n "SI")
                                          (λ e9. ground arith)
                                          λ n9.
                                            caso (λ (p : Registros × ℕ). EnRango p.0)
                                              (str_eq n "DI") (λ e10. ground arith)
                                              λ n10. ground arith

pub get_registro-lt : {r : Registros} (n : String) → EnRango r → get_registro r n < 2 ^ 32
unfolding get_registro
get_registro-lt n h = ground arith
