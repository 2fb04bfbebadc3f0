-- ===== src/Tramos.antt =====
-- How a transfer of bytes that starts inside a page is cut at the page ends. The same code stands in
-- exe_COPY_STRING, exe_IO_STD, exe_IO_FS_RW, exe_MOV_IN and exe_MOV_OUT (utils/src/cpu/cpu.c) and in
-- the interfaces (utils/src/entradasalida/entradasalida.c).
pub mod Leyes
use so_1c.Base.{
  ℕ, zero, suc, ◌+◌, ◌-◌, ◌*◌, ◌/◌, ◌%◌, ◌^◌, List, [], ◌∷◌, Bool, ltb, leb, ◌||◌, ◌==◌,
  if◌then◌else◌,
}

-- `ceil(a / b)` of a float division; exact for the sizes below 2^24, which a float holds.
unfoldable pub ceil_div : ℕ → ℕ → ℕ
ceil_div a b = (a + b - 1) / b

-- `tam_pag - direccion % tam_pag`; the remainder of a negative address is not positive.
unfoldable pub espacio_en_pag : ℕ → ℕ → ℕ
espacio_en_pag t d = if ltb d (2 ^ 31) then t - d % t else t + (2 ^ 32 - d) % t

-- `pagNecesarias` of a transfer that does not fit the page.
unfoldable pub pag_necesarias : ℕ → ℕ → ℕ → ℕ
unfolding ceil_div
pag_necesarias t tam esp = ceil_div (tam - esp) t + 1

-- `tamaño <= espacioEnPag` between ints: also a negative size fits.
abbrev pub entra : ℕ → ℕ → Bool
entra tam esp = leb tam esp || leb (2 ^ 31) tam

-- The addresses `direccion + espacioEnPag + i * tam_pag`, for n values of i.
unfoldable pub siguientes : ℕ → ℕ → ℕ → List ℕ
siguientes t d zero = []
siguientes t d (suc n) = d % 2 ^ 32 ∷ siguientes t (d + t) n

-- The logical addresses that are translated for a transfer.
unfoldable pub direcciones_logicas : ℕ → ℕ → ℕ → List ℕ
unfolding espacio_en_pag pag_necesarias siguientes
direcciones_logicas t tam d =
    let esp = espacio_en_pag t d in
    if entra tam esp then d ∷ [] else d ∷ siguientes t (d + esp) (pag_necesarias t tam esp - 1)

-- The pieces of a transfer that does not fit, after the first one: whole pages, then the rest.
unfoldable pub tramos_resto : ℕ → ℕ → List ℕ → List (ℕ × ℕ)
tramos_resto t ultimo [] = []
tramos_resto t ultimo (d ∷ []) = (ultimo, d) ∷ []
tramos_resto t ultimo (d ∷ e ∷ ds) = (t, d) ∷ tramos_resto t ultimo (e ∷ ds)

-- The (size, address) pairs that are sent for the physical addresses, where `esp` is the room left
-- in the first page.
unfoldable pub tramos : ℕ → ℕ → ℕ → List ℕ → List (ℕ × ℕ)
unfolding tramos_resto
tramos t tam esp [] = []
tramos t tam esp (d ∷ ds) =
    let resto = (tam - esp) % t in
    if entra tam esp
    then (tam, d) ∷ []
    else (esp, d) ∷ tramos_resto t (if resto == 0 then t else resto) ds
