-- ===== src/Memoria/Servidor.antt =====
-- The handlers of the memory module (utils/src/memoria/memoria.c): what each request of the CPU, the
-- kernel or an I/O interface does to the state, and what is sent back. `none` is a fault.
use so_1c.Base.{
  ℕ, zero, suc, ◌+◌, ◌*◌, ◌/◌, ◌%◌, List, [], ◌∷◌, ◌++◌, Option, none, some, ◌>>=◌, poner,
  get_elem?, length, if◌then◌else◌, ◌==◌, leb,
}
use so_1c.Bytes.{leer_en, escribir_en, bytes32, valor_de}
use so_1c.Protocolo.{Envio}

-- What a handler gives: the messages that it sends, and the new state.
abbrev pub Atendido : Type 0 → Type 0
Atendido S = Option (List Envio × S)

-- A request of the CPU, with all that the handler reads from the socket for it, in that order.
pub data PeticionCpu : Type 0 where
  proceso : ℕ → PeticionCpu
  fetch_de : ℕ → PeticionCpu
  traducir : ℕ → PeticionCpu
  mas_pagina menos_pagina : ℕ → PeticionCpu
  tam_proceso : PeticionCpu
  lectura : ℕ → ℕ → ℕ → List ℕ → PeticionCpu
  escritura : ℕ → ℕ → ℕ → ℕ → List ℕ → PeticionCpu
  lectura_str : List (ℕ × ℕ) → PeticionCpu
  escritura_str : List ℕ → List (ℕ × ℕ) → PeticionCpu

-- A request of the kernel; the bytes are the name of the file.
pub data PeticionKernel : Type 0 where
  iniciar : List ℕ → ℕ → PeticionKernel
  finalizar : ℕ → PeticionKernel

-- A request of an I/O interface.
pub data PeticionIo : Type 0 where
  escribir_io : List ℕ → ℕ → List (ℕ × ℕ) → PeticionIo
  leer_io : ℕ → List (ℕ × ℕ) → PeticionIo

-- What the three servers may be asked.
pub data Peticion : Type 0 where
  cpu : PeticionCpu → Peticion
  kernel : PeticionKernel → Peticion
  io : PeticionIo → Peticion

-- The next address that the CPU sends while `leer` or `escribir` crosses a page.
abbrev pub en_pagina : ℕ → ℕ → List ℕ → Option (ℕ × List ℕ)
en_pagina t df [] = if df % t == 0 then none else some (df, [])
en_pagina t df (d ∷ ds) = if df % t == 0 then some (d, ds) else some (df, d ∷ ds)

-- The loop of `leer` over the bytes after the first, with what is left of the addresses.
unfoldable pub leer_bucle : List ℕ → ℕ → ℕ → ℕ → List ℕ → Option (List ℕ × List ℕ)
leer_bucle m t zero df ds = some ([], ds)
leer_bucle m t (suc k) df ds = en_pagina t df ds >>= λ q.
    get_elem? m q.0 >>= λ x. leer_bucle m t k (suc q.0) q.1 >>= λ r. some (x ∷ r.0, r.1)

-- The loop of `escribir`: the byte is `(uint8_t*)&valor+1` in every round.
unfoldable pub escribir_bucle : List ℕ → ℕ → ℕ → ℕ → ℕ → List ℕ → Option (List ℕ × List ℕ)
escribir_bucle m t v zero df ds = some (m, ds)
escribir_bucle m t v (suc k) df ds = en_pagina t df ds >>= λ q.
    poner m q.0 (v / 256 % 256) >>= λ m'. escribir_bucle m' t v k (suc q.0) q.1

-- `leer`: the value read. A size other than 1 and 4 in one page overruns the `uint8_t`; addresses
-- that are left over would be read as operation codes.
unfoldable pub leer : List ℕ → ℕ → ℕ → ℕ → ℕ → List ℕ → Option ℕ
leer m t df tamanio cant_pag ds =
    if cant_pag == 1
    then (if tamanio == 4
        then (leer_en m df 4 >>= λ bs. some (valor_de bs))
        else (if tamanio == 1 then (leer_en m df 1 >>= λ bs. some (valor_de bs)) else none))
    else (get_elem? m df >>= λ x. leer_bucle m t 3 (suc df) ds >>= λ r. elim r.1 [
      | [] ↦ some (valor_de (x ∷ r.0))
      | _ ∷ _ ↦ none
    ])

-- `escribir`: the memory after it.
unfoldable pub escribir : List ℕ → ℕ → ℕ → ℕ → ℕ → ℕ → List ℕ → Option (List ℕ)
escribir m t df tamanio cant_pag v ds =
    if cant_pag == 1
    then (if tamanio == 4
        then escribir_en m df (bytes32 v)
        else (if tamanio == 1 then escribir_en m df (v % 256 ∷ []) else none))
    else (poner m df (v % 256) >>= λ m'.
        escribir_bucle m' t v 3 (suc df) ds >>= λ r. elim r.1 [ [] ↦ some r.0 | _ ∷ _ ↦ none ])

-- The loop of `leer_string` over (size, address) pairs.
unfoldable pub leer_tramos : List ℕ → List (ℕ × ℕ) → Option (List ℕ)
leer_tramos m [] = some []
leer_tramos m ((n, d) ∷ rs) = leer_en m d n >>= λ xs. leer_tramos m rs >>= λ ys. some (xs ++ ys)

-- A C string ends at the first NUL.
unfoldable pub hasta_nul : List ℕ → List ℕ
hasta_nul [] = []
hasta_nul (c ∷ cs) = if c == 0 then [] else c ∷ hasta_nul cs

-- `leer_string`: the text sent. The buffer of CANT * TAM_PAG + 1 bytes must hold the bytes and a NUL.
unfoldable pub leer_string : List ℕ → ℕ → List (ℕ × ℕ) → Option (List ℕ)
unfolding leer_tramos
leer_string m t rs =
    leer_tramos m rs >>= λ xs. if leb (length xs) (length rs * t) then some (hasta_nul xs) else none

-- The loop of `escribir_string`, over the buffer as received, its final NUL included.
unfoldable pub escribir_string : List ℕ → List ℕ → List (ℕ × ℕ) → ℕ → Option (List ℕ)
escribir_string m cadena [] k = some m
escribir_string m cadena ((n, d) ∷ rs) k =
    leer_en cadena k n >>= λ xs. escribir_en m d xs >>= λ m'. escribir_string m' cadena rs (k + n)
