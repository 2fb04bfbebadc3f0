-- ===== src/Bytes.antt =====
-- memcpy out of and into a block of bytes, and the little-endian layout of a uint32_t: what the
-- memory does on its user space and DialFS on its blocks.
use so_1c.Base.{
  ℕ, zero, suc, ◌+◌, ◌*◌, ◌/◌, ◌%◌, ◌^◌, ◌≤◌, ◌<◌, ◌≡◌, refl, ◌⊎◌, inl, inr, List, [], ◌∷◌, Option,
  none, some, arith, length, get_elem?, ◌>>=◌, >>=-eq-some,
}

-- n bytes from offset d; it faults past the end.
unfoldable pub leer_en : List ℕ → ℕ → ℕ → Option (List ℕ)
leer_en m zero zero = some []
leer_en [] zero (suc n) = none
leer_en (x ∷ m) zero (suc n) = leer_en m zero n >>= λ xs. some (x ∷ xs)
leer_en [] (suc d) n = none
leer_en (x ∷ m) (suc d) n = leer_en m d n

-- The bytes written from offset d on; it faults past the end.
unfoldable pub escribir_en : List ℕ → ℕ → List ℕ → Option (List ℕ)
escribir_en m zero [] = some m
escribir_en [] zero (b ∷ bs) = none
escribir_en (x ∷ m) zero (b ∷ bs) = escribir_en m zero bs >>= λ ys. some (b ∷ ys)
escribir_en [] (suc d) bs = none
escribir_en (x ∷ m) (suc d) bs = escribir_en m d bs >>= λ ys. some (x ∷ ys)

-- The memory after a write, where it fits.
pub escrito : List ℕ → ℕ → List ℕ → List ℕ
escrito m zero [] = m
escrito [] zero (b ∷ bs) = []
escrito (x ∷ m) zero (b ∷ bs) = b ∷ escrito m zero bs
escrito [] (suc d) bs = []
escrito (x ∷ m) (suc d) bs = x ∷ escrito m d bs

-- A write that fits succeeds.
pub escribir_en-escrito :
    (m : List ℕ) (d : ℕ) (bs : List ℕ)
    → d + length bs ≤ length m
    → escribir_en m d bs ≡ some (escrito m d bs)
unfolding escribir_en escrito
escribir_en-escrito m zero [] h = refl
escribir_en-escrito [] zero (b ∷ bs) h = absurd (omega arith)
escribir_en-escrito (x ∷ m) zero (b ∷ bs) h = ground (arith, escribir_en-escrito m zero bs)
escribir_en-escrito [] (suc d) bs h = absurd (omega arith)
escribir_en-escrito (x ∷ m) (suc d) bs h = ground (arith, escribir_en-escrito m d bs)

pub escribir_en-inv :
    (m : List ℕ) (d : ℕ) (bs m' : List ℕ)
    → escribir_en m d bs ≡ some m'
    → (d + length bs ≤ length m) × (m' ≡ escrito m d bs)
unfolding escribir_en escrito
escribir_en-inv m zero [] m' h = ground arith
escribir_en-inv [] zero (b ∷ bs) m' h = cc
escribir_en-inv (x ∷ m) zero (b ∷ bs) m' h =
    let (ys, e, q) = >>=-eq-some (escribir_en m zero bs) _ h in
    let (l, r) = escribir_en-inv m zero bs ys e in ground arith
escribir_en-inv [] (suc d) bs m' h = cc
escribir_en-inv (x ∷ m) (suc d) bs m' h =
    let (ys, e, q) = >>=-eq-some (escribir_en m d bs) _ h in
    let (l, r) = escribir_en-inv m d bs ys e in ground arith

pub length-escrito :
    (m : List ℕ) (d : ℕ) (bs : List ℕ)
    → d + length bs ≤ length m
    → length (escrito m d bs) ≡ length m
unfolding escrito
length-escrito m zero [] h = refl
length-escrito [] zero (b ∷ bs) h = absurd (omega arith)
length-escrito (x ∷ m) zero (b ∷ bs) h = omega (arith, length-escrito m zero bs)
length-escrito [] (suc d) bs h = absurd (omega arith)
length-escrito (x ∷ m) (suc d) bs h = omega (arith, length-escrito m d bs)

-- What was written is read.
pub leer_en-escrito :
    (m : List ℕ) (d : ℕ) (bs : List ℕ)
    → d + length bs ≤ length m
    → leer_en (escrito m d bs) d (length bs) ≡ some bs
unfolding leer_en escrito
leer_en-escrito m zero [] h = refl
leer_en-escrito [] zero (b ∷ bs) h = absurd (omega arith)
leer_en-escrito (x ∷ m) zero (b ∷ bs) h = ground (arith, leer_en-escrito m zero bs)
leer_en-escrito [] (suc d) bs h = absurd (omega arith)
leer_en-escrito (x ∷ m) (suc d) bs h = ground (arith, leer_en-escrito m d bs)

-- A byte outside the range written stays.
pub get_elem?-escrito :
    (m : List ℕ) (d : ℕ) (bs : List ℕ) (j : ℕ)
    → d + length bs ≤ length m
    → (j < d) ⊎ (d + length bs ≤ j)
    → get_elem? (escrito m d bs) j ≡ get_elem? m j
unfolding escrito
get_elem?-escrito m zero [] j h o = refl
get_elem?-escrito [] zero (b ∷ bs) j h o = absurd (omega arith)
get_elem?-escrito (x ∷ m) zero (b ∷ bs) zero h o = absurd (omega arith)
get_elem?-escrito (x ∷ m) zero (b ∷ bs) (suc j) h o =
    get_elem?-escrito m zero bs j (omega arith) (inr (omega arith))
get_elem?-escrito [] (suc d) bs j h o = absurd (omega arith)
get_elem?-escrito (x ∷ m) (suc d) bs zero h o = refl
get_elem?-escrito (x ∷ m) (suc d) bs (suc j) h (inl o) =
    get_elem?-escrito m d bs j (omega arith) (inl (omega arith))
get_elem?-escrito (x ∷ m) (suc d) bs (suc j) h (inr o) =
    get_elem?-escrito m d bs j (omega arith) (inr (omega arith))

-- A read sees only its own bytes.
pub leer_en-congr :
    (m m' : List ℕ) (d n : ℕ)
    → length m ≡ length m'
    → ((j : ℕ) → d ≤ j → j < d + n → get_elem? m j ≡ get_elem? m' j)
    → leer_en m d n ≡ leer_en m' d n
unfolding leer_en
leer_en-congr m m' zero zero e h = refl
leer_en-congr [] [] zero (suc n) e h = refl
leer_en-congr [] (x ∷ m') d n e h = absurd (omega arith)
leer_en-congr (x ∷ m) [] d n e h = absurd (omega arith)
leer_en-congr (x ∷ m) (y ∷ m') zero (suc n) e h = ground (
  arith,
  h 0,
  leer_en-congr m m' zero n (omega arith) (λ j k l. h (suc j) (omega arith) (omega arith)),
)
leer_en-congr [] [] (suc d) n e h = refl
leer_en-congr (x ∷ m) (y ∷ m') (suc d) n e h =
    leer_en-congr m m' d n (omega arith) (λ j k l. h (suc j) (omega arith) (omega arith))

-- A read that fits succeeds, with as many bytes as asked.
pub leer_en-total :
    (m : List ℕ) (d n : ℕ)
    → d + n ≤ length m
    → (bs : List ℕ) × (leer_en m d n ≡ some bs) × (length bs ≡ n)
unfolding leer_en
leer_en-total m zero zero h = ([], refl, refl)
leer_en-total [] zero (suc n) h = absurd (omega arith)
leer_en-total (x ∷ m) zero (suc n) h =
    let (bs, e, l) = leer_en-total m zero n (omega arith) in (x ∷ bs, rw e, omega arith)
leer_en-total [] (suc d) n h = absurd (omega arith)
leer_en-total (x ∷ m) (suc d) n h = leer_en-total m d n (omega arith)

-- The layout of a `uint32_t`, least significant byte first.
unfoldable pub bytes32 : ℕ → List ℕ
bytes32 v = v % 256 ∷ v / 256 % 256 ∷ v / 65536 % 256 ∷ v / 16777216 % 256 ∷ []

-- The number that bytes spell, least significant first.
unfoldable pub valor_de : List ℕ → ℕ
valor_de [] = 0
valor_de (b ∷ bs) = b + 256 * valor_de bs

pub valor-bytes32 : (v : ℕ) → v < 2 ^ 32 → valor_de (bytes32 v) ≡ v
unfolding bytes32 valor_de
valor-bytes32 v h = omega arith

-- What a read that succeeds gives has the length asked for.
pub length-leer_en : (m : List ℕ) (d n : ℕ) (bs : List ℕ) → leer_en m d n ≡ some bs → length bs ≡ n
unfolding leer_en
length-leer_en m zero zero bs h = ground arith
length-leer_en [] zero (suc n) bs h = cc
length-leer_en (x ∷ m) zero (suc n) bs h =
    let (ys, e, q) = >>=-eq-some (leer_en m zero n) _ h in
    ground (arith, length-leer_en m zero n ys e)
length-leer_en [] (suc d) n bs h = cc
length-leer_en (x ∷ m) (suc d) n bs h = length-leer_en m d n bs h
