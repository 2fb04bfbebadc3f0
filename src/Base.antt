-- ===== src/Base.antt =====
-- Names that every other module shares: the libraries' numbers, lists, options and tests, passed
-- on, with the children on Boolean tests, lists indexed by native numbers and signed integers.
mod Tests
mod Lists
mod Sumas
pub mod Int
pub use Tests.*
pub use Lists.*
unfoldable pub use Sumas.{suma}
pub use Sumas.{suma-congr, suma-le, suma-suc, suma-add, suma-zero, suma-term-le}
pub use Prim.Native.Nat.{ℕ, zero, suc, ◌+◌, ◌-◌, ◌*◌, ◌/◌, ◌%◌, ◌^◌, ◌≤◌, ◌<◌, min}
pub use mathlib.Core.Path.{◌≡◌, refl, sym, ap, subst, ap₂, ◌∙◌}
pub use mathlib.Core.Logic.{◌≢◌, ◌↔◌, ◌⊎◌, inl, inr}
pub use mathlib.Core.Bool.{Bool, true, false, ◌&&◌, ◌||◌, not}
pub use mathlib.Core.Option.{Option, none, some}
pub use mathlib.Core.List.{List, [], ◌∷◌, ◌++◌, map}
pub use native.Mathlib.Omega.{arith}
unfoldable pub use native.Mathlib.Decide.{dec_lt, ℕ_discrete}

-- The chain of steps that may fault: `none` is undefined behaviour of the C program (an access out
-- of range, a dangling or NULL pointer), or a wait that never ends.
infixl 5 ◌>>=◌
abbrev pub ◌>>=◌ {ℓ κ} : {A : Type ℓ} {B : Type κ} → Option A → (A → Option B) → Option B
none >>= f = none
some a >>= f = f a

-- `v[i] = a`, which faults out of range.
abbrev pub poner {ℓ} : {A : Type ℓ} → List A → ℕ → A → Option (List A)
poner [] i a = none
poner (x ∷ xs) zero a = some (a ∷ xs)
poner (x ∷ xs) (suc i) a = poner xs i a >>= λ ys. some (x ∷ ys)

-- A Boolean as a count.
abbrev pub uno : Bool → ℕ
uno true = 1
uno false = 0

-- The inversion of a chain that gave a result.
pub >>=-eq-some {ℓ κ} :
    {A : Type ℓ} {B : Type κ} (m : Option A) (f : A → Option B) {b : B}
    → (m >>= f) ≡ some b
    → (a : A) × (m ≡ some a) × (f a ≡ some b)
>>=-eq-some none f h = cc
>>=-eq-some (some a) f h = (a, refl, h)

-- A last step of a chain, moved inside.
pub >>=-some {ℓ κ μ} :
    {A : Type ℓ} {B : Type κ} {C : Type μ} (m : Option A) (g : A → B) (h : B → C)
    → (m >>= (λ a. some (g a)) >>= λ b. some (h b)) ≡ (m >>= λ a. some (h (g a)))
>>=-some none g h = refl
>>=-some (some a) g h = refl
