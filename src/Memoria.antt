-- ===== src/Memoria.antt =====
-- The memory module's data (utils/src/memoria/memoria.h, memoria.c): page tables, processes, the
-- frame bitmap and the contiguous user space. The children hold its operations and their proofs.
pub mod Marcos
pub mod Buscar
pub mod Tabla
pub mod Ampliar
pub mod Reducir
pub mod Servidor
pub mod Atender
pub mod Duenos
pub mod Inv
pub mod Exclusivo
pub mod Acceso
pub mod Cruce
pub mod Textos
pub mod Valida
pub mod Inicio
pub mod Carga
use so_1c.Base.{ℕ, zero, suc, Bool, true, false, List, [], ◌∷◌, Option, none, some, get_elem?}

-- `t_pag`. The frame of an unused page is not meaningful.
pub record Pag : Type 0 where
  pub marco : ℕ
  pub estado : Bool

-- `t_proceso`; the tables have CANT_PAG entries.
pub record Proceso : Type 0 where
  pub pid : ℕ
  pub instrucciones : List (List ℕ)
  pub paginas : List Pag

-- The globals. A pointer to a process is 0 for NULL, and k + 1 for the k-th one that was allocated;
-- `none` in the list is a process that was freed.
pub record Memoria (Bits : Type 0) : Type 0 where
  pub tam_pag : ℕ
  pub cant_pag : ℕ
  pub bitmap : Bits
  pub contigua : List ℕ
  pub procesos : List (Option Proceso)
  pub actual : ℕ

-- What a pointer leads to.
abbrev pub deref : List (Option Proceso) → ℕ → Option Proceso
deref ps zero = none
deref [] (suc k) = none
deref (p ∷ ps) (suc zero) = p
deref (p ∷ ps) (suc (suc k)) = deref ps (suc k)

-- Writing through a pointer to a live process.
abbrev pub guardar : List (Option Proceso) → ℕ → Option Proceso → List (Option Proceso)
guardar ps zero q = ps
guardar [] (suc k) q = []
guardar (p ∷ ps) (suc zero) q = q ∷ ps
guardar (p ∷ ps) (suc (suc k)) q = p ∷ guardar ps (suc k) q
