-- ===== src/Cpu.antt =====
-- The CPU's data (utils/src/cpu/cpu.h, utils/src/utils/structs.h): registers, the PCB, the TLB, and
-- the chain of steps that its functions are. An `int` is its 32-bit pattern.
pub mod Nombres
pub mod Mmu
pub mod Tlb
pub mod Cupo
pub mod Anchos
pub mod Traduce
pub mod Tabla
pub mod Mueve
pub mod Instrucciones
pub mod Transferencias
pub mod Ciclo
pub mod Conserva
pub mod Intacto
pub mod Rondas
pub mod Avisos
pub mod Desalojo
pub mod Leyes
use Prim.Native.String.{String}
use so_1c.Base.{ℕ, List, Bool, Option, none, some}
use so_1c.Protocolo.{Envio}
use so_1c.Memoria.Servidor.{PeticionCpu, Atendido}

-- `t_registros`: four of 8 bits, the others of 32.
pub record Registros : Type 0 where
  pub pc : ℕ
  pub ax : ℕ
  pub bx : ℕ
  pub cx : ℕ
  pub dx : ℕ
  pub eax : ℕ
  pub ebx : ℕ
  pub ecx : ℕ
  pub edx : ℕ
  pub si : ℕ
  pub di : ℕ

-- `t_pcb`, less the pointer to the process in memory that the CPU only passes on.
pub record Pcb : Type 0 where
  pub pid : ℕ
  pub pc : ℕ
  pub quantum : ℕ
  pub registros : Registros
  pub estado : ℕ
  pub instrucciones : ℕ

-- `t_entradaTLB`
pub record EntradaTlb : Type 0 where
  pub pid : ℕ
  pub marco : ℕ
  pub pagina : ℕ

-- What the configuration fixes: the page size, the entries of the TLB, and whether ALGORITMO_TLB is LRU.
pub record Config : Type 0 where
  pub tam_pag : ℕ
  pub cant_entradas : ℕ
  pub lru : Bool

-- The globals, beside the memory module on the other end of the socket. `libres` is
-- entradas_actuales_tlb, and the oldest entry of the TLB comes first.
pub record Cpu (M : Type 0) : Type 0 where
  pub pcb : Pcb
  pub se_va : ℕ
  pub a_enviar : String
  pub vector_direcciones : List ℕ
  pub tlb : List EntradaTlb
  pub libres : ℕ
  pub memoria : M

-- The memory module as the CPU uses it: a request is sent, and answered.
pub record ServidorMemoria (M : Type 0) : Type 0 where
  pub pedir : M → PeticionCpu → Atendido M

-- A step of the CPU: a result and the new state, or a fault.
abbrev pub Paso : Type 0 → Type 0 → Type 0
Paso M A = Cpu M → Option (A × Cpu M)

infixl 5 ◌>>=◌
abbrev pub ◌>>=◌ : {M A B : Type 0} → Paso M A → (A → Paso M B) → Paso M B
◌>>=◌ m f c = elim (m c) [ none ↦ none | some (a, c') ↦ f a c' ]
