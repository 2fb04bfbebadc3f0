-- ===== src/Cpu/Intacto.antt =====
-- The instructions of the CPU (utils/src/cpu/cpu.c), PC++ and the check of interruptions as steps that only
-- change the registers of the PCB.
use Prim.Native.String.{String}
use so_1c.Base.{
  ℕ, ◌≡◌, refl, Bool, true, false, List, [], ◌∷◌, Option, some, if◌then◌else◌, ◌==◌, length, arith,
}
use so_1c.Memoria.Servidor.{PeticionCpu, tam_proceso, lectura, escritura}
use so_1c.Protocolo.{codigo, oom}
use so_1c.Cpu.{Cpu, Config, ServidorMemoria, Paso, ◌>>=◌}
use so_1c.Cpu.Nombres.{cuanto_leo, get_registro}
use so_1c.Cpu.Instrucciones.{exe_jnz, exe_io_gen, exe_io_fs_cd, exe_io_fs_truncate, regs}
use so_1c.Cpu.Transferencias.{
  leer_estado, cambiar, o_falla, transformar, un_entero, un_texto, pedir, exe_mov_in, exe_mov_out,
  exe_resize, exe_copy_string, exe_io_std, exe_io_fs_rw, primera, traducciones, es_menor,
}
use so_1c.Cpu.Ciclo.{avanzar_pc, atender_interrupcion, atender_interrupciones, Interrupcion}
use so_1c.Cpu.Conserva.{
  Conserva, Mantiene, mismo_pcb, Conserva-trans, de_bind, de_leer, de_falla, de_poner, de_pedir,
  de_traducciones,
}

module _ {M : Type 0} where
  pub dado :
      {c d : Cpu M} {u v : Unit {0}}
      → ◌≡◌ {A = Option (Unit {0} × Cpu M)} (some (u, c)) (some (v, d))
      → c ≡ d
  dado e = cc

  pub igual : (c : Cpu M) → Conserva c c
  igual c = mismo_pcb c c refl

  -- The same of a step, as a type that names the step.
  pub record Firme {A : Type 0} (m : Paso M A) : Type 0 where
    pub sigue : Mantiene m

  pub firme : {A : Type 0} (m : Paso M A) → Mantiene m → Firme m
  firme m h = record { sigue = h }

  -- What comes after a step that keeps the PCB.
  pub y_luego :
      {A B : Type 0} {m : Paso M A} {f : A → Paso M B}
      → Firme m
      → ((a : A) → Firme (f a))
      → Firme (m >>= f)
  y_luego {A} {B} {m} {f} h g = firme (m >>= f) (de_bind m f h.sigue (λ a. (g a).sigue))

  pub leyendo : Firme leer_estado
  leyendo = firme leer_estado de_leer

  pub o_nada : {A : Type 0} (o : Option A) → Firme (o_falla o)
  o_nada o = firme (o_falla o) (de_falla o)

  pub al_fin : {f : Cpu M → Cpu M} → ((c : Cpu M) → Conserva c (f c)) → Firme (cambiar f)
  al_fin {f} h = firme (cambiar f) h

  pub o_bien :
      {A : Type 0} {m n : Paso M A} (b : Bool) → Firme m → Firme n → Firme (if b then m else n)
  o_bien true h g = h
  o_bien false h g = g

  module _ (k : Config) (s : ServidorMemoria M) where
    pub pidiendo : (q : PeticionCpu) → Firme (pedir k s q)
    pidiendo q = firme (pedir k s q) (de_pedir k s q)

    pub traduciendo : (tam direccion : ℕ) → Firme (traducciones k s tam direccion)
    traduciendo tam direccion =
        firme (traducciones k s tam direccion) (de_traducciones k s tam direccion)

    pub de_mov_in : (a b : String) → Firme (exe_mov_in k s a b)
    unfolding exe_mov_in
    de_mov_in a b = y_luego (o_nada (cuanto_leo a)) λ tam. y_luego leyendo λ c.
        y_luego (traduciendo tam (get_registro (regs c) b)) λ dirs.
          y_luego (o_nada (primera k s dirs)) λ df.
            y_luego (pidiendo (lectura df.0 tam (length dirs) df.1))
              λ os. y_luego (o_nada (un_entero os)) λ v. al_fin (de_poner a v)

    pub de_mov_out : (a b : String) → Firme (exe_mov_out k s a b)
    unfolding exe_mov_out
    de_mov_out a b = y_luego (o_nada (cuanto_leo b)) λ tam. y_luego leyendo λ c.
        y_luego (traduciendo tam (get_registro (regs c) a)) λ dirs.
          y_luego (o_nada (primera k s dirs)) λ df.
            y_luego (pidiendo (escritura df.0 tam (length dirs) (get_registro (regs c) b) df.1))
              λ os. al_fin igual

    pub de_resize : (tam : ℕ) → Firme (exe_resize k s tam)
    unfolding exe_resize
    de_resize tam = y_luego (pidiendo tam_proceso) λ os. y_luego (o_nada (un_entero os)) λ actual.
        o_bien (actual == tam) (al_fin igual) (
          o_bien (es_menor k s tam actual) (y_luego (pidiendo _) λ _. al_fin igual)
            (y_luego (pidiendo _) λ r. y_luego (o_nada (un_entero r)) λ v. al_fin (sin_memoria v)))
      where
        sin_memoria :
            (v : ℕ) (c : Cpu M)
            → Conserva c (if v == codigo oom then record c { se_va = codigo oom } else c)
        sin_memoria v c = elige (v == codigo oom)
          where
            elige : (t : Bool) → Conserva c (if t then record c { se_va = codigo oom } else c)
            elige true = mismo_pcb c _ refl
            elige false = igual c

    pub de_copy_string : (tam : ℕ) → Firme (exe_copy_string k s tam)
    unfolding exe_copy_string
    de_copy_string tam = y_luego leyendo λ c. y_luego (traduciendo tam _) λ origen.
        y_luego (pidiendo _) λ os. y_luego (o_nada (un_texto os)) λ cadena.
          y_luego leyendo
            λ d. y_luego (traduciendo tam _) λ destino. y_luego (pidiendo _) λ r. al_fin igual

    pub de_io_std : (decimal : ℕ → String) (cs : List String) → Firme (exe_io_std k s decimal cs)
    unfolding exe_io_std
    de_io_std decimal (n ∷ i ∷ r ∷ t ∷ _) = y_luego leyendo λ c.
        y_luego (traduciendo (get_registro (regs c) t) (get_registro (regs c) r))
          λ dirs. al_fin (λ d. mismo_pcb d _ refl)
    de_io_std decimal [] = firme _ (λ c. tt)
    de_io_std decimal (_ ∷ []) = firme _ (λ c. tt)
    de_io_std decimal (_ ∷ _ ∷ []) = firme _ (λ c. tt)
    de_io_std decimal (_ ∷ _ ∷ _ ∷ []) = firme _ (λ c. tt)

    pub de_io_fs_rw :
        (decimal : ℕ → String) (cs : List String) → Firme (exe_io_fs_rw k s decimal cs)
    unfolding exe_io_fs_rw
    de_io_fs_rw decimal (n ∷ i ∷ f ∷ r ∷ t ∷ p ∷ _) = y_luego leyendo λ c.
        y_luego (traduciendo (get_registro (regs c) t) (get_registro (regs c) r))
          λ dirs. al_fin (λ d. mismo_pcb d _ refl)
    de_io_fs_rw decimal [] = firme _ (λ c. tt)
    de_io_fs_rw decimal (_ ∷ []) = firme _ (λ c. tt)
    de_io_fs_rw decimal (_ ∷ _ ∷ []) = firme _ (λ c. tt)
    de_io_fs_rw decimal (_ ∷ _ ∷ _ ∷ []) = firme _ (λ c. tt)
    de_io_fs_rw decimal (_ ∷ _ ∷ _ ∷ _ ∷ []) = firme _ (λ c. tt)
    de_io_fs_rw decimal (_ ∷ _ ∷ _ ∷ _ ∷ _ ∷ []) = firme _ (λ c. tt)

  pub de_jnz : (atoi : String → ℕ) (a b : String) (c : Cpu M) → Conserva c (exe_jnz atoi a b c)
  unfolding exe_jnz
  de_jnz atoi a b c = elige (get_registro (regs c) a == 0) _ (de_poner "PC" _ c)
    where
      elige : (t : Bool) (d : Cpu M) → Conserva c d → Conserva c (if t then c else d)
      elige true d h = igual c
      elige false d h = h

  pub de_io_gen : (cs : List String) → Mantiene {M = M} (transformar (exe_io_gen cs))
  unfolding exe_io_gen
  de_io_gen [] c = tt
  de_io_gen (n ∷ ps) c = mismo_pcb c _ refl

  pub de_io_fs_cd : (cs : List String) → Mantiene {M = M} (transformar (exe_io_fs_cd cs))
  unfolding exe_io_fs_cd
  de_io_fs_cd (n ∷ i ∷ f ∷ _) c = mismo_pcb c _ refl
  de_io_fs_cd [] c = tt
  de_io_fs_cd (_ ∷ []) c = tt
  de_io_fs_cd (_ ∷ _ ∷ []) c = tt

  pub de_io_fs_truncate :
      (decimal : ℕ → String) (cs : List String)
      → Mantiene {M = M} (transformar (exe_io_fs_truncate decimal cs))
  unfolding exe_io_fs_truncate
  de_io_fs_truncate decimal (n ∷ i ∷ f ∷ r ∷ _) c = mismo_pcb c _ refl
  de_io_fs_truncate decimal [] c = tt
  de_io_fs_truncate decimal (_ ∷ []) c = tt
  de_io_fs_truncate decimal (_ ∷ _ ∷ []) c = tt
  de_io_fs_truncate decimal (_ ∷ _ ∷ _ ∷ []) c = tt

  pub de_interrupcion : (i : Interrupcion) (c : Cpu M) → Conserva c (atender_interrupcion i c)
  unfolding atender_interrupcion
  de_interrupcion i c = mismo_pcb c (atender_interrupcion i c) (ground arith)

  pub de_interrupciones :
      (is : List Interrupcion) (c : Cpu M) → Conserva c (atender_interrupciones is c)
  unfolding atender_interrupciones
  de_interrupciones [] c = igual c
  de_interrupciones (i ∷ is) c =
      Conserva-trans (de_interrupcion i c) (de_interrupciones is (atender_interrupcion i c))

  pub de_avanzar : (c : Cpu M) → Conserva c (avanzar_pc c)
  unfolding avanzar_pc
  de_avanzar c = record {
    pid = refl;
    contador = refl;
    cuanto = refl;
    codigo = refl;
    rango = λ r. record {
      pc_lt = omega arith;
      ax_lt = r.ax_lt;
      bx_lt = r.bx_lt;
      cx_lt = r.cx_lt;
      dx_lt = r.dx_lt;
      eax_lt = r.eax_lt;
      ebx_lt = r.ebx_lt;
      ecx_lt = r.ecx_lt;
      edx_lt = r.edx_lt;
      si_lt = r.si_lt;
      di_lt = r.di_lt;
    };
  }
