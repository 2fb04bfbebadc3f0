-- ===== src/Cpu/Rondas.antt =====
-- The rounds of the CPU (utils/src/cpu/cpu.c, cpu/src/main.c) as steps that only change the registers of the
-- PCB.
use Prim.Native.String.{String}
use so_1c.Base.{ℕ, ◌≡◌, refl, subst, List, [], ◌∷◌, Option, none, some, ◌==◌, get_elem?}
use so_1c.Cpu.{Cpu, Config, ServidorMemoria, Paso, ◌>>=◌}
use so_1c.Cpu.Instrucciones.{
  Instruccion, get_cod_instruccion, exe_set, exe_sum, exe_sub, exe_exit, exe_wait, exe_signal,
}
use so_1c.Cpu.Transferencias.{un_texto}
use so_1c.Cpu.Ciclo.{
  ejecutar, execute, fetch, avanzar_pc, atender_interrupciones, ciclo, correr, Interrupcion,
  componente,
}
use so_1c.Cpu.Conserva.{Mantiene, mismo_pcb, Conserva-trans, de_bind, partes, Bien, de_poner, de_si}
use so_1c.Cpu.Intacto.{
  Firme, dado, igual, firme, y_luego, leyendo, o_nada, al_fin, pidiendo, de_mov_in, de_mov_out,
  de_resize, de_copy_string, de_io_std, de_io_fs_rw, de_jnz, de_io_gen, de_io_fs_cd,
  de_io_fs_truncate, de_interrupciones, de_avanzar,
}

module _ {M : Type 0} where
  module _ (k : Config) (s : ServidorMemoria M) (partir : List ℕ → List String) (atoi : String → ℕ)
      (decimal : ℕ → String) where
    de_fetch : Firme (fetch k s partir atoi decimal)
    unfolding fetch
    de_fetch = y_luego leyendo λ c. y_luego (pidiendo k s _) λ os. o_nada (un_texto os)

    de_uno :
        {f : String → Paso M (Unit {0})} (cs : List String)
        → ((a : String) → Firme (f a))
        → Firme (componente k s partir atoi decimal cs 1 >>= f)
    de_uno cs h = y_luego (o_nada (get_elem? cs 1)) h

    de_dos :
        {f : String → String → Paso M (Unit {0})} (cs : List String)
        → ((a b : String) → Firme (f a b))
        → Firme (
            componente k s partir atoi decimal cs 1 >>= λ a.
            componente k s partir atoi decimal cs 2 >>= λ b. f a b)
    de_dos cs h = y_luego (o_nada (get_elem? cs 1)) λ a. y_luego (o_nada (get_elem? cs 2)) (h a)

    de_ejecutar :
        (i : Option Instruccion) (cs : List String) → Firme (ejecutar k s partir atoi decimal i cs)
    unfolding ejecutar exe_set exe_sum exe_sub exe_exit exe_wait exe_signal
    de_ejecutar (some Instruccion.set) cs = de_dos cs λ a b. al_fin (de_poner a _)
    de_ejecutar (some Instruccion.sum) cs = de_dos cs λ a b. al_fin (λ c. de_poner a _ c)
    de_ejecutar (some Instruccion.sub) cs = de_dos cs λ a b. al_fin (λ c. de_poner a _ c)
    de_ejecutar (some Instruccion.jnz) cs = de_dos cs λ a b. al_fin (de_jnz atoi a b)
    de_ejecutar (some Instruccion.wait) cs = de_uno cs λ a. al_fin (λ c. mismo_pcb c _ refl)
    de_ejecutar (some Instruccion.signal) cs = de_uno cs λ a. al_fin (λ c. mismo_pcb c _ refl)
    de_ejecutar (some Instruccion.io_gen_sleep) cs = firme _ (de_io_gen cs)
    de_ejecutar (some Instruccion.io_stdout_write) cs = de_io_std k s decimal cs
    de_ejecutar (some Instruccion.io_stdin_read) cs = de_io_std k s decimal cs
    de_ejecutar (some Instruccion.io_fs_create) cs = firme _ (de_io_fs_cd cs)
    de_ejecutar (some Instruccion.io_fs_delete) cs = firme _ (de_io_fs_cd cs)
    de_ejecutar (some Instruccion.io_fs_truncate) cs = firme _ (de_io_fs_truncate decimal cs)
    de_ejecutar (some Instruccion.io_fs_write) cs = de_io_fs_rw k s decimal cs
    de_ejecutar (some Instruccion.io_fs_read) cs = de_io_fs_rw k s decimal cs
    de_ejecutar (some Instruccion.exit) cs = al_fin (λ c. mismo_pcb c _ refl)
    de_ejecutar (some Instruccion.mov_in) cs = de_dos cs λ a b. de_mov_in k s a b
    de_ejecutar (some Instruccion.mov_out) cs = de_dos cs λ a b. de_mov_out k s a b
    de_ejecutar (some Instruccion.resize) cs = de_uno cs λ a. de_resize k s (atoi a)
    de_ejecutar (some Instruccion.copy_string) cs = de_uno cs λ a. de_copy_string k s (atoi a)
    de_ejecutar none cs = al_fin (λ c. mismo_pcb c _ refl)

    de_execute : (cs : List String) → Firme (execute k s partir atoi decimal cs)
    unfolding execute
    de_execute cs = y_luego (o_nada (get_elem? cs 0)) λ n. de_ejecutar (get_cod_instruccion n) cs

    pub de_ciclo : (is : List Interrupcion) → Firme (ciclo k s partir atoi decimal is)
    unfolding ciclo
    de_ciclo is = y_luego de_fetch λ buffer.
        y_luego (de_execute (partir buffer))
          λ listo. al_fin (λ c. Conserva-trans (de_avanzar c) (de_interrupciones is (avanzar_pc c)))

    -- A round ends with the check of what is queued, for the same process.
    pub ciclo-atiende :
        (is : List Interrupcion) (c d : Cpu M) (u : Unit {0})
        → ciclo k s partir atoi decimal is c ≡ some (u, d)
        → (e : Cpu M) × (e.pcb.pid ≡ c.pcb.pid) × (atender_interrupciones is e ≡ d)
    unfolding ciclo
    ciclo-atiende is c d u h =
        let (buffer, c1, f, g) = partes (fetch k s partir atoi decimal) _ c h in
        let (listo, c2, i, j) = partes (execute k s partir atoi decimal (partir buffer)) _ c1 g in
        let x = subst (Bien c) f (de_fetch.sigue c) in
        let y = subst (Bien c1) i ((de_execute (partir buffer)).sigue c1) in
        let z = Conserva-trans (Conserva-trans x y) (de_avanzar c2) in
        (avanzar_pc c2, z.pid, dado j)

    -- Whatever the program, the answers of the memory and the interruptions that arrive, what the CPU gives
    -- back after its rounds is a PCB with the pid, the field pc, the quantum and the instructions of the
    -- one it got, and with registers in their widths if that one's were.
    pub correr-Mantiene :
        (iss : List (List Interrupcion)) → Mantiene (correr k s partir atoi decimal iss)
    unfolding correr
    correr-Mantiene [] c = de_si (c.se_va == 0) c _ _ tt (igual c)
    correr-Mantiene (is ∷ iss) c =
        de_si (c.se_va == 0) c _ _ (de_bind _ _ (de_ciclo is).sigue (λ _. correr-Mantiene iss) c)
          (igual c)
