-- ===== src/Pruebas/DeTurno.antt =====
-- A CPU over a program of two instructions: SET of AX to 300, and IO_GEN_SLEEP on the interface Int1.
use Prim.Native.String.{String}
use so_1c.Base.{inl, ℕ, zero, ◌≡◌, refl, suc, arith, length, List, [], ◌∷◌, none, some}
use so_1c.Protocolo.{texto, fetch, codigo, fin_de_quantum}
use so_1c.Memoria.Servidor.{PeticionCpu, Atendido, fetch_de}
use so_1c.Cpu.{Cpu, ServidorMemoria}
use so_1c.Cpu.Nombres.{set_registro}
use so_1c.Cpu.Instrucciones.{get_cod_instruccion, exe_set, poner_registro, exe_io_gen, unir}
use so_1c.Cpu.Ciclo.{
  Interrupcion, despachar, ciclo, correr, devolver, execute, ejecutar, avanzar_pc,
  atender_interrupciones, fetch as traer,
}
use so_1c.Kernel.Turno.{turno, recibir_vuelta, con_texto, turno-Regreso, Vuelve}
use so_1c.Kernel.Planificador.{Vuelta}
use so_1c.Kernel.Inicio.{Regresa}
use so_1c.Cpu.Desalojo.{SinFallas, Sale, correr-acaba}
use so_1c.Cpu.Avisos.{interrupciones, avisar, Legales}
use so_1c.Kernel.{Kernel}
use so_1c.Kernel.Consola.{finalizar_proceso}
use so_1c.Kernel.Muerte.{de_consola, Muere, finalizar_proceso-interrupciones}
use so_1c.Pruebas.DeKernel.{proc, nucleo}
use so_1c.Pruebas.DeSockets.{malloc, malloc-length}
use so_1c.Pruebas.DeCpu.{k, c0}

abbrev responder : ℕ → PeticionCpu → Atendido ℕ
responder m (PeticionCpu.proceso n) = some ([], m)
responder m (fetch_de n) = some (texto fetch (n ∷ []) ∷ [], m)
responder m q = none

abbrev pub memoria : ServidorMemoria ℕ
memoria = record { pedir = responder }

abbrev pub partir : List ℕ → List String
partir (zero ∷ []) = "SET" ∷ "AX" ∷ "300" ∷ []
partir _ = "IO_GEN_SLEEP" ∷ "Int1" ∷ "5" ∷ []

abbrev pub atoi : String → ℕ
atoi s = 300

abbrev pub decimal : ℕ → String
decimal n = ""

abbrev pub dos : List (List Interrupcion)
dos = [] ∷ [] ∷ [] ∷ []

abbrev al_salir : Cpu ℕ
al_salir = record c0 {
  pcb = record (proc 1 3).pcb { registros = record (proc 1 3).pcb.registros { pc = 2; ax = 44 } };
  a_enviar = "IO_GEN_SLEEP Int1 5";
}

sale :
    turno k memoria partir atoi decimal (proc 1 3).pcb dos c0
    ≡ some ((devolver (record al_salir { se_va = 20 })).0, al_salir)
unfolding turno despachar correr ciclo traer execute ejecutar get_cod_instruccion exe_set
    poner_registro set_registro exe_io_gen unir avanzar_pc atender_interrupciones devolver codigo
sale = refl

turno-Regreso_example : Vuelve (proc 1 3) 40 (devolver (record al_salir { se_va = 20 })).0 al_salir
turno-Regreso_example =
    turno-Regreso k memoria partir atoi decimal (proc 1 3) dos 40 c0 al_salir
      (devolver (record al_salir { se_va = 20 })).0 sale

-- What the scheduler reads of it after 40 ms.
abbrev pub vuelta_io : Vuelta
vuelta_io = record {
  motivo = 20;
  pcb = al_salir.pcb;
  segundo = 20;
  texto = "IO_GEN_SLEEP Int1 5";
  transcurrido = 40;
}

pub se_lee : Regresa k memoria partir atoi decimal (proc 1 3) vuelta_io
unfolding devolver recibir_vuelta con_texto codigo
se_lee = (dos, 40, c0, al_salir, (devolver (record al_salir { se_va = 20 })).0, [], sale, refl)

-- Process 1 runs.
abbrev con_1 : Kernel
con_1 = record nucleo { pid_running = some 1 }

-- The end of a quantum of process 2 is queued before the kill of process 1.
finalizar_proceso-interrupciones_example :
    let is = record { pid = 2; motivo = 13 } ∷ de_consola 1 ∷ [] in
    (finalizar_proceso con_1 1 ≡ some (some 1, con_1))
    × (bs : List ℕ) × (avisar malloc is ≡ some bs)
    × (interrupciones (suc (length bs)) bs ≡ some is)
    × (v : Vuelta) × (recibir_vuelta 40 (devolver (atender_interrupciones is al_salir)).0
        ≡ some (v, []))
    × Muere con_1 (proc 1 3) v
unfolding Legales
finalizar_proceso-interrupciones_example =
    finalizar_proceso-interrupciones malloc con_1 con_1 (proc 1 3) 1 40
      (record { pid = 2; motivo = 13 } ∷ []) [] al_salir malloc-length refl (omega arith)
      (omega arith, omega arith, tt) tt refl

-- A program that never asks for anything, and the end of the quantum of process 1 in the third round.
abbrev siempre : List ℕ → List String
siempre _ = "SET" ∷ "AX" ∷ "300" ∷ []

abbrev Cualquiera : Cpu ℕ → Type 0
Cualquiera c = Unit {0}

siempre-SinFallas : SinFallas k memoria siempre atoi decimal Cualquiera
unfolding ciclo traer execute ejecutar get_cod_instruccion exe_set
siempre-SinFallas is c i = (_, refl, tt)

correr-acaba_example :
    Sale k memoria siempre atoi decimal
      ([] ∷ [] ∷ (record { pid = 1; motivo = codigo fin_de_quantum } ∷ []) ∷ [])
      c0
correr-acaba_example =
    correr-acaba k memoria siempre atoi decimal Cualquiera ([] ∷ [] ∷ []) []
      (record { pid = 1; motivo = codigo fin_de_quantum } ∷ []) c0 siempre-SinFallas tt
      (inl (refl, refl))
