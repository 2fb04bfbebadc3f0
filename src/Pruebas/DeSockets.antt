-- ===== src/Pruebas/DeSockets.antt =====
-- Messages of a few bytes; malloc finds zeros.
use so_1c.Base.{ℕ, ◌≡◌, List, [], ◌∷◌, ◌++◌, some, length, replicate, length-replicate, arith}
use so_1c.Cpu.{Pcb}
use so_1c.Sockets.{
  palabra, Paquete, recibir_operacion, recibir_paquete, crear_paquete, agregar_todos,
  enviar_paquete,
}
use so_1c.Sockets.Paquetes.{codificar, recibir_paquete-enviar_paquete}
use so_1c.Sockets.Registro.{enviar_pcb, pcb_deserializar, Cabe, pcb_deserializar-enviar_pcb}
use so_1c.Pruebas.DeCpu.{ceros}

abbrev pub malloc : ℕ → List ℕ
malloc n = replicate n 0

pub malloc-length : (n : ℕ) → length (malloc n) ≡ n
malloc-length n = length-replicate n 0

abbrev valores : List (List ℕ)
valores = (104 ∷ 105 ∷ []) ∷ [] ∷ (33 ∷ []) ∷ []

recibir_paquete-enviar_paquete_example :
    (p : Paquete) × (bytes r : List ℕ) × (agregar_todos malloc crear_paquete valores ≡ some p)
    × (enviar_paquete malloc p ≡ some bytes)
    × (recibir_operacion (bytes ++ 7 ∷ []) ≡ some (1, r))
    × (recibir_paquete r ≡ some (valores, 7 ∷ []))
unfolding codificar palabra
recibir_paquete-enviar_paquete_example =
    recibir_paquete-enviar_paquete malloc malloc-length valores (7 ∷ []) (omega arith)

abbrev pcb : Pcb
pcb = record { pid = 3; pc = 5; quantum = 2000; registros = ceros; estado = 3; instrucciones = 99 }

pcb-Cabe : Cabe pcb
pcb-Cabe = record {
  pid_lt = omega arith;
  pc_lt = omega arith;
  quantum_lt = omega arith;
  registros = record {
    pc_lt = omega arith;
    ax_lt = omega arith;
    bx_lt = omega arith;
    cx_lt = omega arith;
    dx_lt = omega arith;
    eax_lt = omega arith;
    ebx_lt = omega arith;
    ecx_lt = omega arith;
    edx_lt = omega arith;
    si_lt = omega arith;
    di_lt = omega arith;
  };
  estado_lt = omega arith;
  instrucciones_lt = omega arith;
}

pcb_deserializar-enviar_pcb_example :
    (bytes r : List ℕ) × (enviar_pcb malloc pcb 4 ≡ some bytes)
    × (recibir_operacion (bytes ++ 7 ∷ []) ≡ some (4, r))
    × (pcb_deserializar r ≡ some (pcb, 7 ∷ []))
pcb_deserializar-enviar_pcb_example =
    pcb_deserializar-enviar_pcb malloc malloc-length pcb 4 (7 ∷ []) pcb-Cabe (omega arith)
