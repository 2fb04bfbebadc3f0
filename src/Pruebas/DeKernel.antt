-- ===== src/Pruebas/DeKernel.antt =====
-- A kernel with one resource and a few processes.
use so_1c.Base.{ℕ, ◌+◌, ◌≡◌, refl, true, [], ◌∷◌, none, some, arith}
use so_1c.Base.Int.{pos, negsuc}
use so_1c.Protocolo.{codigo, darrecurso}
use so_1c.Cpu.{Pcb, Registros}
use so_1c.Kernel.{Kernel, SProceso}
use so_1c.Kernel.Recursos.{buscar_recurso, pedir_recurso, liberar_recurso}
use so_1c.Kernel.Planes.{plp}
use so_1c.Kernel.Planificador.{Vuelta, volver_fifo, volver_rr, volver_vrr, despachar_vrr}
use so_1c.Kernel.Consola.{sacar_pid}
use so_1c.Kernel.Cuenta.{Salda, es}
use so_1c.Kernel.Saldo.{pedir_recurso-Salda, liberar_recurso-Salda}
use so_1c.Kernel.Conserva.{Guarda, Coherente, volver-Guarda}
use so_1c.Kernel.Consola.{cambiar_multiprogramacion}
use so_1c.Kernel.Io.{terminar_io}
use so_1c.Kernel.Grado.{terminar_io-Salda, cambiar_multiprogramacion_lem}
use so_1c.Kernel.Despacho.{Despacha, Admite, despachar_vrr-Despacha, plp-Admite}

abbrev pub ceros : Registros
ceros = record {
  pc = 0;
  ax = 0;
  bx = 0;
  cx = 0;
  dx = 0;
  eax = 0;
  ebx = 0;
  ecx = 0;
  edx = 0;
  si = 0;
  di = 0;
}

abbrev pub pcb_de : ℕ → ℕ → Pcb
pcb_de n e = record {
  pid = n;
  pc = 0;
  quantum = 100;
  registros = ceros;
  estado = e;
  instrucciones = 1;
}

abbrev pub proc : ℕ → ℕ → SProceso
proc n e = record { pcb = pcb_de n e; multifuncion = "RA"; recursos = [] }

-- Process 3 waits for the only resource; 1 is NEW, 2 is READY, 4 is READY+.
abbrev pub nucleo : Kernel
nucleo = record {
  c_new = proc 1 0 ∷ [];
  c_ready = proc 2 1 ∷ [];
  c_ready_plus = proc 4 2 ∷ [];
  l_blocked = [];
  c_exit = [];
  recursos = record { nombre = "RA"; instancias = negsuc 0; bloqueados = proc 3 4 ∷ [] } ∷ [];
  conexiones = [];
  sem_pcp = 2;
  sem_plp = 1;
  sem_exit = 0;
  s_multiprogramacion = 3;
  multiprogramacion = 5;
  pid_running = none;
  planificacion_activa = true;
  quantum = 100;
  id_pcb = 6;
  plani_es_vrr = true;
}

abbrev sin_plus : Kernel
sin_plus = record nucleo { c_ready_plus = []; sem_pcp = 1 }

-- Process 5 gives the resource back.
abbrev vuelta : Vuelta
vuelta = record {
  motivo = codigo darrecurso;
  pcb = pcb_de 5 3;
  segundo = codigo darrecurso;
  texto = "RA";
  transcurrido = 40;
}

vuelta-Coherente : Coherente (proc 5 3) vuelta
unfolding codigo
vuelta-Coherente = record {
  mismo = refl;
  de_io = λ h. absurd (omega arith);
  de_vector = λ h. absurd (omega arith);
}

volver-Guarda_example :
    Guarda nucleo 5 (volver_fifo nucleo (proc 5 3) vuelta)
    × Guarda nucleo 5 (volver_rr nucleo (proc 5 3) vuelta)
    × Guarda nucleo 5 (volver_vrr nucleo (proc 5 3) vuelta)
volver-Guarda_example = volver-Guarda nucleo (proc 5 3) vuelta vuelta-Coherente

pedir_recurso-Salda_example :
    (k' : Kernel) × (pedir_recurso nucleo (proc 5 3) ≡ some k')
    × Salda nucleo k' (λ n. es n (proc 5 3))
pedir_recurso-Salda_example = pedir_recurso-Salda nucleo (proc 5 3)

liberar_recurso-Salda_example :
    (k' : Kernel) × (liberar_recurso nucleo "RA" ≡ some k') × Salda nucleo k' (λ n. 0)
unfolding buscar_recurso
liberar_recurso-Salda_example = liberar_recurso-Salda nucleo "RA" 0 refl

despachar_vrr-Despacha_example : Despacha nucleo (despachar_vrr nucleo)
despachar_vrr-Despacha_example = despachar_vrr-Despacha nucleo refl (omega arith)

plp-Admite_example : Admite (λ s n. none) nucleo (plp (λ s n. none) nucleo)
plp-Admite_example = plp-Admite nucleo (λ s n. none) refl (omega arith) (omega arith) (refl, tt)

abbrev en_io : Kernel
en_io = record nucleo { l_blocked = proc 5 4 ∷ []; conexiones = "Int1" ∷ [] }

terminar_io-Salda_example :
    (k' : Kernel) × (terminar_io en_io 5 "Int1" 24 ≡ some k') × Salda en_io k' (λ m. 0)
unfolding sacar_pid
terminar_io-Salda_example = terminar_io-Salda en_io 5 "Int1" 24 (proc 5 4) [] refl

cambiar_multiprogramacion_lem_example :
    (k' : Kernel) × (cambiar_multiprogramacion nucleo (pos 3) ≡ some k')
    × (k'.multiprogramacion ≡ 3)
    × (k'.s_multiprogramacion + 5 ≡ 6)
cambiar_multiprogramacion_lem_example = cambiar_multiprogramacion_lem nucleo 3 (omega arith)
