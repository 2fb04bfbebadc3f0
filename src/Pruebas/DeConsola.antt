-- ===== src/Pruebas/DeConsola.antt =====
-- The start of the kernel, a list of its processes and a script of two lines.
use so_1c.Base.{ℕ, ◌+◌, ◌≡◌, refl, true, [], ◌∷◌, none, some, ◌>>=◌, if◌then◌else◌, ◌==◌, arith}
use so_1c.Base.Int.{pos}
use so_1c.Kernel.{Kernel, a_ready}
use so_1c.Kernel.Consola.{crear_proceso}
use so_1c.Kernel.Planes.{tomar_nuevo, admitir}
use so_1c.Kernel.Io.{escuchar_conexion}
use so_1c.Kernel.Algoritmo.{vrr, elegir, es_vrr, despachar_segun, volver_segun}
use so_1c.Kernel.Planificador.{
  despachar_vrr, a_running, volver_vrr, segun_motivo, caso_io, get_quantum,
}
use so_1c.Protocolo.{codigo}
use so_1c.Kernel.Cuenta.{presentes, veces}
use so_1c.Kernel.Hilos.{Corre, arranque, crea, conecta, toma, admite, despacha, vuelve, Sano}
use so_1c.Kernel.Inicio.{armar_recursos, inicializar_kernel, inicializar_kernel-Corre, Regresa}
use so_1c.Kernel.Terminal.{Terminal, Entorno, proceso_estado, interactuar_consola, ejecutar_script}
use so_1c.Kernel.Guion.{impreso, corriendo, proceso_estado_lem}
use so_1c.Lectura.{Limpia, Caben, unir}
use so_1c.Kernel.Lineas.{en_orden, al_final, ejecutar_script-unir}
use so_1c.Pruebas.DeCpu.{k}
use so_1c.Pruebas.DeTurno.{memoria, partir, atoi, decimal, vuelta_io, se_lee}
use so_1c.Pruebas.DeKernel.{nucleo, proc, pcb_de}

-- Process 1 is created, taken to READY and to the CPU.
abbrev encendido : Kernel
encendido = record {
  c_new = [];
  c_ready = [];
  c_ready_plus = [];
  l_blocked = [];
  c_exit = [];
  recursos = record { nombre = "RA"; instancias = pos 1; bloqueados = [] } ∷ [];
  conexiones = [];
  sem_pcp = 0;
  sem_plp = 0;
  sem_exit = 0;
  s_multiprogramacion = 2;
  multiprogramacion = 2;
  pid_running = none;
  planificacion_activa = true;
  quantum = 100;
  id_pcb = 1;
  plani_es_vrr = true;
}

abbrev listo : Kernel
listo = record encendido {
  conexiones = "Int1" ∷ [];
  c_ready = proc 1 1 ∷ [];
  sem_pcp = 1;
  s_multiprogramacion = 1;
  id_pcb = 2;
}

abbrev en_marcha : Kernel
en_marcha = record listo { c_ready = []; sem_pcp = 0; pid_running = some 1 }

-- It runs two instructions, asks for the interface and waits for it.
abbrev espera : Kernel
espera = record en_marcha {
  pid_running = none;
  l_blocked =
      record {
        pcb = record vuelta_io.pcb { quantum = 60; estado = 4 };
        multifuncion = "IO_GEN_SLEEP Int1 5";
        recursos = [];
      }
      ∷ [];
}

espera-Corre : Corre vrr (Regresa k memoria partir atoi decimal) encendido espera none none
unfolding crear_proceso escuchar_conexion tomar_nuevo admitir despachar_vrr a_running a_ready
    volver_vrr segun_motivo caso_io get_quantum codigo despachar_segun volver_segun
espera-Corre =
    vuelve vuelta_io
      (despacha (proc 1 3)
        (admite {k' = listo} (λ s n. some 1)
          (toma (proc 1 0) (crea (pcb_de 1 0) "RA" (conecta "Int1" arranque)) refl) refl)
        refl)
      se_lee refl

encendido-inicial : inicializar_kernel 2 100 true ("RA" ∷ []) (pos 1 ∷ []) ≡ some encendido
unfolding inicializar_kernel armar_recursos
encendido-inicial = refl

inicializar_kernel-Corre_example : Sano espera none none
unfolding elegir es_vrr
inicializar_kernel-Corre_example =
    inicializar_kernel-Corre k memoria partir atoi decimal 2 100 "VRR" ("RA" ∷ []) (pos 1 ∷ [])
      encendido-inicial espera-Corre

abbrev pantalla : Terminal
pantalla = record { nucleo = nucleo; interrupciones = []; salida = [] }

proceso_estado_lem_example :
    ((proceso_estado pantalla).nucleo ≡ nucleo)
    × ((n : ℕ)
        → impreso n (proceso_estado pantalla).salida + veces n (proc 4 2 ∷ [])
          ≡ impreso n [] + (presentes n nucleo + corriendo n none))
proceso_estado_lem_example = proceso_estado_lem pantalla

-- The letter D stops the scheduling, and another starts it.
abbrev entorno : Entorno
entorno = record {
  string_split = λ bs. elim bs [
    | [] ↦ "" ∷ []
    | c ∷ cs ↦ (if c == 68 then "DETENER_PLANIFICACION" else "INICIAR_PLANIFICACION") ∷ []
  ];
  atoi = λ s. pos 0;
  abrir = λ s. some (68 ∷ 10 ∷ 73 ∷ []);
  basura = pcb_de 0 0;
}

ejecutar_script-unir_example :
    ejecutar_script entorno.abrir (interactuar_consola 0 entorno) pantalla "guion" ≡ (
      en_orden (interactuar_consola 0 entorno) ((68 ∷ []) ∷ []) pantalla
      >>= al_final (interactuar_consola 0 entorno) (73 ∷ []))
unfolding unir Limpia Caben
ejecutar_script-unir_example =
    ejecutar_script-unir entorno.abrir (interactuar_consola 0 entorno) pantalla "guion"
      ((68 ∷ []) ∷ []) (73 ∷ []) refl ((refl, refl, tt), omega arith, tt) (refl, refl, tt)
      (omega arith)
