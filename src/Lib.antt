-- ===== src/Lib.antt =====
-- A model of the four modules of the simulated operating system: the memory, the CPU, the kernel and
-- the I/O interfaces. They are processes that talk over sockets. The kernel keeps the queues of
-- processes and sends one PCB at a time to the CPU; the CPU fetches instructions from the memory and
-- translates addresses with a TLB; the memory owns the frames and the user space; the interfaces
-- serve the kernel's IO requests and read and write the user space.
--
-- Files, and the code each models (paths from the repository's root):
--   Protocolo       the operation codes, utils/src/sockets/sockets.h
--   Sockets         utils/src/sockets/sockets.c: a socket is the bytes that were sent and not yet
--                   received; Registro has the PCB, Saludos the messages; proofs in Bloques,
--                   Paquetes and Termina
--   Memoria         utils/src/memoria/memoria.c: `Memoria` is its globals; Marcos has the loops over
--                   frames, Servidor the requests and the user space, Atender the handlers
--                   (aniadir_paginas, sacar_paginas, liberar_proceso, recibir_proceso, interactuar_*),
--                   Inicio the start and the states that requests reach, Carga the files of
--                   instructions; the other children are
--                   proofs: Tabla, Ampliar, Reducir (one page table against the bitmap), Duenos, Inv,
--                   Exclusivo, Valida (all processes), Acceso, Cruce and Textos (bytes)
--   Tramos          the cutting of a transfer at the page ends, in utils/src/cpu/cpu.c
--   Cpu             utils/src/cpu/cpu.c and the loop of cpu/src/main.c: Nombres (registers by name), Mmu,
--                   Instrucciones, Transferencias, Ciclo, Avisos (the thread of interruptions);
--                   proofs in Tlb, Cupo, Anchos, Traduce, Leyes, Desalojo, and Conserva, Intacto
--                   and Rondas (the PCB); Tabla and Mueve put the memory module at the other end of the socket
--   Kernel          utils/src/kernel/kernel.c: Inicio, Recursos, Consola, Terminal (the
--                   commands and scripts), Planes (PLP, carnicero), Planificador (FIFO, RR, VRR),
--                   Algoritmo (which of them kernel/src/main.c starts), Io,
--                   Turno (the CPU between a dispatch and the return, and what is read of it),
--                   Muerte (a kill from the console to the CPU and back);
--                   proofs in Cuenta, Saldo, Conserva, Despacho, Grado, Guion (what is printed) and
--                   Lineas (scripts); Hilos has the threads as steps in any order, and
--                   Unico what they keep
--   Interfaces      the loops of the interfaces in utils/src/entradasalida/entradasalida.c, over the bytes
--                   of their sockets: Consola (generic, STDIN, STDOUT), Archivos (DialFS), Enlace (the
--                   memory's server, interactuar_IO); proofs in Mensajes, Leyes, Eco, Copia, Rechazo
--   DialFs          the file system in utils/src/entradasalida/entradasalida.c: Operaciones, Truncar,
--                   Disco (iniciar_fs over the files); proofs in Bits, Leyes, Huecos, Nombres,
--                   Orden, Persiste, Reinicio; Vista has the files apart from where they lie, and Marcha,
--                   Salto, Compacta, Cuenta, Crece and Agranda the compaction
--   Base, BitArray, Bytes   shared helpers, the bit array of the commons library, memcpy
--   Lectura         fgets and the lines of a text file, for scripts and instructions
--   Pruebas         the theorems at concrete inputs
--
-- State is a record of the C globals and each operation a function from state to state; `none` is
-- undefined behaviour (an access out of range, a NULL that is used) or a wait that never ends. A C
-- `int` of the CPU and the sockets is its 32-bit pattern. A pointer to a process is an index. In
-- the kernel a semaphore is its count, and a round of a thread is one step or two: PLP has two, before
-- and after it waits for a place (the second one asks the memory and has its answer), a scheduler two,
-- dispatch and return, an IO thread two, before and after the interface answers. A step may hold several
-- critical sections of the code, as in pedir_recurso, and code without a mutex, as empezar_io has on
-- lBlocked; what the threads do to each other inside a step is not modelled.
--
-- Loops over frames, pages, blocks and resources recurse on the list or on the number of rounds
-- left, which is the loop's own bound, so that there is no fuel to run out. There are others: the
-- CPU's loop takes its rounds as an argument, the list of what is queued in each; and the loop of
-- compactar, which goes back to the end of the hole after each file, has (n + 1) * (n + 1) rounds
-- for n blocks: a file that is not empty moves the hole on by a block at least, and between two
-- files it scans n blocks at most (DialFs/Compacta). A script of the console and a file of
-- instructions have a round for each byte of the file, and one more, and read at least one in each
-- but the last; how deep scripts call scripts is an argument. The loop of recibir_paquete has a
-- round for each byte of the buffer, and takes four bytes at least in each; the thread of
-- interruptions has one for each byte that was sent and one more.
--
-- Parameters: the commons bit array (with its documented laws), the memory as the CPU and the
-- kernel see it, atoi and the splitting of texts, what a file holds, the time that clock_gettime
-- measures, the bytes that malloc and realloc find, what the heap holds after a block, the bytes that
-- the compiler sets aside for the array of STDIN, the order of readdir. Not modelled: the size of
-- aEnviar and of the words of an instruction (cpu.c writes longer texts over them), the multifuncion
-- that interrumpir frees, the system calls of sockets.c, configuration, logs, sleeps, thread creation,
-- the mutexes beyond the steps.
pub mod Base
pub mod BitArray
pub mod Protocolo
pub mod Bytes
pub mod Lectura
pub mod Memoria
pub mod Tramos
pub mod Cpu
pub mod DialFs
pub mod Kernel
pub mod Sockets
pub mod Interfaces
pub mod Pruebas
