-- ===== src/Protocolo.antt =====
-- The vocabulary of the sockets (utils/src/sockets/sockets.h): the operation codes, and what one
-- call of the enviar_ functions puts on a socket. An `int` is its 32-bit pattern.
use so_1c.Base.{ℕ, ◌-◌, ◌^◌, List}

pub data OpCode : Type 0 where
  mensaje paquete nuevo_proceso proceso pcb interrupcion sleep fetch pedirrecurso : OpCode
  darrecurso nueva_io operacion_io finalizacion fin_de_quantum recurso pagina : OpCode
  mas_pagina menos_pagina tam_proceso oom io io_vector vector io_failure : OpCode
  io_success seg_fault lectura escritura lectura_string escritura_string : OpCode

-- The value of the enumeration, as `recibir_operacion` reads it.
unfoldable pub codigo : OpCode → ℕ
codigo mensaje = 0
codigo paquete = 1
codigo nuevo_proceso = 2
codigo proceso = 3
codigo pcb = 4
codigo interrupcion = 5
codigo sleep = 6
codigo fetch = 7
codigo pedirrecurso = 8
codigo darrecurso = 9
codigo nueva_io = 10
codigo operacion_io = 11
codigo finalizacion = 12
codigo fin_de_quantum = 13
codigo recurso = 14
codigo pagina = 15
codigo mas_pagina = 16
codigo menos_pagina = 17
codigo tam_proceso = 18
codigo oom = 19
codigo io = 20
codigo io_vector = 21
codigo vector = 22
codigo io_failure = 23
codigo io_success = 24
codigo seg_fault = 25
codigo lectura = 26
codigo escritura = 27
codigo lectura_string = 28
codigo escritura_string = 29

-- -1, as a pattern.
abbrev pub menos_uno : ℕ
menos_uno = 2 ^ 32 - 1

-- A bare `int`, a packet with an `int`, with the bytes of a text, or with a pointer.
pub data Envio : Type 0 where
  operacion : ℕ → Envio
  entero : OpCode → ℕ → Envio
  texto : OpCode → List ℕ → Envio
  puntero : OpCode → ℕ → Envio
