-- ===== src/Pruebas.antt =====
-- The theorems at concrete inputs: small memories, TLBs, queues and file systems.
mod DeMemoria
mod DeCpu
mod DeKernel
mod DeTurno
mod DeConsola
mod DeCarga
mod DeFs
mod DeCompacta
mod DeSockets
mod DeInterfaces
mod DeUnion
