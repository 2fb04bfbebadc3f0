-- ===== src/Pruebas/DeCpu.antt =====
-- A CPU with a TLB of two entries, over a memory that holds page 0 in frame 3 and page 1 in frame 5.
use so_1c.Base.{ℕ, zero, suc, ◌≡◌, refl, true, [], ◌∷◌, none, some, arith}
use so_1c.Protocolo.{entero, operacion, pagina, menos_uno}
use so_1c.Memoria.Servidor.{PeticionCpu, Atendido, traducir}
use so_1c.Cpu.{Cpu, Registros, Config, ServidorMemoria}
use so_1c.Cpu.Nombres.{EnRango}
use so_1c.Cpu.Mmu.{
  mmu, mmu_pagina, numero_pagina, buscar_tlb, mmu_hit, mmu_miss, pedir_pagina, tras_miss,
  acomodar_entradas_tlb, marco_de,
}
use so_1c.Cpu.Tlb.{direccion, sin_tlb, mmu-sin_tlb}
use so_1c.Cpu.Cupo.{EsTlb, SoloTraduce, mmu-EsTlb}
use so_1c.Cpu.Instrucciones.{exe_sum, exe_sub}
use so_1c.Cpu.Leyes.{exe_sub-exe_sum}

abbrev pub ceros : Registros
ceros = record {
  pc = 0;
  ax = 7;
  bx = 0;
  cx = 0;
  dx = 0;
  eax = 0;
  ebx = 0;
  ecx = 0;
  edx = 0;
  si = 0;
  di = 0;
}

abbrev pub k : Config
k = record { tam_pag = 16; cant_entradas = 2; lru = true }

abbrev responder : ℕ → PeticionCpu → Atendido ℕ
responder m (traducir zero) = some (entero pagina 3 ∷ [], m)
responder m (traducir (suc zero)) = some (entero pagina 5 ∷ [], m)
responder m (traducir (suc (suc n))) = some (operacion menos_uno ∷ [], m)
responder m q = none

abbrev servidor : ServidorMemoria ℕ
servidor = record { pedir = responder }

-- Page 0 is in the TLB.
abbrev pub c0 : Cpu ℕ
c0 = record {
  pcb = record { pid = 1; pc = 0; quantum = 0; registros = ceros; estado = 3; instrucciones = 1 };
  se_va = 0;
  a_enviar = "";
  vector_direcciones = [];
  tlb = record { pid = 1; marco = 3; pagina = 0 } ∷ [];
  libres = 1;
  memoria = 0;
}

abbrev c1 : Cpu ℕ
c1 = record c0 {
  tlb = record { pid = 1; marco = 3; pagina = 0 } ∷ record { pid = 1; marco = 5; pagina = 1 } ∷ [];
  libres = 0;
}

mmu-sin_tlb_example :
    direccion servidor k (mmu k servidor 20 c0)
    ≡ direccion servidor k (mmu (sin_tlb servidor k) servidor 20 c0)
mmu-sin_tlb_example = mmu-sin_tlb servidor k 20 c0 (λ e. refl, tt)

servidor-SoloTraduce : SoloTraduce k servidor
servidor-SoloTraduce m zero os m' e = cc
servidor-SoloTraduce m (suc zero) os m' e = cc
servidor-SoloTraduce m (suc (suc n)) os m' e = cc

mmu-EsTlb_example : EsTlb k servidor c1
unfolding mmu mmu_pagina numero_pagina buscar_tlb mmu_hit mmu_miss pedir_pagina tras_miss
    acomodar_entradas_tlb marco_de
mmu-EsTlb_example =
    mmu-EsTlb k servidor 20 84 c0 c1 servidor-SoloTraduce (omega arith)
      (record { cupo = refl; coherente = (λ e. refl, tt) }) refl

ceros-EnRango : EnRango ceros
ceros-EnRango = record {
  pc_lt = omega arith;
  ax_lt = omega arith;
  bx_lt = omega arith;
  cx_lt = omega arith;
  dx_lt = omega arith;
  eax_lt = omega arith;
  ebx_lt = omega arith;
  ecx_lt = omega arith;
  edx_lt = omega arith;
  si_lt = omega arith;
  di_lt = omega arith;
}

exe_sub-exe_sum_example : exe_sub "AX" "AX" c0 ≡ exe_sum "AX" "AX" c0
exe_sub-exe_sum_example = exe_sub-exe_sum "AX" "AX" c0 ceros-EnRango
