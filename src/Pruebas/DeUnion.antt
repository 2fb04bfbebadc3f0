-- ===== src/Pruebas/DeUnion.antt =====
-- A CPU that runs the process of a memory of two pages of 4 bytes.
use so_1c.Base.{
  ℕ, ◌+◌, ◌*◌, ◌≡◌, ◌≤◌, ◌<◌, refl, ◌⊎◌, Bool, true, List, [], ◌∷◌, some, if◌then◌else◌, ltb,
  length, get_elem?, arith,
}
use so_1c.BitArray.{lista_bits}
use so_1c.Protocolo.{menos_uno}
use so_1c.Memoria.{Pag, Proceso, Memoria}
use so_1c.Memoria.Marcos.{paginas_usadas}
use so_1c.Memoria.Atender.{interactuar_cpu, traducir_pagina}
use so_1c.Cpu.{Registros, Cpu, Config}
use so_1c.Cpu.Nombres.{get_registro, cuanto_leo, EnRango}
use so_1c.Cpu.Mmu.{mmu}
use so_1c.Cpu.Tlb.{direccion}
use so_1c.Cpu.Instrucciones.{regs}
use so_1c.Cpu.Tabla.{servidor, EnMarcha, mmu-tabla}
use so_1c.Cpu.Transferencias.{exe_mov_in, exe_mov_out}
use so_1c.Cpu.Mueve.{mov_in-mov_out}
use so_1c.Pruebas.DeMemoria.{con, libre0, usada0, una, valida}
use so_1c.Pruebas.DeCpu.{ceros}

abbrev chica : Config
chica = record { tam_pag = 4; cant_entradas = 2; lru = true }

abbrev proceso : Proceso
proceso = con (usada0 ∷ libre0 ∷ [])

abbrev valores : Registros
valores = record ceros { eax = 70000 }

-- Page 0 is in the TLB.
abbrev cpu : Cpu (Memoria (List Bool))
cpu = record {
  pcb = record { pid = 7; pc = 0; quantum = 0; registros = valores; estado = 3; instrucciones = 1 };
  se_va = 0;
  a_enviar = "";
  vector_direcciones = [];
  tlb = record { pid = 7; marco = 0; pagina = 0 } ∷ [];
  libres = 1;
  memoria = una;
}

cpu-EnMarcha : EnMarcha chica cpu proceso
unfolding servidor interactuar_cpu traducir_pagina
cpu-EnMarcha = record {
  valida = valida;
  viva = refl;
  igual = refl;
  t_pos = omega arith;
  entra = omega arith;
  coherente = (λ e. refl, tt);
}

mmu-tabla_example :
    (a : Pag) × (get_elem? (usada0 ∷ libre0 ∷ []) 0 ≡ some a)
    × (direccion servidor chica (mmu chica servidor 3 cpu)
        ≡ some (
            if ltb 3 (paginas_usadas (usada0 ∷ libre0 ∷ []) * 4)
            then a.marco * 4 + 3
            else menos_uno))
    × (3 < paginas_usadas (usada0 ∷ libre0 ∷ []) * 4 → a.marco * 4 + 3 < 8)
mmu-tabla_example = mmu-tabla chica cpu proceso 3 cpu-EnMarcha (omega arith)

valores-EnRango : EnRango valores
valores-EnRango = record {
  pc_lt = omega arith;
  ax_lt = omega arith;
  bx_lt = omega arith;
  cx_lt = omega arith;
  dx_lt = omega arith;
  eax_lt = omega arith;
  ebx_lt = omega arith;
  ecx_lt = omega arith;
  edx_lt = omega arith;
  si_lt = omega arith;
  di_lt = omega arith;
}

-- EAX to the address in EBX, and back into EDX.
mov_in-mov_out_example :
    (a : Pag) × (c' c'' : Cpu (Memoria (List Bool))) × (x : List ℕ) × (get_elem?
        (usada0 ∷ libre0 ∷ [])
        0
      ≡ some a)
    × (exe_mov_out chica servidor "EBX" "EAX" cpu ≡ some (tt, c'))
    × (c'.memoria ≡ record una { contigua = x })
    × (length x ≡ 8)
    × ((j : ℕ)
        → (j < a.marco * 4 + 0) ⊎ (a.marco * 4 + 0 + 4 ≤ j)
        → get_elem? x j ≡ get_elem? una.contigua j)
    × (exe_mov_in chica servidor "EDX" "EBX" c' ≡ some (tt, c''))
    × (get_registro (regs c'') "EDX" ≡ 70000)
unfolding get_registro cuanto_leo paginas_usadas
mov_in-mov_out_example =
    mov_in-mov_out chica cpu proceso "EBX" "EAX" "EDX" 4 cpu-EnMarcha valores-EnRango refl refl
      (omega arith) (omega arith)
