-- ===== src/Sockets/Registro.antt =====
-- The PCB on the socket (utils/src/sockets/sockets.c: enviar_pcb, pcb_deserializar).
use mathlib.Core.List.{append_assoc}
use so_1c.Base.{
  ℕ, ◌^◌, ◌<◌, ◌≡◌, refl, List, [], ◌++◌, Option, some, ◌>>=◌, length, length-append, length-drop,
  drop, arith,
}
use so_1c.Bytes.{escribir_en}
use so_1c.Cpu.{Pcb, Registros}
use so_1c.Cpu.Nombres.{EnRango}
use so_1c.Sockets.{palabra, recv_palabra, recibir_operacion, recibir_buffer, enviar_paquete}
use so_1c.Sockets.Bloques.{length-palabra, recv_palabra-palabra, escribir_en-append}
use so_1c.Sockets.Paquetes.{formato, recibir-formato, enviar_paquete-formato}

-- `t_registros` in memory: 32 bytes, with no padding.
unfoldable pub bytes_registros : Registros → List ℕ
bytes_registros r =
    palabra 4 r.pc
    ++ (palabra 1 r.ax
        ++ (palabra 1 r.bx
            ++ (palabra 1 r.cx
                ++ (palabra 1 r.dx
                    ++ (palabra 4 r.eax
                        ++ (palabra 4 r.ebx
                            ++ (palabra 4 r.ecx
                                ++ (palabra 4 r.edx ++ (palabra 4 r.si ++ palabra 4 r.di)))))))))

-- `enviar_pcb`: the stream is 4 bytes longer than what is stored in it.
unfoldable pub enviar_pcb : (ℕ → List ℕ) → Pcb → ℕ → Option (List ℕ)
unfolding bytes_registros
enviar_pcb malloc pcb c = escribir_en (malloc 60) 0 (palabra 4 pcb.pid) >>= λ m1.
    escribir_en m1 4 (palabra 4 pcb.pc) >>= λ m2. escribir_en m2 8 (palabra 4 pcb.quantum) >>= λ m3.
    escribir_en m3 12 (bytes_registros pcb.registros) >>= λ m4.
    escribir_en m4 44 (palabra 4 pcb.estado) >>= λ m5.
    escribir_en m5 48 (palabra 8 pcb.instrucciones) >>= λ m6.
    enviar_paquete malloc (record { codigo_operacion = c; size = 60; stream = m6 })

-- `t_registros` and `t_pcb` out of memory; `none` past the end.
unfoldable pub leer_registros : List ℕ → Option (Registros × List ℕ)
leer_registros s = recv_palabra 4 s >>= λ pc. recv_palabra 1 pc.1 >>= λ ax.
    recv_palabra 1 ax.1 >>= λ bx. recv_palabra 1 bx.1 >>= λ cx. recv_palabra 1 cx.1 >>= λ dx.
    recv_palabra 4 dx.1 >>= λ eax. recv_palabra 4 eax.1 >>= λ ebx. recv_palabra 4 ebx.1 >>= λ ecx.
    recv_palabra 4 ecx.1 >>= λ edx. recv_palabra 4 edx.1 >>= λ si. recv_palabra 4 si.1 >>= λ di.
    some (
      record {
        pc = pc.0;
        ax = ax.0;
        bx = bx.0;
        cx = cx.0;
        dx = dx.0;
        eax = eax.0;
        ebx = ebx.0;
        ecx = ecx.0;
        edx = edx.0;
        si = si.0;
        di = di.0;
      },
      di.1,
    )

unfoldable pub leer_pcb : List ℕ → Option Pcb
unfolding leer_registros
leer_pcb s = recv_palabra 4 s >>= λ pid. recv_palabra 4 pid.1 >>= λ pc.
    recv_palabra 4 pc.1 >>= λ quantum. leer_registros quantum.1 >>= λ r.
    recv_palabra 4 r.1 >>= λ estado. recv_palabra 8 estado.1 >>= λ i. some (record {
      pid = pid.0;
      pc = pc.0;
      quantum = quantum.0;
      registros = r.0;
      estado = estado.0;
      instrucciones = i.0;
    })

-- `pcb_deserializar`
unfoldable pub pcb_deserializar : List ℕ → Option (Pcb × List ℕ)
unfolding leer_pcb
pcb_deserializar s = recibir_buffer s >>= λ r. leer_pcb r.0 >>= λ p. some (p, r.1)

-- The fields of a PCB fit the types of the source.
pub record Cabe (p : Pcb) : Type 0 where
  pub pid_lt : p.pid < 2 ^ 32
  pub pc_lt : p.pc < 2 ^ 32
  pub quantum_lt : p.quantum < 2 ^ 32
  pub registros : EnRango p.registros
  pub estado_lt : p.estado < 2 ^ 32
  pub instrucciones_lt : p.instrucciones < 2 ^ 64

length-bytes_registros : (r : Registros) → length (bytes_registros r) ≡ 32
unfolding bytes_registros palabra
length-bytes_registros r = refl

leer-bytes_registros :
    (r : Registros) (s : List ℕ) → EnRango r → leer_registros (bytes_registros r ++ s) ≡ some (r, s)
unfolding bytes_registros leer_registros
leer-bytes_registros r s h = simp append_assoc (
    rw
      (
        recv_palabra-palabra 4 r.pc _ h.pc_lt,
        recv_palabra-palabra 1 r.ax _ h.ax_lt,
        recv_palabra-palabra 1 r.bx _ h.bx_lt,
        recv_palabra-palabra 1 r.cx _ h.cx_lt,
        recv_palabra-palabra 1 r.dx _ h.dx_lt,
        recv_palabra-palabra 4 r.eax _ h.eax_lt,
        recv_palabra-palabra 4 r.ebx _ h.ebx_lt,
        recv_palabra-palabra 4 r.ecx _ h.ecx_lt,
        recv_palabra-palabra 4 r.edx _ h.edx_lt,
        recv_palabra-palabra 4 r.si _ h.si_lt,
        recv_palabra-palabra 4 r.di _ h.di_lt,
      )
      refl)

-- The stream of a PCB, with what is left of the block.
unfoldable bytes_pcb : Pcb → List ℕ → List ℕ
bytes_pcb p resto =
    palabra 4 p.pid
    ++ (palabra 4 p.pc
        ++ (palabra 4 p.quantum
            ++ (bytes_registros p.registros
                ++ (palabra 4 p.estado ++ (palabra 8 p.instrucciones ++ resto)))))

leer-bytes_pcb : (p : Pcb) (resto : List ℕ) → Cabe p → leer_pcb (bytes_pcb p resto) ≡ some p
unfolding bytes_pcb leer_pcb
leer-bytes_pcb p resto h =
    rw
      (
        recv_palabra-palabra 4 p.pid _ h.pid_lt,
        recv_palabra-palabra 4 p.pc _ h.pc_lt,
        recv_palabra-palabra 4 p.quantum _ h.quantum_lt,
        leer-bytes_registros p.registros
            (palabra 4 p.estado ++ (palabra 8 p.instrucciones ++ resto)) h.registros,
        recv_palabra-palabra 4 p.estado _ h.estado_lt,
        recv_palabra-palabra 8 p.instrucciones _ h.instrucciones_lt,
      )
      refl

length-bytes_pcb : (p : Pcb) (resto : List ℕ) → length resto ≡ 4 → length (bytes_pcb p resto) ≡ 60
unfolding bytes_pcb bytes_registros palabra
length-bytes_pcb p resto n = omega (arith)

module _ (malloc : ℕ → List ℕ) (ley : (n : ℕ) → length (malloc n) ≡ n) where
  enviar_pcb-formato :
      (p : Pcb) (c : ℕ)
      → (resto : List ℕ) × (length resto ≡ 4)
        × (enviar_pcb malloc p c ≡ some (formato c (bytes_pcb p resto)))
  unfolding enviar_pcb bytes_pcb
  enviar_pcb-formato p c =
      let b = malloc 60 in
      let p1 = palabra 4 p.pid in
      let p2 = palabra 4 p.pc in
      let p3 = palabra 4 p.quantum in
      let p4 = bytes_registros p.registros in
      let p5 = palabra 4 p.estado in
      let p6 = palabra 8 p.instrucciones in
      let t1 = drop (length p1) b in
      let t2 = drop (length p2) t1 in
      let t3 = drop (length p3) t2 in
      let t4 = drop (length p4) t3 in
      let t5 = drop (length p5) t4 in
      let t6 = drop (length p6) t5 in
      let lb = ley 60 in
      let l1 = length-palabra 4 p.pid in
      let l2 = length-palabra 4 p.pc in
      let l3 = length-palabra 4 p.quantum in
      let l4 = length-bytes_registros p.registros in
      let l5 = length-palabra 4 p.estado in
      let l6 = length-palabra 8 p.instrucciones in
      let d1 = length-drop (length p1) b in
      let d2 = length-drop (length p2) t1 in
      let d3 = length-drop (length p3) t2 in
      let d4 = length-drop (length p4) t3 in
      let d5 = length-drop (length p5) t4 in
      let d6 = length-drop (length p6) t5 in
      let q2 = p1 ++ p2 in
      let q3 = q2 ++ p3 in
      let q4 = q3 ++ p4 in
      let q5 = q4 ++ p5 in
      let e2 = length-append p1 p2 in
      let e3 = length-append q2 p3 in
      let e4 = length-append q3 p4 in
      let e5 = length-append q4 p5 in
      let e6 = length-append (q5 ++ p6) t6 in
      let e7 = length-append q5 p6 in
      (
        t6,
        omega (arith, lb, l1, l2, l3, l4, l5, l6, d1, d2, d3, d4, d5, d6),
        rw
            (
              escribir_en-append [] b p1 0 refl (omega (arith, lb, l1)),
              escribir_en-append p1 t1 p2 4 l1 (omega (arith, lb, l1, l2, d1)),
              ← append_assoc p1 p2 t2,
              escribir_en-append q2 t2 p3 8 (omega (arith, l1, l2, e2))
                  (omega (arith, lb, l1, l2, l3, d1, d2)),
              ← append_assoc q2 p3 t3,
              escribir_en-append q3 t3 p4 12 (omega (arith, l1, l2, l3, e2, e3))
                  (omega (arith, lb, l1, l2, l3, l4, d1, d2, d3)),
              ← append_assoc q3 p4 t4,
              escribir_en-append q4 t4 p5 44 (omega (arith, l1, l2, l3, l4, e2, e3, e4))
                  (omega (arith, lb, l1, l2, l3, l4, l5, d1, d2, d3, d4)),
              ← append_assoc q4 p5 t5,
              escribir_en-append q5 t5 p6 48 (omega (arith, l1, l2, l3, l4, l5, e2, e3, e4, e5))
                  (omega (arith, lb, l1, l2, l3, l4, l5, l6, d1, d2, d3, d4, d5)),
              ← append_assoc q5 p6 t6,
            )
            (enviar_paquete-formato malloc ley c c 60 ((q5 ++ p6) ++ t6) (bytes_pcb p t6) refl
              (omega
                (arith, lb, l1, l2, l3, l4, l5, l6, d1, d2, d3, d4, d5, d6, e2, e3, e4, e5, e6, e7))
              (simp append_assoc refl) (omega arith)),
      )

  -- A PCB whose fields fit their types, sent with a code: whatever malloc found, `enviar_pcb` succeeds;
  -- the other end takes off the code, then `pcb_deserializar` gives the same PCB, and what was sent
  -- after it stays. The 4 bytes that `enviar_pcb` sends too many are not read.
  pub pcb_deserializar-enviar_pcb :
      (p : Pcb) (c : ℕ) (s : List ℕ)
      → Cabe p
      → c < 2 ^ 32
      → (bytes r : List ℕ) × (enviar_pcb malloc p c ≡ some bytes)
        × (recibir_operacion (bytes ++ s) ≡ some (c, r))
        × (pcb_deserializar r ≡ some (p, s))
  unfolding pcb_deserializar
  pcb_deserializar-enviar_pcb p c s h l =
      let (resto, n, e) = enviar_pcb-formato p c in
      let xs = bytes_pcb p resto in
      let (r, f, g) = recibir-formato c xs s l (omega (arith, length-bytes_pcb p resto n)) in
      (formato c xs, r, e, f, rw (g, leer-bytes_pcb p resto h) refl)
