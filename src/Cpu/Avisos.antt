-- ===== src/Cpu/Avisos.antt =====
-- The thread of the CPU that queues interruptions (utils/src/cpu/cpu.c: interrupciones), over the bytes on its
-- socket, and what the kernel sends there (utils/src/kernel/kernel.c: finalizar_proceso, setear_timer).
use mathlib.Core.List.{append-nil}
use so_1c.Base.{
  ℕ, zero, suc, ◌-◌, ◌^◌, ◌<◌, ◌≤◌, ◌≡◌, refl, subst, List, [], ◌∷◌, ◌++◌, Option, none, some,
  false, ◌>>=◌, if◌then◌else◌, ◌==◌, length, arith, length-append,
}
use so_1c.Protocolo.{menos_uno}
use so_1c.Sockets.{palabra, recv_palabra, recibir_operacion, recibir_int, enviar_int}
use so_1c.Sockets.Bloques.{length-palabra, recv_palabra-palabra}
use so_1c.Sockets.Paquetes.{formato, recibir-formato, enviar_bytes-formato}
use so_1c.Cpu.Ciclo.{Interrupcion}

-- `interrupciones`: what it queues until the kernel closes the connection, in the given number of rounds. A packet
-- that is cut is `none`.
unfoldable pub interrupciones : ℕ → List ℕ → Option (List Interrupcion)
interrupciones zero s = none
interrupciones (suc f) s = recibir_operacion s >>= λ o.
    if o.0 == menos_uno
    then some []
    else recibir_int o.1 >>= λ v.
        interrupciones f v.1 >>= λ is. some (record { pid = v.0; motivo = o.0 } ∷ is)

-- A reason and a pid that fit an `int`, and no -1 for a reason.
unfoldable pub Legales : List Interrupcion → Type 0
Legales [] = Unit {0}
Legales (i ∷ is) = (i.pid < 2 ^ 32) × (i.motivo < 2 ^ 32 - 1) × Legales is

module _ (malloc : ℕ → List ℕ) where
  -- The `enviar_int` of each interruption, one after another.
  unfoldable pub avisar : List Interrupcion → Option (List ℕ)
  avisar [] = some []
  avisar (i ∷ is) = enviar_int malloc i.pid i.motivo >>= λ b. avisar is >>= λ bs. some (b ++ bs)

  module _ (ley : (n : ℕ) → length (malloc n) ≡ n) where
    cierra : (f : ℕ) → 0 < f → interrupciones f [] ≡ some []
    unfolding interrupciones recibir_operacion
    cierra zero l = absurd (omega arith)
    cierra (suc f) l = refl

    -- A round takes one packet.
    una :
        (i : Interrupcion) (is : List Interrupcion) (bs : List ℕ) (f : ℕ)
        → i.pid < 2 ^ 32
        → i.motivo < 2 ^ 32 - 1
        → 0 < f
        → interrupciones (f - 1) bs ≡ some is
        → interrupciones f (formato i.motivo (palabra 4 i.pid) ++ bs) ≡ some (i ∷ is)
    unfolding interrupciones recibir_int
    una i is bs zero a b l e = absurd (omega arith)
    una i is bs (suc f) a b l e =
        let t = length-palabra 4 i.pid in
        let (r, j, q) =
          recibir-formato i.motivo (palabra 4 i.pid) bs (omega (arith, b)) (omega (arith, t)) in
        let w : recv_palabra 4 (palabra 4 i.pid) ≡ some (i.pid, []) =
          subst (λ (x : List ℕ). recv_palabra 4 x ≡ some (i.pid, [])) (append-nil (palabra 4 i.pid))
            (recv_palabra-palabra 4 i.pid [] a) in
        let e1 = subst (λ (x : ℕ). interrupciones x bs ≡ some is) (menos_1 f) e in
        rw (j, no_cierra (omega (arith, b)), q, w, e1) refl
      where
        menos_1 : (n : ℕ) → suc n - 1 ≡ n
        menos_1 n = omega arith

        no_cierra : i.motivo < 2 ^ 32 - 1 → (i.motivo == menos_uno) ≡ false
        no_cierra b = ground (arith, b)

    -- What the kernel sends is what the thread queues, in its order, and a round for each byte and one more are
    -- enough.
    pub interrupciones-avisar :
        (is : List Interrupcion)
        → Legales is
        → (bs : List ℕ) × (avisar is ≡ some bs)
          × (length is ≤ length bs)
          × ((f : ℕ) → length is < f → interrupciones f bs ≡ some is)
    unfolding Legales avisar enviar_int formato palabra
    interrupciones-avisar [] h = ([], refl, omega arith, λ f l. cierra f (omega (arith, l)))
    interrupciones-avisar (i ∷ is) (a, b, h) =
        let (bs, e, l, g) = interrupciones-avisar is h in
        let x = formato i.motivo (palabra 4 i.pid) in
        (
          x ++ bs,
          rw
              (
                enviar_bytes-formato malloc ley i.motivo (palabra 4 i.pid)
                    (omega (arith, length-palabra 4 i.pid)),
                e,
              )
              refl,
          rw (length-append x bs) (omega (arith, l)),
          λ f m. una i is bs f a b (omega (arith, m)) (g (f - 1) (omega (arith, m))),
        )
