-- ===== src/Interfaces/Eco.antt =====
-- A text through STDIN into the memory, and out of it through STDOUT
-- (utils/src/entradasalida/entradasalida.c, with the memory's server of utils/src/memoria/memoria.c).
use Prim.Native.String.{String}
use mathlib.Core.List.{append-nil}
use so_1c.Base.{
  ℕ, ◌^◌, ◌<◌, ◌≡◌, refl, sym, subst, List, [], ◌∷◌, ◌++◌, some, length, length-append, get_elem?,
  arith,
}
use so_1c.Protocolo.{codigo, io_success}
use so_1c.Tramos.Leyes.{tramos-pagina}
use so_1c.Memoria.{Memoria}
use so_1c.Memoria.Servidor.{escribir_string, leer_string}
use so_1c.Memoria.Textos.{Fuera}
use so_1c.Sockets.{enviar_operacion}
use so_1c.Sockets.Paquetes.{recibir-formato}
use so_1c.Interfaces.{sigue, enviar_pedido}
use so_1c.Interfaces.Enlace.{enlace}
use so_1c.Interfaces.Consola.{getchar, en_reserva, interfaz_stdin, interfaz_stdout}
use so_1c.Interfaces.Leyes.{
  EsTexto, Traslado, lugar, Disjuntos-Pares, leer_teclado-append, pedazos-tramos, enlace-escritura,
  enlace-lectura, leer_string-escribir_string,
}
use so_1c.Interfaces.Mensajes.{
  hasta_nul-nul, recibir_vector-enviar_vector, recibir_pedido-enviar_pedido,
}

hay_lugar : (r n : ℕ) → n < r → en_reserva r n ≡ some n
hay_lugar r n h = ground (arith, h)

module _ (malloc : ℕ → List ℕ) (ley : (n : ℕ) → length (malloc n) ≡ n)
    (string_split : List ℕ → List String) (atoi : String → ℕ) (reserva : ℕ → ℕ)
    {Bits : Type 0} where
  -- STDIN on a request of the kernel.
  stdin-enlace :
      (m : Memoria Bits) (pedido : List ℕ) (nombre a k : String) (pid d : ℕ) (xs ds s cs c : List ℕ)
      → EsTexto pedido
      → string_split pedido ≡ "IO_STDIN_READ" ∷ nombre ∷ a ∷ k ∷ []
      → atoi a ≡ length xs
      → atoi k ≡ length (d ∷ ds)
      → pid < 2 ^ 32
      → EsTexto xs
      → Traslado (length m.contigua) m.tam_pag (length xs) d ds
      → length xs < reserva (length xs)
      → escribir_string m.contigua (xs ++ 0 ∷ []) (lugar m.tam_pag (length xs) d ds) 0 ≡ some c
      → (bytes : List ℕ) × (enviar_pedido malloc pedido pid (d ∷ ds) ≡ some bytes)
        × (interfaz_stdin malloc string_split atoi
              (enlace malloc)
              m.tam_pag
              reserva
              m
              (bytes ++ s)
              (xs ++ 10 ∷ cs)
            ≡ some (
                sigue (record {
                  a_kernel = enviar_operacion (codigo io_success);
                  de_kernel = s;
                  memoria = record m { contigua = c };
                  teclado = cs;
                  pantalla = [];
                })))
  unfolding interfaz_stdin getchar
  stdin-enlace m pedido nombre a k pid d xs ds s cs c u v w z p t h lugar_lt e =
      let g =
        tramos-pagina m.tam_pag (length xs) d (d ∷ ds) h.t_pos h.positiva
          (omega (arith, t.largo_lt)) in
      let ps = lugar m.tam_pag (length xs) d ds in
      let (bytes, b, r) =
        recibir_pedido-enviar_pedido malloc ley string_split pedido pid (d ∷ ds) s u.sin_nul
          u.largo_lt p in
      let (x, f, y) =
        enlace-escritura malloc ley m (xs ++ 0 ∷ []) xs pid ps c (hasta_nul-nul xs [] t.sin_nul)
          t.largo_lt p (omega (arith, h.vector_lt, g.0))
          (Disjuntos-Pares (length m.contigua) ps (omega (arith, h.largo_lt)) h.disjuntos) e in
      (
        bytes,
        b,
        rw
            (
              r,
              v,
              z,
              recibir_vector-enviar_vector (d ∷ ds) s h.enteros,
              w,
              leer_teclado-append xs (10 ∷ cs),
              hay_lugar (reserva (length xs)) (length xs) lugar_lt,
              pedazos-tramos m.tam_pag (length xs) d ds h.t_pos h.positiva
                  (omega (arith, t.largo_lt)) h.todas,
              f,
              y,
            )
            refl,
      )

  -- STDOUT on a request of the kernel.
  stdout-enlace :
      (m : Memoria Bits) (pedido : List ℕ) (nombre a k : String) (pid d : ℕ) (xs ds s cs : List ℕ)
      → EsTexto pedido
      → string_split pedido ≡ "IO_STDOUT_WRITE" ∷ nombre ∷ a ∷ k ∷ []
      → atoi a ≡ length xs
      → atoi k ≡ length (d ∷ ds)
      → pid < 2 ^ 32
      → EsTexto xs
      → Traslado (length m.contigua) m.tam_pag (length xs) d ds
      → leer_string m.contigua m.tam_pag (lugar m.tam_pag (length xs) d ds) ≡ some xs
      → (bytes : List ℕ) × (enviar_pedido malloc pedido pid (d ∷ ds) ≡ some bytes)
        × (interfaz_stdout malloc string_split atoi (enlace malloc) m.tam_pag m (bytes ++ s) cs
            ≡ some (
                sigue (record {
                  a_kernel = enviar_operacion (codigo io_success);
                  de_kernel = s;
                  memoria = m;
                  teclado = cs;
                  pantalla = xs ++ 32 ∷ 10 ∷ [];
                })))
  unfolding interfaz_stdout
  stdout-enlace m pedido nombre a k pid d xs ds s cs u v w z p t h e =
      let g =
        tramos-pagina m.tam_pag (length xs) d (d ∷ ds) h.t_pos h.positiva
          (omega (arith, t.largo_lt)) in
      let ps = lugar m.tam_pag (length xs) d ds in
      let (bytes, b, r) =
        recibir_pedido-enviar_pedido malloc ley string_split pedido pid (d ∷ ds) s u.sin_nul
          u.largo_lt p in
      let y =
        enlace-lectura malloc ley m xs pid ps t p (omega (arith, h.vector_lt, g.0))
          (Disjuntos-Pares (length m.contigua) ps (omega (arith, h.largo_lt)) h.disjuntos) e in
      let (q, i, j) =
        recibir-formato 28 (xs ++ 0 ∷ []) [] (omega arith)
          (omega (arith, t.largo_lt, length-append xs (0 ∷ []))) in
      (
        bytes,
        b,
        rw
            (
              r,
              v,
              z,
              recibir_vector-enviar_vector (d ∷ ds) s h.enteros,
              w,
              pedazos-tramos m.tam_pag (length xs) d ds h.t_pos h.positiva
                  (omega (arith, t.largo_lt)) h.todas,
              y,
              rw append-nil at i,
              j,
              hasta_nul-nul xs [] t.sin_nul,
            )
            refl,
      )

  -- The kernel asks STDIN for a text of n characters to be put at physical addresses, one for each page
  -- that it touches, whose pieces lie in the user space and do not meet; the text typed has no NUL in
  -- it, and the compiler sets aside more than n bytes for an array of n, since STDIN writes one past its
  -- end. STDIN answers IO_SUCCESS, and the memory keeps its size and every byte outside the pieces.
  -- When the kernel then asks STDOUT for the same addresses, it prints the text that was typed and
  -- answers IO_SUCCESS, and the memory stays. Both requests are read whole: what the kernel sends
  -- after them stays, and so does what is typed after the end of the line.
  pub stdout-stdin :
      (m : Memoria Bits) (lee imprime : List ℕ) (nombre nombre' a k : String) (pid d : ℕ)
      (xs ds s s' cs : List ℕ)
      → EsTexto lee
      → EsTexto imprime
      → string_split lee ≡ "IO_STDIN_READ" ∷ nombre ∷ a ∷ k ∷ []
      → string_split imprime ≡ "IO_STDOUT_WRITE" ∷ nombre' ∷ a ∷ k ∷ []
      → atoi a ≡ length xs
      → atoi k ≡ length (d ∷ ds)
      → pid < 2 ^ 32
      → EsTexto xs
      → Traslado (length m.contigua) m.tam_pag (length xs) d ds
      → length xs < reserva (length xs)
      → (b b' : List ℕ) × (m' : Memoria Bits) × (enviar_pedido malloc lee pid (d ∷ ds) ≡ some b)
        × (interfaz_stdin malloc string_split atoi
              (enlace malloc)
              m.tam_pag
              reserva
              m
              (b ++ s)
              (xs ++ 10 ∷ cs)
            ≡ some (
                sigue (record {
                  a_kernel = enviar_operacion (codigo io_success);
                  de_kernel = s;
                  memoria = m';
                  teclado = cs;
                  pantalla = [];
                })))
        × (length m'.contigua ≡ length m.contigua)
        × ((j : ℕ)
            → Fuera j (lugar m.tam_pag (length xs) d ds)
            → get_elem? m'.contigua j ≡ get_elem? m.contigua j)
        × (enviar_pedido malloc imprime pid (d ∷ ds) ≡ some b')
        × (interfaz_stdout malloc string_split atoi (enlace malloc) m.tam_pag m' (b' ++ s') cs
            ≡ some (
                sigue (record {
                  a_kernel = enviar_operacion (codigo io_success);
                  de_kernel = s';
                  memoria = m';
                  teclado = cs;
                  pantalla = xs ++ 32 ∷ 10 ∷ [];
                })))
  stdout-stdin m lee imprime nombre nombre' a k pid d xs ds s s' cs ul ui vl vi w z p t h x =
      let (c, e, f, o, q) =
        leer_string-escribir_string m xs d ds (0 ∷ []) h t.sin_nul (omega (arith, t.largo_lt)) in
      let m' = record m { contigua = c } in
      let (b, g, i) = stdin-enlace m lee nombre a k pid d xs ds s cs c ul vl w z p t h x e in
      let h' : Traslado (length c) m.tam_pag (length xs) d ds =
        subst (λ l. Traslado l m.tam_pag (length xs) d ds) (sym o) h in
      let (b', g', i') =
        stdout-enlace m' imprime nombre' a k pid d xs ds s' cs ui vi w z p t h' f in
      (b, b', m', g, i, o, q, g', i')
