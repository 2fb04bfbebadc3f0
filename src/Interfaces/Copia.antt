-- ===== src/Interfaces/Copia.antt =====
-- A text into a file and back, through the file system's interface
-- (utils/src/entradasalida/entradasalida.c: crear_interfaz_fs, escribir_fs, leer_fs).
use Prim.Native.String.{String}
use mathlib.Core.List.{append_assoc, append-nil}
use so_1c.Base.{
  ℕ, ◌+◌, ◌*◌, ◌^◌, ◌<◌, ◌≤◌, ◌≡◌, refl, ◌∙◌, List, [], ◌∷◌, ◌++◌, some, ◌>>=◌, >>=-some, length,
  length-append, get_elem?, arith, ◌⊎◌,
}
use so_1c.Protocolo.{codigo, io_success}
use so_1c.Tramos.Leyes.{tramos-pagina}
use so_1c.Memoria.{Memoria}
use so_1c.Memoria.Servidor.{hasta_nul, escribir_string, leer_string}
use so_1c.Memoria.Textos.{Fuera}
use so_1c.Sockets.{enviar_operacion}
use so_1c.Sockets.Paquetes.{recibir-formato}
use so_1c.Interfaces.{sigue, enviar_pedido}
use so_1c.Interfaces.Enlace.{enlace}
use so_1c.Interfaces.Archivos.{interfaz_fs, caso_escribir, caso_leer}
use so_1c.Interfaces.Leyes.{
  EsTexto, Traslado, lugar, Disjuntos-Pares, pedazos-tramos, enlace-escritura, enlace-lectura,
  leer_string-escribir_string,
}
use so_1c.Interfaces.Mensajes.{
  hasta_nul-nul, hasta_nul-append, recibir_vector-enviar_vector, recibir_pedido-enviar_pedido,
}
use so_1c.BitArray.{BitArray}
use so_1c.DialFs.{Fs, EntradaFat, buscar_entrada}
use so_1c.DialFs.Operaciones.{escribir_fs, leer_fs}
use so_1c.DialFs.Leyes.{leer_fs-escribir_fs, escribir_fs-false}

-- A request of the kernel for a file: its text, the words of it, and the numbers that it carries.
pub record PedidoFs (string_split : List ℕ → List String) (atoi : String → ℕ) (texto : List ℕ)
    (op nombre : String) (n offset largo : ℕ) : Type 0 where
  pub es_texto : EsTexto texto
  pub interfaz : String
  pub tamanio : String
  pub cuantas : String
  pub desde : String
  pub partes : string_split texto ≡ op ∷ interfaz ∷ nombre ∷ tamanio ∷ cuantas ∷ desde ∷ []
  pub atoi_tamanio : atoi tamanio ≡ n
  pub atoi_cuantas : atoi cuantas ≡ largo
  pub atoi_desde : atoi desde ≡ offset

module _ (malloc : ℕ → List ℕ) (ley : (n : ℕ) → length (malloc n) ≡ n) (detras : List ℕ)
    (string_split : List ℕ → List String) (atoi : String → ℕ) {Bits B : Type 0}
    ⦃b : BitArray B⦄ where
  -- A text in the memory, to be written to a file.
  fs-escribir :
      (f : Fs B) (m : Memoria Bits) (texto : List ℕ) (nombre : String) (pid o d : ℕ)
      (xs ds s : List ℕ)
      → PedidoFs string_split atoi texto "IO_FS_WRITE" nombre (length xs) o (length (d ∷ ds))
      → pid < 2 ^ 32
      → EsTexto xs
      → Traslado (length m.contigua) m.tam_pag (length xs) d ds
      → leer_string m.contigua m.tam_pag (lugar m.tam_pag (length xs) d ds) ≡ some xs
      → (bytes : List ℕ) × (enviar_pedido malloc texto pid (d ∷ ds) ≡ some bytes)
        × (interfaz_fs malloc detras string_split atoi (enlace malloc) m.tam_pag f m (bytes ++ s)
            ≡ (escribir_fs f nombre xs o >>= λ w. some (
                sigue (record {
                  a_kernel = enviar_operacion (codigo io_success);
                  de_kernel = s;
                  memoria = m;
                  fs = w.1;
                }))))
  unfolding interfaz_fs caso_escribir
  fs-escribir f m texto nombre pid o d xs ds s u p t h e =
      let g =
        tramos-pagina m.tam_pag (length xs) d (d ∷ ds) h.t_pos h.positiva
          (omega (arith, t.largo_lt)) in
      let ps = lugar m.tam_pag (length xs) d ds in
      let (bytes, q, r) =
        recibir_pedido-enviar_pedido malloc ley string_split texto pid (d ∷ ds) s u.es_texto.sin_nul
          u.es_texto.largo_lt p in
      let y =
        enlace-lectura malloc ley m xs pid ps t p (omega (arith, h.vector_lt, g.0))
          (Disjuntos-Pares (length m.contigua) ps (omega (arith, h.largo_lt)) h.disjuntos) e in
      let (v, i, j) =
        recibir-formato 28 (xs ++ 0 ∷ []) [] (omega arith)
          (omega (arith, t.largo_lt, length-append xs (0 ∷ []))) in
      (
        bytes,
        q,
        rw
            (
              r,
              u.partes,
              u.atoi_cuantas,
              recibir_vector-enviar_vector (d ∷ ds) s h.enteros,
              u.atoi_tamanio,
              pedazos-tramos m.tam_pag (length xs) d ds h.t_pos h.positiva
                  (omega (arith, t.largo_lt)) h.todas,
              y,
              rw append-nil at i,
              j,
              hasta_nul-nul xs [] t.sin_nul,
              u.atoi_desde,
            )
            (>>=-some (escribir_fs f nombre xs o) _ _),
      )

  -- A text of a file, to be written to the memory.
  fs-leer :
      (f : Fs B) (m : Memoria Bits) (texto : List ℕ) (nombre : String) (pid o d : ℕ)
      (xs ds s c : List ℕ)
      → PedidoFs string_split atoi texto "IO_FS_READ" nombre (length xs) o (length (d ∷ ds))
      → pid < 2 ^ 32
      → hasta_nul xs ≡ xs
      → length (xs ++ hasta_nul detras) + 9 < 2 ^ 31
      → Traslado (length m.contigua) m.tam_pag (length xs) d ds
      → leer_fs f nombre o (length xs) ≡ some xs
      → escribir_string m.contigua
          ((xs ++ hasta_nul detras) ++ 0 ∷ [])
          (lugar m.tam_pag (length xs) d ds)
          0
        ≡ some c
      → (bytes : List ℕ) × (enviar_pedido malloc texto pid (d ∷ ds) ≡ some bytes)
        × (interfaz_fs malloc detras string_split atoi (enlace malloc) m.tam_pag f m (bytes ++ s)
            ≡ some (
                sigue (record {
                  a_kernel = enviar_operacion (codigo io_success);
                  de_kernel = s;
                  memoria = record m { contigua = c };
                  fs = f;
                })))
  unfolding interfaz_fs caso_leer
  fs-leer f m texto nombre pid o d xs ds s c u p t l h k e =
      let g =
        tramos-pagina m.tam_pag (length xs) d (d ∷ ds) h.t_pos h.positiva
          (omega (arith, l, length-append xs (hasta_nul detras))) in
      let ps = lugar m.tam_pag (length xs) d ds in
      let (bytes, q, r) =
        recibir_pedido-enviar_pedido malloc ley string_split texto pid (d ∷ ds) s u.es_texto.sin_nul
          u.es_texto.largo_lt p in
      let (x, i, j) =
        enlace-escritura malloc ley m (xs ++ detras) (xs ++ hasta_nul detras) pid ps c
          (hasta_nul-append xs detras t) l p (omega (arith, h.vector_lt, g.0))
          (Disjuntos-Pares (length m.contigua) ps (omega (arith, h.largo_lt)) h.disjuntos) e in
      (
        bytes,
        q,
        rw
            (
              r,
              u.partes,
              u.atoi_cuantas,
              recibir_vector-enviar_vector (d ∷ ds) s h.enteros,
              u.atoi_desde,
              u.atoi_tamanio,
              k,
              pedazos-tramos m.tam_pag (length xs) d ds h.t_pos h.positiva
                  (omega (arith, l, length-append xs (hasta_nul detras))) h.todas,
              i,
              j,
            )
            refl,
      )

  -- A text of the memory that goes past the end of the file that IO_FS_WRITE names: the interface
  -- changes neither the file system nor the memory, and answers IO_SUCCESS all the same.
  pub fs-no_entra :
      (f : Fs B) (m : Memoria Bits) (texto : List ℕ) (nombre : String) (pid o d : ℕ)
      (xs ds s : List ℕ) (e : EntradaFat)
      → PedidoFs string_split atoi texto "IO_FS_WRITE" nombre (length xs) o (length (d ∷ ds))
      → pid < 2 ^ 32
      → EsTexto xs
      → Traslado (length m.contigua) m.tam_pag (length xs) d ds
      → leer_string m.contigua m.tam_pag (lugar m.tam_pag (length xs) d ds) ≡ some xs
      → buscar_entrada nombre f.fat ≡ some e
      → e.largo < length xs + o
      → (bytes : List ℕ) × (enviar_pedido malloc texto pid (d ∷ ds) ≡ some bytes)
        × (interfaz_fs malloc detras string_split atoi (enlace malloc) m.tam_pag f m (bytes ++ s)
            ≡ some (
                sigue (record {
                  a_kernel = enviar_operacion (codigo io_success);
                  de_kernel = s;
                  memoria = m;
                  fs = f;
                })))
  fs-no_entra f m texto nombre pid o d xs ds s e u p t h l i v =
      let (bytes, q, r) = fs-escribir f m texto nombre pid o d xs ds s u p t h l in
      (bytes, q, r ∙ rw (escribir_fs-false f nombre xs o e i v) refl)

  -- A text with no NUL in it, in the memory at physical addresses, one for each page that it touches,
  -- is written to a file whose size it does not pass, and the file is then read at the same offset into
  -- other such addresses: the interface answers IO_SUCCESS to both requests; the writing changes no byte
  -- of the blocks outside the text's place and leaves the memory, and the reading leaves the file
  -- system, changes no byte of the memory outside the new pieces, and there the memory has the text.
  -- What the heap holds after the block read does not matter, while a packet can hold it.
  pub leer_string-fs :
      (f : Fs B) (m : Memoria Bits) (escribe lee : List ℕ) (nombre : String) (pid o d d' : ℕ)
      (xs ds ds' s s' : List ℕ) (e : EntradaFat)
      → PedidoFs string_split atoi escribe "IO_FS_WRITE" nombre (length xs) o (length (d ∷ ds))
      → PedidoFs string_split atoi lee "IO_FS_READ" nombre (length xs) o (length (d' ∷ ds'))
      → pid < 2 ^ 32
      → EsTexto xs
      → length (xs ++ hasta_nul detras) + 9 < 2 ^ 31
      → Traslado (length m.contigua) m.tam_pag (length xs) d ds
      → Traslado (length m.contigua) m.tam_pag (length xs) d' ds'
      → leer_string m.contigua m.tam_pag (lugar m.tam_pag (length xs) d ds) ≡ some xs
      → buscar_entrada nombre f.fat ≡ some e
      → length xs + o ≤ e.largo
      → e.bloque_inicial * f.tam_bloque + e.largo ≤ length f.bloques
      → (b1 b2 : List ℕ) × (f' : Fs B) × (m' : Memoria Bits) × (enviar_pedido malloc escribe pid
            (d ∷ ds)
          ≡ some b1)
        × (interfaz_fs malloc detras string_split atoi (enlace malloc) m.tam_pag f m (b1 ++ s)
            ≡ some (
                sigue (record {
                  a_kernel = enviar_operacion (codigo io_success);
                  de_kernel = s;
                  memoria = m;
                  fs = f';
                })))
        × ((j : ℕ)
            → (j < e.bloque_inicial * f.tam_bloque + o)
              ⊎ (e.bloque_inicial * f.tam_bloque + o + length xs ≤ j)
            → get_elem? f'.bloques j ≡ get_elem? f.bloques j)
        × (enviar_pedido malloc lee pid (d' ∷ ds') ≡ some b2)
        × (interfaz_fs malloc detras string_split atoi (enlace malloc) m.tam_pag f' m (b2 ++ s')
            ≡ some (
                sigue (record {
                  a_kernel = enviar_operacion (codigo io_success);
                  de_kernel = s';
                  memoria = m';
                  fs = f';
                })))
        × (leer_string m'.contigua m.tam_pag (lugar m.tam_pag (length xs) d' ds') ≡ some xs)
        × ((j : ℕ)
            → Fuera j (lugar m.tam_pag (length xs) d' ds')
            → get_elem? m'.contigua j ≡ get_elem? m.contigua j)
  leer_string-fs f m escribe lee nombre pid o d d' xs ds ds' s s' e u v p t l h h' r i k n =
      let (f', w, x, y) = leer_fs-escribir_fs f nombre xs o e i k n in
      let (b1, q, z) = fs-escribir f m escribe nombre pid o d xs ds s u p t h r in
      let (c, g, a, _, a') =
        leer_string-escribir_string m xs d' ds' (hasta_nul detras ++ 0 ∷ []) h' t.sin_nul
          (omega (arith, t.largo_lt)) in
      let (b2, q', z') =
        fs-leer f' m lee nombre pid o d' xs ds' s' c v p t.sin_nul l h' x (rw append_assoc g) in
      (b1, b2, f', record m { contigua = c }, q, z ∙ rw w refl, y, q', z', a, a')
