-- ===== src/Interfaces/Leyes.antt =====
-- The transfers of a text between an interface and the memory (utils/src/entradasalida/entradasalida.c,
-- with the memory's server of utils/src/memoria/memoria.c).
use mathlib.Core.List.{append-nil}
use so_1c.Base.{
  ℕ, ◌+◌, ◌*◌, ◌^◌, ◌<◌, ◌≡◌, refl, List, [], ◌∷◌, ◌++◌, some, length, length-append, get_elem?,
  arith, leb, true, Bool-cases, false, inl, inr,
}
use so_1c.Bytes.{leer_en}
use so_1c.Protocolo.{codigo, escritura_string, lectura_string}
use so_1c.Tramos.{espacio_en_pag, direcciones_logicas, tramos}
use so_1c.Tramos.Leyes.{bytes_de, bytes-tramos, tramos-pagina}
use so_1c.Memoria.{Memoria}
use so_1c.Memoria.Servidor.{hasta_nul, escribir_string, leer_string}
use so_1c.Memoria.Atender.{interactuar_io}
use so_1c.Memoria.Textos.{Disjuntos, Fuera, leer_tramos-escribir_string}
use so_1c.Sockets.{enviar_operacion, enviar_string}
use so_1c.Sockets.Paquetes.{formato}
use so_1c.Interfaces.{pedazos, enviar_pedazos}
use so_1c.Interfaces.Enlace.{bytes_envio, bytes_envios, servir_io, enlace}
use so_1c.Interfaces.Consola.{getchar, leer_teclado}
use so_1c.Interfaces.Mensajes.{
  Enteros, Pares, recibir_io-lectura, recibir_io-escritura, enviar_string-formato,
}

-- A text with no NUL in it, that fits a packet.
pub record EsTexto (xs : List ℕ) : Type 0 where
  pub sin_nul : hasta_nul xs ≡ xs
  pub largo_lt : length xs + 9 < 2 ^ 31

-- The pieces of a text of the given length at the physical addresses.
abbrev pub lugar : ℕ → ℕ → ℕ → List ℕ → List (ℕ × ℕ)
lugar t n d ds = tramos t n (espacio_en_pag t d) (d ∷ ds)

-- One physical address for each page that n bytes from the first one on touch; the pieces lie in a
-- user space of `largo` bytes and do not meet.
pub record Traslado (largo t n d : ℕ) (ds : List ℕ) : Type 0 where
  pub t_pos : 0 < t
  pub largo_lt : largo < 2 ^ 31
  pub vector_lt : length (d ∷ ds) < 2 ^ 32
  pub enteros : Enteros (d ∷ ds)
  pub positiva : d < 2 ^ 31
  pub todas : length (d ∷ ds) ≡ length (direcciones_logicas t n d)
  pub disjuntos : Disjuntos largo (lugar t n d ds)

pub Disjuntos-Pares : (l : ℕ) (ps : List (ℕ × ℕ)) → l < 2 ^ 32 → Disjuntos l ps → Pares ps
unfolding Disjuntos Pares
Disjuntos-Pares l [] h p = tt
Disjuntos-Pares l ((n, d) ∷ ps) h (a, s, p) = (omega arith, omega arith, Disjuntos-Pares l ps h p)

pub leer_teclado-append : (xs cs : List ℕ) → leer_teclado (length xs) (xs ++ cs) ≡ (xs, cs)
unfolding leer_teclado getchar
leer_teclado-append [] cs = refl
leer_teclado-append (x ∷ xs) cs = rw (leer_teclado-append xs cs) refl

leer_en-prefijo : (xs ys : List ℕ) → leer_en (xs ++ ys) 0 (length xs) ≡ some xs
unfolding leer_en
leer_en-prefijo [] ys = refl
leer_en-prefijo (x ∷ xs) ys = rw (leer_en-prefijo xs ys) refl

-- The vector has the addresses that the interface uses.
pub pedazos-tramos :
    (t n d : ℕ) (ds : List ℕ)
    → 0 < t
    → d < 2 ^ 31
    → n < 2 ^ 31
    → length (d ∷ ds) ≡ length (direcciones_logicas t n d)
    → pedazos t n (d ∷ ds) ≡ some (lugar t n d ds)
unfolding pedazos tramos bytes_de
pedazos-tramos t n d (e ∷ ds) p q r h = refl
pedazos-tramos t n d [] p q r h =
    let b = bytes-tramos t n d (d ∷ []) p q h in
    let k : leb (2 ^ 31) n ≡ false = ground arith in
    elim (Bool-cases (leb n (espacio_en_pag t d))) [
      | inl z ↦ rw z refl
      | inr z ↦ absurd (ground (arith, rw (z, k) at b))
    ]

module _ {Bits : Type 0} (m : Memoria Bits) (xs : List ℕ) (d : ℕ) (ds : List ℕ) where
  -- What a text written by the memory's server and read back gives, whatever follows the text.
  pub leer_string-escribir_string :
      (zs : List ℕ)
      → Traslado (length m.contigua) m.tam_pag (length xs) d ds
      → hasta_nul xs ≡ xs
      → length xs < 2 ^ 31
      → let ps = lugar m.tam_pag (length xs) d ds in
        (c : List ℕ) × (escribir_string m.contigua (xs ++ zs) ps 0 ≡ some c)
        × (leer_string c m.tam_pag ps ≡ some xs)
        × (length c ≡ length m.contigua)
        × ((j : ℕ) → Fuera j ps → get_elem? c j ≡ get_elem? m.contigua j)
  unfolding leer_string
  leer_string-escribir_string zs h k l =
      let ps = lugar m.tam_pag (length xs) d ds in
      let b = bytes-tramos m.tam_pag (length xs) d (d ∷ ds) h.t_pos h.positiva h.todas in
      let g = tramos-pagina m.tam_pag (length xs) d (d ∷ ds) h.t_pos h.positiva l in
      let (c, ys, e, f, i, o, p) =
        leer_tramos-escribir_string m.contigua (length m.contigua) (xs ++ zs) ps 0 refl h.disjuntos
          (omega (arith, length-append xs zs)) in
      let j : leer_en (xs ++ zs) 0 (bytes_de ps) ≡ some xs = rw b (leer_en-prefijo xs zs) in
      let z : ys ≡ xs = cc in
      let w : leb (length xs) (length ps * m.tam_pag) ≡ true = ground (arith, g.1) in
      (c, e, rw (f, z, w, k) refl, o, p)

module _ (malloc : ℕ → List ℕ) (ley : (n : ℕ) → length (malloc n) ≡ n) {Bits : Type 0} where
  -- The server's answer to a text to be written.
  pub enlace-escritura :
      (m : Memoria Bits) (cadena xs : List ℕ) (pid : ℕ) (ps : List (ℕ × ℕ)) (c : List ℕ)
      → hasta_nul cadena ≡ xs
      → length xs + 9 < 2 ^ 31
      → pid < 2 ^ 32
      → length ps < 2 ^ 32
      → Pares ps
      → escribir_string m.contigua (xs ++ 0 ∷ []) ps 0 ≡ some c
      → (e : List ℕ) × (enviar_string malloc cadena (codigo escritura_string) ≡ some e)
        × (enlace malloc m (e ++ (enviar_operacion pid ++ enviar_pedazos ps))
            ≡ some ([], record m { contigua = c }))
  unfolding enlace servir_io interactuar_io bytes_envios
  enlace-escritura m cadena xs pid ps c k v p l h w =
      let (e, f, g) = recibir_io-escritura malloc ley cadena xs pid ps [] k v p l h in
      (e, f, rw (rw append-nil at g, w) refl)

  -- And to a text to be read.
  pub enlace-lectura :
      (m : Memoria Bits) (xs : List ℕ) (pid : ℕ) (ps : List (ℕ × ℕ))
      → EsTexto xs
      → pid < 2 ^ 32
      → length ps < 2 ^ 32
      → Pares ps
      → leer_string m.contigua m.tam_pag ps ≡ some xs
      → enlace malloc m
          (enviar_operacion (codigo lectura_string) ++ (enviar_operacion pid ++ enviar_pedazos ps))
        ≡ some (formato 28 (xs ++ 0 ∷ []), m)
  unfolding enlace servir_io interactuar_io bytes_envios bytes_envio codigo
  enlace-lectura m xs pid ps k p l h w =
      let g = recibir_io-lectura pid ps [] p l h in
      let f = enviar_string-formato malloc ley xs [] 28 (rw append-nil k.sin_nul) k.largo_lt in
      rw (rw append-nil at g, w, rw append-nil at f, append-nil) refl
