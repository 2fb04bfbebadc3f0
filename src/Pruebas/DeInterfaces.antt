-- ===== src/Pruebas/DeInterfaces.antt =====
-- Texts of six characters on a memory of four pages of 4 bytes, and the file system of DeFs. Requests
-- are one letter, which the splitting of texts maps to its words.
use Prim.Native.String.{String}
use text.Mathlib.Text.{◌==◌ as str_eq}
use so_1c.Base.{
  ◌+◌, ◌/◌, ◌*◌, ℕ, ◌≡◌, ◌<◌, ◌≤◌, ◌⊎◌, inl, inr, refl, Bool, true, List, [], ◌∷◌, ◌++◌, Option,
  none, some, length, get_elem?, arith, if◌then◌else◌, ◌==◌,
}
use so_1c.BitArray.{lista_bits}
use so_1c.Bytes.{leer_en}
use so_1c.Protocolo.{codigo, io_success, io_failure}
use so_1c.Tramos.{
  espacio_en_pag, pag_necesarias, siguientes, direcciones_logicas, tramos, tramos_resto, ceil_div,
}
use so_1c.Memoria.{Memoria}
use so_1c.Memoria.Servidor.{hasta_nul, leer_tramos, leer_string}
use so_1c.Memoria.Textos.{Fuera, Separado, Disjuntos}
use so_1c.DialFs.{Fs, buscar_entrada}
use so_1c.Sockets.{enviar_operacion, enviar_vector}
use so_1c.Interfaces.{sigue, enviar_pedido}
use so_1c.Interfaces.Enlace.{enlace}
use so_1c.Interfaces.Consola.{interfaz_generica, interfaz_stdin, interfaz_stdout}
use so_1c.Interfaces.Archivos.{interfaz_fs}
use so_1c.Interfaces.Mensajes.{Enteros}
use so_1c.Interfaces.Leyes.{EsTexto, Traslado, lugar}
use so_1c.Interfaces.Eco.{stdout-stdin}
use so_1c.Interfaces.Copia.{PedidoFs, leer_string-fs, fs-no_entra}
use so_1c.Interfaces.Rechazo.{rechaza, sleep-consola, otra-consola}
use so_1c.Pruebas.DeSockets.{malloc, malloc-length}
use so_1c.Pruebas.DeFs.{disco, archivo}

abbrev memoria : Memoria (List Bool)
memoria = record {
  tam_pag = 4;
  cant_pag = 4;
  bitmap = true ∷ true ∷ true ∷ true ∷ [];
  contigua = 0 ∷ 1 ∷ 2 ∷ 3 ∷ 4 ∷ 5 ∷ 6 ∷ 7 ∷ 8 ∷ 9 ∷ 10 ∷ 11 ∷ 12 ∷ 13 ∷ 14 ∷ 15 ∷ [];
  procesos = [];
  actual = 0;
}

abbrev partir : List ℕ → List String
partir [] = []
partir (c ∷ cs) =
    if c == 82
    then "IO_STDIN_READ" ∷ "in" ∷ "6" ∷ "2" ∷ []
    else if c == 87
    then "IO_STDOUT_WRITE" ∷ "out" ∷ "6" ∷ "2" ∷ []
    else if c == 83
    then "IO_GEN_SLEEP" ∷ "gen" ∷ "6" ∷ []
    else if c == 69
    then "IO_FS_WRITE" ∷ "fs" ∷ "a" ∷ "2" ∷ "1" ∷ "1" ∷ []
    else if c == 76
    then "IO_FS_READ" ∷ "fs" ∷ "a" ∷ "2" ∷ "1" ∷ "1" ∷ []
    else "IO_OTRA" ∷ "x" ∷ "6" ∷ "2" ∷ []

abbrev atoi : String → ℕ
atoi s = if str_eq s "6" then 6 else if str_eq s "2" then 2 else 1

abbrev hola : List ℕ
hola = 104 ∷ 111 ∷ 108 ∷ 97 ∷ 33 ∷ 33 ∷ []

letra : (c : ℕ) → 0 < c → EsTexto (c ∷ [])
unfolding hasta_nul
letra c h = record { sin_nul = ground arith; largo_lt = omega arith }

hola-EsTexto : EsTexto hola
unfolding hasta_nul
hola-EsTexto = record { sin_nul = refl; largo_lt = omega arith }

-- Six bytes from 6 on: two in frame 1, four in frame 3.
seis : Traslado 16 4 6 6 (12 ∷ [])
unfolding Enteros direcciones_logicas espacio_en_pag pag_necesarias siguientes ceil_div Disjuntos
    Separado tramos tramos_resto
seis = record {
  t_pos = omega arith;
  largo_lt = omega arith;
  vector_lt = omega arith;
  enteros = (omega arith, (omega arith, tt));
  positiva = omega arith;
  todas = refl;
  disjuntos = (omega arith, (inl (omega arith), tt), (omega arith, tt, tt));
}

-- Room on the stack in units of 16 bytes, and one more.
abbrev de_a_16 : ℕ → ℕ
de_a_16 n = (n / 16 + 1) * 16

stdout-stdin_example :
    (b b' : List ℕ) × (m' : Memoria (List Bool)) × (enviar_pedido malloc (82 ∷ []) 3 (6 ∷ 12 ∷ [])
      ≡ some b)
    × (interfaz_stdin malloc partir atoi
          (enlace malloc)
          4
          de_a_16
          memoria
          (b ++ [])
          (hola ++ 10 ∷ 1 ∷ [])
        ≡ some (
            sigue (record {
              a_kernel = enviar_operacion (codigo io_success);
              de_kernel = [];
              memoria = m';
              teclado = 1 ∷ [];
              pantalla = [];
            })))
    × (length m'.contigua ≡ 16)
    × ((j : ℕ)
        → Fuera j (lugar 4 6 6 (12 ∷ []))
        → get_elem? m'.contigua j ≡ get_elem? memoria.contigua j)
    × (enviar_pedido malloc (87 ∷ []) 3 (6 ∷ 12 ∷ []) ≡ some b')
    × (interfaz_stdout malloc partir atoi (enlace malloc) 4 m' (b' ++ 5 ∷ []) (1 ∷ [])
        ≡ some (
            sigue (record {
              a_kernel = enviar_operacion (codigo io_success);
              de_kernel = 5 ∷ [];
              memoria = m';
              teclado = 1 ∷ [];
              pantalla = hola ++ 32 ∷ 10 ∷ [];
            })))
stdout-stdin_example =
    stdout-stdin malloc malloc-length partir atoi de_a_16 memoria (82 ∷ []) (87 ∷ []) "in" "out" "6"
      "2" 3 6 hola (12 ∷ []) [] (5 ∷ []) (1 ∷ []) (letra 82 (omega arith)) (letra 87 (omega arith))
      refl refl refl refl (omega arith) hola-EsTexto seis (omega arith)

-- Two bytes of frame 1, and two of frame 2.
dos : (d : ℕ) → (d ≡ 4) ⊎ (d ≡ 8) → Traslado 16 4 2 d []
unfolding Enteros direcciones_logicas espacio_en_pag pag_necesarias siguientes ceil_div Disjuntos
    Separado tramos tramos_resto
dos d (inl e) = rw e (record {
  t_pos = omega arith;
  largo_lt = omega arith;
  vector_lt = omega arith;
  enteros = (omega arith, tt);
  positiva = omega arith;
  todas = refl;
  disjuntos = (omega arith, tt, tt);
})
dos d (inr e) = rw e (record {
  t_pos = omega arith;
  largo_lt = omega arith;
  vector_lt = omega arith;
  enteros = (omega arith, tt);
  positiva = omega arith;
  todas = refl;
  disjuntos = (omega arith, tt, tt);
})

par-EsTexto : EsTexto (4 ∷ 5 ∷ [])
unfolding hasta_nul
par-EsTexto = record { sin_nul = refl; largo_lt = omega arith }

escribe : PedidoFs partir atoi (69 ∷ []) "IO_FS_WRITE" "a" 2 1 1
escribe = record {
  es_texto = letra 69 (omega arith);
  interfaz = "fs";
  tamanio = "2";
  cuantas = "1";
  desde = "1";
  partes = refl;
  atoi_tamanio = refl;
  atoi_cuantas = refl;
  atoi_desde = refl;
}

lee : PedidoFs partir atoi (76 ∷ []) "IO_FS_READ" "a" 2 1 1
lee = record {
  es_texto = letra 76 (omega arith);
  interfaz = "fs";
  tamanio = "2";
  cuantas = "1";
  desde = "1";
  partes = refl;
  atoi_tamanio = refl;
  atoi_cuantas = refl;
  atoi_desde = refl;
}

-- The heap after the block has a 9 and then a NUL.
leer_string-fs_example :
    (b1 b2 : List ℕ) × (f' : Fs (List Bool)) × (m' : Memoria (List Bool)) × (enviar_pedido malloc
        (69 ∷ [])
        3
        (4 ∷ [])
      ≡ some b1)
    × (interfaz_fs malloc (9 ∷ 0 ∷ []) partir atoi (enlace malloc) 4 disco memoria (b1 ++ [])
        ≡ some (
            sigue (record {
              a_kernel = enviar_operacion (codigo io_success);
              de_kernel = [];
              memoria = memoria;
              fs = f';
            })))
    × ((j : ℕ) → (j < 1) ⊎ (3 ≤ j) → get_elem? f'.bloques j ≡ get_elem? disco.bloques j)
    × (enviar_pedido malloc (76 ∷ []) 3 (8 ∷ []) ≡ some b2)
    × (interfaz_fs malloc (9 ∷ 0 ∷ []) partir atoi (enlace malloc) 4 f' memoria (b2 ++ [])
        ≡ some (
            sigue (record {
              a_kernel = enviar_operacion (codigo io_success);
              de_kernel = [];
              memoria = m';
              fs = f';
            })))
    × (leer_string m'.contigua 4 (lugar 4 2 8 []) ≡ some (4 ∷ 5 ∷ []))
    × ((j : ℕ) → Fuera j (lugar 4 2 8 []) → get_elem? m'.contigua j ≡ get_elem? memoria.contigua j)
unfolding buscar_entrada hasta_nul leer_string leer_tramos leer_en tramos espacio_en_pag
leer_string-fs_example =
    leer_string-fs malloc malloc-length (9 ∷ 0 ∷ []) partir atoi disco memoria (69 ∷ []) (76 ∷ [])
      "a" 3 1 4 8 (4 ∷ 5 ∷ []) [] [] [] [] archivo escribe lee (omega arith) par-EsTexto
      (omega arith) (dos 4 (inl refl)) (dos 8 (inr refl)) refl refl (omega arith) (omega arith)

-- Three bytes from offset 1 on, in a file of 3.
tres : Traslado 16 4 3 4 []
unfolding Enteros direcciones_logicas espacio_en_pag pag_necesarias siguientes ceil_div Disjuntos
    Separado tramos tramos_resto
tres = record {
  t_pos = omega arith;
  largo_lt = omega arith;
  vector_lt = omega arith;
  enteros = (omega arith, tt);
  positiva = omega arith;
  todas = refl;
  disjuntos = (omega arith, tt, tt);
}

abbrev tercero : String → ℕ
tercero s = if str_eq s "2" then 3 else 1

escribe_tres : PedidoFs partir tercero (69 ∷ []) "IO_FS_WRITE" "a" 3 1 1
escribe_tres = record {
  es_texto = letra 69 (omega arith);
  interfaz = "fs";
  tamanio = "2";
  cuantas = "1";
  desde = "1";
  partes = refl;
  atoi_tamanio = refl;
  atoi_cuantas = refl;
  atoi_desde = refl;
}

fs-no_entra_example :
    (bytes : List ℕ) × (enviar_pedido malloc (69 ∷ []) 3 (4 ∷ []) ≡ some bytes)
    × (interfaz_fs malloc [] partir tercero (enlace malloc) 4 disco memoria (bytes ++ 7 ∷ [])
        ≡ some (
            sigue (record {
              a_kernel = enviar_operacion (codigo io_success);
              de_kernel = 7 ∷ [];
              memoria = memoria;
              fs = disco;
            })))
unfolding buscar_entrada hasta_nul leer_string leer_tramos leer_en tramos espacio_en_pag
fs-no_entra_example =
    fs-no_entra malloc malloc-length [] partir tercero disco memoria (69 ∷ []) "a" 3 1 4
      (4 ∷ 5 ∷ 6 ∷ []) [] (7 ∷ []) archivo escribe_tres (omega arith)
      (record { sin_nul = refl; largo_lt = omega arith }) tres refl refl (omega arith)

-- A memory that answers nothing.
abbrev mudo : ℕ → List ℕ → Option (List ℕ × ℕ)
mudo m s = some ([], m)

-- Three words: the third goes on to the end.
abbrev partir_3 : List ℕ → List String
partir_3 [] = []
partir_3 (c ∷ cs) =
    if c == 82
    then "IO_STDIN_READ" ∷ "in" ∷ "6 2" ∷ []
    else if c == 87
    then "IO_STDOUT_WRITE" ∷ "out" ∷ "6 2" ∷ []
    else partir (c ∷ cs)

sleep-consola_example :
    (bytes : List ℕ) × (enviar_pedido malloc (83 ∷ []) 3 [] ≡ some bytes)
    × (interfaz_generica partir_3 (bytes ++ 7 ∷ [])
        ≡ some (sigue (enviar_operacion (codigo io_success), 7 ∷ [])))
    × (interfaz_stdin malloc partir atoi mudo 4 de_a_16 0 (bytes ++ 7 ∷ []) [] ≡ none)
    × (interfaz_stdout malloc partir atoi mudo 4 0 (bytes ++ 7 ∷ []) [] ≡ none)
sleep-consola_example =
    sleep-consola malloc malloc-length partir partir_3 atoi de_a_16 mudo 4 0 (83 ∷ []) "gen" "6" 3
      (7 ∷ []) [] (letra 83 (omega arith)) refl refl (omega arith)

otra-consola_example :
    let falla = enviar_operacion (codigo io_failure) in
    (b b' : List ℕ) × (enviar_pedido malloc (82 ∷ []) 3 (6 ∷ 12 ∷ []) ≡ some b)
    × (enviar_pedido malloc (87 ∷ []) 3 (6 ∷ 12 ∷ []) ≡ some b')
    × (interfaz_generica partir_3 (b ++ 7 ∷ [])
        ≡ some (sigue (falla, enviar_vector (6 ∷ 12 ∷ []) ++ 7 ∷ [])))
    × (interfaz_generica partir_3 (b' ++ 7 ∷ [])
        ≡ some (sigue (falla, enviar_vector (6 ∷ 12 ∷ []) ++ 7 ∷ [])))
    × (interfaz_stdout malloc partir atoi mudo 4 0 (b ++ 7 ∷ []) (65 ∷ [])
        ≡ some (rechaza malloc malloc-length partir partir_3 0 (7 ∷ []) (65 ∷ [])))
    × (interfaz_stdin malloc partir atoi mudo 4 de_a_16 0 (b' ++ 7 ∷ []) (65 ∷ [])
        ≡ some (rechaza malloc malloc-length partir partir_3 0 (7 ∷ []) (65 ∷ [])))
unfolding Enteros
otra-consola_example =
    otra-consola malloc malloc-length partir partir_3 atoi de_a_16 mudo 4 0 (82 ∷ []) (87 ∷ []) "in"
      "out" "6" "2" "6 2" "6 2" 3 (6 ∷ 12 ∷ []) (7 ∷ []) (65 ∷ []) (letra 82 (omega arith))
      (letra 87 (omega arith)) refl refl refl refl refl (omega arith, (omega arith, tt))
      (omega arith)
