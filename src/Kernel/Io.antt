-- ===== src/Kernel/Io.antt =====
-- The connection of an interface (kernel.c: escuchar_conexiones_IO) and the thread that serves a
-- process's IO (atender_solicitud_IO): up to the request to the
-- interface, and from the interface's answer on. Other threads may run between the two.
use Prim.Native.String.{String}
use text.Mathlib.Text.{◌==◌ as str_eq}
use so_1c.Base.{
  ℕ, Bool, true, false, List, [], ◌∷◌, ◌++◌, Option, none, some, ◌||◌, if◌then◌else◌, ◌==◌,
}
use so_1c.Protocolo.{codigo, io_failure, menos_uno}
use so_1c.Kernel.{Kernel, matadero}
use so_1c.Kernel.Recursos.{desbloquear}
use so_1c.Kernel.Consola.{sacar_pid}

-- `list_find` with `existe_conexion`
unfoldable pub existe_conexion : String → List String → Bool
existe_conexion n [] = false
existe_conexion n (c ∷ cs) = str_eq c n || existe_conexion n cs

unfoldable pub quitar_conexion : String → List String → List String
quitar_conexion n [] = []
quitar_conexion n (c ∷ cs) = if str_eq c n then cs else c ∷ quitar_conexion n cs

-- A round of `escuchar_conexiones_IO` with a NUEVA_IO of the given name.
unfoldable pub escuchar_conexion : Kernel → String → Kernel
escuchar_conexion k nombre = record k { conexiones = k.conexiones ++ nombre ∷ [] }

-- `list_remove_element(lBlocked, proceso)` and `matadero`; a process that was killed meanwhile stands
-- in no list, and is freed twice.
unfoldable pub matar_bloqueado : Kernel → ℕ → String → Option Kernel
matar_bloqueado k n motivo = elim (sacar_pid n k.l_blocked) [
  | none ↦ none
  | some x ↦ some (matadero (record k { l_blocked = x.1 }) x.0 motivo)
]

-- Up to the request for the interface of the given name: whether the request is sent. A process
-- that left `lBlocked` is not served, one that is there goes to its end.
unfoldable pub empezar_io : Kernel → ℕ → String → Option (Bool × Kernel)
empezar_io k n nombre =
    if existe_conexion nombre k.conexiones
    then elim (sacar_pid n k.l_blocked) [
      | none ↦ some (false, k)
      | some x ↦ some (true, record k { l_blocked = x.1 ++ x.0 ∷ [] })
    ]
    else elim (matar_bloqueado k n "Se intento comunicar con una IO no conectada") [
      | none ↦ none
      | some k' ↦ some (false, k')
    ]

-- From the answer on.
unfoldable pub terminar_io : Kernel → ℕ → String → ℕ → Option Kernel
terminar_io k n nombre respuesta =
    if respuesta == codigo io_failure
    then matar_bloqueado k n "La IO no admite la operacion solicitada"
    else if (respuesta == 0) || (respuesta == menos_uno)
    then matar_bloqueado (record k { conexiones = quitar_conexion nombre k.conexiones }) n
        "Se intento comunicar con una IO no conectada"
    else elim (sacar_pid n k.l_blocked) [
      | none ↦ some k
      | some x ↦ some (desbloquear (record k { l_blocked = x.1 }) x.0)
    ]
