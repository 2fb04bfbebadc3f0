-- ===== src/Kernel/Recursos.antt =====
-- The resources of the kernel (kernel.c: buscar_recurso, pedir_recurso, liberar_recurso).
use Prim.Native.String.{String}
use text.Mathlib.Text.{◌==◌ as str_eq}
use so_1c.Base.{
  ℕ, suc, List, [], ◌∷◌, ◌++◌, Option, none, some, ◌>>=◌, poner, if◌then◌else◌, get_elem?,
}
use so_1c.Base.Int.{pos, ◌+ℤ◌, ◌-ℤ◌, ltb_ℤ}
use so_1c.Kernel.{
  Kernel, Recurso, SProceso, con_estado, matadero, a_ready, a_ready_plus, estado_blocked,
  estado_ready, estado_ready_plus,
}

-- `buscar_recurso`; -1 is `none`.
unfoldable pub buscar_recurso : String → List Recurso → Option ℕ
buscar_recurso n [] = none
buscar_recurso n (r ∷ rs) =
    if str_eq n r.nombre then some 0 else buscar_recurso n rs >>= λ i. some (suc i)

-- The process that got an instance: to READY+ under VRR, else to READY.
unfoldable pub desbloquear : Kernel → SProceso → Kernel
desbloquear k p =
    if k.plani_es_vrr
    then a_ready_plus k (con_estado estado_ready_plus p)
    else a_ready k (con_estado estado_ready p)

-- Writing through `recursos[i]`.
abbrev pub con_recurso : Kernel → ℕ → Recurso → Option Kernel
con_recurso k i r = poner k.recursos i r >>= λ rs. some (record k { recursos = rs })

-- `pedir_recurso` at the resource's index: under VRR the process, in state READY_PLUS, goes to READY.
unfoldable pub pedir_en : Kernel → SProceso → ℕ → Recurso → Option Kernel
pedir_en k p i r =
    let quedan = r.instancias -ℤ pos 1 in
    let q = record p { recursos = p.recursos ++ r.nombre ∷ [] } in
    let listo = con_estado (if k.plani_es_vrr then estado_ready_plus else estado_ready) q in
    let cola = r.bloqueados ++ con_estado estado_blocked p ∷ [] in
    if ltb_ℤ quedan (pos 0)
    then con_recurso k i (record r { instancias = quedan; bloqueados = cola })
    else (con_recurso k i (record r { instancias = quedan }) >>= λ k'. some (a_ready k' listo))

-- `pedir_recurso`; the process's multifuncion names the resource.
unfoldable pub pedir_recurso : Kernel → SProceso → Option Kernel
pedir_recurso k p = elim (buscar_recurso p.multifuncion k.recursos) [
  | none ↦ some (matadero k p "Pidio un recurso no existente")
  | some i ↦ get_elem? k.recursos i >>= pedir_en k p i
]

-- `liberar_recurso` at the resource's index, by its queue.
unfoldable pub liberar_en : Kernel → ℕ → Recurso → List SProceso → Option Kernel
liberar_en k i r [] = con_recurso k i (record r { instancias = r.instancias +ℤ pos 1 })
liberar_en k i r (p ∷ ps) =
    let hay = r.instancias +ℤ pos 1 in
    let q = record p { recursos = p.recursos ++ r.nombre ∷ [] } in
    if ltb_ℤ (pos 0) hay
    then con_recurso k i (record r { instancias = hay })
    else (con_recurso k i (record r { instancias = hay; bloqueados = ps }) >>= λ k'.
        some (desbloquear k' q))

-- `liberar_recurso`, which indexes with -1 for a name that is not there.
unfoldable pub liberar_recurso : Kernel → String → Option Kernel
liberar_recurso k n = buscar_recurso n k.recursos >>= λ i.
    get_elem? k.recursos i >>= λ r. liberar_en k i r r.bloqueados

-- The loop of `carnicero` over the resources of a dead process.
unfoldable pub liberar_todos : Kernel → List String → Option Kernel
liberar_todos k [] = some k
liberar_todos k (n ∷ ns) = liberar_recurso k n >>= λ k'. liberar_todos k' ns
