-- ===== src/Extensions.antt =====
-- internal/kernel/extensions.go: the extension points of the kernel and the handlers of the plugins at
-- each, in the order of their priorities. `sort.Slice` is a parameter, since it leaves the order of
-- equal priorities open. A handler is a number, and whether it fails in a run an argument of the run.
pub mod Order
pub mod Examples
use asscor.Prelude.{
  ℕ, Bool, true, false, not, List, [], ◌∷◌, ◌++◌, Option, none, some, if◌then◌else◌, Bytes,
  bytes_beq, bytes_eq, lookup, insert, remove,
}

pub record ExtensionPoint : Type 0 where
  pub name : Bytes
  pub description : Bytes
  pub version : Bytes

pub record RegisteredExtension : Type 0 where
  pub plugin_id : Bytes
  pub point : Bytes
  pub handler : ℕ
  pub priority : ℕ

abbrev pub Handlers : Type 0
Handlers = List RegisteredExtension

pub record ExtensionRegistry : Type 0 where
  pub extensions : List (Bytes × Handlers)
  pub points : List (Bytes × ExtensionPoint)

abbrev pub new_extension_registry : ExtensionRegistry
new_extension_registry = record { extensions = []; points = [] }

abbrev pub handlers_or : Option Handlers → Handlers
handlers_or none = []
handlers_or (some es) = es

abbrev pub handlers_at : Bytes → ExtensionRegistry → Handlers
handlers_at x r = handlers_or (lookup x r.extensions)

-- `RegisterPoint`.
unfoldable pub register_point : ExtensionPoint → ExtensionRegistry → ExtensionRegistry
register_point p r = record r { points = insert p.name p r.points }

register_known :
    (Handlers → Handlers)
    → RegisteredExtension
    → Option ExtensionPoint
    → ExtensionRegistry
    → Bool × ExtensionRegistry
register_known sort e none r = (false, r)
register_known sort e (some p) r = (
  true,
  record r { extensions = insert e.point (sort (handlers_at e.point r ++ (e ∷ []))) r.extensions },
)

-- `RegisterExtension`: whether the point is registered.
unfoldable pub register_extension_at :
    (Handlers → Handlers) → RegisteredExtension → ExtensionRegistry → Bool × ExtensionRegistry
unfolding register_known
register_extension_at sort e r = register_known sort e (lookup e.point r.points) r

unfoldable pub others : Bytes → Handlers → Handlers
others id [] = []
others id (e ∷ es) =
    let rest = others id es in if not (bytes_beq e.plugin_id id) then e ∷ rest else rest

abbrev keep_handlers : Bytes → Handlers → List (Bytes × Handlers) → List (Bytes × Handlers)
keep_handlers x [] rest = remove x rest
keep_handlers x (e ∷ es) rest = (x, e ∷ es) ∷ rest

unfoldable pub unregister_all : Bytes → List (Bytes × Handlers) → List (Bytes × Handlers)
unfolding others
unregister_all id [] = []
unregister_all id ((x, es) ∷ ms) = keep_handlers x (others id es) (unregister_all id ms)

-- `UnregisterPlugin`.
unfoldable pub unregister_plugin : Bytes → ExtensionRegistry → ExtensionRegistry
unfolding unregister_all
unregister_plugin id r = record r { extensions = unregister_all id r.extensions }

unfoldable pub failed_plugins : (RegisteredExtension → Bool) → Handlers → List Bytes
failed_plugins fails [] = []
failed_plugins fails (e ∷ es) =
    let rest = failed_plugins fails es in if fails e then e.plugin_id ∷ rest else rest

-- `Execute`: every handler runs; the plugins whose handlers failed.
unfoldable pub execute_handlers :
    (RegisteredExtension → Bool) → Bytes → ExtensionRegistry → List Bytes
unfolding failed_plugins
execute_handlers fails x r = failed_plugins fails (handlers_at x r)

pub data FirstResult : Type 0 where
  no_extension : FirstResult
  all_failed : FirstResult
  handled_by : Bytes → FirstResult

unfoldable pub until_first : (RegisteredExtension → Bool) → Handlers → FirstResult
until_first fails [] = all_failed
until_first fails (e ∷ es) =
    let rest = until_first fails es in if fails e then rest else handled_by e.plugin_id

first_handler : (RegisteredExtension → Bool) → Handlers → FirstResult
unfolding until_first
first_handler fails [] = no_extension
first_handler fails (e ∷ es) = until_first fails (e ∷ es)

-- `ExecuteUntilFirst`.
unfoldable pub execute_until_first :
    (RegisteredExtension → Bool) → Bytes → ExtensionRegistry → FirstResult
unfolding first_handler
execute_until_first fails x r = first_handler fails (handlers_at x r)
