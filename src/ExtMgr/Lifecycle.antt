-- ===== src/ExtMgr/Lifecycle.antt =====
-- internal/extmgr/extension_lifecycle.go: the records of the extensions and the operations on them.
-- Whether `saveState` succeeds is an argument; an operation that could not save has changed the
-- records all the same, and returns an error.
pub mod Change
use asscor.Prelude.{
  ℕ, Bool, true, false, not, ◌&&◌, ◌||◌, List, [], ◌∷◌, ◌++◌, Option, none, some, if◌then◌else◌,
  Bytes, ◌==◌, bytes_beq, bytes_eq, lookup, insert, remove, keep,
}
use asscor.Semver.Defs.{SemVer}
use asscor.ExtMgr.Spec.{
  ◌>>=◌, parse_sem_ver, constraint_holds, DependencySpec, ExtensionState, installed, enabled,
  disabled, error_state, ExtensionSpec,
}

pub record ExtensionRecord : Type 0 where
  pub spec : ExtensionSpec
  pub enabled_at : ℕ
  pub disabled_at : ℕ

abbrev pub Records : Type 0
Records = List (Bytes × ExtensionRecord)

pub record ExtensionLifecycle : Type 0 where
  pub records : Records
  pub order : List Bytes

pub data LifecycleError : Type 0 where
  already_registered not_found already_enabled already_disabled not_saved : LifecycleError
  dependency_missing dependency_not_enabled invalid_version unsatisfied : Bytes → LifecycleError
  depended_on : Bytes → LifecycleError

-- What an operation returns, and the records behind it.
abbrev pub Answer : Type 0
Answer = Option LifecycleError × ExtensionLifecycle

abbrev pub refuse : LifecycleError → ExtensionLifecycle → Answer
refuse e el = (some e, el)

-- `saveState`, behind a change.
abbrev pub save : Bool → ExtensionLifecycle → Answer
save saved el = if saved then (none, el) else (some not_saved, el)

abbrev pub is_enabled : ExtensionState → Bool
is_enabled enabled = true
is_enabled _ = false

abbrev pub is_disabled : ExtensionState → Bool
is_disabled disabled = true
is_disabled _ = false

-- The time zero is the zero `time.Time`.
abbrev pub installed_spec : Bytes → ℕ → ExtensionSpec → ExtensionSpec
installed_spec path now spec = record spec {
  install_path = path;
  state = installed;
  install_time = if spec.install_time == 0 then now else spec.install_time;
}

unfoldable pub register_unless :
    Option ExtensionRecord → ExtensionSpec → Bytes → ℕ → Bool → ExtensionLifecycle → Answer
register_unless (some rec) spec path now saved el = refuse already_registered el
register_unless none spec path now saved el = save saved (record {
  records =
      insert spec.id
        (record { spec = installed_spec path now spec; enabled_at = 0; disabled_at = 0 })
        el.records;
  order = el.order ++ (spec.id ∷ []);
})

-- `Register`.
unfoldable pub register_extension : ExtensionSpec → Bytes → ℕ → Bool → ExtensionLifecycle → Answer
unfolding register_unless
register_extension spec path now saved el =
    register_unless (lookup spec.id el.records) spec path now saved el

unfoldable pub check_version : DependencySpec → Option SemVer → Option LifecycleError
check_version dep none = some (invalid_version dep.extension_id)
check_version dep (some v) =
    if constraint_holds dep.constraint v then none else some (unsatisfied dep.extension_id)

-- One round of the loop of `Enable`, on the record of the dependency.
unfoldable pub check_enabled : DependencySpec → Option ExtensionRecord → Option LifecycleError
unfolding check_version
check_enabled dep none = some (dependency_missing dep.extension_id)
check_enabled dep (some rec) =
    if is_enabled rec.spec.state
    then check_version dep (parse_sem_ver rec.spec.version)
    else some (dependency_not_enabled dep.extension_id)

-- One round of the loop of `ValidateDependencies`.
check_installed : DependencySpec → Option ExtensionRecord → Option LifecycleError
unfolding check_version
check_installed dep none = some (dependency_missing dep.extension_id)
check_installed dep (some rec) = check_version dep (parse_sem_ver rec.spec.version)

abbrev pub first_error : Option LifecycleError → Option LifecycleError → Option LifecycleError
first_error none rest = rest
first_error (some e) rest = some e

unfoldable pub check_dependencies : List DependencySpec → Records → Option LifecycleError
unfolding check_enabled
check_dependencies [] recs = none
check_dependencies (dep ∷ deps) recs =
    first_error (check_enabled dep (lookup dep.extension_id recs)) (check_dependencies deps recs)

-- `ValidateDependencies`.
unfoldable pub validate_dependencies : List DependencySpec → Records → Option LifecycleError
unfolding check_installed
validate_dependencies [] recs = none
validate_dependencies (dep ∷ deps) recs =
    first_error (check_installed dep (lookup dep.extension_id recs))
      (validate_dependencies deps recs)

abbrev pub enabled_record : ℕ → ExtensionRecord → ExtensionRecord
enabled_record now rec = record rec {
  spec = record rec.spec { state = enabled; error = [] };
  enabled_at = now;
}

unfoldable pub enable_checked :
    Option LifecycleError → Bytes → ExtensionRecord → ℕ → Bool → ExtensionLifecycle → Answer
enable_checked (some e) id rec now saved el = refuse e el
enable_checked none id rec now saved el =
    save saved (record el { records = insert id (enabled_record now rec) el.records })

unfoldable pub enable_found :
    Option ExtensionRecord → Bytes → ℕ → Bool → ExtensionLifecycle → Answer
unfolding enable_checked
enable_found none id now saved el = refuse not_found el
enable_found (some rec) id now saved el =
    if is_enabled rec.spec.state
    then refuse already_enabled el
    else enable_checked (check_dependencies rec.spec.dependencies el.records) id rec now saved el

-- `Enable`.
unfoldable pub enable : Bytes → ℕ → Bool → ExtensionLifecycle → Answer
unfolding enable_found
enable id now saved el = enable_found (lookup id el.records) id now saved el
