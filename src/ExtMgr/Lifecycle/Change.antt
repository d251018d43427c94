-- ===== src/ExtMgr/Lifecycle/Change.antt =====
-- `Disable`, `Delete`, `SetError` and `UpdateConfig` of internal/extmgr/extension_lifecycle.go.
use asscor.Prelude.{
  ℕ, Bool, true, false, not, ◌&&◌, ◌||◌, List, [], ◌∷◌, Option, none, some, if◌then◌else◌, Bytes,
  bytes_beq, bytes_eq, lookup, insert, remove, keep,
}
use asscor.ExtMgr.Spec.{DependencySpec, ExtensionState, disabled, error_state}
use asscor.ExtMgr.Lifecycle.{
  ExtensionRecord, Records, ExtensionLifecycle, not_found, already_disabled, depended_on, Answer,
  refuse, save, is_enabled, is_disabled,
}

unfoldable pub depends_on : Bytes → List DependencySpec → Bool
depends_on id [] = false
depends_on id (dep ∷ deps) = let rest = depends_on id deps in bytes_beq dep.extension_id id || rest

-- The first other record, of those that count, with a dependency on an extension.
unfoldable pub dependent : (ExtensionState → Bool) → Bytes → Records → Option Bytes
unfolding depends_on
dependent counts id [] = none
dependent counts id ((k, rec) ∷ recs) =
    let rest = dependent counts id recs in
    if not (bytes_beq k id) && (counts rec.spec.state && depends_on id rec.spec.dependencies)
    then some k
    else rest

abbrev pub disabled_record : ℕ → ExtensionRecord → ExtensionRecord
disabled_record now rec = record rec {
  spec = record rec.spec { state = disabled };
  disabled_at = now;
}

unfoldable pub disable_free :
    Option Bytes → Bytes → ExtensionRecord → ℕ → Bool → ExtensionLifecycle → Answer
disable_free (some k) id rec now saved el = refuse (depended_on k) el
disable_free none id rec now saved el =
    save saved (record el { records = insert id (disabled_record now rec) el.records })

unfoldable pub disable_found :
    Option ExtensionRecord → Bytes → ℕ → Bool → ExtensionLifecycle → Answer
unfolding disable_free dependent
disable_found none id now saved el = refuse not_found el
disable_found (some rec) id now saved el =
    if is_disabled rec.spec.state
    then refuse already_disabled el
    else disable_free (dependent is_enabled id el.records) id rec now saved el

-- `Disable`.
unfoldable pub disable : Bytes → ℕ → Bool → ExtensionLifecycle → Answer
unfolding disable_found
disable id now saved el = disable_found (lookup id el.records) id now saved el

abbrev pub anything : ExtensionState → Bool
anything s = true

unfoldable pub delete_free : Option Bytes → Bytes → Bool → ExtensionLifecycle → Answer
delete_free (some k) id saved el = refuse (depended_on k) el
delete_free none id saved el = save saved (record {
  records = remove id el.records;
  order = keep (λ oid. not (bytes_beq oid id)) el.order;
})

unfoldable pub delete_found : Option ExtensionRecord → Bytes → Bool → ExtensionLifecycle → Answer
unfolding delete_free dependent
delete_found none id saved el = refuse not_found el
delete_found (some rec) id saved el = delete_free (dependent anything id el.records) id saved el

-- `Delete`; that the files are removed is not modelled, and a failure of it only logged.
unfoldable pub delete_extension : Bytes → Bool → ExtensionLifecycle → Answer
unfolding delete_found
delete_extension id saved el = delete_found (lookup id el.records) id saved el

set_error_found : Option ExtensionRecord → Bytes → Bytes → ExtensionLifecycle → ExtensionLifecycle
set_error_found none id msg el = el
set_error_found (some rec) id msg el = record el {
  records =
      insert id (record rec { spec = record rec.spec { state = error_state; error = msg } })
        el.records;
}

-- `SetError`.
unfoldable pub set_error : Bytes → Bytes → ExtensionLifecycle → ExtensionLifecycle
unfolding set_error_found
set_error id msg el = set_error_found (lookup id el.records) id msg el

unfoldable pub merge_config : List (Bytes × Bytes) → List (Bytes × Bytes) → List (Bytes × Bytes)
merge_config [] config = config
merge_config ((k, v) ∷ new) config = merge_config new (insert k v config)

unfoldable pub update_found :
    Option ExtensionRecord → Bytes → List (Bytes × Bytes) → Bool → ExtensionLifecycle → Answer
unfolding merge_config
update_found none id config saved el = refuse not_found el
update_found (some rec) id config saved el =
    let merged = merge_config config rec.spec.custom_config in
    save saved (record el {
      records =
          insert id (record rec { spec = record rec.spec { custom_config = merged } }) el.records;
    })

-- `UpdateConfig`.
unfoldable pub update_config : Bytes → List (Bytes × Bytes) → Bool → ExtensionLifecycle → Answer
unfolding update_found
update_config id config saved el = update_found (lookup id el.records) id config saved el
