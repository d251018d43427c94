-- ===== src/ExtMgr/Sound/Requests.antt =====
-- Every operation of internal/extmgr/extension_lifecycle.go but `SetError` keeps the invariant.
use asscor.Prelude.{
  ℕ, ◌≡◌, ◌≢◌, refl, sym, ◌∙◌, Bool, inl, inr, List, [], ◌∷◌, Option, none, some, arith, Bytes,
  bytes_beq_iff, bytes_eq, lookup, remove, lookup-remove, Bool-cases,
}
use asscor.ExtMgr.Spec.{DependencySpec, ExtensionSpec}
use asscor.ExtMgr.Lifecycle.{
  ExtensionRecord, ExtensionLifecycle, LifecycleError, is_enabled, is_disabled, register_unless,
  register_extension, check_dependencies, enabled_record, enable_checked, enable_found, enable,
  installed_spec,
}
use asscor.ExtMgr.Lifecycle.Change.{
  dependent, disabled_record, disable_free, disable_found, disable, anything, delete_free,
  delete_found, delete_extension, update_found, update_config,
}
use asscor.ExtMgr.Sound.{
  Met, Sound, All-map, All-apart, dependent-none, Met-apart, Met-kept, insert-Sound,
}
use asscor.ExtMgr.Sound.Steps.{save-Sound, check_dependencies-Met, same-Sound}

-- A call of an operation: its arguments, the time of it, and whether `saveState` succeeds.
pub data Request : Type 0 where
  register_it : ExtensionSpec → Bytes → ℕ → Bool → Request
  enable_it disable_it : Bytes → ℕ → Bool → Request
  delete_it : Bytes → Bool → Request
  update_it : Bytes → List (Bytes × Bytes) → Bool → Request

abbrev pub perform : Request → ExtensionLifecycle → ExtensionLifecycle
perform (register_it spec path now saved) el = (register_extension spec path now saved el).1
perform (enable_it id now saved) el = (enable id now saved el).1
perform (disable_it id now saved) el = (disable id now saved el).1
perform (delete_it id saved) el = (delete_extension id saved el).1
perform (update_it id config saved) el = (update_config id config saved el).1

abbrev pub perform_all : List Request → ExtensionLifecycle → ExtensionLifecycle
perform_all [] el = el
perform_all (r ∷ rs) el = perform_all rs (perform r el)

module _ (el : ExtensionLifecycle) (h : Sound el.records) where
  register-Sound :
      (spec : ExtensionSpec) (path : Bytes) (now : ℕ) (saved : Bool) (o : Option ExtensionRecord)
      → lookup spec.id el.records ≡ o
      → Sound (register_unless o spec path now saved el).1.records
  unfolding register_unless
  register-Sound spec path now saved (some rec) l = h
  register-Sound spec path now saved none l =
      let new : ExtensionRecord = record {
        spec = installed_spec path now spec;
        enabled_at = 0;
        disabled_at = 0;
      } in
      let kept = Met-kept spec.id new el.records λ r q e. absurd (cc (sym l ∙ q)) in
      save-Sound saved _ (
        insert-Sound spec.id new el.records
          (λ x r n q e. All-map r.spec.dependencies kept (h x r q e)) (λ e. absurd (cc e)))

  enable-Sound :
      (id : Bytes) (now : ℕ) (saved : Bool) (rec : ExtensionRecord) (o : Option LifecycleError)
      → lookup id el.records ≡ some rec
      → check_dependencies rec.spec.dependencies el.records ≡ o
      → Sound (enable_checked o id rec now saved el).1.records
  unfolding enable_checked
  enable-Sound id now saved rec (some e) l c = h
  enable-Sound id now saved rec none l c = save-Sound saved _ (
      same-Sound id rec (enabled_record now rec) el.records l refl refl (λ e. refl)
        (λ e. check_dependencies-Met rec.spec.dependencies el.records c) h)

  enable_found-Sound :
      (id : Bytes) (now : ℕ) (saved : Bool) (o : Option ExtensionRecord)
      → lookup id el.records ≡ o
      → Sound (enable_found o id now saved el).1.records
  unfolding enable_found
  enable_found-Sound id now saved none l = h
  enable_found-Sound id now saved (some rec) l = elim (Bool-cases (is_enabled rec.spec.state)) [
    | inl q ↦ rw q h
    | inr q ↦ rw q (enable-Sound id now saved rec _ l refl)
  ]

  disable-Sound :
      (id : Bytes) (now : ℕ) (saved : Bool) (rec : ExtensionRecord) (o : Option Bytes)
      → dependent is_enabled id el.records ≡ o
      → Sound (disable_free o id rec now saved el).1.records
  unfolding disable_free
  disable-Sound id now saved rec (some k) d = h
  disable-Sound id now saved rec none d = save-Sound saved _ (
      insert-Sound id (disabled_record now rec) el.records
        (λ x r n q e.
          All-apart id r.spec.dependencies (Met-apart id (disabled_record now rec) el.records)
            (dependent-none is_enabled id x r el.records d q n (rw e refl)) (h x r q e))
        (λ e. absurd (cc e)))

  disable_found-Sound :
      (id : Bytes) (now : ℕ) (saved : Bool) (o : Option ExtensionRecord)
      → Sound (disable_found o id now saved el).1.records
  unfolding disable_found
  disable_found-Sound id now saved none = h
  disable_found-Sound id now saved (some rec) = elim (Bool-cases (is_disabled rec.spec.state)) [
    | inl q ↦ rw q h
    | inr q ↦ rw q (disable-Sound id now saved rec _ refl)
  ]

  removed_lem :
      (id x : Bytes) (r : ExtensionRecord)
      → lookup x (remove id el.records) ≡ some r
      → (x ≢ id) × (lookup x el.records ≡ some r)
  removed_lem id x r l = ground (arith, bytes_beq_iff id x, lookup-remove id x el.records, l)

  Met-removed :
      (id : Bytes) (dep : DependencySpec)
      → dep.extension_id ≢ id
      → Met el.records dep
      → Met (remove id el.records) dep
  Met-removed id dep n (r, l, e, v, p, c) = (
    r,
    ground
        (arith, bytes_beq_iff id dep.extension_id, lookup-remove id dep.extension_id el.records, l),
    e,
    v,
    p,
    c,
  )

  delete-Sound :
      (id : Bytes) (saved : Bool) (o : Option Bytes)
      → dependent anything id el.records ≡ o
      → Sound (delete_free o id saved el).1.records
  unfolding delete_free
  delete-Sound id saved (some k) d = h
  delete-Sound id saved none d = save-Sound saved _ λ x r l e.
      let (n, q) = removed_lem id x r l in
      All-apart id r.spec.dependencies (Met-removed id)
        (dependent-none anything id x r el.records d q n refl) (h x r q e)

  delete_found-Sound :
      (id : Bytes) (saved : Bool) (o : Option ExtensionRecord)
      → Sound (delete_found o id saved el).1.records
  unfolding delete_found
  delete_found-Sound id saved none = h
  delete_found-Sound id saved (some rec) = delete-Sound id saved _ refl

  update-Sound :
      (id : Bytes) (config : List (Bytes × Bytes)) (saved : Bool) (o : Option ExtensionRecord)
      → lookup id el.records ≡ o
      → Sound (update_found o id config saved el).1.records
  unfolding update_found
  update-Sound id config saved none l = h
  update-Sound id config saved (some rec) l =
      save-Sound saved _ (same-Sound id rec _ el.records l refl refl (λ e. e) (λ e. h id rec l e) h)

  perform-Sound : (r : Request) → Sound (perform r el).records
  unfolding register_extension enable disable delete_extension update_config
  perform-Sound (register_it spec path now saved) = register-Sound spec path now saved _ refl
  perform-Sound (enable_it id now saved) = enable_found-Sound id now saved _ refl
  perform-Sound (disable_it id now saved) = disable_found-Sound id now saved _
  perform-Sound (delete_it id saved) = delete_found-Sound id saved _
  perform-Sound (update_it id config saved) = update-Sound id config saved _ refl

-- After any sequence of `Register`, `Enable`, `Disable`, `Delete` and `UpdateConfig`, each saved or
-- not: if every dependency of every enabled extension was there, enabled and in a version that its
-- constraint takes before, so it is after.
pub perform_all-Sound :
    (rs : List Request) (el : ExtensionLifecycle)
    → Sound el.records
    → Sound (perform_all rs el).records
perform_all-Sound [] el h = h
perform_all-Sound (r ∷ rs) el h = perform_all-Sound rs (perform r el) (perform-Sound el h r)
