-- ===== src/ExtMgr/Reload.antt =====
-- `saveState` and `loadState` of internal/extmgr/extension_lifecycle.go. The package `encoding/json` is
-- a parameter. It writes and reads the exported fields of a struct and no other: `hasMin` and `hasMax`
-- of a `VersionConstraint` are not exported.
use asscor.Prelude.{
  ◌≡◌, refl, false, true, List, [], ◌∷◌, ◌++◌, Option, none, some, Bytes, bytes_eq, lookup, insert,
  All, AllValues, IsDistinct, lookup-insert, Bool-cases, bytes_beq, bytes_beq_iff, inl, inr, sym,
  ◌∙◌, ap, subst,
}
use asscor.Semver.Defs.{SemVer}
use asscor.Semver.Constraint.{Constraint}
use asscor.ExtMgr.Spec.{constraint_holds, DependencySpec}
use asscor.ExtMgr.Lifecycle.{ExtensionRecord, Records, ExtensionLifecycle}

pub record Json : Type 0 where
  pub encode : Records → Bytes
  pub decode : Bytes → Option Records

-- The content of the state file.
unfoldable pub save_state : Json → ExtensionLifecycle → Bytes
save_state j el = j.encode el.records

unfoldable pub load_records : Records → ExtensionLifecycle → ExtensionLifecycle
load_records [] el = el
load_records ((id, rec) ∷ recs) el =
    load_records recs (record { records = insert id rec el.records; order = el.order ++ (id ∷ []) })

unfoldable pub load_decoded : Option Records → ExtensionLifecycle → ExtensionLifecycle
unfolding load_records
load_decoded none el = el
load_decoded (some recs) el = load_records recs el

-- `loadState`, of the content that `os.ReadFile` returns, if it does.
unfoldable pub load_state : Json → Option Bytes → ExtensionLifecycle → ExtensionLifecycle
unfolding load_decoded
load_state j none el = el
load_state j (some data') el = load_decoded (j.decode data') el

-- `NewExtensionLifecycle`.
unfoldable pub new_lifecycle : Json → Option Bytes → ExtensionLifecycle
unfolding load_state
new_lifecycle j data' = load_state j data' (record { records = []; order = [] })

-- What is written of a constraint, of a dependency, of a record and of all of them.
abbrev pub exported_constraint : Constraint → Constraint
exported_constraint c = record c { has_min = false; has_max = false }

abbrev pub exported_dependencies : List DependencySpec → List DependencySpec
exported_dependencies [] = []
exported_dependencies (dep ∷ deps) =
    record dep { constraint = exported_constraint dep.constraint } ∷ exported_dependencies deps

abbrev pub exported_record : ExtensionRecord → ExtensionRecord
exported_record rec = record rec {
  spec = record rec.spec { dependencies = exported_dependencies rec.spec.dependencies };
}

abbrev pub exported : Records → Records
exported [] = []
exported ((id, rec) ∷ recs) = (id, exported_record rec) ∷ exported recs

-- Every dependency takes every version.
abbrev pub TakesAll : ExtensionRecord → Type 0
TakesAll rec =
    All (λ dep. (v : SemVer) → constraint_holds dep.constraint v ≡ true) rec.spec.dependencies

exported-TakesAll : (recs : Records) → AllValues TakesAll (exported recs)
unfolding constraint_holds
exported-TakesAll [] = tt
exported-TakesAll ((id, rec) ∷ recs) = (takes rec.spec.dependencies, exported-TakesAll recs)
  where
    takes :
        (deps : List DependencySpec)
        → All
            (λ dep. (v : SemVer) → constraint_holds dep.constraint v ≡ true)
            (exported_dependencies deps)
    takes [] = tt
    takes (dep ∷ deps) = ((λ v. refl), takes deps)

abbrev pub export_found : Option ExtensionRecord → Option ExtensionRecord
export_found none = none
export_found (some rec) = some (exported_record rec)

lookup-exported :
    (id : Bytes) (recs : Records) → lookup id (exported recs) ≡ export_found (lookup id recs)
unfolding lookup
lookup-exported id [] = refl
lookup-exported id ((k, rec) ∷ recs) = elim (Bool-cases (bytes_beq k id)) [
  | inl q ↦ rw q refl
  | inr q ↦ rw q (lookup-exported id recs)
]

exported-IsDistinct : (recs : Records) → IsDistinct recs → IsDistinct (exported recs)
exported-IsDistinct [] d = tt
exported-IsDistinct ((k, rec) ∷ recs) d =
    (lookup-exported k recs ∙ rw (d.0) refl, exported-IsDistinct recs d.1)

abbrev found_or : Option ExtensionRecord → Option ExtensionRecord → Option ExtensionRecord
found_or none d = d
found_or (some rec) d = some rec

lookup-load_records :
    (id : Bytes) (recs : Records) (el : ExtensionLifecycle)
    → IsDistinct recs
    → lookup id (load_records recs el).records ≡ found_or (lookup id recs) (lookup id el.records)
unfolding load_records lookup
lookup-load_records id [] el d = refl
lookup-load_records id ((k, rec) ∷ recs) el d =
    lookup-load_records id recs _ d.1
    ∙ rw lookup-insert (elim (Bool-cases (bytes_beq k id)) [
      | inl q ↦ rw (q, ap (λ x. lookup x recs) (sym ((bytes_beq_iff k id).0 q)) ∙ d.0) refl
      | inr q ↦ rw q refl
    ])

-- An extension that is installed after the restart as it was, but that no version of another
-- extension is refused for any of its dependencies any more.
abbrev pub LostBounds : Option ExtensionRecord → Option ExtensionRecord → Type 0
LostBounds none after = after ≡ none
LostBounds (some rec) after = (after ≡ some (exported_record rec)) × TakesAll (exported_record rec)

exported-LostBounds :
    (id : Bytes) (recs : Records) → LostBounds (lookup id recs) (lookup id (exported recs))
unfolding lookup
exported-LostBounds id [] = refl
exported-LostBounds id ((k, rec) ∷ recs) = elim (Bool-cases (bytes_beq k id)) [
  | inl q ↦ rw q (refl, (exported-TakesAll ((k, rec) ∷ [])).0)
  | inr q ↦ rw q (exported-LostBounds id recs)
]

-- If `encoding/json` gives back the exported fields of the records that it wrote, with the other fields
-- at their zero, then a restart finds exactly the extensions that were registered, each as it was in
-- its state, its version and all else that is exported; but whatever bounds its dependencies were
-- registered with, each of them now takes every version.
pub reload-TakesAll :
    (j : Json) (el : ExtensionLifecycle) (id : Bytes)
    → IsDistinct el.records
    → j.decode (j.encode el.records) ≡ some (exported el.records)
    → LostBounds
        (lookup id el.records)
        (lookup id (new_lifecycle j (some (save_state j el))).records)
unfolding new_lifecycle load_state load_decoded save_state lookup
reload-TakesAll j el id d law = rw law (
    subst (LostBounds (lookup id el.records))
      (sym (
        lookup-load_records id (exported el.records) (record { records = []; order = [] })
          (exported-IsDistinct el.records d)
        ∙ found_none (lookup id (exported el.records))))
      (exported-LostBounds id el.records))
  where
    found_none : (o : Option ExtensionRecord) → found_or o none ≡ o
    found_none none = refl
    found_none (some rec) = refl
