-- ===== src/ExtMgr/Sound/Steps.antt =====
-- The checks of `Enable` of internal/extmgr/extension_lifecycle.go, and one record in a new state.
use asscor.Prelude.{
  ◌≡◌, refl, sym, ◌∙◌, ap, subst, Bool, true, false, inl, inr, List, [], ◌∷◌, Option, none, some,
  arith, Bytes, bytes_eq, lookup, insert, All, Bool-cases,
}
use mathlib.Core.Option.{some-injective}
use asscor.Semver.Defs.{SemVer}
use asscor.ExtMgr.Spec.{
  parse_sem_ver, constraint_holds, DependencySpec, ExtensionState, installed, enabled, disabled,
  error_state,
}
use asscor.ExtMgr.Lifecycle.{
  ExtensionRecord, Records, ExtensionLifecycle, LifecycleError, save, is_enabled,
  check_dependencies, check_enabled, check_version, first_error,
}
use asscor.ExtMgr.Sound.{Met, Sound, All-map, Met-kept, insert-Sound}

pub save-Sound :
    (saved : Bool) (el : ExtensionLifecycle) → Sound el.records → Sound (save saved el).1.records
save-Sound true el h = h
save-Sound false el h = h

version-Met :
    (dep : DependencySpec) (recs : Records) (rec : ExtensionRecord) (o : Option SemVer)
    → lookup dep.extension_id recs ≡ some rec
    → rec.spec.state ≡ enabled
    → parse_sem_ver rec.spec.version ≡ o
    → check_version dep o ≡ none
    → Met recs dep
unfolding check_version
version-Met dep recs rec none l e p h = cc
version-Met dep recs rec (some v) l e p h = elim (Bool-cases (constraint_holds dep.constraint v)) [
  | inl q ↦ (rec, l, e, v, p, q)
  | inr q ↦ absurd (ground (arith, q))
]

pub enabled_of : (s : ExtensionState) → is_enabled s ≡ true → s ≡ enabled
enabled_of installed h = cc
enabled_of enabled h = refl
enabled_of disabled h = cc
enabled_of error_state h = cc

found-Met :
    (dep : DependencySpec) (recs : Records) (o : Option ExtensionRecord)
    → lookup dep.extension_id recs ≡ o
    → check_enabled dep o ≡ none
    → Met recs dep
unfolding check_enabled
found-Met dep recs none l h = cc
found-Met dep recs (some rec) l h = elim (Bool-cases (is_enabled rec.spec.state)) [
  | inl q ↦
      version-Met dep recs rec (parse_sem_ver rec.spec.version) l (enabled_of rec.spec.state q) refl
        (rw q at h)
  | inr q ↦ absurd (ground (arith, q))
]

first_error-none : (a b : Option LifecycleError) → first_error a b ≡ none → (a ≡ none) × (b ≡ none)
first_error-none none b h = (refl, h)
first_error-none (some e) b h = cc

pub check_dependencies-Met :
    (deps : List DependencySpec) (recs : Records)
    → check_dependencies deps recs ≡ none
    → All (Met recs) deps
unfolding check_dependencies
check_dependencies-Met [] recs h = tt
check_dependencies-Met (dep ∷ deps) recs h =
    let parts =
      first_error-none (check_enabled dep (lookup dep.extension_id recs))
        (check_dependencies deps recs) h in
    (
      found-Met dep recs (lookup dep.extension_id recs) refl parts.0,
      check_dependencies-Met deps recs parts.1,
    )

-- A record that stays as enabled as it was, in the same version.
module _ (id : Bytes) (rec rec' : ExtensionRecord) (recs : Records)
    (look : lookup id recs ≡ some rec) where
  pub same-Sound :
      (rec'.spec.version ≡ rec.spec.version)
      → (rec'.spec.dependencies ≡ rec.spec.dependencies)
      → (rec.spec.state ≡ enabled → rec'.spec.state ≡ enabled)
      → (rec'.spec.state ≡ enabled → All (Met recs) rec.spec.dependencies)
      → Sound recs
      → Sound (insert id rec' recs)
  same-Sound version deps stays new h =
      let kept = Met-kept id rec' recs λ r l e.
        let same = some-injective rec r (sym look ∙ l) in
        (
          stays (subst (λ y. y.spec.state ≡ enabled) (sym same) e),
          version ∙ ap (λ (y : ExtensionRecord). y.spec.version) same,
        ) in
      insert-Sound id rec' recs (λ x r n l e. All-map r.spec.dependencies kept (h x r l e))
        (λ e.
          subst (All (Met (insert id rec' recs))) (sym deps)
            (All-map rec.spec.dependencies kept (new e)))
