-- ===== src/ExtMgr/Examples.antt =====
-- The theorems on the lifecycle of extensions at concrete records.
use asscor.Prelude.{◌≡◌, refl, true, false, List, [], ◌∷◌, some, Bytes, codes, lookup, bytes_eq}
use asscor.Semver.Constraint.{Constraint, unbounded, zero_version}
use asscor.ExtMgr.Spec.{constraint_holds, compare_sem_ver, DependencySpec, ExtensionSpec, installed}
use asscor.ExtMgr.Lifecycle.{ExtensionRecord, ExtensionLifecycle}
use asscor.ExtMgr.Sound.{Sound}
use asscor.ExtMgr.Sound.Requests.{
  register_it, enable_it, disable_it, delete_it, Request, perform_all, perform_all-Sound,
}
use asscor.ExtMgr.Reload.{
  Json, save_state, new_lifecycle, exported, exported_record, LostBounds, save_state, new_lifecycle,
  reload-TakesAll,
}

abbrev spec_of : Bytes → List DependencySpec → ExtensionSpec
spec_of id deps = record {
  id = id;
  name = id;
  version = codes "1.0.0";
  ext_type = codes "hook";
  dependencies = deps;
  source = record { url = []; source_type = codes "local"; checksum = []; commit = [] };
  custom_config = [];
  install_path = [];
  install_time = 0;
  state = installed;
  error = [];
}

-- At least version 2.
abbrev at_least_two : Constraint
at_least_two = record unbounded { min = record zero_version { major = 2 }; has_min = true }

abbrev wants_base : List DependencySpec
wants_base = record { extension_id = codes "base"; constraint = unbounded } ∷ []

abbrev empty : ExtensionLifecycle
empty = record { records = []; order = [] }

-- The base is registered and enabled, then an extension on it; the base is then not disabled, and not
-- deleted.
abbrev requests : List Request
requests =
    register_it (spec_of (codes "base") []) [] 1 true
    ∷ register_it (spec_of (codes "ext") wants_base) [] 2 true
    ∷ enable_it (codes "base") 3 true
    ∷ enable_it (codes "ext") 4 false
    ∷ disable_it (codes "base") 5 true
    ∷ delete_it (codes "base") true
    ∷ []

perform_all-Sound_example : Sound (perform_all requests empty).records
unfolding lookup
perform_all-Sound_example = perform_all-Sound requests empty λ id rec l e. absurd (cc l)

abbrev stored : ExtensionLifecycle
stored = record {
  records =
      (
        codes "ext",
        record {
          spec =
              spec_of (codes "ext")
                (record { extension_id = codes "base"; constraint = at_least_two } ∷ []);
          enabled_at = 0;
          disabled_at = 0;
        },
      )
      ∷ [];
  order = codes "ext" ∷ [];
}

abbrev json : Json
json = record { encode = λ recs. []; decode = λ data'. some (exported stored.records) }

abbrev reloaded : ExtensionRecord
reloaded = exported_record (record {
  spec =
      spec_of (codes "ext")
        (record { extension_id = codes "base"; constraint = at_least_two } ∷ []);
  enabled_at = 0;
  disabled_at = 0;
})

reload-TakesAll_example :
    LostBounds
      (lookup (codes "ext") stored.records)
      (lookup (codes "ext") (new_lifecycle json (some (save_state json stored))).records)
unfolding lookup
reload-TakesAll_example = reload-TakesAll json stored (codes "ext") (refl, tt) refl

-- Before the restart the same dependency did not take version 1.
refused_before : constraint_holds at_least_two (record zero_version { major = 1 }) ≡ false
unfolding constraint_holds compare_sem_ver
refused_before = refl
