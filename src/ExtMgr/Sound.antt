-- ===== src/ExtMgr/Sound.antt =====
-- The invariant of the lifecycle of internal/extmgr/extension_lifecycle.go: what an enabled extension
-- depends on is enabled, in a version that its constraint takes.
pub mod Requests
pub mod Steps
use asscor.Prelude.{
  ◌≡◌, ◌≢◌, refl, sym, ◌∙◌, ap, subst, Bool, true, false, ◌&&◌, not, ◌⊎◌, inl, inr, List, [], ◌∷◌,
  Option, none, some, arith, Bytes, bytes_beq, bytes_beq_iff, bytes_eq, lookup, insert, remove,
  lookup-insert, lookup-insert_self, lookup-insert_ne, lookup-remove, same-ne, All, Bool-cases,
  Option-cases,
}
use mathlib.Core.Option.{some-injective}
use asscor.Semver.Defs.{SemVer}
use asscor.ExtMgr.Spec.{
  parse_sem_ver, constraint_holds, DependencySpec, ExtensionState, installed, enabled, disabled,
  error_state,
}
use asscor.ExtMgr.Lifecycle.{ExtensionRecord, Records}
use asscor.ExtMgr.Lifecycle.Change.{depends_on, dependent}

-- A dependency that is there, enabled and in a version that the constraint takes.
abbrev pub Met : Records → DependencySpec → Type 0
Met recs dep =
    (rec : ExtensionRecord) × (lookup dep.extension_id recs ≡ some rec)
    × (rec.spec.state ≡ enabled)
    × (v : SemVer) × (parse_sem_ver rec.spec.version ≡ some v)
    × (constraint_holds dep.constraint v ≡ true)

abbrev pub Sound : Records → Type 0
Sound recs =
    (id : Bytes) (rec : ExtensionRecord)
    → lookup id recs ≡ some rec
    → rec.spec.state ≡ enabled
    → All (Met recs) rec.spec.dependencies

pub All-map {ℓ κ μ} :
    {A : Type ℓ} {P : A → Type κ} {Q : A → Type μ} (xs : List A)
    → ((x : A) → P x → Q x)
    → All P xs
    → All Q xs
All-map [] f h = tt
All-map (x ∷ xs) f h = (f x h.0, All-map xs f h.1)

pub apart_of :
    (id : Bytes) (deps : List DependencySpec)
    → depends_on id deps ≡ false
    → All (λ dep. dep.extension_id ≢ id) deps
unfolding depends_on
apart_of id [] h = tt
apart_of id (dep ∷ deps) h = ground (arith, bytes_beq_iff dep.extension_id id, apart_of id deps)

-- Where no record that counts depends on an extension, each that counts lies apart from it.
pub dependent-none :
    (counts : ExtensionState → Bool) (id x : Bytes) (rec : ExtensionRecord) (recs : Records)
    → dependent counts id recs ≡ none
    → lookup x recs ≡ some rec
    → x ≢ id
    → counts rec.spec.state ≡ true
    → depends_on id rec.spec.dependencies ≡ false
unfolding dependent lookup
dependent-none counts id x rec [] h l n c = cc
dependent-none counts id x rec ((k, r) ∷ recs) h l n c = elim (Bool-cases (bytes_beq k x)) [
  | inl q ↦
      let same : r ≡ rec = some-injective r rec (rw q at l) in
      let key = (bytes_beq_iff k x).0 q in
      let apart = same-ne k id (λ p. n (sym key ∙ p)) in
      subst (λ y. depends_on id y.spec.dependencies ≡ false) same
        (ground (arith, apart, subst (λ y. counts y.spec.state ≡ true) (sym same) c))
  | inr q ↦ dependent-none counts id x rec recs (ground (arith)) (rw q at l) n c
]

-- What holds of all that lie apart.
pub All-apart {ℓ} :
    {P Q : DependencySpec → Type ℓ} (id : Bytes) (deps : List DependencySpec)
    → ((dep : DependencySpec) → dep.extension_id ≢ id → P dep → Q dep)
    → depends_on id deps ≡ false
    → All P deps
    → All Q deps
All-apart {P = P} {Q = Q} id deps f h all = go deps (apart_of id deps h) all
  where
    go :
        (deps : List DependencySpec)
        → All (λ dep. dep.extension_id ≢ id) deps
        → All P deps
        → All Q deps
    go [] a b = tt
    go (dep ∷ deps) a b = (f dep a.0 b.0, go deps a.1 b.1)

module _ (id : Bytes) (rec' : ExtensionRecord) (recs : Records) where
  abbrev pub after : Records
  after = insert id rec' recs

  pub Met-apart : (dep : DependencySpec) → dep.extension_id ≢ id → Met recs dep → Met after dep
  Met-apart dep n (r, l, e, v, p, c) =
      (r, lookup-insert_ne id dep.extension_id rec' recs (λ q. n (sym q)) ∙ l, e, v, p, c)

  -- A record that stays enabled, in the same version, where it was.
  pub Met-kept :
      ((r : ExtensionRecord)
        → lookup id recs ≡ some r
        → r.spec.state ≡ enabled
        → (rec'.spec.state ≡ enabled) × (rec'.spec.version ≡ r.spec.version))
      → (dep : DependencySpec) → Met recs dep
      → Met after dep
  Met-kept k dep (r, l, e, v, p, c) = elim (Bool-cases (bytes_beq id dep.extension_id)) [
    | inl q ↦
        let same = (bytes_beq_iff id dep.extension_id).0 q in
        let (e', same_version) = k r (subst (λ x. lookup x recs ≡ some r) (sym same) l) e in
        (
          rec',
          subst (λ x. lookup x after ≡ some rec') same (lookup-insert_self id rec' recs),
          e',
          v,
          subst (λ x. parse_sem_ver x ≡ some v) (sym same_version) p,
          c,
        )
    | inr q ↦ (r, lookup-insert id dep.extension_id rec' recs ∙ rw q l, e, v, p, c)
  ]

  -- A record put in its place: every other one keeps what it depends on.
  pub insert-Sound :
      ((x : Bytes) (r : ExtensionRecord)
        → x ≢ id
        → lookup x recs ≡ some r
        → r.spec.state ≡ enabled
        → All (Met after) r.spec.dependencies)
      → (rec'.spec.state ≡ enabled → All (Met after) rec'.spec.dependencies)
      → Sound after
  insert-Sound others new x r l e = elim (Bool-cases (bytes_beq id x)) [
    | inl q ↦
        let same : rec' ≡ r =
          some-injective rec' r (sym (rw q at (lookup-insert id x rec' recs)) ∙ l) in
        subst (λ y. All (Met after) y.spec.dependencies) same
          (new (subst (λ y. y.spec.state ≡ enabled) (sym same) e))
    | inr q ↦
        others x r (λ p. cc ((bytes_beq_iff id x).1 (sym p), q))
          (sym (rw q at (lookup-insert id x rec' recs)) ∙ l) e
  ]
