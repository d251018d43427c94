-- ===== src/Extensions/Order.antt =====
-- The order of the handlers of internal/kernel/extensions.go, through any sequence of calls.
use asscor.Prelude.{
  ℕ, ◌≡◌, refl, sym, ◌∙◌, Bool, true, false, inl, inr, ◌⊎◌, List, [], ◌∷◌, Option, none, some,
  if◌then◌else◌, Bytes, bytes_beq, bytes_eq, lookup, insert, lookup-insert, lookup-remove,
  Bool-cases, ltb, arith, subst,
}
use asscor.Extensions.{
  ExtensionPoint, RegisteredExtension, Handlers, ExtensionRegistry, new_extension_registry,
  handlers_or, handlers_at, register_point, register_known, register_extension_at, others,
  keep_handlers, unregister_all, unregister_plugin, FirstResult, no_extension, all_failed,
  handled_by, until_first, first_handler, execute_until_first,
}

-- No handler of a list has a priority below a number.
abbrev pub NoneBelow : ℕ → Handlers → Type 0
NoneBelow n [] = Unit
NoneBelow n (e ∷ es) = (ltb e.priority n ≡ false) × NoneBelow n es

abbrev pub Ordered : Handlers → Type 0
Ordered [] = Unit
Ordered (e ∷ es) = NoneBelow e.priority es × Ordered es

others-NoneBelow :
    (id : Bytes) (n : ℕ) (es : Handlers) → NoneBelow n es → NoneBelow n (others id es)
unfolding others
others-NoneBelow id n [] h = tt
others-NoneBelow id n (e ∷ es) h = elim (Bool-cases (bytes_beq e.plugin_id id)) [
  | inl q ↦ rw q (others-NoneBelow id n es h.1)
  | inr q ↦ rw q (h.0, others-NoneBelow id n es h.1)
]

others-Ordered : (id : Bytes) (es : Handlers) → Ordered es → Ordered (others id es)
unfolding others
others-Ordered id [] h = tt
others-Ordered id (e ∷ es) h = elim (Bool-cases (bytes_beq e.plugin_id id)) [
  | inl q ↦ rw q (others-Ordered id es h.1)
  | inr q ↦ rw q (others-NoneBelow id e.priority es h.0, others-Ordered id es h.1)
]

abbrev at_in : Bytes → List (Bytes × Handlers) → Handlers
at_in x all = handlers_or (lookup x all)

keep_handlers-at :
    (x y : Bytes) (es : Handlers) (rest : List (Bytes × Handlers))
    → at_in x (keep_handlers y es rest) ≡ (if bytes_beq y x then es else at_in x rest)
unfolding lookup
keep_handlers-at x y [] rest =
    rw lookup-remove (elim (Bool-cases (bytes_beq y x)) [ inl q ↦ rw q refl | inr q ↦ rw q refl ])
keep_handlers-at x y (e ∷ es) rest = elim (Bool-cases (bytes_beq y x)) [
  | inl q ↦ rw q refl
  | inr q ↦ rw q refl
]

unregister-at :
    (x id : Bytes) (all : List (Bytes × Handlers))
    → at_in x (unregister_all id all) ≡ others id (at_in x all)
unfolding unregister_all others lookup
unregister-at x id [] = refl
unregister-at x id ((y, es) ∷ ms) =
    keep_handlers-at x y (others id es) (unregister_all id ms)
    ∙ elim (Bool-cases (bytes_beq y x)) [ inl q ↦ rw q refl | inr q ↦ rw q (unregister-at x id ms) ]

insert-at :
    (x y : Bytes) (es : Handlers) (all : List (Bytes × Handlers))
    → at_in x (insert y es all) ≡ (if bytes_beq y x then es else at_in x all)
insert-at x y es all =
    rw lookup-insert (elim (Bool-cases (bytes_beq y x)) [ inl q ↦ rw q refl | inr q ↦ rw q refl ])

pub data Change : Type 0 where
  add_point : ExtensionPoint → Change
  add_extension : RegisteredExtension → Change
  drop_plugin : Bytes → Change

abbrev pub AllOrdered : ExtensionRegistry → Type 0
AllOrdered r = (x : Bytes) → Ordered (handlers_at x r)

unfoldable pub In : RegisteredExtension → Handlers → Type 0
In e [] = ⊥
In e (f ∷ es) = (e ≡ f) ⊎ In e es

-- No handler that succeeds goes before one.
unfoldable pub Least : (RegisteredExtension → Bool) → RegisteredExtension → Handlers → Type 0
Least fails e [] = Unit
Least fails e (f ∷ es) = (fails f ≡ false → ltb f.priority e.priority ≡ false) × Least fails e es

unfoldable pub AllFail : (RegisteredExtension → Bool) → Handlers → Type 0
AllFail fails [] = Unit
AllFail fails (e ∷ es) = (fails e ≡ true) × AllFail fails es

pub record Chosen (fails : RegisteredExtension → Bool) (id : Bytes) (es : Handlers) : Type 0 where
  pub chosen : RegisteredExtension
  pub is_in : In chosen es
  pub its_id : chosen.plugin_id ≡ id
  pub succeeds : fails chosen ≡ false
  pub least : Least fails chosen es

-- What a run may answer for the handlers of a point.
unfoldable pub Answers : (RegisteredExtension → Bool) → FirstResult → Handlers → Type 0
unfolding AllFail
Answers fails no_extension es = es ≡ []
Answers fails all_failed es = AllFail fails es
Answers fails (handled_by id) es = Chosen fails id es

NoneBelow-Least :
    (fails : RegisteredExtension → Bool) (e : RegisteredExtension) (es : Handlers)
    → NoneBelow e.priority es
    → Least fails e es
unfolding Least
NoneBelow-Least fails e [] h = tt
NoneBelow-Least fails e (f ∷ es) h = (λ _. h.0, NoneBelow-Least fails e es h.1)

after_failure :
    (fails : RegisteredExtension → Bool) (e : RegisteredExtension) (es : Handlers) (a : FirstResult)
    → fails e ≡ true
    → (es ≡ [] → a ≡ all_failed)
    → Answers fails a es
    → Answers fails a (e ∷ es)
unfolding Answers AllFail Least In
after_failure fails e es no_extension q z h = absurd (cc (z h))
after_failure fails e es all_failed q z h = (q, h)
after_failure fails e es (handled_by id) q z h = record {
  chosen = h.chosen;
  is_in = inr h.is_in;
  its_id = h.its_id;
  succeeds = h.succeeds;
  least = (λ k. absurd (cc (q, k)), h.least);
}

until_first-Answers :
    (fails : RegisteredExtension → Bool) (es : Handlers)
    → Ordered es
    → Answers fails (until_first fails es) es
unfolding until_first Answers AllFail Least In
until_first-Answers fails [] o = tt
until_first-Answers fails (e ∷ es) o = elim (Bool-cases (fails e)) [
  | inl q ↦ rw q (
      after_failure fails e es (until_first fails es) q (λ z. rw z refl)
        (until_first-Answers fails es o.1))
  | inr q ↦ rw q (record {
    chosen = e;
    is_in = inl refl;
    its_id = refl;
    succeeds = q;
    least = (λ _. ground arith, NoneBelow-Least fails e es o.0);
  })
]

module _ (sort : Handlers → Handlers) (sorts : (es : Handlers) → Ordered (sort es)) where
  abbrev pub change : Change → ExtensionRegistry → ExtensionRegistry
  change (add_point p) r = register_point p r
  change (add_extension e) r = (register_extension_at sort e r).1
  change (drop_plugin id) r = unregister_plugin id r

  abbrev pub changes : List Change → ExtensionRegistry → ExtensionRegistry
  changes [] r = r
  changes (c ∷ cs) r = changes cs (change c r)

  known-AllOrdered :
      (e : RegisteredExtension) (o : Option ExtensionPoint) (r : ExtensionRegistry)
      → AllOrdered r
      → AllOrdered (register_known sort e o r).1
  unfolding register_known
  known-AllOrdered e none r h x = h x
  known-AllOrdered e (some p) r h x =
      subst Ordered (sym (insert-at x e.point _ r.extensions))
        (elim (Bool-cases (bytes_beq e.point x)) [ inl q ↦ rw q (sorts _) | inr q ↦ rw q (h x) ])

  change-AllOrdered : (c : Change) (r : ExtensionRegistry) → AllOrdered r → AllOrdered (change c r)
  unfolding register_point register_extension_at unregister_plugin
  change-AllOrdered (add_point p) r h x = h x
  change-AllOrdered (add_extension e) r h x = known-AllOrdered e (lookup e.point r.points) r h x
  change-AllOrdered (drop_plugin id) r h x =
      subst Ordered (sym (unregister-at x id r.extensions)) (others-Ordered id _ (h x))

  changes-AllOrdered :
      (cs : List Change) (r : ExtensionRegistry) → AllOrdered r → AllOrdered (changes cs r)
  changes-AllOrdered [] r h = h
  changes-AllOrdered (c ∷ cs) r h = changes-AllOrdered cs (change c r) (change-AllOrdered c r h)

  empty-AllOrdered : AllOrdered new_extension_registry
  unfolding lookup
  empty-AllOrdered y = tt

  first_handler-Answers :
      (fails : RegisteredExtension → Bool) (es : Handlers)
      → Ordered es
      → Answers fails (first_handler fails es) es
  unfolding Answers first_handler
  first_handler-Answers fails [] o = refl
  first_handler-Answers fails (e ∷ es) o = until_first-Answers fails (e ∷ es) o

  -- After any registrations of points and handlers and removals of plugins, a run until the first success
  -- names the plugin of a handler of the point that succeeds and that no handler of the point that
  -- succeeds goes before by its priority; it reports that all failed only if each does, and that there is
  -- none only if the point has none: for any sorting that puts lower priorities first.
  pub first_success :
      (fails : RegisteredExtension → Bool) (cs : List Change) (x : Bytes)
      → (let r = changes cs new_extension_registry in
          Answers fails (execute_until_first fails x r) (handlers_at x r))
  unfolding execute_until_first
  first_success fails cs x =
      first_handler-Answers fails (handlers_at x (changes cs new_extension_registry))
        (changes-AllOrdered cs new_extension_registry empty-AllOrdered x)
