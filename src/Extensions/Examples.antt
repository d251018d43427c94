-- ===== src/Extensions/Examples.antt =====
-- Witness of the theorem on internal/kernel/extensions.go, with an insertion sort.
use asscor.Prelude.{
  ℕ, ◌≡◌, Bool, true, false, inl, inr, List, [], ◌∷◌, Bytes, Bool-cases, ltb, if◌then◌else◌, arith,
  ◌==◌, bytes_eq,
}
use asscor.Extensions.{
  RegisteredExtension, Handlers, new_extension_registry, handlers_at, execute_until_first,
}
use asscor.Extensions.Order.{
  NoneBelow, Ordered, Change, add_point, add_extension, drop_plugin, Answers, changes,
  first_success,
}

put : RegisteredExtension → Handlers → Handlers
put e [] = e ∷ []
put e (f ∷ es) = let rest = put e es in if ltb e.priority f.priority then e ∷ f ∷ es else f ∷ rest

by_priority : Handlers → Handlers
unfolding put
by_priority [] = []
by_priority (e ∷ es) = put e (by_priority es)

lower-NoneBelow : (m n : ℕ) (es : Handlers) → ltb m n ≡ true → NoneBelow n es → NoneBelow m es
lower-NoneBelow m n [] k h = tt
lower-NoneBelow m n (e ∷ es) k h = (ground (arith, k, h.0), lower-NoneBelow m n es k h.1)

put-NoneBelow :
    (n : ℕ) (e : RegisteredExtension) (es : Handlers)
    → ltb e.priority n ≡ false
    → NoneBelow n es
    → NoneBelow n (put e es)
unfolding put
put-NoneBelow n e [] k h = (k, tt)
put-NoneBelow n e (f ∷ es) k h = elim (Bool-cases (ltb e.priority f.priority)) [
  | inl q ↦ rw q (k, h)
  | inr q ↦ rw q (h.0, put-NoneBelow n e es k h.1)
]

put-Ordered : (e : RegisteredExtension) (es : Handlers) → Ordered es → Ordered (put e es)
unfolding put
put-Ordered e [] o = (tt, tt)
put-Ordered e (f ∷ es) o = elim (Bool-cases (ltb e.priority f.priority)) [
  | inl q ↦ rw q ((ground (arith, q), lower-NoneBelow e.priority f.priority es q o.0), o)
  | inr q ↦ rw q (put-NoneBelow f.priority e es q o.0, put-Ordered e es o.1)
]

by_priority-Ordered : (es : Handlers) → Ordered (by_priority es)
unfolding by_priority
by_priority-Ordered [] = tt
by_priority-Ordered (e ∷ es) = put-Ordered e (by_priority es) (by_priority-Ordered es)

abbrev point_a : Bytes
point_a = 97 ∷ []

abbrev some_changes : List Change
some_changes =
    add_point (record { name = point_a; description = []; version = [] })
    ∷ add_extension (record { plugin_id = 112 ∷ []; point = point_a; handler = 1; priority = 20 })
    ∷ add_extension (record { plugin_id = 113 ∷ []; point = point_a; handler = 2; priority = 10 })
    ∷ add_extension (record { plugin_id = 114 ∷ []; point = point_a; handler = 3; priority = 5 })
    ∷ drop_plugin (114 ∷ [])
    ∷ []

-- The second handler fails.
abbrev second_fails : RegisteredExtension → Bool
second_fails e = e.handler == 2

first_success_example :
    (let r = changes by_priority by_priority-Ordered some_changes new_extension_registry in
      Answers second_fails (execute_until_first second_fails point_a r) (handlers_at point_a r))
first_success_example =
    first_success by_priority by_priority-Ordered second_fails some_changes point_a
