-- ===== src/Resilience/Registry.antt =====
-- The map of breakers in internal/resilience/circuit.go.
use asscor.Prelude.{
  ◌≡◌, ap, ◌∙◌, ◌≢◌, Option, none, some, String, arith, lookup, insert, string_eq,
  lookup-insert_self, lookup-insert_ne,
}
use asscor.Resilience.{
  Breaker, Breakers, Call, new_breaker, step, find_breaker, create_breaker, get_breaker, call,
}

-- The breaker that a name stands for: a new one if the map has none.
abbrev or_new : Option Breaker → Breaker
or_new none = new_breaker
or_new (some b) = b

unfoldable pub breaker_of : String → Breakers → Breaker
breaker_of name bs = or_new (lookup name bs)

breaker_of-get_breaker :
    (name : String) (bs : Breakers) → (get_breaker name bs).1 ≡ breaker_of name bs
unfolding get_breaker find_breaker breaker_of
breaker_of-get_breaker name bs = ground arith

get_breaker_other :
    (name other : String) (bs : Breakers)
    → name ≢ other
    → lookup other (get_breaker name bs).0 ≡ lookup other bs
unfolding get_breaker find_breaker create_breaker
get_breaker_other name other bs h = ground (arith, lookup-insert_ne name other new_breaker bs h)

-- A call on one module steps that module's breaker, gives the answer of that step, and leaves the
-- breaker of every other module as it is.
pub call_isolated :
    (name other : String) (c : Call) (bs : Breakers)
    → name ≢ other
    → (breaker_of name (call name c bs).0 ≡ (step (breaker_of name bs) c).0)
      × ((call name c bs).1 ≡ (step (breaker_of name bs) c).1)
      × (lookup other (call name c bs).0 ≡ lookup other bs)
unfolding call breaker_of
call_isolated name other c bs h =
    let (bs', b) = get_breaker name bs in
    let e = breaker_of-get_breaker name bs in
    let b' = (step b c).0 in
    (
      ap or_new (lookup-insert_self name b' bs') ∙ ap (λ b. (step b c).0) e,
      ap (λ b. (step b c).1) e,
      lookup-insert_ne name other b' bs' h ∙ get_breaker_other name other bs h,
    )

-- If another goroutine's call on the same new name comes between the two halves of `getBreaker`,
-- then the breaker that it made and its count are replaced by a new breaker.
pub create_breaker_forgets :
    (name : String) (c : Call) (bs : Breakers)
    → find_breaker name bs ≡ none
    → (find_breaker name (call name c bs).0 ≡ some (step new_breaker c).0)
      × (find_breaker name (create_breaker name (call name c bs).0) ≡ some new_breaker)
unfolding call find_breaker create_breaker get_breaker
create_breaker_forgets name c bs h =
    let (bs', b) = get_breaker name bs in
    let b' = (step b c).0 in
    let fresh : b ≡ new_breaker = ground arith in
    (
      lookup-insert_self name b' bs' ∙ ap (λ b. some (step b c).0) fresh,
      lookup-insert_self name new_breaker (insert name b' bs'),
    )
