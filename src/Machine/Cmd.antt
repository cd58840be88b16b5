-- ===== src/Machine/Cmd.antt =====
-- Commands on a state. `none` is undefined behaviour: an access outside a block, or a loop that
-- would leave its block or run for ever.
use fuse_using_memcached.Prelude.{Bool, true, false, Option, none, some}

abbrev pub Cmd : Type 0 → Type 0 → Type 0
Cmd S A = S → Option (A × S)

module _ {S A : Type 0} where
  abbrev pub pure : A → Cmd S A
  pure a s = some (a, s)

  abbrev pub undefined : Cmd S A
  undefined s = none

  abbrev pub and_then : {B : Type 0} → Option (A × S) → (A → Cmd S B) → Option (B × S)
  and_then none k = none
  and_then (some (a, s)) k = k a s

module _ {S A B : Type 0} where
  infixl 5 ◌>>=◌ ◌>>◌
  abbrev pub ◌>>=◌ : Cmd S A → (A → Cmd S B) → Cmd S B
  m >>= k = λ s. and_then (m s) k

  abbrev pub ◌>>◌ : Cmd S A → Cmd S B → Cmd S B
  m >> n = m >>= λ _. n

-- The accesses that follow are defined only if the test holds.
abbrev pub require : {S : Type 0} → Bool → Cmd S (Unit {0})
require true s = some (tt, s)
require false s = none

abbrev pub lift : {S A : Type 0} → Option A → Cmd S A
lift none s = none
lift (some a) s = some (a, s)
