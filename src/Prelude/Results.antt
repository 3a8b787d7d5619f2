-- ===== src/Prelude/Results.antt =====
-- How a run of the program can end.
use mathlib.Core.Logic.{◌≢◌}
use mathlib.Core.Bool.{Bool, true, false}

-- `out_of_bounds` is undefined behaviour: a read or write outside of the storage, a subspan longer
-- than its span, a pointer before the storage, a remainder by zero.
-- `stuck` is no behaviour: a loop of the model ran out of its fuel.
-- `assertion` a failed `toolpex_assert`, `exception` a thrown exception.
pub data Error : Type 0 where
  out_of_bounds assertion exception stuck : Error

pub data Result {ℓ} (A : Type ℓ) : Type ℓ where
  err : Error → Result A
  ok : A → Result A

-- The first part that does not end well is the end of a chain.
abbrev pub ◌>>◌ {κ} : {B : Type κ} → Result (Unit {0}) → Result B → Result B
err e >> rest = err e
ok u >> rest = rest

abbrev pub ◌>>=◌ {ℓ κ} : {A : Type ℓ} {B : Type κ} → Result A → (A → Result B) → Result B
err e >>= rest = err e
ok x >>= rest = rest x

infixl 5 ◌>>◌ ◌>>=◌
-- `toolpex_assert(b)`
abbrev pub assert : Bool → Result (Unit {0})
assert true = ok tt
assert false = err assertion

-- `if (!b) throw`
abbrev pub throw_unless : Bool → Result (Unit {0})
throw_unless true = ok tt
throw_unless false = err exception

-- A chain ends if its parts do.
pub bind-ne-stuck {ℓ κ} :
    {A : Type ℓ} {B : Type κ} (r : Result A) (f : A → Result B)
    → r ≢ err stuck
    → ((a : A) → f a ≢ err stuck)
    → (r >>= f) ≢ err stuck
bind-ne-stuck (ok a) f h k = k a
bind-ne-stuck (err x) f h k = λ q. h (cc)
