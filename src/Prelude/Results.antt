-- ===== src/Prelude/Results.antt =====
-- What an operation of the program ends in.
use mathlib.Core.Path.{◌≡◌}
use mathlib.Core.Option.{Option, none, some}
use mathlib.Core.Logic.{◌⊎◌}

-- `ok` and `err` are Rust's. `panic` is a panic: an `expect` of `None`, an index out of range.
-- `stuck` is no value of the program: a loop of the model ran out of its rounds.
pub data Result {ℓ κ} (A : Type ℓ) (E : Type κ) : Type (ℓ ⊔ κ) where
  ok : A → Result A E
  err : E → Result A E
  panic : Result A E
  stuck : Result A E

infixl 5 ◌>>=◌
abbrev pub ◌>>=◌ {ℓ κ ι} :
    {A : Type ℓ} {B : Type κ} {E : Type ι} → Result A E → (A → Result B E) → Result B E
ok a >>= f = f a
err e >>= f = err e
panic >>= f = panic
stuck >>= f = stuck

-- `o.ok_or(e)?` and `o.expect(…)`.
abbrev pub ok_or {ℓ κ} : {A : Type ℓ} {E : Type κ} → Option A → E → Result A E
ok_or none e = err e
ok_or (some a) e = ok a

abbrev pub expect {ℓ κ} : {A : Type ℓ} {E : Type κ} → Option A → Result A E
expect none = panic
expect (some a) = ok a

-- The operation returns: it does not panic, and its loops end.
abbrev pub Returns {ℓ κ} : {A : Type ℓ} {E : Type κ} → Result A E → Type (ℓ ⊔ κ)
Returns {A} {E} r = ((a : A) × (r ≡ ok a)) ⊎ ((e : E) × (r ≡ err e))
