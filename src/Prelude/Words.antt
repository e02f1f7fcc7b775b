-- ===== src/Prelude/Words.antt =====
-- Machine words as native numbers below 2 ^ w: the wrap-around is written out. Shifts mask the
-- amount, as the release profile of Rust does.
use Prim.Native.Nat.{ℕ, ◌+◌, ◌-◌, ◌*◌, ◌/◌, ◌%◌, ◌^◌, min}
use mathlib.Core.Option.{Option, none, some}
use zvolrescue.Prelude.Tests.{ltb, ◌==◌, if◌then◌else◌}

abbrev pub u64_mod : ℕ
u64_mod = 2 ^ 64

abbrev pub u64_max : ℕ
u64_max = 2 ^ 64 - 1

abbrev pub saturating_add : ℕ → ℕ → ℕ
saturating_add a b = min (a + b) u64_max

abbrev pub checked_add : ℕ → ℕ → Option ℕ
checked_add a b = if ltb (a + b) u64_mod then some (a + b) else none

abbrev pub checked_mul : ℕ → ℕ → Option ℕ
checked_mul a b = if ltb (a * b) u64_mod then some (a * b) else none

abbrev pub wrapping_mul : ℕ → ℕ → ℕ
wrapping_mul a b = (a * b) % u64_mod

-- `x << k` on u64.
abbrev pub shl64 : ℕ → ℕ → ℕ
shl64 x k = (x * 2 ^ (k % 64)) % u64_mod

-- `x >> k` on u64.
abbrev pub shr64 : ℕ → ℕ → ℕ
shr64 x k = x / 2 ^ (k % 64)

-- `x & ((1 << len) - 1)`.
abbrev pub low_bits : ℕ → ℕ → ℕ
low_bits x len = x % 2 ^ len

-- `a.div_ceil(b)`, which does not overflow.
abbrev pub div_ceil : ℕ → ℕ → ℕ
div_ceil a b = a / b + (if a % b == 0 then 0 else 1)

-- `+`, `-` and `*` on u64 in the release profile.
abbrev pub add64 : ℕ → ℕ → ℕ
add64 a b = (a + b) % u64_mod

abbrev pub sub64 : ℕ → ℕ → ℕ
sub64 a b = (a + u64_mod - b) % u64_mod
