-- ===== src/Ondisk/Bytes.antt =====
-- crates/zfs-ondisk/src/lib.rs (`Endian`) and error.rs (`ParseError`). A byte slice is a list of
-- numbers, each below 256 where a theorem says so.
pub mod Laws
pub mod Words
use zvolrescue.Prelude.{ℕ, zero, suc, ◌+◌, ◌*◌, ◌/◌, ◌%◌, ◌^◌, ◌≤◌, ◌<◌, ◌≡◌, refl, arith}
use zvolrescue.Prelude.{
  ◌++◌, ◌^◌, List, [], ◌∷◌, ◌++◌, Option, none, some, length, take, drop, ltb, leb,
}
use zvolrescue.Prelude.{if◌then◌else◌, All}
use mathlib.Core.List.{reverse}
use zvolrescue.Prelude.Chain.{◌>>=◌}

pub data Endian : Type 0 where
  little big : Endian

pub data ParseError : Type 0 where
  truncated : ℕ → ℕ → ParseError
  bad_magic : ℕ → ParseError
  malformed : ℕ → ParseError

abbrev pub IsByte : ℕ → Type 0
IsByte b = b < 256

-- `buf.get(from..from + n)`.
unfoldable pub slice : List ℕ → ℕ → ℕ → Option (List ℕ)
slice buf from n = if leb (from + n) (length buf) then some (take n (drop from buf)) else none

-- `from_le_bytes` at any width.
unfoldable pub from_le_bytes : List ℕ → ℕ
from_le_bytes [] = 0
from_le_bytes (b ∷ bs) = b + 256 * from_le_bytes bs

-- `from_be_bytes` at any width.
unfoldable pub from_be_bytes : List ℕ → ℕ
unfolding from_le_bytes
from_be_bytes bs = from_le_bytes (reverse bs)

unfoldable pub from_bytes : Endian → List ℕ → ℕ
unfolding from_le_bytes from_be_bytes
from_bytes little bs = from_le_bytes bs
from_bytes big bs = from_be_bytes bs

unfoldable pub u64_at : Endian → List ℕ → ℕ → Option ℕ
unfolding slice from_bytes
u64_at e buf offset = do bytes ← slice buf offset 8; some (from_bytes e bytes)

-- The word at `offset`, of a slice that is long enough.
abbrev pub word : Endian → List ℕ → ℕ → ℕ
word e buf offset = from_bytes e (take 8 (drop offset buf))

-- `to_le_bytes` and `to_be_bytes`, at any width.
unfoldable pub to_le_bytes : ℕ → ℕ → List ℕ
to_le_bytes zero x = []
to_le_bytes (suc n) x = (x % 256) ∷ to_le_bytes n (x / 256)

unfoldable pub to_bytes : Endian → ℕ → List ℕ
unfolding to_le_bytes
to_bytes little x = to_le_bytes 8 x
to_bytes big x = reverse (to_le_bytes 8 x)

-- `swap_bytes` of a u64.
unfoldable pub swap_bytes : ℕ → ℕ
unfolding to_le_bytes from_be_bytes
swap_bytes x = from_be_bytes (to_le_bytes 8 x)

-- A record of u64 words, as it lies on the disk.
unfoldable pub encode_words : Endian → List ℕ → List ℕ
unfolding to_bytes
encode_words e [] = []
encode_words e (w ∷ ws) = to_bytes e w ++ encode_words e ws

abbrev pub IsU64 : ℕ → Type 0
IsU64 x = x < 2 ^ 64
