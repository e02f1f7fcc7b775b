-- ===== src/Ondisk/Dva.antt =====
-- crates/zfs-ondisk/src/blkptr.rs: `bits` and the data virtual address.
use zvolrescue.Prelude.{ℕ, ◌%◌, ◌^◌, ◌<◌}
use zvolrescue.Prelude.{◌≡◌, arith}
use zvolrescue.Prelude.{Bool, false, not, ◌&&◌}
use zvolrescue.Prelude.{◌==◌}
use zvolrescue.Prelude.{u64_mod}
use zvolrescue.Prelude.{shl64, shr64, low_bits}

-- `MINBLOCKSHIFT`.
abbrev pub minblockshift : ℕ
minblockshift = 9

-- `len` bits of `x` from bit `low` on.
abbrev pub bits : ℕ → ℕ → ℕ → ℕ
bits x low len = low_bits (shr64 x low) len

pub record Dva : Type 0 where
  pub vdev : ℕ
  pub offset : ℕ
  pub asize : ℕ
  pub gang : Bool

-- `Dva::default()`.
abbrev pub no_dva : Dva
no_dva = record { vdev = 0; offset = 0; asize = 0; gang = false }

unfoldable pub is_empty : Dva → Bool
is_empty d = d.vdev == 0 && d.offset == 0 && d.asize == 0 && not d.gang

unfoldable pub from_words : ℕ → ℕ → Dva
from_words w0 w1 = record {
  vdev = bits w0 32 32;
  offset = shl64 (bits w1 0 63) minblockshift;
  asize = shl64 (bits w0 0 24) minblockshift;
  gang = not (bits w1 63 1 == 0);
}

-- Every field of a decoded address fits its width, and offsets and sizes count whole sectors.
pub from_words_bounds :
    (w0 w1 : ℕ)
    → let d = from_words w0 w1 in
      (d.vdev < 2 ^ 32)
      × (d.offset < u64_mod)
      × (d.asize < 2 ^ 33)
      × (d.offset % 512 ≡ 0)
      × (d.asize % 512 ≡ 0)
unfolding from_words
from_words_bounds w0 w1 = omega arith
