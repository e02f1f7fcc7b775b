-- ===== src/Ondisk/Uberblock.antt =====
-- crates/zfs-ondisk/src/uberblock.rs: uberblocks, their ring and the choice among them.
pub mod Parsed
pub mod Best
mod Runs
use zvolrescue.Prelude.{ℕ, zero, suc, ◌+◌, ◌-◌, ◌*◌, ◌/◌, ◌%◌, ◌^◌, ◌≤◌, ◌<◌, min, max}
use zvolrescue.Prelude.{◌≡◌, refl, sym, ap, ◌∙◌, ◌≢◌, ◌↔◌, ◌⊎◌, inl, inr, arith}
use zvolrescue.Prelude.{Bool, true, false, not, ◌&&◌, ◌||◌, Option, none, some}
use zvolrescue.Prelude.{List, [], ◌∷◌, ◌++◌, map, length, get_elem?, take, drop, replicate, All}
use zvolrescue.Prelude.{ltb, leb, ◌==◌, if◌then◌else◌, Bool-cases, Option-cases}
use zvolrescue.Prelude.{
  ltb→lt, lt→ltb, le→ltb, leb→le, ==_iff, length-append, length-take, length-drop,
}
use zvolrescue.Prelude.{
  length-replicate, take-append, drop-append, get_elem?-some, get_elem?_lt, get_elem?-append,
  get_elem?-drop, drop-drop, get_elem?-front, All-append,
}
use zvolrescue.Prelude.{u64_mod, u64_max, saturating_add, checked_add, checked_mul, wrapping_mul}
use zvolrescue.Prelude.{shl64, shr64, low_bits, div_ceil, add64, sub64}
use zvolrescue.Prelude.{Result, ok, err, panic, stuck, ◌>>=◌, ok_or, expect, Returns}
use mathlib.Core.Option
use zvolrescue.Ondisk.Bytes.{
  Endian, little, big, ParseError, truncated, bad_magic, u64_at, swap_bytes,
}
use zvolrescue.Ondisk.BlkPtr.{ptr_size, logical_birth}

-- `MAGIC`, and `PARSED_LEN`: ten words around a block pointer.
abbrev pub magic : ℕ
magic = 12235020

abbrev pub parsed_len : ℕ
parsed_len = 5 * 8 + ptr_size + 5 * 8

pub record Uberblock : Type 0 where
  pub endian : Endian
  pub version : ℕ
  pub txg : ℕ
  pub guid_sum : ℕ
  pub timestamp : ℕ
  pub rootbp : List ℕ
  pub software_version : ℕ
  pub mmp_magic : ℕ
  pub mmp_delay : ℕ
  pub mmp_config : ℕ
  pub checkpoint_txg : ℕ

-- The fields behind the magic, in the byte order found.
unfoldable pub parse_fields : List ℕ → Endian → Result Uberblock ParseError
unfolding u64_at
parse_fields buf e = do
  version ← expect (u64_at e buf 8)
  txg ← expect (u64_at e buf 16)
  guid_sum ← expect (u64_at e buf 24)
  timestamp ← expect (u64_at e buf 32)
  software_version ← expect (u64_at e buf 168)
  mmp_magic ← expect (u64_at e buf 176)
  mmp_delay ← expect (u64_at e buf 184)
  mmp_config ← expect (u64_at e buf 192)
  checkpoint_txg ← expect (u64_at e buf 200)
  ok (record {
    endian = e;
    version = version;
    txg = txg;
    guid_sum = guid_sum;
    timestamp = timestamp;
    rootbp = take ptr_size (drop 40 buf);
    software_version = software_version;
    mmp_magic = mmp_magic;
    mmp_delay = mmp_delay;
    mmp_config = mmp_config;
    checkpoint_txg = checkpoint_txg;
  })

-- The byte order, from the first word as a little-endian host reads it.
unfoldable pub detect : ℕ → Result Endian ParseError
unfolding swap_bytes
detect raw_le =
    if raw_le == magic
    then ok little
    else if swap_bytes raw_le == magic
    then ok big
    else err (bad_magic raw_le)

-- `Uberblock::parse`.
unfoldable pub parse_uberblock : List ℕ → Result Uberblock ParseError
unfolding parse_fields detect u64_at
parse_uberblock buf =
    if ltb (length buf) parsed_len
    then err (truncated parsed_len (length buf))
    else (do raw_le ← expect (u64_at little buf 0); e ← detect raw_le; parse_fields buf e)

-- `Uberblock::rootbp_birth`.
unfoldable pub rootbp_birth : Uberblock → ℕ
unfolding logical_birth
rootbp_birth u = elim (logical_birth u.rootbp u.endian) [ none ↦ 0 | some birth ↦ birth ]

-- The size of a slot: the shift is clamped to 10..13.
abbrev pub slot_size : ℕ → ℕ
slot_size shift = 2 ^ max 10 (min shift 13)

-- The chunks of a ring from the `i`-th on, `n` of them.
unfoldable pub slots_from : ℕ → ℕ → ℕ → List ℕ → List (ℕ × Result Uberblock ParseError)
unfolding parse_uberblock
slots_from zero i slot ring = []
slots_from (suc n) i slot ring =
    (i, parse_uberblock (take slot (drop (i * slot) ring))) ∷ slots_from n (i + 1) slot ring

-- `ring_slots`.
unfoldable pub ring_slots : List ℕ → ℕ → List (ℕ × Result Uberblock ParseError)
unfolding slots_from
ring_slots ring shift = slots_from (length ring / slot_size shift) 0 (slot_size shift) ring

-- `(u.txg, u.timestamp) <= (v.txg, v.timestamp)`.
abbrev pub le_key : Uberblock → Uberblock → Bool
le_key u v = ltb u.txg v.txg || (u.txg == v.txg && leb u.timestamp v.timestamp)

-- `max_by_key`, which keeps the later of two that are equal.
unfoldable pub best_from : Uberblock → List Uberblock → Uberblock
best_from u [] = u
best_from u (v ∷ vs) = best_from (if le_key u v then v else u) vs

-- `best`.
unfoldable pub best : List Uberblock → Option Uberblock
unfolding best_from
best [] = none
best (u ∷ us) = some (best_from u us)
