-- ===== src/Ondisk/Indirect.antt =====
-- crates/zfs-ondisk/src/indirect.rs: the mapping that a removed top-level vdev leaves behind.
pub mod Sorted
pub mod Lookup
pub mod Remap
pub mod Cover
pub mod Parse
mod Runs
use zvolrescue.Prelude.{ℕ, zero, suc, ◌+◌, ◌-◌, ◌*◌, ◌/◌, ◌%◌, ◌^◌, ◌≤◌, ◌<◌, min, max}
use zvolrescue.Prelude.{◌≡◌, refl, sym, ap, ◌∙◌, ◌≢◌, ◌↔◌, ◌⊎◌, inl, inr, arith}
use zvolrescue.Prelude.{Bool, true, false, not, ◌&&◌, ◌||◌, Option, none, some}
use zvolrescue.Prelude.{List, [], ◌∷◌, ◌++◌, map, length, get_elem?, take, drop, replicate, All}
use zvolrescue.Prelude.{ltb, leb, ◌==◌, if◌then◌else◌, Bool-cases, Option-cases}
use zvolrescue.Prelude.{ltb→lt, lt→ltb, leb→le, ==_iff, length-append, length-take, length-drop}
use zvolrescue.Prelude.{length-replicate, take-append, drop-append}
use zvolrescue.Prelude.{u64_mod, u64_max, saturating_add, checked_add, checked_mul, wrapping_mul}
use zvolrescue.Prelude.{shl64, shr64, low_bits, div_ceil}
use zvolrescue.Prelude.{Result, ok, err, panic, stuck, ◌>>=◌, ok_or, expect, Returns}
use zvolrescue.Ondisk.Bytes.{Endian, ParseError, truncated, u64_at}
use zvolrescue.Ondisk.Dva.{Dva, from_words, minblockshift}

-- `ENTRY_SIZE` and `PHYS_LEN`.
abbrev pub entry_size : ℕ
entry_size = 24

abbrev pub phys_len : ℕ
phys_len = 32

pub record MappingPhys : Type 0 where
  pub max_offset : ℕ
  pub bytes_mapped : ℕ
  pub num_entries : ℕ
  pub counts_object : ℕ

-- `MappingPhys::parse`.
unfoldable pub parse_phys : List ℕ → Endian → Result MappingPhys ParseError
parse_phys bonus e =
    if ltb (length bonus) phys_len then err (truncated phys_len (length bonus)) else (do
      max_offset ← expect (u64_at e bonus 0)
      bytes_mapped ← expect (u64_at e bonus 8)
      num_entries ← expect (u64_at e bonus 16)
      counts_object ← expect (u64_at e bonus 24)
      ok (record {
        max_offset = max_offset;
        bytes_mapped = bytes_mapped;
        num_entries = num_entries;
        counts_object = counts_object;
      }))

pub record Entry : Type 0 where
  pub src : ℕ
  pub size : ℕ
  pub dst_vdev : ℕ
  pub dst_offset : ℕ

-- `Entry::end`.
abbrev pub end_of : Entry → ℕ
end_of e = saturating_add e.src e.size

-- The entry of the three words of its record.
unfoldable pub entry_of : ℕ → ℕ → ℕ → Entry
unfolding from_words
entry_of w0 w1 w2 =
    let dst = from_words w1 w2 in
    record {
      src = shl64 (low_bits w0 63) minblockshift;
      size = dst.asize;
      dst_vdev = dst.vdev;
      dst_offset = dst.offset;
    }

-- `Entry::parse`.
unfoldable pub parse_entry : List ℕ → Endian → Result Entry ParseError
parse_entry buf e =
    if ltb (length buf) entry_size then err (truncated entry_size (length buf)) else (do
      w0 ← expect (u64_at e buf 0)
      w1 ← expect (u64_at e buf 8)
      w2 ← expect (u64_at e buf 16)
      ok (entry_of w0 w1 w2))

pub record Segment : Type 0 where
  pub vdev : ℕ
  pub offset : ℕ
  pub size : ℕ

pub record Unmapped : Type 0 where
  pub offset : ℕ
  pub size : ℕ

-- `entries.sort_by_key(|e| e.src)`, which is stable.
unfoldable pub insert_entry : Entry → List Entry → List Entry
insert_entry e [] = e ∷ []
insert_entry e (f ∷ es) = if leb e.src f.src then e ∷ f ∷ es else f ∷ insert_entry e es

unfoldable pub sort_by_src : List Entry → List Entry
unfolding insert_entry
sort_by_src [] = []
sort_by_src (e ∷ es) = insert_entry e (sort_by_src es)

-- A `Mapping` is its list of entries.
abbrev pub Mapping : Type 0
Mapping = List Entry

-- The loop of `Mapping::parse`: entry `i` and the `n` behind it.
unfoldable pub parse_entries : ℕ → ℕ → List ℕ → Endian → Result (List Entry) ParseError
parse_entries zero i buf e = ok []
parse_entries (suc n) i buf e = do
  first ← parse_entry (drop (i * entry_size) buf) e
  rest ← parse_entries n (i + 1) buf e
  ok (first ∷ rest)

-- `Mapping::parse`.
unfoldable pub parse_mapping : List ℕ → ℕ → Endian → Result Mapping ParseError
parse_mapping buf count e = do
  entries ← parse_entries (min count (length buf / entry_size)) 0 buf e
  ok (sort_by_src entries)

-- `Mapping::from_entries`.
unfoldable pub from_entries : List Entry → Mapping
from_entries es = sort_by_src es

-- `Mapping::mapped_bytes`: the fold from the left.
unfoldable pub mapped_bytes_from : ℕ → Mapping → ℕ
mapped_bytes_from sum [] = sum
mapped_bytes_from sum (e ∷ es) = mapped_bytes_from (saturating_add sum e.size) es

unfoldable pub mapped_bytes : Mapping → ℕ
unfolding mapped_bytes_from
mapped_bytes m = mapped_bytes_from 0 m

-- `entries.partition_point(|e| e.src <= offset)`: how many entries from the front pass.
unfoldable pub partition_point : Mapping → ℕ → ℕ
partition_point [] offset = 0
partition_point (e ∷ es) offset = if leb e.src offset then suc (partition_point es offset) else 0

-- The entry that the binary search settles on, `entries.get(i.checked_sub(1)?)`.
unfoldable pub entry_before : Mapping → ℕ → Option Entry
entry_before m zero = none
entry_before m (suc i) = get_elem? m i

abbrev contains : ℕ → Option Entry → Option Entry
contains offset none = none
contains offset (some e) = if ltb offset (end_of e) then some e else none

-- `Mapping::entry_for`.
unfoldable pub entry_for : Mapping → ℕ → Option Entry
unfolding partition_point entry_before
entry_for m offset = contains offset (entry_before m (partition_point m offset))

-- The segments of the rest of the read follow that of the entry found.
abbrev pub cons_segment : Segment → Result (List Segment) Unmapped → Result (List Segment) Unmapped
cons_segment s rest = do segments ← rest; ok (s ∷ segments)

-- The end of a round of `Mapping::remap`: `at.checked_add(take)` and its three arms.
abbrev pub advance :
    (ℕ → ℕ → Result (List Segment) Unmapped) → Segment → ℕ → ℕ → Result (List Segment) Unmapped
advance next piece at left =
    if ltb (at + piece.size) u64_mod
    then cons_segment piece (next (at + piece.size) (left - piece.size))
    else if left - piece.size == 0
    then ok (piece ∷ [])
    else err (record { offset = at; size = left - piece.size })

-- A round, at the entry found for `at`, with `left` bytes to place.
abbrev pub remap_round :
    (ℕ → ℕ → Result (List Segment) Unmapped) → Option Entry → ℕ → ℕ → Result (List Segment) Unmapped
remap_round next none at left = err (record { offset = at; size = left })
remap_round next (some e) at left =
    if ltb (e.dst_offset + (at - e.src)) u64_mod
    then advance next
        (record {
          vdev = e.dst_vdev;
          offset = e.dst_offset + (at - e.src);
          size = min (e.size - (at - e.src)) left;
        })
        at left
    else err (record { offset = at; size = left })

-- The loop of `Mapping::remap` with `rounds` left to it.
unfoldable pub remap_loop : ℕ → Mapping → ℕ → ℕ → Result (List Segment) Unmapped
remap_loop zero m at left = if left == 0 then ok [] else stuck
remap_loop (suc rounds) m at left =
    if left == 0 then ok [] else remap_round (remap_loop rounds m) (entry_for m at) at left

-- `Mapping::remap`. Every round places a byte at least, so `size` rounds are enough.
unfoldable pub remap : Mapping → ℕ → ℕ → Result (List Segment) Unmapped
unfolding remap_loop
remap m offset size = remap_loop size m offset size
