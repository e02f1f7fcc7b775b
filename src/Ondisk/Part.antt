-- ===== src/Ondisk/Part.antt =====
-- crates/zfs-ondisk/src/part.rs: GPT and MBR partition tables. A GUID is its 16 bytes, which its text
-- is a function of and is compared by; a partition's name is what `String::from_utf16` gives, a
-- parameter. Sizes do not overflow a usize where the source does not check.
pub mod Gpt
mod Runs
use zvolrescue.Prelude.{ℕ, zero, suc, ◌+◌, ◌-◌, ◌*◌, ◌/◌, ◌%◌, ◌^◌, ◌≤◌, ◌<◌, min, max}
use zvolrescue.Prelude.{◌≡◌, refl, sym, ap, ◌∙◌, ◌≢◌, ◌↔◌, ◌⊎◌, inl, inr, arith}
use zvolrescue.Prelude.{Bool, true, false, not, ◌&&◌, ◌||◌, Option, none, some}
use zvolrescue.Prelude.{
  List, [], ◌∷◌, ◌++◌, map, length, get_elem?, take, drop, replicate, set, All,
}
use zvolrescue.Prelude.{ltb, leb, ◌==◌, if◌then◌else◌, Bool-cases, Option-cases}
use zvolrescue.Prelude.{
  ltb→lt, lt→ltb, le→ltb, leb→le, ==_iff, length-append, length-take, length-drop,
}
use zvolrescue.Prelude.{
  length-replicate, length-set, get_elem?-take, get_elem?-set_self, get_elem?-set_ne, take-append,
  drop-append, get_elem?-some, get_elem?_lt, get_elem?-append, get_elem?-drop, drop-drop,
  get_elem?-front, All-append,
}
use zvolrescue.Prelude.{u64_mod, u64_max, saturating_add, checked_add, checked_mul, wrapping_mul}
use zvolrescue.Prelude.{shl64, shr64, low_bits, div_ceil, add64, sub64}
use zvolrescue.Prelude.{Result, ok, err, panic, stuck, ◌>>=◌, ok_or, expect, Returns}
use mathlib.Core.Option
use zvolrescue.Prelude.Chain
use zvolrescue.Ondisk.Bytes.{Endian, little, slice, from_bytes, u64_at}

pub data PartKind : Type 0 where
  gpt_type : List ℕ → PartKind
  mbr_type : ℕ → PartKind

pub record Partition : Type 0 where
  pub index : ℕ
  pub start : ℕ
  pub len : ℕ
  pub kind : PartKind
  pub name : Option (List ℕ)
  pub guid : Option (List ℕ)
  pub zfs : Bool

pub data Scheme : Type 0 where
  gpt gpt_backup mbr : Scheme

pub record PartitionTable : Type 0 where
  pub scheme : Scheme
  pub sector : ℕ
  pub partitions : List Partition

-- `candidate_bases`.
unfoldable pub starts_if : Bool → List Partition → List ℕ
starts_if z [] = []
starts_if true (p ∷ ps) = if p.zfs then p.start ∷ starts_if true ps else starts_if true ps
starts_if false (p ∷ ps) = if p.zfs then starts_if false ps else p.start ∷ starts_if false ps

unfoldable pub candidate_bases : PartitionTable → List ℕ
unfolding starts_if
candidate_bases t = starts_if true t.partitions ++ starts_if false t.partitions

abbrev pub Parsed : Type 0 → Type 0
Parsed A = Result A (Unit {0})

-- `u32le`.
unfoldable pub u32le : List ℕ → ℕ → Parsed ℕ
unfolding slice from_bytes
u32le b at = expect (slice b at 4) >>= (λ s. ok (from_bytes little s))

unfoldable pub same_bytes : List ℕ → List ℕ → Bool
same_bytes [] [] = true
same_bytes (a ∷ as') (b ∷ bs) = a == b && same_bytes as' bs
same_bytes _ _ = false

unfoldable pub all_zero : List ℕ → Bool
all_zero [] = true
all_zero (b ∷ bs) = b == 0 && all_zero bs

-- `GPT_ZFS`, `GPT_FREEBSD_ZFS`, `GPT_SIGNATURE`, the GUIDs as they lie on the disk.
abbrev pub gpt_zfs : List ℕ
gpt_zfs =
    0xc3 ∷ 0x8c ∷ 0x89 ∷ 0x6a ∷ 0xd2 ∷ 0x1d ∷ 0xb2 ∷ 0x11 ∷ 0x99 ∷ 0xa6 ∷ 0x08 ∷ 0x00 ∷ 0x20 ∷ 0x73
    ∷ 0x66 ∷ 0x31 ∷ []

abbrev pub gpt_freebsd_zfs : List ℕ
gpt_freebsd_zfs =
    0xba ∷ 0x7c ∷ 0x6e ∷ 0x51 ∷ 0xcf ∷ 0x6e ∷ 0xd6 ∷ 0x11 ∷ 0x8f ∷ 0xf8 ∷ 0x00 ∷ 0x02 ∷ 0x2d ∷ 0x09
    ∷ 0x71 ∷ 0x2b ∷ []

abbrev pub gpt_signature : List ℕ
gpt_signature = 69 ∷ 70 ∷ 73 ∷ 32 ∷ 80 ∷ 65 ∷ 82 ∷ 84 ∷ []

-- The units of `utf16_name`, up to the first that is zero.
unfoldable pub units : List ℕ → List ℕ
unfolding from_bytes
units (a ∷ b ∷ rest) =
    let unit = from_bytes little (a ∷ b ∷ []) in if unit == 0 then [] else unit ∷ units rest
units _ = []

-- `String::from_utf16`.
abbrev pub Utf16 : Type 0
Utf16 = List ℕ → Option (List ℕ)

abbrev pub name_of_units : Utf16 → List ℕ → Option (List ℕ)
name_of_units from_utf16 [] = none
name_of_units from_utf16 us = from_utf16 us

-- `e.get(56..128).and_then(utf16_name)`.
unfoldable pub name_of : Utf16 → Option (List ℕ) → Option (List ℕ)
unfolding units
name_of from_utf16 none = none
name_of from_utf16 (some b) = name_of_units from_utf16 (units b)

-- The partition of a used slot whose bounds fit the byte address space.
unfoldable pub placed :
    Utf16 → List ℕ → ℕ → List ℕ → List ℕ → Option ℕ → Option ℕ → Parsed (Option Partition)
unfolding slice same_bytes all_zero name_of
placed from_utf16 e i type_guid guid (some start) (some size) = ok (
    some (record {
      index = i + 1;
      start = start;
      len = size;
      kind = gpt_type type_guid;
      name = name_of from_utf16 (slice e 56 72);
      guid = if not (all_zero guid) then some guid else none;
      zfs = same_bytes type_guid gpt_zfs || same_bytes type_guid gpt_freebsd_zfs;
    }))
placed from_utf16 e i type_guid guid _ _ = ok none

-- `(last - first).checked_add(1).and_then(…)`.
unfoldable pub byte_length : ℕ → ℕ → ℕ → Option ℕ
byte_length first last sector =
    Chain.◌>>=◌ (checked_add (last - first) 1) (λ n. checked_mul n sector)

-- The body of the loop of `parse_gpt`, for the slot `e`.
unfoldable pub gpt_entry : Utf16 → ℕ → List ℕ → ℕ → Parsed (Option Partition)
unfolding slice u64_at all_zero placed byte_length
gpt_entry from_utf16 sector e i = do
  type_guid ← expect (slice e 0 16)
  (if all_zero type_guid then ok none else (do
    first ← expect (u64_at little e 32)
    last ← expect (u64_at little e 40)
    (if ltb last first then ok none else (do
      guid ← expect (slice e 16 16)
      placed from_utf16 e i type_guid guid (checked_mul first sector)
          (byte_length first last sector)))))

abbrev pub cons_if : Option Partition → List Partition → List Partition
cons_if none ps = ps
cons_if (some p) ps = p ∷ ps

-- `at.checked_add(128).is_none_or(|end| end > entries.len())`.
unfoldable pub past_end : List ℕ → ℕ → Bool
past_end entries at = not (ltb (at + 128) u64_mod) || ltb (length entries) (at + 128)

-- The loop of `parse_gpt` from the `i`-th slot on, `n` of them.
unfoldable pub gpt_loop : ℕ → Utf16 → List ℕ → ℕ → ℕ → ℕ → Parsed (List Partition)
unfolding gpt_entry slice past_end
gpt_loop zero from_utf16 entries size sector i = ok []
gpt_loop (suc n) from_utf16 entries size sector i =
    if not (ltb (i * size) u64_mod) || past_end entries (i * size) then ok [] else (do
      e ← expect (slice entries (i * size) (min size (length entries - i * size)))
      p ← gpt_entry from_utf16 sector e i
      rest ← gpt_loop n from_utf16 entries size sector (i + 1)
      ok (cons_if p rest))

-- `parse_gpt`.
unfoldable pub parse_gpt : Utf16 → List ℕ → List ℕ → ℕ → Bool → Parsed (Option PartitionTable)
unfolding same_bytes u32le gpt_loop
parse_gpt from_utf16 header entries sector backup =
    if ltb (length header) 92 || not (same_bytes (take 8 header) gpt_signature)
    then ok none
    else (do
      count ← u32le header 80
      size ← u32le header 84
      (if ltb size 128 || (count == 0 || ltb 4096 count) then ok none else (do
        partitions ← gpt_loop count from_utf16 entries size sector 0
        ok (
            some (record {
              scheme = if backup then gpt_backup else gpt;
              sector = sector;
              partitions = partitions;
            })))))

-- What the loop of `parse_mbr` does on a slot: `return None` is `none`.
unfoldable pub mbr_loop : ℕ → List ℕ → ℕ → ℕ → Parsed (Option (List Partition))
unfolding slice u32le
mbr_loop zero sector0 sector i = ok (some [])
mbr_loop (suc n) sector0 sector i = do
  e ← expect (slice sector0 (446 + i * 16) 16)
  kind ← expect (get_elem? e 4)
  first ← u32le e 8
  sectors ← u32le e 12
  let p : Partition = record {
    index = i + 1;
    start = wrapping_mul first sector;
    len = wrapping_mul sectors sector;
    kind = mbr_type kind;
    name = none;
    guid = none;
    zfs = kind == 0xbf;
  }
  (if kind == 0 || sectors == 0
      then mbr_loop n sector0 sector (i + 1)
      else if kind == 0xee
      then ok none
      else mbr_loop n sector0 sector (i + 1) >>= (λ rest. ok (Option.map (λ ps. p ∷ ps) rest)))

abbrev pub mbr_table : ℕ → Option (List Partition) → Option PartitionTable
mbr_table sector none = none
mbr_table sector (some []) = none
mbr_table sector (some ps) = some (record { scheme = mbr; sector = sector; partitions = ps })

-- `parse_mbr`.
unfoldable pub parse_mbr : List ℕ → ℕ → Parsed (Option PartitionTable)
unfolding mbr_loop
parse_mbr sector0 sector = if ltb (length sector0) 512 then ok none else (do
  b510 ← expect (get_elem? sector0 510)
  b511 ← expect (get_elem? sector0 511)
  (if not (b510 == 0x55) || not (b511 == 0xaa)
      then ok none
      else (do found ← mbr_loop 4 sector0 sector 0; ok (mbr_table sector found))))
