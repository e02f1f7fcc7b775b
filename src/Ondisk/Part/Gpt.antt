-- ===== src/Ondisk/Part/Gpt.antt =====
-- What `parse_gpt` makes of a header and its entries.
use zvolrescue.Prelude.{ℕ, zero, suc, ◌+◌, ◌-◌, ◌*◌, ◌≤◌, ◌<◌, min}
use zvolrescue.Prelude.{◌≡◌, refl, ◌⊎◌, inl, inr, arith}
use zvolrescue.Prelude.{Bool, false, not, ◌||◌, Option, none, some}
use zvolrescue.Prelude.{List, [], length, take, drop, All}
use zvolrescue.Prelude.{ltb, ◌==◌, if◌then◌else◌, Bool-cases}
use zvolrescue.Prelude.{ltb→lt}
use zvolrescue.Prelude.{u64_mod, checked_mul}
use zvolrescue.Prelude.{ok}
use zvolrescue.Ondisk.Bytes.{little, word}
use zvolrescue.Ondisk.Bytes.Laws.{slice-some, length-slice, u64_at-some}
use zvolrescue.Ondisk.Part.{
  Partition, PartitionTable, gpt, gpt_backup, Parsed, Utf16, same_bytes, all_zero, gpt_signature,
  u32le, placed, byte_length, gpt_entry, cons_if, past_end, gpt_loop, parse_gpt,
}

-- A partition of the slot `e`: its bounds are those of the slot in bytes, and did not overflow.
pub record IsOf (sector i : ℕ) (e : List ℕ) (p : Partition) : Type 0 where
  pub index : p.index ≡ i + 1
  pub order : word little e 32 ≤ word little e 40
  pub start : p.start ≡ word little e 32 * sector
  pub size : p.len ≡ (word little e 40 - word little e 32 + 1) * sector
  pub start_fits : p.start < u64_mod
  pub size_fits : p.len < u64_mod

checked_mul-cases :
    (a b : ℕ) → (checked_mul a b ≡ none) ⊎ ((checked_mul a b ≡ some (a * b)) × (a * b < u64_mod))
checked_mul-cases a b = elim (Bool-cases (ltb (a * b) u64_mod)) [
  | inl fits ↦ inr (rw fits refl, ltb→lt _ _ fits)
  | inr over ↦ inl (rw over refl)
]

byte_length-cases :
    (first last sector : ℕ)
    → (byte_length first last sector ≡ none)
      ⊎ ((byte_length first last sector ≡ some ((last - first + 1) * sector))
          × ((last - first + 1) * sector < u64_mod))
unfolding byte_length
byte_length-cases first last sector = elim (Bool-cases (ltb (last - first + 1) u64_mod)) [
  | inr over ↦ inl (rw over refl)
  | inl fits ↦ rw fits (checked_mul-cases (last - first + 1) sector)
]

abbrev pub EntryOutcome : ℕ → ℕ → List ℕ → Parsed (Option Partition) → Type 0
EntryOutcome sector i e r =
    (r ≡ ok none) ⊎ ((p : Partition) × (r ≡ ok (some p)) × IsOf sector i e p)

placed-Outcome :
    (from_utf16 : Utf16) (sector i : ℕ) (e type_guid guid : List ℕ)
    → word little e 32 ≤ word little e 40
    → EntryOutcome sector i e (
        placed from_utf16 e i type_guid guid
          (checked_mul (word little e 32) sector)
          (byte_length (word little e 32) (word little e 40) sector))
unfolding placed
placed-Outcome from_utf16 sector i e type_guid guid order =
    elim (checked_mul-cases (word little e 32) sector) [
      | inl over ↦ rw over (inl refl)
      | inr (start, start_fits) ↦
          elim (byte_length-cases (word little e 32) (word little e 40) sector) [
            | inl over ↦ rw (start, over) (inl refl)
            | inr (size, size_fits) ↦
                rw (start, size)
                  (inr (
                    _,
                    refl,
                    record {
                      index = refl;
                      order = order;
                      start = refl;
                      size = refl;
                      start_fits = start_fits;
                      size_fits = size_fits;
                    },
                  ))
          ]
    ]

gpt_entry-Outcome :
    (from_utf16 : Utf16) (sector i : ℕ) (e : List ℕ)
    → 128 ≤ length e
    → EntryOutcome sector i e (gpt_entry from_utf16 sector e i)
unfolding gpt_entry
gpt_entry-Outcome from_utf16 sector i e long =
    let kind = slice-some e 0 16 (omega (arith, long)) in
    let guid = slice-some e 16 16 (omega (arith, long)) in
    let first = u64_at-some little e 32 (omega (arith, long)) in
    let last = u64_at-some little e 40 (omega (arith, long)) in
    elim (Bool-cases (all_zero (take 16 e))) [
      | inl unused ↦ rw (kind, unused) (inl refl)
      | inr used ↦ elim (Bool-cases (ltb (word little e 40) (word little e 32))) [
        | inl backwards ↦ rw (kind, used, first, last, backwards) (inl refl)
        | inr forwards ↦
            rw (kind, used, first, last, forwards, guid)
              (placed-Outcome from_utf16 sector i e (take 16 e) (take 16 (drop 16 e))
                (ground (arith, forwards)))
      ]
    ]

-- The bytes of the `i`-th slot.
abbrev pub slot : List ℕ → ℕ → ℕ → List ℕ
slot entries size i = take (min size (length entries - i * size)) (drop (i * size) entries)

-- The partition stands in a slot of the table that the entries hold.
abbrev pub IsIn : List ℕ → ℕ → ℕ → ℕ → Partition → Type 0
IsIn entries count size sector p =
    (i : ℕ) × (i < count)
    × (i * size + 128 ≤ length entries)
    × IsOf sector i (slot entries size i) p

AreIn-cons_if :
    (entries : List ℕ) (count size sector i : ℕ) (r : Parsed (Option Partition))
    (ps : List Partition)
    → 128 ≤ size
    → i < count
    → i * size + 128 ≤ length entries
    → EntryOutcome sector i (slot entries size i) r
    → All (IsIn entries count size sector) ps
    → (o : Option Partition) × (r ≡ ok o) × All (IsIn entries count size sector) (cons_if o ps)
AreIn-cons_if entries count size sector i r ps big low inside (inl unused) all = (none, unused, all)
AreIn-cons_if entries count size sector i r ps big low inside (inr (p, used, is)) all =
    (some p, used, ((i, low, inside, is), all))

gpt_loop-AreIn :
    (n : ℕ) (from_utf16 : Utf16) (entries : List ℕ) (count size sector i : ℕ)
    → 128 ≤ size
    → i + n ≤ count
    → (ps : List Partition) × (gpt_loop n from_utf16 entries size sector i ≡ ok ps)
      × All (IsIn entries count size sector) ps
unfolding gpt_loop past_end
gpt_loop-AreIn zero from_utf16 entries count size sector i big low = ([], refl, tt)
gpt_loop-AreIn (suc n) from_utf16 entries count size sector i big low =
    elim (Bool-cases (not (ltb (i * size) u64_mod) || past_end entries (i * size))) [
      | inl stop ↦ ([], rw stop refl, tt)
      | inr goes ↦
          let inside : i * size + 128 ≤ length entries = ground (arith, goes) in
          let fits : i * size + min size (length entries - i * size) ≤ length entries =
            omega (arith, inside) in
          let found = slice-some entries (i * size) (min size (length entries - i * size)) fits in
          let long = length-slice entries (i * size) (min size (length entries - i * size)) found in
          let (rest, done, all) =
            gpt_loop-AreIn n from_utf16 entries count size sector (i + 1) big
              (omega (arith, low)) in
          let (o, entry, all') =
            AreIn-cons_if entries count size sector i
              (gpt_entry from_utf16 sector (slot entries size i) i) rest big (omega (arith, low))
              inside
              (gpt_entry-Outcome from_utf16 sector i (slot entries size i)
                (omega (arith, long, inside, big)))
              all in
          (cons_if o rest, rw (goes, found, entry, done) refl, all')
    ]

u32le-ok : (b : List ℕ) (at : ℕ) → at + 4 ≤ length b → (x : ℕ) × (u32le b at ≡ ok x)
unfolding u32le
u32le-ok b at h = rw (slice-some b at 4 h) (_, refl)

header_long : (n : ℕ) (other : Bool) → (ltb n 92 || other) ≡ false → 92 ≤ n
header_long n other h = ground arith

sizes_right :
    (count size : ℕ)
    → (ltb size 128 || (count == 0 || ltb 4096 count)) ≡ false
    → (128 ≤ size) × (1 ≤ count) × (count ≤ 4096)
sizes_right count size h = ground arith

-- Whatever the header and the entries are, reading a GPT does not panic. There is no table; or it is
-- one of at most 4096 slots of 128 bytes at least, as the header says, each partition of which stands
-- in a slot that the entries hold, at the bytes that its sector numbers come to, which fit a u64.
pub parse_gpt_total :
    (from_utf16 : Utf16) (header entries : List ℕ) (sector : ℕ) (backup : Bool)
    → (parse_gpt from_utf16 header entries sector backup ≡ ok none)
      ⊎ ((t : PartitionTable) × (count : ℕ) × (size : ℕ) × (parse_gpt from_utf16 header entries
              sector backup
            ≡ ok (some t))
          × (u32le header 80 ≡ ok count)
          × (u32le header 84 ≡ ok size)
          × (128 ≤ size)
          × (1 ≤ count)
          × (count ≤ 4096)
          × All (IsIn entries count size sector) t.partitions)
unfolding parse_gpt
parse_gpt_total from_utf16 header entries sector backup =
    elim (Bool-cases (ltb (length header) 92 || not (same_bytes (take 8 header) gpt_signature))) [
      | inl other ↦ inl (rw other refl)
      | inr signed ↦
          let long : 92 ≤ length header = header_long (length header) _ signed in
          let (count, counted) = u32le-ok header 80 (omega (arith, long)) in
          let (size, sized) = u32le-ok header 84 (omega (arith, long)) in
          elim (Bool-cases (ltb size 128 || (count == 0 || ltb 4096 count))) [
            | inl wrong ↦ inl (rw (signed, counted, sized, wrong) refl)
            | inr right ↦
                let (big, some_slots, few) = sizes_right count size right in
                let (ps, done, all) =
                  gpt_loop-AreIn count from_utf16 entries count size sector 0 big (omega arith) in
                inr (
                  record {
                    scheme = if backup then gpt_backup else gpt;
                    sector = sector;
                    partitions = ps;
                  },
                  count,
                  size,
                  rw (signed, counted, sized, right, done) refl,
                  counted,
                  sized,
                  big,
                  some_slots,
                  few,
                  all,
                )
          ]
    ]
