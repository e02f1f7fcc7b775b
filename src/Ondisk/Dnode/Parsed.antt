-- ===== src/Ondisk/Dnode/Parsed.antt =====
-- What `DnodePhys::parse` accepts, and why it refuses.
use zvolrescue.Prelude.{ℕ, zero, suc, ◌+◌, ◌-◌, ◌*◌, ◌≤◌, ◌<◌, min}
use zvolrescue.Prelude.{◌≡◌, refl, sym, ap, ◌∙◌, ◌≢◌, ◌⊎◌, inl, inr, arith}
use zvolrescue.Prelude.{Bool, true, false, not, ◌&&◌, Option, none, some}
use zvolrescue.Prelude.{List, [], ◌∷◌, length, get_elem?, take, drop}
use zvolrescue.Prelude.{ltb, leb, ◌==◌, Bool-cases}
use zvolrescue.Prelude.{ltb→lt}
use zvolrescue.Prelude.{get_elem?-some}
use zvolrescue.Prelude.{Result, ok, err}
use mathlib.Core.Path.{subst}
use zvolrescue.Ondisk.Bytes.{Endian, ParseError, truncated, malformed, from_bytes, word}
use zvolrescue.Ondisk.Bytes.Laws.{slice-some, length-slice, u64_at-some}
use zvolrescue.Ondisk.BlkPtr.{BlkPtr, ptr_size}
use zvolrescue.Ondisk.BlkPtr.Parsed.{pointer_in, parse_total}
use zvolrescue.Ondisk.Dnode.{
  dnode_size, dnode_core_size, DnodePhys, u8_at, u16_at, has_spill, pointer_at, pointers_at,
  spill_of, spill_start, fields_of, parts_of, slots_of, parse_dnode, slot_bytes,
}

u8_at-ok :
    (buf : List ℕ) (o : ℕ)
    → o < length buf
    → (b : ℕ) × (u8_at buf o ≡ ok b) × (get_elem? buf o ≡ some b)
u8_at-ok buf o h = let (b, found) = get_elem?-some buf o h in (b, rw found refl, found)

u16_at-ok :
    (e : Endian) (buf : List ℕ) (o : ℕ) → o + 1 < length buf → (x : ℕ) × (u16_at e buf o ≡ ok x)
unfolding u16_at
u16_at-ok e buf o h =
    let (b0, at0, _) = u8_at-ok buf o (omega arith) in
    let (b1, at1, _) = u8_at-ok buf (o + 1) h in (from_bytes e (b0 ∷ b1 ∷ []), rw (at0, at1) refl)

pub pointer_at-ok :
    (buf : List ℕ) (e : Endian) (at : ℕ)
    → at + ptr_size ≤ length buf
    → pointer_at buf e at ≡ ok (pointer_in e (take ptr_size (drop at buf)))
unfolding pointer_at
pointer_at-ok buf e at h =
    let found = slice-some buf at ptr_size h in
    let size = length-slice buf at ptr_size found in
    elim (parse_total (take ptr_size (drop at buf)) e) [
      | inl (short, _) ↦ absurd (omega (arith, size))
      | inr (_, good) ↦ rw found good
    ]

pointers_at-ok :
    (n : ℕ) (buf : List ℕ) (e : Endian) (at : ℕ)
    → at + n * ptr_size ≤ length buf
    → (ps : List BlkPtr) × (pointers_at n buf e at ≡ ok ps) × (length ps ≡ n)
unfolding pointers_at
pointers_at-ok zero buf e at h = ([], refl, refl)
pointers_at-ok (suc n) buf e at h =
    let first = pointer_at-ok buf e at (omega arith) in
    let (ps, rest, size) = pointers_at-ok n buf e (at + ptr_size) (omega arith) in
    (pointer_in e (take ptr_size (drop at buf)) ∷ ps, rw (first, rest) refl, ap suc size)

-- Whether there is a value.
abbrev pub is_there {ℓ} : {A : Type ℓ} → Option A → Bool
is_there none = false
is_there (some a) = true

spill_of-ok :
    (buf : List ℕ) (e : Endian) (flags at : ℕ)
    → at + ptr_size ≤ length buf
    → (s : Option BlkPtr) × (spill_of buf e flags at ≡ ok s) × (is_there s ≡ has_spill flags)
unfolding spill_of
spill_of-ok buf e flags at h = elim (Bool-cases (has_spill flags)) [
  | inl there ↦ (
    some (pointer_in e (take ptr_size (drop at buf))),
    rw (there, pointer_at-ok buf e at h) refl,
    sym there,
  )
  | inr missing ↦ (none, rw missing refl, sym missing)
]

fields_of-ok :
    (buf : List ℕ) (e : Endian) (extra nblkptr flags bonuslen : ℕ) (ps : List BlkPtr)
    (bonus : List ℕ) (s : Option BlkPtr)
    → dnode_size ≤ length buf
    → (d : DnodePhys) × (fields_of buf e extra nblkptr flags bonuslen ps bonus s ≡ ok d)
      × (get_elem? buf 0 ≡ some d.object_type)
      × (d.extra_slots ≡ extra)
      × (d.nblkptr ≡ nblkptr)
      × (d.flags ≡ flags)
      × (d.bonuslen ≡ bonuslen)
      × (d.blkptr ≡ ps)
      × (d.bonus ≡ bonus)
      × (d.spill ≡ s)
unfolding fields_of
fields_of-ok buf e extra nblkptr flags bonuslen ps bonus s h =
    let (b0, at0, found) = u8_at-ok buf 0 (omega arith) in
    let (b1, at1, _) = u8_at-ok buf 1 (omega arith) in
    let (b2, at2, _) = u8_at-ok buf 2 (omega arith) in
    let (b4, at4, _) = u8_at-ok buf 4 (omega arith) in
    let (b5, at5, _) = u8_at-ok buf 5 (omega arith) in
    let (b6, at6, _) = u8_at-ok buf 6 (omega arith) in
    let (sectors, at8) = u16_at-ok e buf 8 (omega arith) in
    (
      record {
        object_type = b0;
        indblkshift = b1;
        nlevels = b2;
        nblkptr = nblkptr;
        bonus_type = b4;
        checksum = b5;
        compress = b6;
        flags = flags;
        datablkszsec = sectors;
        bonuslen = bonuslen;
        extra_slots = extra;
        maxblkid = word e buf 16;
        used = word e buf 24;
        blkptr = ps;
        bonus = bonus;
        spill = s;
      },
      rw (at0, at1, at2, at4, at5, at6, at8)
          (rw (u64_at-some e buf 16 (omega arith), u64_at-some e buf 24 (omega arith)) refl),
      found,
      refl,
      refl,
      refl,
      refl,
      refl,
      refl,
      refl,
    )

-- A dnode of a buffer of `size` bytes: it has the pointers, the bonus and the spill pointer that its
-- header announces, one behind the other, inside its slots, which lie in the buffer.
pub record IsDnode (size : ℕ) (d : DnodePhys) : Type 0 where
  pub pointers : length d.blkptr ≡ min d.nblkptr 3
  pub in_use : d.object_type ≢ 0 → (1 ≤ d.nblkptr) × (d.nblkptr ≤ 3)
  pub bonus : length d.bonus ≡ d.bonuslen
  pub spill : is_there d.spill ≡ has_spill d.flags
  pub apart :
      dnode_core_size + length d.blkptr * ptr_size + d.bonuslen ≤ spill_start d.flags (slot_bytes d)
  pub inside : slot_bytes d ≤ size

-- Why a buffer is refused.
pub data Refused (buf : List ℕ) (e : Endian) : ParseError → Type 0 where
  short : length buf < dnode_size → Refused buf e (truncated dnode_size (length buf))
  slots_cut :
      (extra : ℕ)
      → get_elem? buf 12 ≡ some extra
      → length buf < dnode_size * (1 + extra)
      → Refused buf e (truncated (dnode_size * (1 + extra)) (length buf))
  pointer_count :
      (n t : ℕ)
      → get_elem? buf 3 ≡ some n
      → get_elem? buf 0 ≡ some t
      → t ≢ 0
      → (n ≡ 0) ⊎ (3 < n)
      → Refused buf e (malformed 3)
  bonus_overlaps :
      (extra n flags bonuslen : ℕ)
      → get_elem? buf 12 ≡ some extra
      → get_elem? buf 3 ≡ some n
      → get_elem? buf 7 ≡ some flags
      → u16_at e buf 10 ≡ ok bonuslen
      → spill_start flags (dnode_size * (1 + extra))
        < dnode_core_size + min n 3 * ptr_size + bonuslen
      → Refused buf e (malformed 10)

abbrev pub Outcome : List ℕ → Endian → Result DnodePhys ParseError → Type 0
Outcome buf e r =
    ((d : DnodePhys) × (r ≡ ok d) × IsDnode (length buf) d)
    ⊎ ((x : ParseError) × (r ≡ err x) × Refused buf e x)

-- The parts, once the header is read and the pointers are parsed.
module _ (buf : List ℕ) (e : Endian) (extra n : ℕ)
    (long : dnode_size * (1 + extra) ≤ length buf) where
  abbrev total : ℕ
  total = dnode_size * (1 + extra)

  abbrev start : ℕ
  start = dnode_core_size + min n 3 * ptr_size

  parts-IsDnode :
      (ps : List BlkPtr) (flags bonuslen t : ℕ) (s : Option BlkPtr) (d : DnodePhys)
      → get_elem? buf 0 ≡ some t
      → (t ≢ 0 → (1 ≤ n) × (n ≤ 3))
      → length ps ≡ min n 3
      → start + bonuslen ≤ spill_start flags total
      → is_there s ≡ has_spill flags
      → (get_elem? buf 0 ≡ some d.object_type)
        × (d.extra_slots ≡ extra)
        × (d.nblkptr ≡ n)
        × (d.flags ≡ flags)
        × (d.bonuslen ≡ bonuslen)
        × (d.blkptr ≡ ps)
        × (d.bonus ≡ take bonuslen (drop start buf))
        × (d.spill ≡ s)
      → IsDnode (length buf) d
  unfolding slot_bytes
  parts-IsDnode ps flags bonuslen t s d at0 in_use count under there facts =
      let (type0, extras, counts, flagged, lens, pointers, bonuses, spills) = facts in
      let low : spill_start flags total ≤ total = ground arith in
      let found = slice-some buf start bonuslen (omega (arith, under, low, long)) in
      record {
        pointers = ap length pointers ∙ count ∙ ap (λ (k : ℕ). min k 3) (sym counts);
        in_use = λ some_type. rw counts (in_use (λ free. some_type (cc (free, at0, type0))));
        bonus = ap length bonuses ∙ length-slice buf start bonuslen found ∙ sym lens;
        spill = ap is_there spills ∙ there ∙ ap has_spill (sym flagged);
        apart = rw (pointers, count, lens, flagged, extras) under;
        inside = rw extras long;
      }

  parts-Outcome :
      (ps : List BlkPtr) (flags bonuslen t : ℕ)
      → get_elem? buf 12 ≡ some extra
      → get_elem? buf 3 ≡ some n
      → get_elem? buf 0 ≡ some t
      → (t ≢ 0 → (1 ≤ n) × (n ≤ 3))
      → pointers_at (min n 3) buf e dnode_core_size ≡ ok ps
      → length ps ≡ min n 3
      → u8_at buf 7 ≡ ok flags
      → get_elem? buf 7 ≡ some flags
      → u16_at e buf 10 ≡ ok bonuslen
      → Outcome buf e (parts_of buf e extra n)
  unfolding parts_of
  parts-Outcome ps flags bonuslen t at12 at3 at0 in_use parsed count at7 found7 at10 =
      elim (Bool-cases (ltb (spill_start flags total) (start + bonuslen))) [
        | inl over ↦ inr (
          malformed 10,
          rw (parsed, at7, at10, over) refl,
          bonus_overlaps extra n flags bonuslen at12 at3 found7 at10 (ltb→lt _ _ over),
        )
        | inr fits ↦
            let under : start + bonuslen ≤ spill_start flags total = ground (arith, fits) in
            let low : spill_start flags total ≤ total = ground arith in
            let (s, spilled, there) =
              spill_of-ok buf e flags (total - ptr_size) (omega (arith, long)) in
            let found = slice-some buf start bonuslen (omega (arith, under, low, long)) in
            let (d, done, type0, extras, counts, flagged, lens, pointers, bonuses, spills) =
              fields_of-ok buf e extra n flags bonuslen ps (take bonuslen (drop start buf)) s
                (omega (arith, long)) in
            inl (
              d,
              rw (parsed, at7, at10, fits, spilled, found) done,
              parts-IsDnode ps flags bonuslen t s d at0 in_use count under there
                  (type0, extras, counts, flagged, lens, pointers, bonuses, spills),
            )
      ]

  parts_of-Outcome :
      (t : ℕ)
      → get_elem? buf 12 ≡ some extra
      → get_elem? buf 3 ≡ some n
      → get_elem? buf 0 ≡ some t
      → (t ≢ 0 → (1 ≤ n) × (n ≤ 3))
      → Outcome buf e (parts_of buf e extra n)
  parts_of-Outcome t at12 at3 at0 in_use =
      let (ps, parsed, count) =
        pointers_at-ok (min n 3) buf e dnode_core_size (omega (arith, long)) in
      let (flags, at7, found7) = u8_at-ok buf 7 (omega (arith, long)) in
      let (bonuslen, at10) = u16_at-ok e buf 10 (omega (arith, long)) in
      parts-Outcome ps flags bonuslen t at12 at3 at0 in_use parsed count at7 found7 at10

slots-Outcome :
    (buf : List ℕ) (e : Endian) (extra n t : ℕ)
    → get_elem? buf 12 ≡ some extra
    → get_elem? buf 3 ≡ some n
    → get_elem? buf 0 ≡ some t
    → Outcome buf e (slots_of buf e)
unfolding slots_of
slots-Outcome buf e extra n t at12 at3 at0 =
    elim (Bool-cases (ltb (length buf) (dnode_size * (1 + extra)))) [
      | inl cut ↦ inr (
        truncated (dnode_size * (1 + extra)) (length buf),
        rw (at12, cut) refl,
        slots_cut extra at12 (ltb→lt _ _ cut),
      )
      | inr whole ↦ elim (Bool-cases (not (leb 1 n && leb n 3) && not (t == 0))) [
        | inl wrong ↦ inr (
          malformed 3,
          rw (at12, whole, at3, at0, wrong) refl,
          pointer_count n t at3 at0 (ground (arith, wrong)) (ground (arith, wrong)),
        )
        | inr right ↦
            let same : slots_of buf e ≡ parts_of buf e extra n =
              rw (at12, whole, at3, at0, right) refl in
            let long : dnode_size * (1 + extra) ≤ length buf = ground (arith, whole) in
            subst (Outcome buf e) (sym same) (
              parts_of-Outcome buf e extra n long t at12 at3 at0
                (λ used. ground (arith, right, used)))
      ]
    ]

slots_of-Outcome :
    (buf : List ℕ) (e : Endian) → dnode_size ≤ length buf → Outcome buf e (slots_of buf e)
slots_of-Outcome buf e long =
    let (extra, at12) = get_elem?-some buf 12 (omega arith) in
    let (n, at3) = get_elem?-some buf 3 (omega arith) in
    let (t, at0) = get_elem?-some buf 0 (omega arith) in slots-Outcome buf e extra n t at12 at3 at0

-- Every buffer parses to a dnode that keeps to its slots, with the parts its header announces, or
-- is refused for one of four reasons, which holds. It never panics.
pub parse_dnode_total : (buf : List ℕ) (e : Endian) → Outcome buf e (parse_dnode buf e)
unfolding parse_dnode
parse_dnode_total buf e = elim (Bool-cases (ltb (length buf) dnode_size)) [
  | inl cut ↦ inr (truncated dnode_size (length buf), rw cut refl, short (ltb→lt _ _ cut))
  | inr whole ↦ rw whole (slots_of-Outcome buf e (ground (arith, whole)))
]
