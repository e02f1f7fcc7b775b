-- ===== src/Ondisk/Uberblock/Parsed.antt =====
-- What `Uberblock::parse` makes of a slot, and the ring.
use zvolrescue.Prelude.{ℕ, zero, suc, ◌+◌, ◌*◌, ◌/◌, ◌%◌, ◌≤◌, ◌<◌}
use zvolrescue.Prelude.{◌≡◌, refl, sym, ap, ◌∙◌, ◌≢◌, ◌⊎◌, inl, inr, arith}
use zvolrescue.Prelude.{some}
use zvolrescue.Prelude.{List, [], ◌∷◌, length, get_elem?, take, drop, All}
use zvolrescue.Prelude.{ltb, ◌==◌, Bool-cases}
use zvolrescue.Prelude.{ltb→lt, length-take}
use zvolrescue.Prelude.{ok, err}
use zvolrescue.Ondisk.Bytes.{
  Endian, little, big, truncated, bad_magic, IsByte, word, from_bytes, from_le_bytes, from_be_bytes,
  to_le_bytes, swap_bytes,
}
use zvolrescue.Ondisk.Bytes.Laws.{u64_at-some}
use zvolrescue.Ondisk.BlkPtr.{ptr_size}
use zvolrescue.Ondisk.Uberblock.{
  Uberblock, magic, parsed_len, parse_fields, detect, parse_uberblock, slot_size, slots_from,
  ring_slots,
}

-- The uberblock that stands at the start of a slot, in a byte order.
abbrev pub uberblock_in : Endian → List ℕ → Uberblock
uberblock_in e buf = record {
  endian = e;
  rootbp = take ptr_size (drop 40 buf);
  version = word e buf 8;
  txg = word e buf 16;
  guid_sum = word e buf 24;
  timestamp = word e buf 32;
  software_version = word e buf 168;
  mmp_magic = word e buf 176;
  mmp_delay = word e buf 184;
  mmp_config = word e buf 192;
  checkpoint_txg = word e buf 200;
}

parse_fields_some :
    (buf : List ℕ) (e : Endian)
    → parsed_len ≤ length buf
    → parse_fields buf e ≡ ok (uberblock_in e buf)
unfolding parse_fields
parse_fields_some buf e long = rw (u64_at-some e buf 8 (omega (arith, long))) (
    rw (u64_at-some e buf 16 (omega (arith, long))) (
      rw (u64_at-some e buf 24 (omega (arith, long))) (
        rw (u64_at-some e buf 32 (omega (arith, long))) (
          rw (u64_at-some e buf 168 (omega (arith, long))) (
            rw (u64_at-some e buf 176 (omega (arith, long))) (
              rw (u64_at-some e buf 184 (omega (arith, long))) (
                rw (u64_at-some e buf 192 (omega (arith, long)))
                  (rw (u64_at-some e buf 200 (omega (arith, long))) (refl)))))))))

to_le_bytes-from_le_bytes :
    (bs : List ℕ) → All IsByte bs → to_le_bytes (length bs) (from_le_bytes bs) ≡ bs
unfolding to_le_bytes from_le_bytes
to_le_bytes-from_le_bytes [] h = refl
to_le_bytes-from_le_bytes (b ∷ bs) (hb, hbs) =
    let low : (b + 256 * from_le_bytes bs) % 256 ≡ b = omega (arith, hb) in
    let high : (b + 256 * from_le_bytes bs) / 256 ≡ from_le_bytes bs = omega (arith, hb) in
    rw (low, high) (ap (λ l. b ∷ l) (to_le_bytes-from_le_bytes bs hbs))

All-take : (n : ℕ) (bs : List ℕ) → All IsByte bs → All IsByte (take n bs)
All-take zero bs h = tt
All-take (suc n) [] h = tt
All-take (suc n) (b ∷ bs) (hb, hbs) = (hb, All-take n bs hbs)

-- A word swapped is the word in the other byte order.
swap_bytes-word :
    (buf : List ℕ)
    → All IsByte buf
    → 8 ≤ length buf
    → swap_bytes (word little buf 0) ≡ word big buf 0
unfolding swap_bytes from_bytes
swap_bytes-word buf bytes long =
    let first = take 8 buf in
    let size : length first ≡ 8 = length-take 8 buf ∙ omega (arith, long) in
    ap from_be_bytes (
      ap (λ n. to_le_bytes n (from_le_bytes first)) (sym size)
      ∙ to_le_bytes-from_le_bytes first (All-take 8 buf bytes))

-- A slot of bytes ends in one of three ways: too short for the 208 bytes; no magic at its start in
-- either byte order, which the error reports; or the uberblock in a byte order in which its first
-- word is the magic. It never panics.
pub parse_uberblock_total :
    (buf : List ℕ)
    → All IsByte buf
    → ((length buf < parsed_len) × (parse_uberblock buf ≡ err (truncated parsed_len (length buf))))
      ⊎ ((parsed_len ≤ length buf)
          × (((word little buf 0 ≢ magic)
                × (word big buf 0 ≢ magic)
                × (parse_uberblock buf ≡ err (bad_magic (word little buf 0))))
              ⊎ ((e : Endian) × (word e buf 0 ≡ magic)
                  × (parse_uberblock buf ≡ ok (uberblock_in e buf)))))
unfolding parse_uberblock detect
parse_uberblock_total buf bytes = elim (Bool-cases (ltb (length buf) parsed_len)) [
  | inl short ↦ inl (ltb→lt _ _ short, rw short refl)
  | inr enough ↦
      let long : parsed_len ≤ length buf = ground (arith, enough) in
      let first = u64_at-some little buf 0 (omega (arith, long)) in
      let swapped = swap_bytes-word buf bytes (omega (arith, long)) in
      inr (
        long,
        rw enough (
            rw first (elim (Bool-cases (word little buf 0 == magic)) [
              | inl same ↦
                  rw same (inr (little, ground (arith, same), parse_fields_some buf little long))
              | inr other ↦ rw other (elim (Bool-cases (swap_bytes (word little buf 0) == magic)) [
                | inl same ↦
                    rw same (
                      inr (big, sym swapped ∙ ground (arith, same), parse_fields_some buf big long))
                | inr neither ↦ rw neither (
                    inl (
                      λ is. ground (arith, is, other),
                      λ is. ground (arith, swapped, is, neither),
                      refl,
                    ))
              ])
            ])),
      )
]

slots_from_lem :
    (n i slot : ℕ) (ring : List ℕ) (k : ℕ)
    → k < n
    → get_elem? (slots_from n i slot ring) k
      ≡ some (i + k, parse_uberblock (take slot (drop ((i + k) * slot) ring)))
unfolding slots_from
slots_from_lem zero i slot ring k h = absurd (omega arith)
slots_from_lem (suc n) i slot ring zero h =
    ap (λ j. some (j, parse_uberblock (take slot (drop (j * slot) ring)))) (omega arith)
slots_from_lem (suc n) i slot ring (suc k) h =
    slots_from_lem n (i + 1) slot ring k (omega arith)
    ∙ ap (λ j. some (j, parse_uberblock (take slot (drop (j * slot) ring)))) (omega arith)

-- The `k`-th slot of a ring is reported as number `k`, with what its bytes parse to, for every
-- whole slot that the ring holds.
pub ring_slots_lem :
    (ring : List ℕ) (shift k : ℕ)
    → k < length ring / slot_size shift
    → get_elem? (ring_slots ring shift) k
      ≡ some (k, parse_uberblock (take (slot_size shift) (drop (k * slot_size shift) ring)))
unfolding ring_slots
ring_slots_lem ring shift k h =
    slots_from_lem (length ring / slot_size shift) 0 (slot_size shift) ring k h
    ∙ ap (λ j. some (j, parse_uberblock (take (slot_size shift) (drop (j * slot_size shift) ring))))
        (omega arith)
