-- ===== src/Ondisk/SpaceMap/Words.antt =====
-- Decoding one step from the words it was written as.
use zvolrescue.Prelude.{ℕ, ◌+◌, ◌-◌, ◌*◌, ◌^◌, ◌≤◌, ◌<◌}
use zvolrescue.Prelude.{◌≡◌, refl, arith}
use zvolrescue.Prelude.{Option, none, some}
use zvolrescue.Prelude.{List, [], ◌∷◌}
use zvolrescue.Prelude.{wrapping_mul}
use zvolrescue.Prelude.{shl64, shr64, low_bits}
use zvolrescue.Ondisk.SpaceMap.{MapType, alloc, free, Step, entry, debug, kind_of}
use zvolrescue.Ondisk.SpaceMap.{one_word_step, decode_word}

-- A step as `space_map.h` lays it out, before it is scaled to bytes: offsets and runs count units.
pub data Record : Type 0 where
  marker : ℕ → ℕ → ℕ → Record
  one_word : MapType → ℕ → ℕ → Record
  two_words : MapType → ℕ → ℕ → ℕ → Record

abbrev pub bit_of : MapType → ℕ
bit_of alloc = 0
bit_of free = 1

-- Every field fits the bits that the layout gives it, and a run is one unit at least.
abbrev pub IsRecord : Record → Type 0
IsRecord (marker action txg pass) = (action < 4) × (txg < 2 ^ 50) × (pass < 2 ^ 10)
IsRecord (one_word kind offset run) = (offset < 2 ^ 47) × (0 < run) × (run ≤ 2 ^ 15)
IsRecord (two_words kind offset run vdev) =
    (offset < 2 ^ 63) × (0 < run) × (run ≤ 2 ^ 36) × (vdev < 2 ^ 24)

-- The words of a record.
unfoldable pub encode : Record → List ℕ
encode (marker action txg pass) = (2 * 2 ^ 62 + action * 2 ^ 60 + pass * 2 ^ 50 + txg) ∷ []
encode (one_word kind offset run) = (offset * 2 ^ 16 + bit_of kind * 2 ^ 15 + (run - 1)) ∷ []
encode (two_words kind offset run vdev) =
    (3 * 2 ^ 62 + (run - 1) * 2 ^ 24 + vdev) ∷ (bit_of kind * 2 ^ 63 + offset) ∷ []

-- What a record means, in bytes.
unfoldable pub step_of : Record → ℕ → Step
step_of (marker action txg pass) shift = debug (record { txg = txg; sync_pass = pass })
step_of (one_word kind offset run) shift = entry (record {
  kind = kind;
  offset = wrapping_mul offset (shl64 1 shift);
  run = wrapping_mul run (shl64 1 shift);
  vdev = none;
})
step_of (two_words kind offset run vdev) shift = entry (record {
  kind = kind;
  offset = wrapping_mul offset (shl64 1 shift);
  run = wrapping_mul run (shl64 1 shift);
  vdev = some vdev;
})

kind_of-bit_of : (kind : MapType) → kind_of (bit_of kind) ≡ kind
kind_of-bit_of alloc = refl
kind_of-bit_of free = refl

pub bit_of-lt : (kind : MapType) → bit_of kind < 2
bit_of-lt alloc = omega arith
bit_of-lt free = omega arith

pub decode_marker :
    (action txg pass shift : ℕ) (next : Option ℕ)
    → IsRecord (marker action txg pass)
    → decode_word (2 * 2 ^ 62 + action * 2 ^ 60 + pass * 2 ^ 50 + txg) next shift
      ≡ some (step_of (marker action txg pass) shift, 1)
unfolding decode_word step_of
decode_marker action txg pass shift next h = ground arith

-- A word below the two prefixes, whose fields are these.
one_word_at :
    (w : ℕ) (kind : MapType) (offset run shift : ℕ) (next : Option ℕ)
    → shr64 w 62 < 2
    → low_bits (shr64 w 16) 47 ≡ offset
    → low_bits w 15 + 1 ≡ run
    → low_bits (shr64 w 15) 1 ≡ bit_of kind
    → decode_word w next shift ≡ some (step_of (one_word kind offset run) shift, 1)
unfolding decode_word step_of
one_word_at w kind offset run shift next prefix is_offset is_run is_bit =
    let fields : one_word_step w shift ≡ step_of (one_word kind offset run) shift =
      rw (is_offset, is_run, is_bit, kind_of-bit_of) in
    ground (arith, prefix, fields)

pub decode_one_word :
    (kind : MapType) (offset run shift : ℕ) (next : Option ℕ)
    → IsRecord (one_word kind offset run)
    → decode_word (offset * 2 ^ 16 + bit_of kind * 2 ^ 15 + (run - 1)) next shift
      ≡ some (step_of (one_word kind offset run) shift, 1)
unfolding decode_word step_of
decode_one_word kind offset run shift next (wide, pos, short) =
    let w = offset * 2 ^ 16 + bit_of kind * 2 ^ 15 + (run - 1) in
    let bit = bit_of-lt kind in
    let is_offset : low_bits (shr64 w 16) 47 ≡ offset = omega arith in
    let is_run : low_bits w 15 + 1 ≡ run = omega arith in
    let is_bit : low_bits (shr64 w 15) 1 ≡ bit_of kind = omega arith in
    let prefix : shr64 w 62 < 2 = omega arith in
    one_word_at w kind offset run shift next prefix is_offset is_run is_bit

pub decode_two_words :
    (kind : MapType) (offset run vdev shift : ℕ)
    → IsRecord (two_words kind offset run vdev)
    → decode_word
        (3 * 2 ^ 62 + (run - 1) * 2 ^ 24 + vdev)
        (some (bit_of kind * 2 ^ 63 + offset))
        shift
      ≡ some (step_of (two_words kind offset run vdev) shift, 2)
unfolding decode_word step_of
decode_two_words kind offset run vdev shift (wide, pos, short, narrow) =
    let w = 3 * 2 ^ 62 + (run - 1) * 2 ^ 24 + vdev in
    let second = bit_of kind * 2 ^ 63 + offset in
    let bit = bit_of-lt kind in
    let prefix : shr64 w 62 ≡ 3 = omega arith in
    let is_offset : low_bits second 63 ≡ offset = omega arith in
    let is_run : low_bits (shr64 w 24) 36 + 1 ≡ run = omega arith in
    let is_bit : shr64 second 63 ≡ bit_of kind = omega arith in
    let is_vdev : low_bits w 24 ≡ vdev = omega arith in
    rw (prefix, is_offset, is_run, is_bit, is_vdev, kind_of-bit_of)
