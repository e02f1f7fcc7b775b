-- ===== src/Ondisk/SpaceMap.antt =====
-- crates/zfs-ondisk/src/spacemap.rs: the allocator's log, its header and its words.
pub mod Words
pub mod Log
mod Runs
use zvolrescue.Prelude.{ℕ, zero, suc, ◌+◌, ◌-◌, ◌*◌, ◌/◌, ◌%◌, ◌^◌, ◌≤◌, ◌<◌, min, max}
use zvolrescue.Prelude.{◌≡◌, refl, sym, ap, ◌∙◌, ◌≢◌, ◌↔◌, ◌⊎◌, inl, inr, arith}
use zvolrescue.Prelude.{Bool, true, false, not, ◌&&◌, ◌||◌, Option, none, some}
use zvolrescue.Prelude.{List, [], ◌∷◌, ◌++◌, map, length, get_elem?, take, drop, replicate, All}
use zvolrescue.Prelude.{ltb, leb, ◌==◌, if◌then◌else◌, Bool-cases, Option-cases}
use zvolrescue.Prelude.{ltb→lt, lt→ltb, leb→le, ==_iff, length-append, length-take, length-drop}
use zvolrescue.Prelude.{length-replicate, take-append, drop-append, get_elem?-some}
use zvolrescue.Prelude.{u64_mod, u64_max, saturating_add, checked_add, checked_mul, wrapping_mul}
use zvolrescue.Prelude.{shl64, shr64, low_bits, div_ceil}
use zvolrescue.Prelude.{Result, ok, err, panic, stuck, ◌>>=◌, ok_or, expect, Returns}
use zvolrescue.Ondisk.Bytes.{Endian, ParseError, truncated, u64_at, from_bytes}
use zvolrescue.Prelude.Chain
use mathlib.Core.Option

pub data MapType : Type 0 where
  alloc free : MapType

-- `Entry`, in bytes.
pub record Entry : Type 0 where
  pub kind : MapType
  pub offset : ℕ
  pub run : ℕ
  pub vdev : Option ℕ

pub record Debug : Type 0 where
  pub txg : ℕ
  pub sync_pass : ℕ

pub data Step : Type 0 where
  entry : Entry → Step
  debug : Debug → Step

-- `SpaceMapPhys`; the signed `alloc` is its bit pattern.
pub record SpaceMapPhys : Type 0 where
  pub object : ℕ
  pub length : ℕ
  pub alloc : ℕ

-- `PHYS_MIN_LEN`.
abbrev pub phys_min_len : ℕ
phys_min_len = 24

-- `SpaceMapPhys::parse`.
unfoldable pub parse_phys : List ℕ → Endian → Result SpaceMapPhys ParseError
parse_phys bonus e =
    if ltb (length bonus) phys_min_len then err (truncated phys_min_len (length bonus)) else (do
      object ← expect (u64_at e bonus 0)
      used ← expect (u64_at e bonus 8)
      balance ← expect (u64_at e bonus 16)
      ok (record { object = object; length = used; alloc = balance }))

abbrev pub sm_debug_prefix : ℕ
sm_debug_prefix = 2

abbrev pub sm2_prefix : ℕ
sm2_prefix = 3

abbrev pub kind_of : ℕ → MapType
kind_of bit = if bit == 0 then alloc else free

-- The step of a debug marker.
unfoldable pub debug_step : ℕ → Step
debug_step w = debug (record { txg = low_bits w 50; sync_pass = low_bits (shr64 w 50) 10 })

-- The step of an entry of two words.
unfoldable pub two_word_step : ℕ → ℕ → ℕ → Step
two_word_step w second shift = entry (record {
  kind = kind_of (shr64 second 63);
  offset = wrapping_mul (low_bits second 63) (shl64 1 shift);
  run = wrapping_mul (low_bits (shr64 w 24) 36 + 1) (shl64 1 shift);
  vdev = some (low_bits w 24);
})

-- The step of an entry of one word.
unfoldable pub one_word_step : ℕ → ℕ → Step
one_word_step w shift = entry (record {
  kind = kind_of (low_bits (shr64 w 15) 1);
  offset = wrapping_mul (low_bits (shr64 w 16) 47) (shl64 1 shift);
  run = wrapping_mul (low_bits w 15 + 1) (shl64 1 shift);
  vdev = none;
})

-- `decode` at a word that is there, with what stands behind it.
unfoldable pub decode_word : ℕ → Option ℕ → ℕ → Option (Step × ℕ)
unfolding debug_step two_word_step one_word_step
decode_word w second shift =
    if shr64 w 62 == sm_debug_prefix
    then some (debug_step w, 1)
    else if shr64 w 62 == sm2_prefix
    then Option.map (λ s. (two_word_step w s shift, 2)) second
    else some (one_word_step w shift, 1)

-- `decode`.
unfoldable pub decode : List ℕ → ℕ → ℕ → Option (Step × ℕ)
decode words at shift =
    Chain.◌>>=◌ (get_elem? words at) (λ w. decode_word w (get_elem? words (at + 1)) shift)

-- `bytes.chunks_exact(8)`, each read as a word.
unfoldable pub words_of_bytes : Endian → List ℕ → List ℕ
words_of_bytes e (a ∷ b ∷ c ∷ d ∷ p ∷ q ∷ r ∷ s ∷ rest) =
    from_bytes e (a ∷ b ∷ c ∷ d ∷ p ∷ q ∷ r ∷ s ∷ []) ∷ words_of_bytes e rest
words_of_bytes e _ = []

-- The step that a round of `entries` decoded goes before the entries of the rest.
abbrev pub collect : (ℕ → Option (List Entry)) → Option (Step × ℕ) → ℕ → Option (List Entry)
collect next none at = some []
collect next (some (entry x, n)) at = Option.map (λ rest. x ∷ rest) (next (at + n))
collect next (some (debug _, n)) at = next (at + n)

-- The loop of `entries`; `none` if the rounds run out.
unfoldable pub entries_loop : ℕ → List ℕ → ℕ → ℕ → Option (List Entry)
entries_loop zero words shift at = if ltb at (length words) then none else some []
entries_loop (suc rounds) words shift at =
    if ltb at (length words)
    then collect (entries_loop rounds words shift) (decode words at shift) at
    else some []

-- `entries`. Every step takes a word at least, so a round for each word is enough.
unfoldable pub entries : List ℕ → ℕ → Endian → Option (List Entry)
entries bytes shift e =
    let words = words_of_bytes e bytes in entries_loop (length words) words shift 0
