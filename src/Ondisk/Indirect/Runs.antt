-- ===== src/Ondisk/Indirect/Runs.antt =====
-- Concrete runs, and the theorems at concrete inputs.
use zvolrescue.Prelude.{ℕ, ◌+◌, ◌≤◌, ◌<◌}
use zvolrescue.Prelude.{◌≡◌, refl, inl, inr, arith}
use zvolrescue.Prelude.{List, [], ◌∷◌, ◌++◌}
use zvolrescue.Prelude.{ltb, Bool-cases}
use zvolrescue.Prelude.{ok, err, Returns}
use zvolrescue.Ondisk.Bytes.{big, encode_words}
use zvolrescue.Ondisk.Indirect.{Entry, Mapping, Segment, sort_by_src, from_entries}
use zvolrescue.Ondisk.Indirect.{entry_for, remap, parse_entry}
use zvolrescue.Ondisk.Indirect.Sorted.{In, Spans}
use zvolrescue.Ondisk.Indirect.Remap.{Follows, remap_sound}
use zvolrescue.Ondisk.Indirect.Cover.{remap-Returns, remap_gap, remap_covered, IsFirstGap, FitsDst}
use zvolrescue.Ondisk.Indirect.Parse.{parse_entry-words_of, words_of}

abbrev low : Entry
low = record { src = 0x1000; size = 0x1000; dst_vdev = 2; dst_offset = 0x8000 }

abbrev high : Entry
high = record { src = 0x2000; size = 0x2000; dst_vdev = 3; dst_offset = 0x400 }

abbrev both : Mapping
both = low ∷ high ∷ []

abbrev crossing : List Segment
crossing =
    record { vdev = 2; offset = 0x8800; size = 0x800 }
    ∷ record { vdev = 3; offset = 0x400; size = 0x800 }
    ∷ []

from_entries_test : from_entries (high ∷ low ∷ []) ≡ both
unfolding from_entries sort_by_src
from_entries_test = refl

remap_test : remap both 0x1800 0x1000 ≡ ok crossing
unfolding remap entry_for
remap_test = refl

remap_gap_test : remap both 0x3800 0x1000 ≡ err (record { offset = 0x4000; size = 0x800 })
unfolding remap entry_for
remap_gap_test = refl

both-FitsDst : FitsDst both
both-FitsDst e i = ground arith

remap_sound_example : Follows both 0x1800 0x1000 crossing
remap_sound_example = remap_sound both 0x1800 0x1000 crossing remap_test

remap-Returns_example : Returns (remap both 0x3800 0x1000)
remap-Returns_example = remap-Returns both 0x3800 0x1000

remap_gap_example : IsFirstGap both 0x3800 0x1000 (record { offset = 0x4000; size = 0x800 })
remap_gap_example =
    remap_gap both 0x3800 0x1000 _ (omega arith) both-FitsDst (omega arith) remap_gap_test

crossing_covered : (a : ℕ) → 0x1800 ≤ a → a < 0x1800 + 0x1000 → (e : Entry) × In e both × Spans e a
crossing_covered a lo hi = elim (Bool-cases (ltb a 0x2000)) [
  | inl first ↦ (low, inl refl, ground (arith, first))
  | inr second ↦ (high, inr (inl refl), ground (arith, second))
]

remap_covered_example :
    (ss : List Segment) × (remap both 0x1800 0x1000 ≡ ok ss) × Follows both 0x1800 0x1000 ss
remap_covered_example =
    remap_covered both 0x1800 0x1000 (omega arith) both-FitsDst (omega arith) crossing_covered

parse_entry-words_of_example :
    parse_entry (encode_words big (words_of 1 7 1 low) ++ []) big ≡ ok low
parse_entry-words_of_example =
    parse_entry-words_of big 1 7 1 low [] (omega arith) (omega arith) (omega arith) (omega arith)
