-- ===== src/Ondisk/SpaceMap/Runs.antt =====
-- Concrete runs, and the theorems at concrete inputs.
use zvolrescue.Prelude.{◌+◌, ◌^◌}
use zvolrescue.Prelude.{◌≡◌, refl, arith}
use zvolrescue.Prelude.{none, some}
use zvolrescue.Prelude.{List, [], ◌∷◌, replicate}
use zvolrescue.Ondisk.Bytes.{little, big, encode_words}
use zvolrescue.Ondisk.SpaceMap.{alloc, free, Entry, decode, decode_word, entries}
use zvolrescue.Ondisk.SpaceMap.Words.{Record, marker, one_word, two_words, step_of}
use zvolrescue.Ondisk.SpaceMap.Log.{entries_total, entries-encode_log, encode_log, entries_of}

abbrev sample : List Record
sample = marker 1 77 3 ∷ one_word alloc 5 8 ∷ two_words free (2 ^ 50) (2 ^ 20) 9 ∷ []

decode_cut : decode ((2 ^ 63 + 2 ^ 62) ∷ []) 0 9 ≡ none
unfolding decode decode_word
decode_cut = refl

entries_of-sample :
    entries_of sample 12
    ≡ record { kind = alloc; offset = 0x5000; run = 0x8000; vdev = none }
      ∷ record { kind = free; offset = 2 ^ 62; run = 2 ^ 32; vdev = some 9 }
      ∷ []
unfolding entries_of step_of
entries_of-sample = refl

entries_total_example : (es : List Entry) × (entries (replicate 21 255) 9 little ≡ some es)
entries_total_example = entries_total (replicate 21 255) 9 little

entries-encode_log_example :
    entries (encode_words big (encode_log sample)) 12 big ≡ some (entries_of sample 12)
entries-encode_log_example = entries-encode_log big sample 12 (omega arith)
