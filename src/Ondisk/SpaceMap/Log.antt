-- ===== src/Ondisk/SpaceMap/Log.antt =====
-- Decoding a whole log: it ends on every input, and gives back the entries that were written.
use zvolrescue.Prelude.{ℕ, zero, suc, ◌+◌, ◌≤◌, ◌<◌}
use zvolrescue.Prelude.{◌≡◌, refl, ◌∙◌, ◌⊎◌, inl, inr, arith}
use zvolrescue.Prelude.{Option, some}
use zvolrescue.Prelude.{List, [], ◌∷◌, ◌++◌, length, get_elem?, All}
use zvolrescue.Prelude.{ltb, Bool-cases, Option-cases}
use zvolrescue.Prelude.{lt→ltb, length-append}
use zvolrescue.Prelude.{get_elem?-append, All-append}
use mathlib.Core.List.{append_assoc, append-nil}
use zvolrescue.Ondisk.Bytes.{Endian, little, big, encode_words, to_bytes, from_bytes, IsU64}
use zvolrescue.Ondisk.Bytes.Laws.{from_bytes-to_bytes}
use zvolrescue.Ondisk.SpaceMap.{Entry, Step, entry, debug}
use zvolrescue.Ondisk.SpaceMap.{decode_word, decode, words_of_bytes, collect, entries_loop, entries}
use zvolrescue.Ondisk.SpaceMap.Words.{
  Record, marker, one_word, two_words, IsRecord, encode, step_of,
}
use zvolrescue.Ondisk.SpaceMap.Words.{bit_of-lt, decode_marker, decode_one_word, decode_two_words}

decode_at :
    (front : List ℕ) (w : ℕ) (back : List ℕ) (shift : ℕ)
    → decode (front ++ (w ∷ back)) (length front) shift ≡ decode_word w (get_elem? back 0) shift
unfolding decode
decode_at front w back shift =
    ground (arith, get_elem?-append front (w ∷ back) 0, get_elem?-append front (w ∷ back) 1)

-- A record that stands anywhere in the words, whatever is around it, decodes to its step, and the
-- words that it takes are those that it was written as.
pub decode-encode :
    (front back : List ℕ) (r : Record) (shift : ℕ)
    → IsRecord r
    → decode (front ++ (encode r ++ back)) (length front) shift
      ≡ some (step_of r shift, length (encode r))
unfolding encode
decode-encode front back (marker a t p) shift h =
    decode_at front _ back shift ∙ decode_marker a t p shift (get_elem? back 0) h
decode-encode front back (one_word k o r) shift h =
    decode_at front _ back shift ∙ decode_one_word k o r shift (get_elem? back 0) h
decode-encode front back (two_words k o r v) shift h =
    decode_at front _ _ shift ∙ decode_two_words k o r v shift h

decode_word_takes :
    (w : ℕ) (second : Option ℕ) (shift : ℕ) {s : Step} {n : ℕ}
    → decode_word w second shift ≡ some (s, n)
    → (n ≡ 1) ⊎ (n ≡ 2)
unfolding decode_word
decode_word_takes w second shift h = ground arith

decode_takes :
    (words : List ℕ) (at shift : ℕ) {s : Step} {n : ℕ} → decode words at shift ≡ some (s, n) → 0 < n
unfolding decode
decode_takes words at shift {s} {n} h = elim (Option-cases (get_elem? words at)) [
  | inl miss ↦ absurd (cc (rw miss at h))
  | inr (w, hit) ↦ omega (arith, decode_word_takes w (get_elem? words (at + 1)) shift (rw hit at h))
]

entries_loop_total :
    (rounds : ℕ) (words : List ℕ) (shift at : ℕ)
    → length words ≤ at + rounds
    → (es : List Entry) × (entries_loop rounds words shift at ≡ some es)
unfolding entries_loop
entries_loop_total zero words shift at h = ([], ground arith)
entries_loop_total (suc rounds) words shift at h = elim (Bool-cases (ltb at (length words))) [
  | inr past ↦ ([], rw past)
  | inl within ↦ rw within (elim (Option-cases (decode words at shift)) [
    | inl none_there ↦ ([], rw none_there)
    | inr ((entry x, n), found) ↦
        let (es, rest) =
          entries_loop_total rounds words shift (at + n)
            (omega (arith, decode_takes words at shift found)) in
        (x ∷ es, rw (found, rest))
    | inr ((debug x, n), found) ↦
        let (es, rest) =
          entries_loop_total rounds words shift (at + n)
            (omega (arith, decode_takes words at shift found)) in
        (es, rw (found, rest))
  ])
]

-- Every log decodes to an end, whatever its bytes are.
pub entries_total :
    (bytes : List ℕ) (shift : ℕ) (e : Endian)
    → (es : List Entry) × (entries bytes shift e ≡ some es)
unfolding entries
entries_total bytes shift e = entries_loop_total _ (words_of_bytes e bytes) shift 0 (omega arith)

-- The words of a log.
unfoldable pub encode_log : List Record → List ℕ
encode_log [] = []
encode_log (r ∷ rs) = encode r ++ encode_log rs

abbrev pub keep_entry : Step → List Entry → List Entry
keep_entry (entry x) es = x ∷ es
keep_entry (debug _) es = es

-- The entries of a log: the markers are dropped.
unfoldable pub entries_of : List Record → ℕ → List Entry
entries_of [] shift = []
entries_of (r ∷ rs) shift = keep_entry (step_of r shift) (entries_of rs shift)

length-encode : (r : Record) → (1 ≤ length (encode r)) × (length (encode r) ≤ 2)
unfolding encode
length-encode (marker a t p) = omega arith
length-encode (one_word k o r) = omega arith
length-encode (two_words k o r v) = omega arith

collect-some :
    (next : ℕ → Option (List Entry)) (s : Step) (n at : ℕ) (es : List Entry)
    → next (at + n) ≡ some es
    → collect next (some (s, n)) at ≡ some (keep_entry s es)
collect-some next (entry x) n at es h = rw h
collect-some next (debug x) n at es h = h

entries_loop_end :
    (rounds : ℕ) (words : List ℕ) (shift at : ℕ)
    → length words ≤ at
    → entries_loop rounds words shift at ≡ some []
unfolding entries_loop
entries_loop_end zero words shift at h = ground arith
entries_loop_end (suc rounds) words shift at h = ground arith

-- From the place where the log's rest begins.
entries_loop-encode_log :
    (rounds : ℕ) (front : List ℕ) (rs : List Record) (shift : ℕ)
    → All IsRecord rs
    → length (encode_log rs) ≤ rounds
    → entries_loop rounds (front ++ encode_log rs) shift (length front) ≡ some (entries_of rs shift)
unfolding encode_log entries_of entries_loop
entries_loop-encode_log rounds front [] shift h fits =
    rw append-nil (entries_loop_end rounds front shift (length front) (omega arith))
entries_loop-encode_log zero front (r ∷ rs) shift (hr, h) fits =
    absurd (omega (arith, length-append (encode r) (encode_log rs), length-encode r))
entries_loop-encode_log (suc rounds) front (r ∷ rs) shift (hr, h) fits =
    let split = length-append (encode r) (encode_log rs) in
    let whole = length-append front (encode r ++ encode_log rs) in
    let some_words = length-encode r in
    let next : entries_loop rounds (front ++ (encode r ++ encode_log rs)) shift
          (length front + length (encode r))
        ≡ some (entries_of rs shift) =
      rw (append_assoc, length-append) at
        (entries_loop-encode_log rounds (front ++ encode r) rs shift h (omega arith)) in
    let inside : length front < length (front ++ (encode r ++ encode_log rs)) = omega arith in
    rw (lt→ltb _ _ inside, decode-encode front (encode_log rs) r shift hr)
      (collect-some (entries_loop rounds (front ++ encode_log (r ∷ rs)) shift) (step_of r shift)
        (length (encode r)) (length front) _ next)

encode-IsU64 : (r : Record) → IsRecord r → All IsU64 (encode r)
unfolding encode
encode-IsU64 (marker a t p) h = omega arith
encode-IsU64 (one_word k o r) h = omega (arith, bit_of-lt k)
encode-IsU64 (two_words k o r v) h = omega (arith, bit_of-lt k)

encode_log-IsU64 : (rs : List Record) → All IsRecord rs → All IsU64 (encode_log rs)
unfolding encode_log
encode_log-IsU64 [] h = tt
encode_log-IsU64 (r ∷ rs) (hr, h) =
    All-append IsU64 (encode r) (encode_log rs) (encode-IsU64 r hr) (encode_log-IsU64 rs h)

words_of_bytes-to_bytes :
    (e : Endian) (w : ℕ) (rest : List ℕ)
    → words_of_bytes e (to_bytes e w ++ rest) ≡ from_bytes e (to_bytes e w) ∷ words_of_bytes e rest
unfolding words_of_bytes to_bytes
words_of_bytes-to_bytes little w rest = refl
words_of_bytes-to_bytes big w rest = refl

words_of_bytes-encode_words :
    (e : Endian) (ws : List ℕ) → All IsU64 ws → words_of_bytes e (encode_words e ws) ≡ ws
unfolding encode_words
words_of_bytes-encode_words e [] h = unfold words_of_bytes in refl
words_of_bytes-encode_words e (w ∷ ws) (hw, h) =
    words_of_bytes-to_bytes e w (encode_words e ws)
    ∙ cc (from_bytes-to_bytes e w hw, words_of_bytes-encode_words e ws h)

-- A log that was written in either byte order decodes to its entries, in order, without the markers.
pub entries-encode_log :
    (e : Endian) (rs : List Record) (shift : ℕ)
    → All IsRecord rs
    → entries (encode_words e (encode_log rs)) shift e ≡ some (entries_of rs shift)
unfolding entries
entries-encode_log e rs shift h =
    rw (words_of_bytes-encode_words e (encode_log rs) (encode_log-IsU64 rs h))
      (entries_loop-encode_log _ [] rs shift h (omega arith))
