-- ===== src/Ondisk/Indirect/Parse.antt =====
-- Reading a mapping object: no input panics, and what was written is read back.
use zvolrescue.Prelude.{ℕ, zero, suc, ◌+◌, ◌*◌, ◌/◌, ◌%◌, ◌^◌, ◌≤◌, ◌<◌, min}
use zvolrescue.Prelude.{◌≡◌, refl, ap, ◌∙◌, ◌⊎◌, inl, inr, arith}
use zvolrescue.Prelude.{List, [], ◌∷◌, ◌++◌, length, drop, All}
use zvolrescue.Prelude.{ltb, Bool-cases}
use zvolrescue.Prelude.{ltb→lt, length-append, length-drop}
use zvolrescue.Prelude.{u64_mod}
use zvolrescue.Prelude.{ok, err}
use zvolrescue.Ondisk.Bytes.{Endian, truncated, word, encode_words, IsU64}
use zvolrescue.Ondisk.Bytes.Laws.{u64_at-some}
use zvolrescue.Ondisk.Bytes.Words.{length-encode_words, u64_at-encode_words}
use zvolrescue.Ondisk.Indirect.{
  Entry, entry_of, parse_entry, entry_size, parse_entries, parse_mapping,
}
use zvolrescue.Ondisk.Indirect.{Mapping, parse_phys, phys_len, sort_by_src, from_entries}
use zvolrescue.Ondisk.Indirect.Sorted.{
  IsSorted, sort_by_src-IsSorted, length-sort_by_src, sort_by_src-perm,
}
use mathlib.Core.List.{Perm}

-- The bonus buffer parses exactly when it holds the 32 bytes, to the four words that it begins
-- with; otherwise the error says how many it holds. It never panics.
pub parse_phys_total :
    (bonus : List ℕ) (e : Endian)
    → ((length bonus < phys_len) × (parse_phys bonus e ≡ err (truncated phys_len (length bonus))))
      ⊎ ((phys_len ≤ length bonus)
          × (parse_phys bonus e
              ≡ ok (record {
                max_offset = word e bonus 0;
                bytes_mapped = word e bonus 8;
                num_entries = word e bonus 16;
                counts_object = word e bonus 24;
              })))
unfolding parse_phys
parse_phys_total bonus e = elim (Bool-cases (ltb (length bonus) phys_len)) [
  | inl short ↦ inl (ltb→lt _ _ short, rw short)
  | inr long ↦
      let fits : phys_len ≤ length bonus = ground (arith, long) in
      inr (
        fits,
        ground (
          arith,
          u64_at-some e bonus 0,
          u64_at-some e bonus 8,
          u64_at-some e bonus 16,
          u64_at-some e bonus 24,
        ),
      )
]

pub parse_entry_some :
    (buf : List ℕ) (e : Endian) → entry_size ≤ length buf → (x : Entry) × (parse_entry buf e ≡ ok x)
unfolding parse_entry
parse_entry_some buf e h = (
  entry_of (word e buf 0) (word e buf 8) (word e buf 16),
  ground (arith, u64_at-some e buf 0, u64_at-some e buf 8, u64_at-some e buf 16),
)

-- A record that was written as its three words is read back as their entry.
pub parse_entry-encode_words :
    (e : Endian) (w0 w1 w2 : ℕ) (rest : List ℕ)
    → All IsU64 (w0 ∷ w1 ∷ w2 ∷ [])
    → parse_entry (encode_words e (w0 ∷ w1 ∷ w2 ∷ []) ++ rest) e ≡ ok (entry_of w0 w1 w2)
unfolding parse_entry
parse_entry-encode_words e w0 w1 w2 rest h = ground (
  arith,
  length-append (encode_words e ws) rest,
  length-encode_words e ws,
  u64_at-encode_words e ws 0 w0 rest refl h,
  u64_at-encode_words e ws 1 w1 rest refl h,
  u64_at-encode_words e ws 2 w2 rest refl h,
)
  where
    ws : List ℕ
    ws = w0 ∷ w1 ∷ w2 ∷ []

-- The words of an entry, by the layout of `vdev_indirect_mapping_entry_phys_t`: the source offset
-- in sectors under the mark bit, then the destination DVA.
unfoldable pub words_of : ℕ → ℕ → ℕ → Entry → List ℕ
words_of mark grid gang x =
    (mark * 2 ^ 63 + x.src / 512)
    ∷ (x.dst_vdev * 2 ^ 32 + grid * 2 ^ 24 + x.size / 512)
    ∷ (gang * 2 ^ 63 + x.dst_offset / 512)
    ∷ []

-- What an entry can hold: whole sectors, each in its field.
abbrev pub IsEntry : Entry → Type 0
IsEntry x =
    (x.src < u64_mod)
    × (x.src % 512 ≡ 0)
    × (x.size < 2 ^ 33)
    × (x.size % 512 ≡ 0)
    × (x.dst_vdev < 2 ^ 32)
    × (x.dst_offset < u64_mod)
    × (x.dst_offset % 512 ≡ 0)

entry_of-words_of :
    (mark grid gang : ℕ) (x : Entry)
    → IsEntry x
    → mark < 2
    → grid < 2 ^ 8
    → gang < 2
    → entry_of
        (mark * 2 ^ 63 + x.src / 512)
        (x.dst_vdev * 2 ^ 32 + grid * 2 ^ 24 + x.size / 512)
        (gang * 2 ^ 63 + x.dst_offset / 512)
      ≡ x
unfolding entry_of
entry_of-words_of mark grid gang x h m g t = ground arith

-- An entry of whole sectors that was written, with any mark, grid and gang bits, is read back.
pub parse_entry-words_of :
    (e : Endian) (mark grid gang : ℕ) (x : Entry) (rest : List ℕ)
    → IsEntry x
    → mark < 2
    → grid < 2 ^ 8
    → gang < 2
    → parse_entry (encode_words e (words_of mark grid gang x) ++ rest) e ≡ ok x
unfolding words_of
parse_entry-words_of e mark grid gang x rest h m g t =
    parse_entry-encode_words e _ _ _ rest (omega arith)
    ∙ ap ok (entry_of-words_of mark grid gang x h m g t)

parse_entries_some :
    (n i : ℕ) (buf : List ℕ) (e : Endian)
    → (i + n) * entry_size ≤ length buf
    → (es : List Entry) × (parse_entries n i buf e ≡ ok es) × (length es ≡ n)
unfolding parse_entries
parse_entries_some zero i buf e h = ([], refl, refl)
parse_entries_some (suc n) i buf e h =
    let (x, first) =
      parse_entry_some (drop (i * entry_size) buf) e
        (omega (arith, length-drop (i * entry_size) buf)) in
    let (es, rest, count) = parse_entries_some n (i + 1) buf e (omega arith) in
    (x ∷ es, rw (first, rest), omega arith)

-- A mapping object parses whatever its bytes and its entry count are: the result has the entries
-- that the data holds, the count at most, in the order of their source offsets.
pub parse_mapping_total :
    (buf : List ℕ) (count : ℕ) (e : Endian)
    → (m : Mapping) × (parse_mapping buf count e ≡ ok m)
      × IsSorted m
      × (length m ≡ min count (length buf / entry_size))
unfolding parse_mapping
parse_mapping_total buf count e =
    let (es, good, size) =
      parse_entries_some (min count (length buf / entry_size)) 0 buf e (omega arith) in
    (sort_by_src es, rw good, sort_by_src-IsSorted es, length-sort_by_src es ∙ size)

-- A mapping built from entries in hand holds the same entries, in the order of their source offsets.
pub from_entries_lem : (es : List Entry) → IsSorted (from_entries es) × Perm (from_entries es) es
unfolding from_entries
from_entries_lem es = (sort_by_src-IsSorted es, sort_by_src-perm es)
