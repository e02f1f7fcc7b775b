-- ===== src/Ondisk/Checksum/Embedded.antt =====
-- Sealing and verifying an embedded checksum.
use zvolrescue.Prelude.{ℕ, zero, suc, ◌+◌, ◌-◌, ◌*◌, ◌≤◌}
use zvolrescue.Prelude.{◌≡◌, refl, sym, ap, ◌∙◌, arith}
use zvolrescue.Prelude.{Bool, true, false, some}
use zvolrescue.Prelude.{List, [], ◌∷◌, ◌++◌, length, get_elem?, take, drop, All}
use zvolrescue.Prelude.{ltb, leb, if◌then◌else◌}
use zvolrescue.Prelude.{le→ltb, length-append, length-take, length-drop}
use zvolrescue.Prelude.{take-append, drop-append, drop-drop}
use zvolrescue.Prelude.{ok}
use mathlib.Core.List.{append_assoc, append-nil}
use zvolrescue.Ondisk.Bytes.{Endian, little, u64_at, to_bytes, encode_words, IsU64, slice}
use zvolrescue.Ondisk.Bytes.Words.{length-to_bytes, length-encode_words, u64_at-encode_words}
use zvolrescue.Ondisk.BlkPtr.{eck_size}
use zvolrescue.Ondisk.Checksum.{
  sha256_words, Sum, Hashes, matches, bad, same_sum, zec_magic, splice, put_words, words_of_sum,
  stored_sum, eck_order, verify_in, verify_embedded, seal_embedded,
}

take-drop : (n : ℕ) (xs : List ℕ) → take n xs ++ drop n xs ≡ xs
take-drop zero xs = refl
take-drop (suc n) [] = refl
take-drop (suc n) (x ∷ xs) = ap (λ l. x ∷ l) (take-drop n xs)

-- Bytes spliced over as many in the middle.
splice-middle :
    (front new old back : List ℕ)
    → length new ≡ length old
    → splice (length front) new (front ++ (old ++ back)) ≡ front ++ (new ++ back)
unfolding splice
splice-middle front new old back same =
    let behind : drop (length front + length new) (front ++ (old ++ back)) ≡ back =
      sym (drop-drop (length new) (length front) (front ++ (old ++ back)))
      ∙ ap (drop (length new)) (drop-append front (old ++ back))
      ∙ ap (λ n. drop n (old ++ back)) same
      ∙ drop-append old back in
    rw (take-append front (old ++ back), behind) refl

-- Words put over a field of their length.
put_words-middle :
    (e : Endian) (ws front old back : List ℕ)
    → length old ≡ 8 * length ws
    → put_words e (length front) ws (front ++ (old ++ back)) ≡ front ++ (encode_words e ws ++ back)
unfolding put_words encode_words
put_words-middle e [] front [] back size = refl
put_words-middle e [] front (o ∷ old) back size = absurd (omega arith)
put_words-middle e (w ∷ ws) front old back size =
    let eight : length (take 8 old) ≡ 8 = length-take 8 old ∙ omega (arith, size) in
    let rest : length (drop 8 old) ≡ 8 * length ws = length-drop 8 old ∙ omega (arith, size) in
    let split : front ++ (old ++ back) ≡ front ++ (take 8 old ++ (drop 8 old ++ back)) =
      ap (λ l. front ++ l)
        (ap (λ l. l ++ back) (sym (take-drop 8 old))
          ∙ append_assoc (take 8 old) (drop 8 old) back) in
    let first = to_bytes e w in
    let at : length front + 8 ≡ length (front ++ first) =
      omega (arith, length-append front first, length-to_bytes e w) in
    let once : splice (length front) first (front ++ (old ++ back))
        ≡ (front ++ first) ++ (drop 8 old ++ back) =
      ap (splice (length front) first) split
      ∙ splice-middle front first (take 8 old) (drop 8 old ++ back)
          (length-to_bytes e w ∙ sym eight)
      ∙ sym (append_assoc front first (drop 8 old ++ back)) in
    ap (put_words e (length front + 8) ws) once
    ∙ ap (λ n. put_words e n ws ((front ++ first) ++ (drop 8 old ++ back))) at
    ∙ put_words-middle e ws (front ++ first) (drop 8 old) back rest
    ∙ append_assoc front first (encode_words e ws ++ back)
    ∙ ap (λ l. front ++ l) (sym (append_assoc first (encode_words e ws) back))

slice-behind :
    (front xs : List ℕ) (o n : ℕ) → slice (front ++ xs) (length front + o) n ≡ slice xs o n
unfolding slice
slice-behind front xs o n =
    let behind : drop (length front + o) (front ++ xs) ≡ drop o xs =
      sym (drop-drop o (length front) (front ++ xs)) ∙ ap (drop o) (drop-append front xs) in
    let same : leb (length front + o + n) (length (front ++ xs)) ≡ leb (o + n) (length xs) =
      ground (arith, length-append front xs) in
    rw (behind, same) refl

u64_at-behind :
    (e : Endian) (front xs : List ℕ) (o : ℕ)
    → u64_at e (front ++ xs) (length front + o) ≡ u64_at e xs o
unfolding u64_at
u64_at-behind e front xs o = rw (slice-behind front xs o 8) refl

-- A buffer that ends in words.
abbrev laid : List ℕ → List ℕ → List ℕ
laid front ws = front ++ (encode_words little ws ++ [])

length-laid : (front ws : List ℕ) → length (laid front ws) ≡ length front + 8 * length ws
length-laid front ws = omega (
  arith,
  length-append front (encode_words little ws ++ []),
  length-append (encode_words little ws) [],
  length-encode_words little ws,
)

u64_at-laid :
    (front ws : List ℕ) (i x : ℕ)
    → get_elem? ws i ≡ some x
    → All IsU64 ws
    → u64_at little (laid front ws) (length front + 8 * i) ≡ some x
u64_at-laid front ws i x h all =
    u64_at-behind little front (encode_words little ws ++ []) (8 * i)
    ∙ u64_at-encode_words little ws i x [] h all

-- The words behind the first are put over others.
put_words-laid :
    (front old ws : List ℕ) (m : ℕ)
    → length old ≡ length ws
    → put_words little (length front + 8) ws (laid front (m ∷ old)) ≡ laid front (m ∷ ws)
unfolding encode_words
put_words-laid front old ws m same =
    let first = to_bytes little m in
    let at : length front + 8 ≡ length (front ++ first) =
      omega (arith, length-append front first, length-to_bytes little m) in
    let shift : (l : List ℕ)
        → laid front (m ∷ l) ≡ (front ++ first) ++ (encode_words little l ++ []) =
      λ l.
        ap (λ k. front ++ k) (append_assoc first (encode_words little l) [])
        ∙ sym (append_assoc front first (encode_words little l ++ [])) in
    ap (put_words little (length front + 8) ws) (shift old)
    ∙ ap (λ n. put_words little n ws ((front ++ first) ++ (encode_words little old ++ []))) at
    ∙ put_words-middle little ws (front ++ first) (encode_words little old) []
        (length-encode_words little old ∙ ap (λ (n : ℕ). 8 * n) same)
    ∙ sym (shift ws)

module _ (h : Hashes) (verifier : Sum) (crypt : Bool) where
  abbrev digest : List ℕ → Sum
  digest front = stored_sum crypt (sha256_words h (laid front (zec_magic ∷ words_of_sum verifier)))

  abbrev sealed : List ℕ → List ℕ
  sealed front = laid front (zec_magic ∷ words_of_sum (digest front))

  seal_embedded-sealed :
      (buf : List ℕ)
      → eck_size ≤ length buf
      → seal_embedded h buf verifier crypt ≡ ok (sealed (take (length buf - eck_size) buf))
  unfolding seal_embedded
  seal_embedded-sealed buf long =
      let front = take (length buf - eck_size) buf in
      let tail = drop (length buf - eck_size) buf in
      let at : length front ≡ length buf - eck_size =
        length-take (length buf - eck_size) buf ∙ omega (arith, long) in
      let size : length tail ≡ 40 = length-drop (length buf - eck_size) buf ∙ omega (arith, long) in
      let split : buf ≡ front ++ (tail ++ []) =
        sym (take-drop (length buf - eck_size) buf)
        ∙ ap (λ l. front ++ l) (sym (append-nil tail)) in
      let marked : put_words little (length buf - eck_size) (zec_magic ∷ words_of_sum verifier) buf
          ≡ laid front (zec_magic ∷ words_of_sum verifier) =
        ap (λ n. put_words little n (zec_magic ∷ words_of_sum verifier) buf) (sym at)
        ∙ ap (put_words little (length front) (zec_magic ∷ words_of_sum verifier)) split
        ∙ put_words-middle little (zec_magic ∷ words_of_sum verifier) front tail [] size in
      let summed : put_words little (length buf - eck_size + 8) (words_of_sum (digest front))
            (laid front (zec_magic ∷ words_of_sum verifier))
          ≡ sealed front =
        ap
          (λ n.
            put_words little (n + 8) (words_of_sum (digest front))
              (laid front (zec_magic ∷ words_of_sum verifier)))
          (sym at)
        ∙ put_words-laid front (words_of_sum verifier) (words_of_sum (digest front)) zec_magic
            refl in
      rw (le→ltb (length buf) eck_size long) (rw marked (ap ok summed))

  module _ (front : List ℕ) (words : All IsU64 (words_of_sum (digest front))) where
    abbrev eck_words : List ℕ
    eck_words = zec_magic ∷ words_of_sum (digest front)

    word-sealed :
        (i x o : ℕ)
        → o ≡ 8 * i
        → get_elem? eck_words i ≡ some x
        → u64_at little (sealed front) (length front + o) ≡ some x
    word-sealed i x o same found =
        ap (λ n. u64_at little (sealed front) (length front + n)) same
        ∙ u64_at-laid front eck_words i x found (omega arith, words)

    verify_in-sealed : verify_in h (sealed front) (length front) verifier crypt little ≡ ok matches
    unfolding verify_in
    verify_in-sealed =
        let d = digest front in
        let same : same_sum d d ≡ true = ground arith in
        rw
          (
            word-sealed 1 d.0 8 refl refl,
            word-sealed 2 d.1 16 refl refl,
            word-sealed 3 d.2 24 refl refl,
            word-sealed 4 d.3 32 refl refl,
            put_words-laid front (words_of_sum d) (words_of_sum verifier) zec_magic refl,
          )
          (ap (λ b. ok (if b then matches else bad)) same)

    verify_embedded-sealed : verify_embedded h (sealed front) verifier crypt ≡ ok matches
    unfolding verify_embedded eck_order
    verify_embedded-sealed =
        let size : length (sealed front) ≡ length front + 40 = length-laid front eck_words in
        let long : ltb (length (sealed front)) eck_size ≡ false = ground (arith, size) in
        let eck : length (sealed front) - eck_size ≡ length front = omega (arith, size) in
        let raw : u64_at little (sealed front) (length (sealed front) - eck_size) ≡ some zec_magic =
          ap (u64_at little (sealed front)) (eck ∙ omega arith)
          ∙ word-sealed 0 zec_magic 0 refl refl in
        rw (long, raw)
          (ap (λ n. verify_in h (sealed front) n verifier crypt little) eck ∙ verify_in-sealed)

-- What is sealed is verified: a buffer of 40 bytes at least is sealed without a change in front of
-- its last 40 bytes, and verifies with the same verifier and folding, whatever the hash is, as long
-- as the words of its digests are u64.
pub seal-verify :
    (h : Hashes) (buf : List ℕ) (verifier : Sum) (crypt : Bool)
    → eck_size ≤ length buf
    → ((bytes : List ℕ) → All IsU64 (words_of_sum (stored_sum crypt (sha256_words h bytes))))
    → (out : List ℕ) × (seal_embedded h buf verifier crypt ≡ ok out)
      × (length out ≡ length buf)
      × (take (length buf - eck_size) out ≡ take (length buf - eck_size) buf)
      × (verify_embedded h out verifier crypt ≡ ok matches)
seal-verify h buf verifier crypt long words =
    let front = take (length buf - eck_size) buf in
    let at : length front ≡ length buf - eck_size =
      length-take (length buf - eck_size) buf ∙ omega (arith, long) in
    (
      sealed h verifier crypt front,
      seal_embedded-sealed h verifier crypt buf long,
      length-laid front _ ∙ omega (arith, at, long),
      ap (λ n. take n (sealed h verifier crypt front)) (sym at) ∙ take-append front _,
      verify_embedded-sealed h verifier crypt front (words _),
    )
