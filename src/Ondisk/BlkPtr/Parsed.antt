-- ===== src/Ondisk/BlkPtr/Parsed.antt =====
-- What `BlkPtr::parse` makes of a buffer.
use zvolrescue.Prelude.{ℕ, ◌%◌, ◌^◌, ◌≤◌, ◌<◌}
use zvolrescue.Prelude.{◌≡◌, refl, sym, ap, ◌⊎◌, inl, inr, arith}
use zvolrescue.Prelude.{Bool, true, false, not, ◌&&◌, none, some}
use zvolrescue.Prelude.{List, length, take}
use zvolrescue.Prelude.{ltb, ◌==◌, Bool-cases}
use zvolrescue.Prelude.{ltb→lt, lt→ltb, le→ltb}
use zvolrescue.Prelude.{ok, err}
use zvolrescue.Ondisk.Bytes.{Endian, truncated, word}
use zvolrescue.Ondisk.Bytes.Laws.{u64_at-some}
use zvolrescue.Ondisk.Dva.{no_dva, bits, is_empty, from_words}
use mathlib.Core.Path.{subst}
use zvolrescue.Ondisk.BlkPtr.{
  is_set, BlkPtr, ptr_size, pointer_of, parse, is_ciphertext, is_hole, uses_crypt, is_encrypted,
  logical_birth,
}

-- The pointer that stands at the start of a buffer.
abbrev pub pointer_in : Endian → List ℕ → BlkPtr
pointer_in e buf =
    pointer_of (word e buf 0) (word e buf 8) (word e buf 16) (word e buf 24) (word e buf 32)
      (word e buf 40) (word e buf 48) (word e buf 72) (word e buf 80) (word e buf 88)
      (word e buf 96) (word e buf 104) (word e buf 112) (word e buf 120) (take ptr_size buf)

-- A buffer parses exactly when it holds the 128 bytes; otherwise the error says how many it
-- holds. It never panics.
pub parse_total :
    (buf : List ℕ) (e : Endian)
    → ((length buf < ptr_size) × (parse buf e ≡ err (truncated ptr_size (length buf))))
      ⊎ ((ptr_size ≤ length buf) × (parse buf e ≡ ok (pointer_in e buf)))
unfolding parse
parse_total buf e = elim (Bool-cases (ltb (length buf) ptr_size)) [
  | inl short ↦ inl (ltb→lt _ _ short, rw short refl)
  | inr enough ↦
      let long : ptr_size ≤ length buf = ground (arith, enough) in
      inr (
        long,
        rw enough (
            rw (u64_at-some e buf 0 (omega (arith, long))) (
              rw (u64_at-some e buf 8 (omega (arith, long))) (
                rw (u64_at-some e buf 16 (omega (arith, long))) (
                  rw (u64_at-some e buf 24 (omega (arith, long))) (
                    rw (u64_at-some e buf 32 (omega (arith, long))) (
                      rw (u64_at-some e buf 40 (omega (arith, long))) (
                        rw (u64_at-some e buf 48 (omega (arith, long))) (
                          rw (u64_at-some e buf 72 (omega (arith, long))) (
                            rw (u64_at-some e buf 80 (omega (arith, long))) (
                              rw (u64_at-some e buf 88 (omega (arith, long))) (
                                rw (u64_at-some e buf 96 (omega (arith, long))) (
                                  rw (u64_at-some e buf 104 (omega (arith, long))) (
                                    rw (u64_at-some e buf 112 (omega (arith, long))) (
                                      rw (u64_at-some e buf 120 (omega (arith, long)))
                                        (refl))))))))))))))),
      )
]

-- A parsed pointer came from a buffer that is long enough.
pub parse_inv :
    (buf : List ℕ) (e : Endian) (p : BlkPtr)
    → parse buf e ≡ ok p
    → (ptr_size ≤ length buf) × (p ≡ pointer_in e buf)
parse_inv buf e p h = elim (parse_total buf e) [
  | inl (short, bad) ↦ absurd (cc (h, bad))
  | inr (long, good) ↦ (long, cc (h, good))
]

-- The sizes of a parsed pointer: an ordinary one counts whole sectors, from one to 2^25 bytes;
-- an embedded one is at least one byte, at most 2^25 logical and 128 physical bytes.
abbrev pub HasSizes : BlkPtr → Type 0
HasSizes p =
    (1 ≤ p.lsize)
    × (p.lsize ≤ 2 ^ 25)
    × (1 ≤ p.psize)
    × ((p.embedded ≡ true) → p.psize ≤ 128)
    × ((p.embedded ≡ false) → (p.lsize % 512 ≡ 0) × (p.psize % 512 ≡ 0) × (p.psize ≤ 2 ^ 25))

pointer_of-HasSizes : (e : Endian) (buf : List ℕ) → HasSizes (pointer_in e buf)
unfolding pointer_of
pointer_of-HasSizes e buf = elim (Bool-cases (is_set (word e buf 48) 39)) [
  | inl inline ↦
      rw inline (omega arith, omega arith, omega arith, λ _. omega arith, λ no. absurd (cc no))
  | inr plain ↦
      rw plain (omega arith, omega arith, omega arith, λ no. absurd (cc no), λ _. omega arith)
]

-- Every pointer that parses has sizes in the bounds of its kind, a level below 32 and a birth
-- below 2^63.
pub parse-HasSizes :
    (buf : List ℕ) (e : Endian) (p : BlkPtr)
    → parse buf e ≡ ok p
    → HasSizes p × (p.level < 32) × (p.birth < 2 ^ 63)
unfolding pointer_of
parse-HasSizes buf e p h =
    let (long, same) = parse_inv buf e p h in
    subst (λ q. HasSizes q × (q.level < 32) × (q.birth < 2 ^ 63)) (sym same)
      (pointer_of-HasSizes e buf, omega arith, omega arith)

is_empty-from_words : (w0 w1 : ℕ) → (w0 == 0 && w1 == 0) ≡ true → is_empty (from_words w0 w1) ≡ true
unfolding is_empty from_words
is_empty-from_words w0 w1 h =
    let a : w0 ≡ 0 = ground (arith, h) in let b : w1 ≡ 0 = ground (arith, h) in rw (a, b) refl

-- The tests of `is_encrypted` and those of the parser, over the truth of each.
asked :
    (a i z m l t : Bool)
    → (i ≡ false → z ≡ true → m ≡ true)
    → ((a && not i && not (not i && m)) && l && t) ≡ true
    → (a && not (not i && z) && not i && l && t) ≡ true
asked a i z m l t hole h = ground arith

-- What `is_encrypted` asks for is what the parser asked the words for.
is_ciphertext-is_encrypted :
    (w0 w1 w2 w3 w4 w5 w6 w9 w10 w11 w12 w13 w14 w15 : ℕ) (raw : List ℕ)
    → is_encrypted (pointer_of w0 w1 w2 w3 w4 w5 w6 w9 w10 w11 w12 w13 w14 w15 raw) ≡ true
    → is_ciphertext w0 w1 w6 ≡ true
unfolding pointer_of is_encrypted uses_crypt is_hole is_ciphertext
is_ciphertext-is_encrypted w0 w1 w2 w3 w4 w5 w6 w9 w10 w11 w12 w13 w14 w15 raw enc =
    asked (is_set w6 61) (is_set w6 39) (w0 == 0 && w1 == 0) _ (bits w6 56 5 == 0) _
      (λ plain zero_words. rw plain (is_empty-from_words w0 w1 zero_words)) enc

pointer_of-ciphertext :
    (w0 w1 w2 w3 w4 w5 w6 w9 w10 w11 w12 w13 w14 w15 : ℕ) (raw : List ℕ)
    → is_ciphertext w0 w1 w6 ≡ true
    → let p = pointer_of w0 w1 w2 w3 w4 w5 w6 w9 w10 w11 w12 w13 w14 w15 raw in
      (p.dva2 ≡ no_dva) × (p.fill < 2 ^ 32)
unfolding pointer_of
pointer_of-ciphertext w0 w1 w2 w3 w4 w5 w6 w9 w10 w11 w12 w13 w14 w15 raw c =
    elim (Bool-cases (is_set w6 39)) [
      | inl inline ↦ rw inline (refl, omega arith)
      | inr plain ↦ rw (plain, c) (refl, omega arith)
    ]

-- A parsed pointer that `is_encrypted` calls ciphertext was read as ciphertext: its third address
-- slot, which holds salt and IV, is empty, and its fill count has 32 bits.
pub parse-is_encrypted :
    (buf : List ℕ) (e : Endian) (p : BlkPtr)
    → parse buf e ≡ ok p
    → is_encrypted p ≡ true
    → (p.dva2 ≡ no_dva) × (p.fill < 2 ^ 32)
unfolding pointer_of
parse-is_encrypted buf e p h enc =
    let (long, same) = parse_inv buf e p h in
    subst (λ q. (q.dva2 ≡ no_dva) × (q.fill < 2 ^ 32)) (sym same)
      (pointer_of-ciphertext (word e buf 0) (word e buf 8) (word e buf 16) (word e buf 24)
        (word e buf 32) (word e buf 40) (word e buf 48) (word e buf 72) (word e buf 80)
        (word e buf 88) (word e buf 96) (word e buf 104) (word e buf 112) (word e buf 120)
        (take ptr_size buf)
        (is_ciphertext-is_encrypted (word e buf 0) (word e buf 8) (word e buf 16) (word e buf 24)
          (word e buf 32) (word e buf 40) (word e buf 48) (word e buf 72) (word e buf 80)
          (word e buf 88) (word e buf 96) (word e buf 104) (word e buf 112) (word e buf 120)
          (take ptr_size buf) (subst (λ q. is_encrypted q ≡ true) same enc)))

-- The birth that is read without parsing is that of the parsed pointer, and there is one exactly
-- when the buffer parses.
pub logical_birth-parse :
    (buf : List ℕ) (e : Endian)
    → ((n : ℕ) → parse buf e ≡ err (truncated ptr_size n) → logical_birth buf e ≡ none)
      × ((p : BlkPtr) → parse buf e ≡ ok p → logical_birth buf e ≡ some p.birth)
unfolding logical_birth pointer_of
logical_birth-parse buf e = elim (parse_total buf e) [
  | inl (short, bad) ↦ (λ n h. rw (lt→ltb _ _ short) refl, λ p h. absurd (cc (h, bad)))
  | inr (long, good) ↦
      let enough : ltb (length buf) ptr_size ≡ false = le→ltb _ _ long in
      (
        λ n h. absurd (cc (h, good)),
        λ p h.
            let (_, same) = parse_inv buf e p h in
            rw enough (
              rw (u64_at-some e buf 80 (omega (arith, long)))
                (ap (λ (q : BlkPtr). some q.birth) (sym same))),
      )
]
