-- ===== src/Ondisk/Checksum/Block.antt =====
-- Verifying a block against its pointer.
use zvolrescue.Prelude.{ℕ}
use zvolrescue.Prelude.{◌≡◌, refl, ap, ◌≢◌, ◌↔◌, inl, inr, arith}
use zvolrescue.Prelude.{Bool, true, false, Option, none, some}
use zvolrescue.Prelude.{List}
use zvolrescue.Prelude.{Bool-cases, Option-cases}
use mathlib.Core.Path.{subst}
use Prim.Native.Nat.{bit_xor}
use zvolrescue.Ondisk.Bytes.{Endian, big, word}
use zvolrescue.Ondisk.Codes.{
  Checksum, unsummed, no_parity, fletcher2, fletcher4, sha256, sha512, skein, edonr, blake3,
  dedup_capable,
}
use zvolrescue.Ondisk.Checksum.{
  Sum, Hashes, compute_salted, digest_words, verified, same_sum, is_off, compare_sums, verify_block,
}
use zvolrescue.Ondisk.Checksum.Fletcher.{
  sums_of_quads, sums_of_columns, fletcher2_sum_lem, fletcher4_sum_lem,
}

-- The four words of a digest of 32 bytes.
abbrev words_in : Endian → List ℕ → Sum
words_in e digest = (word e digest 0, word e digest 8, word e digest 16, word e digest 24)

-- The sum that each algorithm has of a block: the running sums of the two Fletchers, the digest in
-- big-endian words for SHA-256, in the byte order of the block for the others, and with the salt,
-- if there is one, for the salted three. Every other kind has none.
pub data IsSum (h : Hashes) (bytes : List ℕ) (e : Endian)
    : Option (List ℕ) → Checksum → Sum → Type 0 where
  by_columns : {salt : Option (List ℕ)} → IsSum h bytes e salt fletcher2 (sums_of_columns e bytes)
  by_quads : {salt : Option (List ℕ)} → IsSum h bytes e salt fletcher4 (sums_of_quads e bytes)
  by_sha256 :
      {salt : Option (List ℕ)} → IsSum h bytes e salt sha256 (words_in big (h.sha256_digest bytes))
  by_sha512 :
      {salt : Option (List ℕ)}
      → IsSum h bytes e salt sha512 (words_in e (h.sha512_256_digest bytes))
  by_blake3 : (s : List ℕ) → IsSum h bytes e (some s) blake3 (words_in e (h.blake3_digest s bytes))
  by_skein : (s : List ℕ) → IsSum h bytes e (some s) skein (words_in e (h.skein_digest s bytes))
  by_edonr : (s : List ℕ) → IsSum h bytes e (some s) edonr (words_in e (h.edonr_digest s bytes))

-- What the stored sum has to agree with: all four words of the computed one, or under encryption,
-- in its first two words, the first two for SHA-256, SHA-512, Skein and BLAKE3, and the exclusive
-- or of the first two with the last two for every other kind.
abbrev pub Agrees : Checksum → Bool → Sum → Sum → Type 0
Agrees kind false c expected = c ≡ expected
Agrees sha256 true (a, b, c, d) (e0, e1, _, _) = (a ≡ e0) × (b ≡ e1)
Agrees sha512 true (a, b, c, d) (e0, e1, _, _) = (a ≡ e0) × (b ≡ e1)
Agrees skein true (a, b, c, d) (e0, e1, _, _) = (a ≡ e0) × (b ≡ e1)
Agrees blake3 true (a, b, c, d) (e0, e1, _, _) = (a ≡ e0) × (b ≡ e1)
Agrees _ true (a, b, c, d) (e0, e1, _, _) = (bit_xor a c ≡ e0) × (bit_xor b d ≡ e1)

compute_salted-some :
    {h : Hashes} {bytes : List ℕ} {e : Endian} {salt : Option (List ℕ)} {kind : Checksum} {c : Sum}
    → IsSum h bytes e salt kind c
    → compute_salted h kind bytes e salt ≡ some c
unfolding compute_salted digest_words
compute_salted-some {bytes = bytes} {e = e} by_columns = ap some (fletcher2_sum_lem bytes e)
compute_salted-some {bytes = bytes} {e = e} by_quads = ap some (fletcher4_sum_lem bytes e)
compute_salted-some by_sha256 = refl
compute_salted-some by_sha512 = refl
compute_salted-some (by_blake3 s) = refl
compute_salted-some (by_skein s) = refl
compute_salted-some (by_edonr s) = refl

-- A sum there is is the one that was computed.
moved :
    {h : Hashes} {bytes : List ℕ} {e : Endian} {salt : Option (List ℕ)} {kind : Checksum}
    {d c : Sum}
    → IsSum h bytes e salt kind d
    → compute_salted h kind bytes e salt ≡ some c
    → IsSum h bytes e salt kind c
moved {h} {bytes} {e} {salt} {kind} {d} {c} it found =
    let same : d ≡ c = cc (compute_salted-some it, found) in
    subst (λ x. IsSum h bytes e salt kind x) same it

compute_salted-IsSum :
    (h : Hashes) (bytes : List ℕ) (e : Endian) (salt : Option (List ℕ)) (kind : Checksum) (c : Sum)
    → compute_salted h kind bytes e salt ≡ some c
    → IsSum h bytes e salt kind c
unfolding compute_salted
compute_salted-IsSum h bytes e salt fletcher2 c found = moved by_columns found
compute_salted-IsSum h bytes e salt fletcher4 c found = moved by_quads found
compute_salted-IsSum h bytes e salt sha256 c found = moved by_sha256 found
compute_salted-IsSum h bytes e salt sha512 c found = moved by_sha512 found
compute_salted-IsSum h bytes e (some s) blake3 c found = moved (by_blake3 s) found
compute_salted-IsSum h bytes e (some s) skein c found = moved (by_skein s) found
compute_salted-IsSum h bytes e (some s) edonr c found = moved (by_edonr s) found
compute_salted-IsSum h bytes e none blake3 c found = cc found
compute_salted-IsSum h bytes e none skein c found = cc found
compute_salted-IsSum h bytes e none edonr c found = cc found
compute_salted-IsSum h bytes e salt _ c found = cc found

same_sum_iff : (c e : Sum) → (same_sum c e ≡ true) ↔ (c ≡ e)
same_sum_iff (a, b, c, d) (a', b', c', d') = ground arith

pair_iff : (a b e0 e1 : ℕ) → (same_sum (a, b, 0, 0) (e0, e1, 0, 0) ≡ true) ↔ ((a ≡ e0) × (b ≡ e1))
pair_iff a b e0 e1 = ground arith

kept_iff :
    (kind : Checksum) (c expected : Sum)
    → (compare_sums kind (some c) expected true ≡ verified) ↔ Agrees kind true c expected
unfolding compare_sums dedup_capable
kept_iff sha256 (a, b, c, d) (e0, e1, _, _) = ground arith
kept_iff sha512 (a, b, c, d) (e0, e1, _, _) = ground arith
kept_iff skein (a, b, c, d) (e0, e1, _, _) = ground arith
kept_iff blake3 (a, b, c, d) (e0, e1, _, _) = ground arith
kept_iff _ (a, b, c, d) (e0, e1, _, _) = ground arith

compare_sums_iff :
    (kind : Checksum) (c expected : Sum) (crypt : Bool)
    → (compare_sums kind (some c) expected crypt ≡ verified) ↔ Agrees kind crypt c expected
unfolding compare_sums
compare_sums_iff kind c expected false = elim (Bool-cases (same_sum c expected)) [
  | inl same ↦ rw same (λ _. (same_sum_iff c expected).0 same, λ _. refl)
  | inr other ↦ rw other (λ h. cc, λ h. cc (other, (same_sum_iff c expected).1 h))
]
compare_sums_iff kind c expected true = kept_iff kind c expected

is_off_lem : (kind : Checksum) → kind ≢ unsummed → kind ≢ no_parity → is_off kind ≡ false
is_off_lem unsummed on named = absurd (on refl)
is_off_lem no_parity on named = absurd (named refl)
is_off_lem _ on named = refl

-- A block whose pointer names a checksum is verified exactly when it has a sum by that algorithm,
-- the iterated running sums of a Fletcher or the words of another's digest, with the salt where one
-- is needed, and the stored sum agrees with it: in all four words, or in an encrypted dataset,
-- where words 2 and 3 hold the MAC, in the first two, after the last two of the computed sum are
-- folded into these by exclusive or, unless it is SHA-256, SHA-512, Skein or BLAKE3.
pub verify_block_iff :
    (h : Hashes) (kind : Checksum) (bytes : List ℕ) (e : Endian) (expected : Sum)
    (salt : Option (List ℕ)) (crypt : Bool)
    → kind ≢ unsummed
    → kind ≢ no_parity
    → (verify_block h kind bytes e expected salt crypt ≡ verified)
      ↔ ((c : Sum) × IsSum h bytes e salt kind c × Agrees kind crypt c expected)
unfolding verify_block compare_sums
verify_block_iff h kind bytes e expected salt crypt on named =
    rw (is_off_lem kind on named) (elim (Option-cases (compute_salted h kind bytes e salt)) [
      | inl missing ↦ rw missing (λ v. cc, λ (c, it, agrees). cc (compute_salted-some it, missing))
      | inr (c, found) ↦ rw found (
        λ v. (
          c,
          compute_salted-IsSum h bytes e salt kind c found,
          (compare_sums_iff kind c expected crypt).0 v,
        ),
        λ (d, it, agrees).
            let same : d ≡ c = cc (compute_salted-some it, found) in
            (compare_sums_iff kind c expected crypt).1
              (subst (λ x. Agrees kind crypt x expected) same agrees),
      )
    ])
