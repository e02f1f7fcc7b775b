-- ===== src/Ondisk/Checksum.antt =====
-- crates/zfs-ondisk/src/checksum.rs: block checksums, and the checksums embedded in labels and gang
-- headers. The hash functions are a parameter.
pub mod Embedded
pub mod Block
mod Fletcher
mod Runs
use zvolrescue.Prelude.{ℕ, zero, suc, ◌+◌, ◌-◌, ◌*◌, ◌/◌, ◌%◌, ◌^◌, ◌≤◌, ◌<◌, min, max}
use zvolrescue.Prelude.{◌≡◌, refl, sym, ap, ◌∙◌, ◌≢◌, ◌↔◌, ◌⊎◌, inl, inr, arith}
use zvolrescue.Prelude.{Bool, true, false, not, ◌&&◌, ◌||◌, Option, none, some}
use zvolrescue.Prelude.{List, [], ◌∷◌, ◌++◌, map, length, get_elem?, take, drop, replicate, All}
use zvolrescue.Prelude.{ltb, leb, ◌==◌, if◌then◌else◌, Bool-cases, Option-cases}
use zvolrescue.Prelude.{
  ltb→lt, lt→ltb, le→ltb, leb→le, ==_iff, length-append, length-take, length-drop,
}
use zvolrescue.Prelude.{
  length-replicate, take-append, drop-append, get_elem?-some, get_elem?_lt, get_elem?-append,
  get_elem?-drop, drop-drop, get_elem?-front, All-append,
}
use zvolrescue.Prelude.{u64_mod, u64_max, saturating_add, checked_add, checked_mul, wrapping_mul}
use zvolrescue.Prelude.{shl64, shr64, low_bits, div_ceil, add64, sub64}
use zvolrescue.Prelude.{Result, ok, err, panic, stuck, ◌>>=◌, ok_or, expect, Returns}
use mathlib.Core.Option
use Prim.Native.Nat.{bit_xor}
use zvolrescue.Ondisk.Bytes.{Endian, little, big, u64_at, word, from_bytes, to_bytes, swap_bytes}
use zvolrescue.Ondisk.BlkPtr.{eck_size}
use zvolrescue.Ondisk.Codes.{
  Checksum, unsummed, no_parity, fletcher2, fletcher4, sha256, sha512, skein, edonr, blake3,
  dedup_capable,
}

-- Four words, `[u64; 4]`.
abbrev pub Sum : Type 0
Sum = ℕ × ℕ × ℕ × ℕ

-- The digests of the crates sha2 and blake3, of src/skein.rs and of the crate edonr: 32 bytes, of
-- the data or of the salt and the data.
pub record Hashes : Type 0 where
  pub sha256_digest : List ℕ → List ℕ
  pub sha512_256_digest : List ℕ → List ℕ
  pub blake3_digest : List ℕ → List ℕ → List ℕ
  pub skein_digest : List ℕ → List ℕ → List ℕ
  pub edonr_digest : List ℕ → List ℕ → List ℕ

-- `digest_words` and `native_words`.
unfoldable pub digest_words : Endian → List ℕ → Sum
unfolding from_bytes
digest_words e digest = (word e digest 0, word e digest 8, word e digest 16, word e digest 24)

abbrev pub sha256_words : Hashes → List ℕ → Sum
unfolding digest_words
sha256_words h bytes = digest_words big (h.sha256_digest bytes)

-- A round of `fletcher2`.
abbrev pub fletcher2_round : ℕ → ℕ → Sum → Sum
fletcher2_round w0 w1 (a0, a1, b0, b1) =
    (add64 a0 w0, add64 a1 w1, add64 b0 (add64 a0 w0), add64 b1 (add64 a1 w1))

-- A round of `fletcher4`.
abbrev pub fletcher4_round : ℕ → Sum → Sum
fletcher4_round w (a, b, c, d) =
    let a' = add64 a w in
    let b' = add64 b a' in let c' = add64 c b' in let d' = add64 d c' in (a', b', c', d')

-- The loop of `fletcher4` over chunks of four bytes.
unfoldable pub fletcher4_loop : List ℕ → Endian → Sum → Sum
unfolding from_bytes
fletcher4_loop (p ∷ q ∷ r ∷ s ∷ rest) e acc =
    fletcher4_loop rest e (fletcher4_round (from_bytes e (p ∷ q ∷ r ∷ s ∷ [])) acc)
fletcher4_loop _ e acc = acc

unfoldable pub fletcher4_sum : List ℕ → Endian → Sum
unfolding fletcher4_loop
fletcher4_sum bytes e = fletcher4_loop bytes e (0, 0, 0, 0)

-- The loop of `fletcher2` over chunks of sixteen bytes.
unfoldable pub fletcher2_loop : ℕ → List ℕ → Endian → Sum → Sum
unfolding from_bytes
fletcher2_loop zero bytes e acc = acc
fletcher2_loop (suc chunks) bytes e acc =
    fletcher2_loop chunks (drop 16 bytes) e
      (fletcher2_round (from_bytes e (take 8 bytes)) (from_bytes e (take 8 (drop 8 bytes))) acc)

unfoldable pub fletcher2_sum : List ℕ → Endian → Sum
unfolding fletcher2_loop
fletcher2_sum bytes e = fletcher2_loop (length bytes / 16) bytes e (0, 0, 0, 0)

-- `compute_salted`.
unfoldable pub compute_salted : Hashes → Checksum → List ℕ → Endian → Option (List ℕ) → Option Sum
unfolding digest_words fletcher2_sum fletcher4_sum
compute_salted h fletcher2 bytes e salt = some (fletcher2_sum bytes e)
compute_salted h fletcher4 bytes e salt = some (fletcher4_sum bytes e)
compute_salted h sha256 bytes e salt = some (sha256_words h bytes)
compute_salted h sha512 bytes e salt = some (digest_words e (h.sha512_256_digest bytes))
compute_salted h blake3 bytes e salt =
    Option.map (λ s. digest_words e (h.blake3_digest s bytes)) salt
compute_salted h skein bytes e salt = Option.map (λ s. digest_words e (h.skein_digest s bytes)) salt
compute_salted h edonr bytes e salt = Option.map (λ s. digest_words e (h.edonr_digest s bytes)) salt
compute_salted h _ bytes e salt = none

pub data Verify : Type 0 where
  verified mismatch not_checked no_algorithm : Verify

abbrev pub same_sum : Sum → Sum → Bool
same_sum (a, b, c, d) (a', b', c', d') = a == a' && b == b' && c == c' && d == d'

-- What is compared for a block of an encrypted dataset: words 2 and 3 are left out, after they are
-- folded into the others unless the algorithm is dedup-capable.
abbrev pub fold_sum : Bool → Sum → ℕ × ℕ
fold_sum true (a, b, c, d) = (a, b)
fold_sum false (a, b, c, d) = (bit_xor a c, bit_xor b d)

abbrev pub is_off : Checksum → Bool
is_off unsummed = true
is_off no_parity = true
is_off _ = false

unfoldable pub compare_sums : Checksum → Option Sum → Sum → Bool → Verify
unfolding dedup_capable
compare_sums kind none expected crypt = no_algorithm
compare_sums kind (some c) expected true =
    let (c0, c1) = fold_sum (dedup_capable kind) c in
    let (e0, e1) = fold_sum true expected in
    if same_sum (c0, c1, 0, 0) (e0, e1, 0, 0) then verified else mismatch
compare_sums kind (some c) expected false = if same_sum c expected then verified else mismatch

-- `verify_block`.
unfoldable pub verify_block :
    Hashes → Checksum → List ℕ → Endian → Sum → Option (List ℕ) → Bool → Verify
unfolding compute_salted compare_sums
verify_block h kind bytes e expected salt crypt =
    if is_off kind
    then not_checked
    else compare_sums kind (compute_salted h kind bytes e salt) expected crypt

pub data ChecksumStatus : Type 0 where
  matches bad missing : ChecksumStatus

-- `ZEC_MAGIC`.
abbrev pub zec_magic : ℕ
zec_magic = 0x0210da7ab10c7a11

-- `buf[at..at + bytes.len()].copy_from_slice(&bytes)`.
unfoldable pub splice : ℕ → List ℕ → List ℕ → List ℕ
splice at bytes buf = take at buf ++ (bytes ++ drop (at + length bytes) buf)

-- The words written one behind the other.
unfoldable pub put_words : Endian → ℕ → List ℕ → List ℕ → List ℕ
unfolding splice to_bytes
put_words e at [] buf = buf
put_words e at (w ∷ ws) buf = put_words e (at + 8) ws (splice at (to_bytes e w) buf)

abbrev pub words_of_sum : Sum → List ℕ
words_of_sum (a, b, c, d) = a ∷ b ∷ c ∷ d ∷ []

-- The digest as it is stored: folded for a block of an encrypted dataset.
abbrev pub stored_sum : Bool → Sum → Sum
stored_sum false s = s
stored_sum true (a, b, c, d) = (bit_xor a c, bit_xor b d, 0, 0)

-- The byte order of the embedded checksum, if its magic is there.
unfoldable pub eck_order : ℕ → Option Endian
unfolding swap_bytes
eck_order raw =
    if raw == zec_magic then some little else if swap_bytes raw == zec_magic then some big else none

-- `verify_embedded_impl` behind the test of the magic.
unfoldable pub verify_in :
    Hashes → List ℕ → ℕ → Sum → Bool → Endian → Result ChecksumStatus (Unit {0})
unfolding put_words u64_at
verify_in h buf eck verifier crypt e = do
  w0 ← expect (u64_at e buf (eck + 8))
  w1 ← expect (u64_at e buf (eck + 16))
  w2 ← expect (u64_at e buf (eck + 24))
  w3 ← expect (u64_at e buf (eck + 32))
  let tmp = put_words e (eck + 8) (words_of_sum verifier) buf
  ok (if same_sum (stored_sum crypt (sha256_words h tmp)) (w0, w1, w2, w3) then matches else bad)

-- `verify_embedded_impl`.
unfoldable pub verify_embedded : Hashes → List ℕ → Sum → Bool → Result ChecksumStatus (Unit {0})
unfolding verify_in eck_order u64_at
verify_embedded h buf verifier crypt = if ltb (length buf) eck_size then ok missing else (do
  let eck = length buf - eck_size
  raw ← expect (u64_at little buf eck)
  elim (eck_order raw) [ none ↦ ok missing | some e ↦ verify_in h buf eck verifier crypt e ])

-- `verify_label`, `verify_gang_header` and `verify_gang_header_crypt`.
unfoldable pub verify_label : Hashes → List ℕ → ℕ → Result ChecksumStatus (Unit {0})
unfolding verify_embedded
verify_label h buf vdev_offset = verify_embedded h buf (vdev_offset, 0, 0, 0) false

unfoldable pub verify_gang_header : Hashes → List ℕ → ℕ → ℕ → ℕ → Result ChecksumStatus (Unit {0})
unfolding verify_embedded
verify_gang_header h buf vdev offset birth = verify_embedded h buf (vdev, offset, birth, 0) false

unfoldable pub verify_gang_header_crypt :
    Hashes → List ℕ → ℕ → ℕ → ℕ → Result ChecksumStatus (Unit {0})
unfolding verify_embedded
verify_gang_header_crypt h buf vdev offset birth =
    verify_embedded h buf (vdev, offset, birth, 0) true

-- `seal_embedded_impl`: the magic, the verifier, then the digest over it. `panic` is its assertion.
unfoldable pub seal_embedded : Hashes → List ℕ → Sum → Bool → Result (List ℕ) (Unit {0})
unfolding put_words
seal_embedded h buf verifier crypt = if ltb (length buf) eck_size then panic else (do
  let eck = length buf - eck_size
  let marked = put_words little eck (zec_magic ∷ words_of_sum verifier) buf
  ok (put_words little (eck + 8) (words_of_sum (stored_sum crypt (sha256_words h marked))) marked))
