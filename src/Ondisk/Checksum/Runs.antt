-- ===== src/Ondisk/Checksum/Runs.antt =====
-- Tests and examples of the checksums.
use zvolrescue.Prelude.{ℕ, ◌+◌, ◌-◌, ◌*◌, ◌%◌}
use zvolrescue.Prelude.{◌≡◌, refl, ◌↔◌, arith}
use zvolrescue.Prelude.{true, false, none}
use zvolrescue.Prelude.{List, [], ◌∷◌, ◌++◌, length, take, replicate, All}
use zvolrescue.Prelude.{ok}
use zvolrescue.Ondisk.Bytes.{little, IsU64}
use zvolrescue.Ondisk.Codes.{fletcher4}
use zvolrescue.Ondisk.BlkPtr.{eck_size}
use zvolrescue.Ondisk.Checksum.{
  Sum, Hashes, sha256_words, fletcher2_sum, fletcher4_sum, compute_salted, verified, verify_block,
  matches, missing, words_of_sum, stored_sum, verify_embedded, verify_label, seal_embedded,
}
use zvolrescue.Ondisk.Checksum.Block.{IsSum, Agrees, verify_block_iff}
use zvolrescue.Ondisk.Checksum.Embedded.{seal-verify}

-- A digest that tells the buffers of the tests apart.
weight : List ℕ → ℕ
weight [] = 7
weight (b ∷ bs) = (b + 3 * weight bs) % 251

abbrev small_digest : List ℕ → List ℕ
unfolding weight
small_digest bytes = replicate 7 0 ++ ((weight bytes % 251) ∷ replicate 24 0)

abbrev small_hashes : Hashes
small_hashes = record {
  sha256_digest = small_digest;
  sha512_256_digest = small_digest;
  blake3_digest = λ salt bytes. small_digest (salt ++ bytes);
  skein_digest = λ salt bytes. small_digest (salt ++ bytes);
  edonr_digest = λ salt bytes. small_digest (salt ++ bytes);
}

abbrev block : List ℕ
block = 1 ∷ 0 ∷ 0 ∷ 0 ∷ 2 ∷ 0 ∷ 0 ∷ 0 ∷ 3 ∷ 0 ∷ 0 ∷ 0 ∷ 4 ∷ 0 ∷ 0 ∷ 0 ∷ []

fletcher4_test : fletcher4_sum block little ≡ (10, 20, 35, 56)
unfolding fletcher4_sum
fletcher4_test = refl

fletcher2_test : fletcher2_sum block little ≡ (0x200000001, 0x400000003, 0x200000001, 0x400000003)
unfolding fletcher2_sum
fletcher2_test = refl

verify_block_iff_example :
    (verify_block small_hashes fletcher4 block little (41, 44, 9, 9) none true ≡ verified) ↔ (
      (c : Sum) × IsSum small_hashes block little none fletcher4 c
      × Agrees fletcher4 true c (41, 44, 9, 9))
verify_block_iff_example =
    verify_block_iff small_hashes fletcher4 block little (41, 44, 9, 9) none true (λ same. cc same)
      (λ same. cc same)

-- The words 10, 20, 35 and 56 fold to 41 and 44.
folded_test : verify_block small_hashes fletcher4 block little (41, 44, 9, 9) none true ≡ verified
unfolding verify_block compute_salted fletcher4_sum
folded_test = refl

abbrev label_buf : List ℕ
label_buf = block ++ replicate 40 0

small_digest-AreU64 :
    (bytes : List ℕ) → All IsU64 (words_of_sum (stored_sum false (sha256_words small_hashes bytes)))
unfolding sha256_words small_digest
small_digest-AreU64 bytes = (omega arith, (omega arith, (omega arith, (omega arith, tt))))

seal-verify_example :
    (out : List ℕ) × (seal_embedded small_hashes label_buf (4096, 0, 0, 0) false ≡ ok out)
    × (length out ≡ length label_buf)
    × (take (length label_buf - eck_size) out ≡ take (length label_buf - eck_size) label_buf)
    × (verify_embedded small_hashes out (4096, 0, 0, 0) false ≡ ok matches)
seal-verify_example =
    seal-verify small_hashes label_buf (4096, 0, 0, 0) false (omega arith) small_digest-AreU64

-- A label that was never written has no checksum.
missing_test : verify_label small_hashes label_buf 4096 ≡ ok missing
unfolding verify_label
missing_test = refl
