-- ===== src/Ondisk/Compress/Runs.antt =====
-- Tests and examples of the decompressors.
use zvolrescue.Prelude.{ℕ}
use zvolrescue.Prelude.{◌≡◌, refl, arith}
use zvolrescue.Prelude.{true, some}
use zvolrescue.Prelude.{List, [], ◌∷◌, take, drop, replicate, All}
use zvolrescue.Prelude.{ok, err}
use zvolrescue.Ondisk.Codes.{lzjb}
use zvolrescue.Ondisk.Compress.{
  Decoders, corrupt, before_start, size_mismatch, copy_match, lzjb_decode, zle_decode, lz4_decode,
  decompress,
}
use zvolrescue.Ondisk.Compress.Sizes.{IsSized}
use zvolrescue.Ondisk.Compress.Zle.{
  ZleRun, literals, zeros, IsRun, expand_runs, encode_runs, zle_decode-encode_runs,
}
use zvolrescue.Ondisk.Compress.Total.{decompress_total}

-- Decoders of streams that are stored as they are.
abbrev stored : Decoders
stored = record {
  lz4_block = λ body lsize. some body;
  zlib_read = λ src n. some (take n src);
  zstd_opens = λ frame. true;
  zstd_read = λ frame n. some (take n (drop 4 frame));
}

-- A literal and a match of 11 bytes, one byte back.
abbrev lzjb_stream : List ℕ
lzjb_stream = 2 ∷ 97 ∷ 32 ∷ 1 ∷ []

lzjb_test : lzjb_decode lzjb_stream 12 ≡ ok (replicate 12 97)
unfolding lzjb_decode
lzjb_test = refl

lzjb_before_start_test : lzjb_decode (1 ∷ 32 ∷ 5 ∷ []) 8 ≡ err (corrupt before_start)
unfolding lzjb_decode
lzjb_before_start_test = refl

zle_test : zle_decode (1 ∷ 7 ∷ 8 ∷ 66 ∷ []) 5 ≡ ok (7 ∷ 8 ∷ 0 ∷ 0 ∷ 0 ∷ [])
unfolding zle_decode
zle_test = refl

zle_short_test : zle_decode (1 ∷ 7 ∷ 8 ∷ []) 5 ≡ err (size_mismatch 5 2)
unfolding zle_decode
zle_short_test = refl

lz4_test : lz4_decode stored (0 ∷ 0 ∷ 0 ∷ 2 ∷ 5 ∷ 6 ∷ 7 ∷ []) 2 ≡ ok (5 ∷ 6 ∷ [])
unfolding lz4_decode
lz4_test = refl

decompress_total_example : IsSized 12 (decompress stored lzjb lzjb_stream 12)
decompress_total_example = decompress_total stored lzjb lzjb_stream 12

abbrev two_runs : List ZleRun
two_runs = literals (7 ∷ 8 ∷ []) ∷ zeros 3 ∷ []

two_runs-IsRun : All IsRun two_runs
unfolding IsRun
two_runs-IsRun = omega arith

zle_decode-encode_runs_example : zle_decode (encode_runs two_runs) 5 ≡ ok (expand_runs two_runs)
zle_decode-encode_runs_example = zle_decode-encode_runs two_runs two_runs-IsRun

abbrev copied : List ℕ
copied = 1 ∷ 2 ∷ 1 ∷ 2 ∷ 1 ∷ []

copied_test : copy_match 3 0 (1 ∷ 2 ∷ []) ≡ ok copied
unfolding copy_match
copied_test = refl
