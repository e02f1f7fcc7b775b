-- ===== src/Ondisk/Compress/Total.antt =====
-- `decompress` returns for every input, with exactly the size asked for.
use zvolrescue.Prelude.{ℕ, ◌-◌, min}
use zvolrescue.Prelude.{refl, inl, inr, arith}
use zvolrescue.Prelude.{List, ◌++◌, length, take, replicate}
use zvolrescue.Prelude.{ltb, Bool-cases, Option-cases}
use zvolrescue.Prelude.{length-append, length-take}
use zvolrescue.Prelude.{length-replicate}
use zvolrescue.Prelude.{add64}
use zvolrescue.Ondisk.Bytes.{slice, from_be_bytes}
use zvolrescue.Ondisk.Codes.{Compression, off, empty, lzjb, gzip, zle, lz4, zstd, unknown}
use zvolrescue.Ondisk.Compress.{
  Decoders, with_magic, lz4_decode, gzip_decode, zstd_decode, decompress,
}
use zvolrescue.Ondisk.Compress.Sizes.{IsSized, check_size-IsSized}
use zvolrescue.Ondisk.Compress.Lzjb.{lzjb_decode-IsSized}
use zvolrescue.Ondisk.Compress.Zle.{zle_decode-IsSized}

module _ (ext : Decoders) (src : List ℕ) (lsize : ℕ) where
  lz4_decode-IsSized : IsSized lsize (lz4_decode ext src lsize)
  unfolding lz4_decode
  lz4_decode-IsSized = elim (Bool-cases (ltb (length src) 4)) [
    | inl short ↦ rw short (inr (_, refl))
    | inr long ↦ rw long (elim (Option-cases (slice src 4 (from_be_bytes (take 4 src)))) [
      | inl e ↦ rw e (inr (_, refl))
      | inr (body, e) ↦ rw e (elim (Option-cases (ext.lz4_block body lsize)) [
        | inl bad ↦ rw bad (inr (_, refl))
        | inr (out, good) ↦ rw good (check_size-IsSized out lsize)
      ])
    ])
  ]

  gzip_decode-IsSized : IsSized lsize (gzip_decode ext src lsize)
  unfolding gzip_decode
  gzip_decode-IsSized = elim (Option-cases (ext.zlib_read src (add64 lsize 1))) [
    | inl bad ↦ rw bad (inr (_, refl))
    | inr (out, good) ↦ rw good (check_size-IsSized out lsize)
  ]

  zstd_decode-IsSized : IsSized lsize (zstd_decode ext src lsize)
  unfolding zstd_decode
  zstd_decode-IsSized = elim (Bool-cases (ltb (length src) 8)) [
    | inl short ↦ rw short (inr (_, refl))
    | inr long ↦ rw long (elim (Option-cases (slice src 8 (from_be_bytes (take 4 src)))) [
      | inl e ↦ rw e (inr (_, refl))
      | inr (frame, e) ↦ rw e (elim (Bool-cases (ext.zstd_opens (with_magic frame))) [
        | inr shut ↦ rw shut (inr (_, refl))
        | inl opens ↦
            rw opens (elim (Option-cases (ext.zstd_read (with_magic frame) (add64 lsize 1))) [
              | inl bad ↦ rw bad (inr (_, refl))
              | inr (out, good) ↦ rw good (check_size-IsSized out lsize)
            ])
      ])
    ])
  ]

-- For every compression, input and size, whatever the other crates' decoders answer, decompressing
-- returns: it neither panics nor runs on, and a result has exactly the size asked for.
pub decompress_total :
    (ext : Decoders) (kind : Compression) (src : List ℕ) (lsize : ℕ)
    → IsSized lsize (decompress ext kind src lsize)
unfolding decompress
decompress_total ext off src lsize =
    let v = take (min (length src) lsize) src in
    inl (
      v ++ replicate (lsize - length v) 0,
      refl,
      omega (
        arith,
        length-append v (replicate (lsize - length v) 0),
        length-replicate {A = ℕ} (lsize - length v) 0,
        length-take (min (length src) lsize) src,
      ),
    )
decompress_total ext empty src lsize = inl (replicate lsize 0, refl, length-replicate lsize 0)
decompress_total ext lzjb src lsize = lzjb_decode-IsSized src lsize
decompress_total ext zle src lsize = zle_decode-IsSized src lsize
decompress_total ext lz4 src lsize = lz4_decode-IsSized ext src lsize
decompress_total ext (gzip _) src lsize = gzip_decode-IsSized ext src lsize
decompress_total ext zstd src lsize = zstd_decode-IsSized ext src lsize
decompress_total ext (unknown c) src lsize = inr (_, refl)
