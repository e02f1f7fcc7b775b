-- ===== src/Ondisk/Compress.antt =====
-- crates/zfs-ondisk/src/compress.rs: decompression of block payloads. A buffer is the list of its
-- bytes; the capacity that a vector is created with is not modelled.
pub mod Sizes
pub mod Lzjb
pub mod Zle
pub mod Total
mod Runs
use zvolrescue.Prelude.{ℕ, zero, suc, ◌+◌, ◌-◌, ◌*◌, ◌/◌, ◌%◌, ◌^◌, ◌≤◌, ◌<◌, min, max}
use zvolrescue.Prelude.{◌≡◌, refl, sym, ap, ◌∙◌, ◌≢◌, ◌↔◌, ◌⊎◌, inl, inr, arith}
use zvolrescue.Prelude.{Bool, true, false, not, ◌&&◌, ◌||◌, Option, none, some}
use zvolrescue.Prelude.{List, [], ◌∷◌, ◌++◌, map, length, get_elem?, take, drop, replicate, All}
use zvolrescue.Prelude.{ltb, leb, ◌==◌, if◌then◌else◌, Bool-cases, Option-cases}
use zvolrescue.Prelude.{ltb→lt, lt→ltb, leb→le, ==_iff, length-append, length-take, length-drop}
use zvolrescue.Prelude.{
  length-replicate, take-append, drop-append, get_elem?-some, get_elem?_lt, get_elem?-append,
  All-append,
}
use zvolrescue.Prelude.{u64_mod, u64_max, saturating_add, checked_add, checked_mul, wrapping_mul}
use zvolrescue.Prelude.{shl64, shr64, low_bits, div_ceil, add64, sub64}
use zvolrescue.Prelude.{Result, ok, err, panic, stuck, ◌>>=◌, ok_or, expect, Returns}
use zvolrescue.Ondisk.Bytes.{slice, from_be_bytes}
use zvolrescue.Ondisk.Codes.{Compression, off, empty, lzjb, gzip, zle, lz4, zstd, unknown}

-- The messages of `DecompressError::Corrupt`.
pub data Corruption : Type 0 where
  truncated_copymap truncated_match before_start truncated_literal truncated_run no_prefix :
      Corruption
  prefix_beyond bad_block bad_zlib no_header length_beyond bad_header bad_frame : Corruption

pub data DecompressError : Type 0 where
  unsupported : Compression → DecompressError
  corrupt : Corruption → DecompressError
  size_mismatch : (expected : ℕ) → (got : ℕ) → DecompressError

abbrev pub Output : Type 0
Output = Result (List ℕ) DecompressError

-- What the other crates do: `lz4_flex::block::decompress` with its size limit, the zlib reader of
-- `flate2` and the frame reader of `ruzstd`, each read to the end of what `take` lets through.
-- `zstd_opens` is whether the frame's header is accepted. `none` is their error.
pub record Decoders : Type 0 where
  pub lz4_block : List ℕ → ℕ → Option (List ℕ)
  pub zlib_read : List ℕ → ℕ → Option (List ℕ)
  pub zstd_opens : List ℕ → Bool
  pub zstd_read : List ℕ → ℕ → Option (List ℕ)

-- `check_size`.
unfoldable pub check_size : List ℕ → ℕ → Output
check_size out lsize =
    if length out == lsize then ok out else err (size_mismatch lsize (length out))

-- The bytes of a match: `n` bytes from `at` on, each read after those before it were written.
unfoldable pub copy_match : ℕ → ℕ → List ℕ → Output
copy_match zero at dst = ok dst
copy_match (suc n) at dst = do b ← expect (get_elem? dst at); copy_match n (at + 1) (dst ++ b ∷ [])

-- The rest of the loop of `lzjb`, from the state `s`, `copymap`, `copymask`, `dst` on.
abbrev pub LzjbNext : Type 0
LzjbNext = ℕ → ℕ → ℕ → List ℕ → Output

-- A match: `b0 >> 2` and three more bytes, `(b0 << 8 | b1) & 0x3ff` bytes back.
unfoldable pub lzjb_match : LzjbNext → List ℕ → ℕ → ℕ → ℕ → ℕ → List ℕ → Output
unfolding copy_match
lzjb_match next src lsize s copymap copymask dst = do
  b0 ← ok_or (get_elem? src s) (corrupt truncated_match)
  b1 ← ok_or (get_elem? src (s + 1)) (corrupt truncated_match)
  if low_bits (b0 * 256 + b1) 10 == 0 || ltb (length dst) (low_bits (b0 * 256 + b1) 10)
      then err (corrupt before_start)
      else do
        out ←
            copy_match (min (b0 / 4 + 3) (lsize - length dst))
              (length dst - low_bits (b0 * 256 + b1) 10) dst
        next (s + 2) copymap copymask out

unfoldable pub lzjb_literal : LzjbNext → List ℕ → ℕ → ℕ → ℕ → List ℕ → Output
lzjb_literal next src s copymap copymask dst = do
  b ← ok_or (get_elem? src s) (corrupt truncated_literal)
  next (s + 1) copymap copymask (dst ++ b ∷ [])

-- `copymap & copymask != 0`, where `copymask` is a power of two.
unfoldable pub lzjb_item : LzjbNext → List ℕ → ℕ → ℕ → ℕ → ℕ → List ℕ → Output
unfolding lzjb_match lzjb_literal
lzjb_item next src lsize s copymap copymask dst =
    if low_bits (copymap / copymask) 1 == 0
    then lzjb_literal next src s copymap copymask dst
    else lzjb_match next src lsize s copymap copymask dst

-- A round of the loop of `lzjb`.
unfoldable pub lzjb_round : LzjbNext → List ℕ → ℕ → ℕ → ℕ → ℕ → List ℕ → Output
unfolding lzjb_item
lzjb_round next src lsize s copymap copymask dst =
    if copymask * 2 == 256
    then (do
      fresh ← ok_or (get_elem? src s) (corrupt truncated_copymap)
      lzjb_item next src lsize (s + 1) fresh 1 dst)
    else lzjb_item next src lsize s copymap (copymask * 2) dst

unfoldable pub lzjb_loop : ℕ → List ℕ → ℕ → LzjbNext
unfolding lzjb_round
lzjb_loop zero src lsize s copymap copymask dst = if ltb (length dst) lsize then stuck else ok dst
lzjb_loop (suc rounds) src lsize s copymap copymask dst =
    if ltb (length dst) lsize
    then lzjb_round (lzjb_loop rounds src lsize) src lsize s copymap copymask dst
    else ok dst

-- `lzjb`. Every round writes a byte at least, so `lsize` rounds are enough.
unfoldable pub lzjb_decode : List ℕ → ℕ → Output
unfolding lzjb_loop
lzjb_decode src lsize = lzjb_loop lsize src lsize 0 0 128 []

-- A round of the loop of `zle` after its length byte, `src[s..s + take]` being a slice.
unfoldable pub zle_run : (ℕ → List ℕ → Output) → List ℕ → ℕ → ℕ → ℕ → List ℕ → Output
unfolding slice
zle_run next src lsize s len dst =
    if leb len 64
    then if ltb (length src) (s + len) then err (corrupt truncated_run) else (do
      bytes ← expect (slice src s (min len (lsize - length dst)))
      next (s + len) (dst ++ bytes))
    else next s (dst ++ replicate (min (len - 64) (lsize - length dst)) 0)

unfoldable pub zle_round : (ℕ → List ℕ → Output) → List ℕ → ℕ → ℕ → List ℕ → Output
unfolding zle_run
zle_round next src lsize s dst = do
  byte ← expect (get_elem? src s)
  zle_run next src lsize (s + 1) (1 + byte) dst

unfoldable pub zle_loop : ℕ → List ℕ → ℕ → ℕ → List ℕ → Output
unfolding zle_round
zle_loop zero src lsize s dst =
    if ltb s (length src) && ltb (length dst) lsize then stuck else ok dst
zle_loop (suc rounds) src lsize s dst =
    if ltb s (length src) && ltb (length dst) lsize
    then zle_round (zle_loop rounds src lsize) src lsize s dst
    else ok dst

-- `zle`. Every round reads a byte at least, so as many rounds as `src` has bytes are enough.
unfoldable pub zle_decode : List ℕ → ℕ → Output
unfolding zle_loop check_size
zle_decode src lsize = do dst ← zle_loop (length src) src lsize 0 []; check_size dst lsize

-- `lz4`.
unfoldable pub lz4_decode : Decoders → List ℕ → ℕ → Output
unfolding slice check_size from_be_bytes
lz4_decode ext src lsize = if ltb (length src) 4 then err (corrupt no_prefix) else (do
  body ← ok_or (slice src 4 (from_be_bytes (take 4 src))) (corrupt prefix_beyond)
  out ← ok_or (ext.lz4_block body lsize) (corrupt bad_block)
  check_size out lsize)

-- `gzip`.
unfoldable pub gzip_decode : Decoders → List ℕ → ℕ → Output
unfolding check_size
gzip_decode ext src lsize = do
  out ← ok_or (ext.zlib_read src (add64 lsize 1)) (corrupt bad_zlib)
  check_size out lsize

-- `ZSTD_MAGIC`.
abbrev pub zstd_magic : List ℕ
zstd_magic = 40 ∷ 181 ∷ 47 ∷ 253 ∷ []

-- `frame.starts_with(&magic)`.
unfoldable pub starts_with : List ℕ → List ℕ → Bool
starts_with [] frame = true
starts_with (m ∷ magic) [] = false
starts_with (m ∷ magic) (b ∷ frame) = m == b && starts_with magic frame

-- The frame with the magic put back.
unfoldable pub with_magic : List ℕ → List ℕ
unfolding starts_with
with_magic frame = if starts_with zstd_magic frame then frame else zstd_magic ++ frame

-- `zstd`.
unfoldable pub zstd_decode : Decoders → List ℕ → ℕ → Output
unfolding slice check_size from_be_bytes with_magic
zstd_decode ext src lsize = if ltb (length src) 8 then err (corrupt no_header) else (do
  frame ← ok_or (slice src 8 (from_be_bytes (take 4 src))) (corrupt length_beyond)
  if ext.zstd_opens (with_magic frame)
      then (do
        out ← ok_or (ext.zstd_read (with_magic frame) (add64 lsize 1)) (corrupt bad_frame)
        check_size out lsize)
      else err (corrupt bad_header))

-- `decompress`.
unfoldable pub decompress : Decoders → Compression → List ℕ → ℕ → Output
decompress ext off src lsize =
    let v = take (min (length src) lsize) src in ok (v ++ replicate (lsize - length v) 0)
decompress ext empty src lsize = ok (replicate lsize 0)
decompress ext lzjb src lsize = lzjb_decode src lsize
decompress ext zle src lsize = zle_decode src lsize
decompress ext lz4 src lsize = lz4_decode ext src lsize
decompress ext (gzip _) src lsize = gzip_decode ext src lsize
decompress ext zstd src lsize = zstd_decode ext src lsize
decompress ext (unknown c) src lsize = err (unsupported (unknown c))
