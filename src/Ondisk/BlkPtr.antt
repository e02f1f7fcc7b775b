-- ===== src/Ondisk/BlkPtr.antt =====
-- crates/zfs-ondisk/src/blkptr.rs: the block pointer, and gang block headers.
pub mod Parsed
pub mod Payload
pub mod Gang
mod Runs
use zvolrescue.Prelude.{ℕ, zero, suc, ◌+◌, ◌-◌, ◌*◌, ◌/◌, ◌%◌, ◌^◌, ◌≤◌, ◌<◌, min, max}
use zvolrescue.Prelude.{◌≡◌, refl, sym, ap, ◌∙◌, ◌≢◌, ◌↔◌, ◌⊎◌, inl, inr, arith}
use zvolrescue.Prelude.{Bool, true, false, not, ◌&&◌, ◌||◌, Option, none, some}
use zvolrescue.Prelude.{List, [], ◌∷◌, ◌++◌, map, length, get_elem?, take, drop, replicate, All}
use zvolrescue.Prelude.{ltb, leb, ◌==◌, if◌then◌else◌, Bool-cases, Option-cases}
use zvolrescue.Prelude.{ltb→lt, lt→ltb, leb→le, ==_iff, length-append, length-take, length-drop}
use zvolrescue.Prelude.{
  length-replicate, take-append, drop-append, get_elem?-some, get_elem?_lt, get_elem?-append,
  get_elem?-drop, drop-drop, get_elem?-front, All-append,
}
use zvolrescue.Prelude.{u64_mod, u64_max, saturating_add, checked_add, checked_mul, wrapping_mul}
use zvolrescue.Prelude.{shl64, shr64, low_bits, div_ceil, add64, sub64}
use zvolrescue.Prelude.{Result, ok, err, panic, stuck, ◌>>=◌, ok_or, expect, Returns}
use zvolrescue.Ondisk.Bytes.{Endian, little, big, ParseError, truncated, slice, u64_at}
use zvolrescue.Ondisk.Dva.{Dva, no_dva, bits, minblockshift, is_empty, from_words}
use mathlib.Core.Option
use zvolrescue.Ondisk.Codes.{Compression, Checksum, compression_of, checksum_of}

-- `SIZE`, `EMBEDDED_PAYLOAD`, `GANG_HEADER_SIZE` and `checksum::ECK_SIZE`.
abbrev pub ptr_size : ℕ
ptr_size = 128

abbrev pub embedded_capacity : ℕ
embedded_capacity = 112

abbrev pub gang_header_size : ℕ
gang_header_size = 512

abbrev pub eck_size : ℕ
eck_size = 40

abbrev one_of : ℕ → List ℕ → Bool
one_of t [] = false
one_of t (n ∷ ns) = t == n || one_of t ns

-- `dmu::ot::is_encrypted`: bit 7 marks a new-style type, whose bit 5 says so.
unfoldable pub type_is_encrypted : ℕ → Bool
type_is_encrypted t =
    if bits t 7 1 == 0
    then one_of t (
        9 ∷ 10 ∷ 18 ∷ 19 ∷ 20 ∷ 22 ∷ 23 ∷ 25 ∷ 26 ∷ 33 ∷ 34 ∷ 35 ∷ 39 ∷ 40 ∷ 44 ∷ 45 ∷ 46 ∷ 47 ∷ 49
        ∷ [])
    else not (bits t 5 1 == 0)

-- The array of three addresses is three fields, that of the checksum words a list.
pub record BlkPtr : Type 0 where
  pub dva0 : Dva
  pub dva1 : Dva
  pub dva2 : Dva
  pub lsize : ℕ
  pub psize : ℕ
  pub compression : Compression
  pub compression_code : ℕ
  pub checksum : Checksum
  pub checksum_code : ℕ
  pub object_type : ℕ
  pub level : ℕ
  pub endian : Endian
  pub encrypted : Bool
  pub dedup : Bool
  pub embedded : Bool
  pub embedded_type : ℕ
  pub physical_birth : ℕ
  pub birth : ℕ
  pub fill : ℕ
  pub cksum : List ℕ
  pub raw : List ℕ

abbrev pub is_set : ℕ → ℕ → Bool
is_set w i = not (bits w i 1 == 0)

-- `ciphertext` of `BlkPtr::parse`, from the property word and the first two words.
unfoldable pub is_ciphertext : ℕ → ℕ → ℕ → Bool
unfolding type_is_encrypted
is_ciphertext w0 w1 prop =
    is_set prop 61
    && not (not (is_set prop 39) && (w0 == 0 && w1 == 0))
    && not (is_set prop 39)
    && bits prop 56 5 == 0
    && type_is_encrypted (bits prop 48 8)

-- The pointer that `BlkPtr::parse` makes of the words; words 7 and 8 are in `raw` only.
unfoldable pub pointer_of : ℕ → ℕ → ℕ → ℕ → ℕ → ℕ → ℕ → ℕ → ℕ → ℕ → ℕ → ℕ → ℕ → ℕ → List ℕ → BlkPtr
pointer_of w0 w1 w2 w3 w4 w5 w6 w9 w10 w11 w12 w13 w14 w15 raw =
    let inline = is_set w6 39 in
    let ciphertext = is_ciphertext w0 w1 w6 in
    let sum_code = if inline then 0 else bits w6 40 8 in
    record {
      dva0 = if inline then no_dva else from_words w0 w1;
      dva1 = if inline then no_dva else from_words w2 w3;
      dva2 = if inline then no_dva else if ciphertext then no_dva else from_words w4 w5;
      lsize = if inline then bits w6 0 25 + 1 else shl64 (bits w6 0 16 + 1) minblockshift;
      psize = if inline then bits w6 25 7 + 1 else shl64 (bits w6 16 16 + 1) minblockshift;
      compression = compression_of (bits w6 32 7);
      compression_code = bits w6 32 7;
      checksum = checksum_of sum_code;
      checksum_code = sum_code;
      object_type = bits w6 48 8;
      level = bits w6 56 5;
      endian = if bits w6 63 1 == 1 then little else big;
      encrypted = is_set w6 61;
      dedup = is_set w6 62;
      embedded = inline;
      embedded_type = if inline then bits w6 40 8 else 0;
      physical_birth = if inline then 0 else bits w9 0 63;
      birth = bits w10 0 63;
      fill = if inline then 1 else if ciphertext then bits w11 0 32 else w11;
      cksum = if inline then replicate 4 0 else w12 ∷ w13 ∷ w14 ∷ w15 ∷ [];
      raw = raw;
    }

-- `BlkPtr::parse`.
unfoldable pub parse : List ℕ → Endian → Result BlkPtr ParseError
unfolding pointer_of u64_at
parse buf e = if ltb (length buf) ptr_size then err (truncated ptr_size (length buf)) else (do
  w0 ← expect (u64_at e buf 0)
  w1 ← expect (u64_at e buf 8)
  w2 ← expect (u64_at e buf 16)
  w3 ← expect (u64_at e buf 24)
  w4 ← expect (u64_at e buf 32)
  w5 ← expect (u64_at e buf 40)
  w6 ← expect (u64_at e buf 48)
  w9 ← expect (u64_at e buf 72)
  w10 ← expect (u64_at e buf 80)
  w11 ← expect (u64_at e buf 88)
  w12 ← expect (u64_at e buf 96)
  w13 ← expect (u64_at e buf 104)
  w14 ← expect (u64_at e buf 112)
  w15 ← expect (u64_at e buf 120)
  ok (pointer_of w0 w1 w2 w3 w4 w5 w6 w9 w10 w11 w12 w13 w14 w15 (take ptr_size buf)))

-- `BlkPtr::is_hole`.
unfoldable pub is_hole : BlkPtr → Bool
unfolding is_empty
is_hole p = not p.embedded && is_empty p.dva0

-- `BlkPtr::uses_crypt`.
unfoldable pub uses_crypt : BlkPtr → Bool
unfolding is_hole
uses_crypt p = p.encrypted && not p.embedded && not (is_hole p)

-- `BlkPtr::is_encrypted`.
unfoldable pub is_encrypted : BlkPtr → Bool
unfolding uses_crypt type_is_encrypted
is_encrypted p = uses_crypt p && p.level == 0 && type_is_encrypted p.object_type

-- `BlkPtr::crypt_params`, in the byte order that the pointer's own bit says.
unfoldable pub crypt_params : BlkPtr → Result (Option (ℕ × ℕ × ℕ)) ParseError
unfolding is_encrypted u64_at
crypt_params p = if not (is_encrypted p) then ok none else (do
  w4 ← expect (u64_at p.endian p.raw 32)
  w5 ← expect (u64_at p.endian p.raw 40)
  w11 ← expect (u64_at p.endian p.raw 88)
  ok (some (w4, w5, bits w11 32 32)))

-- `BlkPtr::physical_birth_or_logical`.
unfoldable pub physical_birth_or_logical : BlkPtr → ℕ
physical_birth_or_logical p = if p.physical_birth == 0 then p.birth else p.physical_birth

-- The words of an embedded payload, each `raw[word * 8..word * 8 + 8]`.
unfoldable pub gather : List ℕ → List ℕ → Result (List ℕ) ParseError
unfolding slice
gather raw [] = ok []
gather raw (i ∷ is) = do
  bytes ← expect (slice raw (i * 8) 8)
  rest ← gather raw is
  ok (bytes ++ rest)

-- `BlkPtr::embedded_payload`.
unfoldable pub embedded_payload : BlkPtr → Result (Option (List ℕ)) ParseError
unfolding gather
embedded_payload p = if not p.embedded then ok none else (do
  out ← gather p.raw (0 ∷ 1 ∷ 2 ∷ 3 ∷ 4 ∷ 5 ∷ 7 ∷ 8 ∷ 9 ∷ 11 ∷ 12 ∷ 13 ∷ 14 ∷ 15 ∷ [])
  ok (some (take p.psize out)))

-- `gang_nblkptrs`.
unfoldable pub gang_nblkptrs : ℕ → ℕ
gang_nblkptrs size = (size - eck_size) / ptr_size

-- The pointers from the `i`-th on, `n` of them.
unfoldable pub parse_children : ℕ → ℕ → List ℕ → Endian → Result (List BlkPtr) ParseError
unfolding parse slice
parse_children zero i buf e = ok []
parse_children (suc n) i buf e = do
  bytes ← expect (slice buf (i * ptr_size) ptr_size)
  first ← parse bytes e
  rest ← parse_children n (i + 1) buf e
  ok (first ∷ rest)

-- `parse_gang_header`.
unfoldable pub parse_gang_header : List ℕ → Endian → Result (List BlkPtr) ParseError
unfolding parse_children gang_nblkptrs
parse_gang_header buf e =
    if ltb (length buf) gang_header_size
    then err (truncated gang_header_size (length buf))
    else parse_children (gang_nblkptrs (length buf)) 0 buf e

-- `logical_birth`.
unfoldable pub logical_birth : List ℕ → Endian → Option ℕ
unfolding u64_at
logical_birth bp e =
    if ltb (length bp) ptr_size then none else Option.map (λ w. bits w 0 63) (u64_at e bp 80)
