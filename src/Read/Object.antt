-- ===== src/Read/Object.antt =====
-- crates/zfs-read/src/dmu.rs: the block tree of an object, its bytes, and the dnode array.
pub mod Tree
pub mod Content
pub mod Walk
mod Runs
use zvolrescue.Prelude.{ℕ, zero, suc, ◌+◌, ◌-◌, ◌*◌, ◌/◌, ◌%◌, ◌^◌, ◌≤◌, ◌<◌, min, max}
use zvolrescue.Prelude.{◌≡◌, refl, sym, ap, ◌∙◌, ◌≢◌, ◌↔◌, ◌⊎◌, inl, inr, arith}
use zvolrescue.Prelude.{Bool, true, false, not, ◌&&◌, ◌||◌, Option, none, some}
use zvolrescue.Prelude.{
  List, [], ◌∷◌, ◌++◌, map, length, get_elem?, take, drop, replicate, set, All,
}
use zvolrescue.Prelude.{ltb, leb, ◌==◌, if◌then◌else◌, Bool-cases, Option-cases}
use zvolrescue.Prelude.{
  ltb→lt, lt→ltb, le→ltb, leb→le, ==_iff, length-append, length-take, length-drop,
}
use zvolrescue.Prelude.{
  length-replicate, length-set, get_elem?-take, get_elem?-set_self, get_elem?-set_ne, take-append,
  drop-append, get_elem?-some, get_elem?_lt, get_elem?-append, get_elem?-drop, drop-drop,
  get_elem?-front, All-append,
}
use zvolrescue.Prelude.{u64_mod, u64_max, saturating_add, checked_add, checked_mul, wrapping_mul}
use zvolrescue.Prelude.{shl64, shr64, low_bits, div_ceil, add64, sub64}
use zvolrescue.Prelude.{Result, ok, err, panic, stuck, ◌>>=◌, ok_or, expect, Returns}
use zvolrescue.Ondisk.Bytes.{Endian, ParseError, slice}
use zvolrescue.Ondisk.BlkPtr.{BlkPtr, ptr_size, parse, is_hole}
use zvolrescue.Ondisk.Indirect.{Unmapped}
use zvolrescue.Ondisk.Compress.{DecompressError}
use zvolrescue.Ondisk.Dnode.{dnode_size, DnodePhys, datablksz, parse_dnode}

-- The texts of `ReadError::Io` here, and any other one.
pub data IoText : Type 0 where
  small_indirect : ℕ → IoText
  zero_blocks : IoText
  bad_parse : ParseError → IoText
  of_member : ℕ → IoText

-- The texts of the other errors are left out.
pub data ReadError : Type 0 where
  unknown_vdev : ℕ → ReadError
  unmapped_range : ℕ → Unmapped → ReadError
  no_member : ReadError
  unsupported_vdev : ReadError
  gang_error : ReadError
  unrecoverable : ReadError
  io : IoText → ReadError
  medium : (stop : Bool) → ReadError
  all_copies_bad : ReadError
  hole_pointer : ReadError
  decompress_error : DecompressError → ReadError
  checksum_unsupported : ReadError
  encrypted_block : ReadError
  crypt_error : ReadError

-- `PoolReader::read_block`, the data of a block.
abbrev pub BlockReader : Type 0
BlockReader = BlkPtr → Result (List ℕ) ReadError

-- `ObjectReader` without its reader, which the operations take.
pub record Object : Type 0 where
  pub dnode : DnodePhys
  pub endian : Endian

-- `From<ParseError> for ReadError`.
unfoldable pub as_read {ℓ} : {A : Type ℓ} → Result A ParseError → Result A ReadError
as_read (ok a) = ok a
as_read (err x) = err (io (bad_parse x))
as_read panic = panic
as_read stuck = stuck

-- `ObjectReader::epbs`.
abbrev pub epbs : DnodePhys → ℕ
epbs d = d.indblkshift - 7

-- The index of the child below `level + 1`.
abbrev pub child_index : ℕ → ℕ → ℕ → ℕ
child_index width level blkid = low_bits (shr64 blkid (width * level)) (width % 64)

-- The index in the dnode's own pointers.
abbrev pub top_index : DnodePhys → ℕ → ℕ
top_index d blkid =
    let top_shift = min (epbs d * (d.nlevels - 1)) (2 ^ 32 - 1) in
    if leb 64 top_shift then 0 else blkid / 2 ^ top_shift

-- The loop of `locate`, from a pointer of `level` down.
unfoldable pub descend : BlockReader → ℕ → ℕ → ℕ → BlkPtr → Result (Option BlkPtr) ReadError
unfolding is_hole slice parse as_read
descend read zero width blkid bp = ok (if is_hole bp then none else some bp)
descend read (suc level) width blkid bp = if is_hole bp then ok none else (do
  data' ← read bp
  let index = child_index width level blkid
  child ← ok_or (slice data' (wrapping_mul index ptr_size) ptr_size) (io (small_indirect index))
  next ← as_read (parse child bp.endian)
  descend read level width blkid next)

unfoldable pub locate_from :
    BlockReader → DnodePhys → ℕ → Option BlkPtr → Result (Option BlkPtr) ReadError
unfolding descend
locate_from read d blkid none = ok none
locate_from read d blkid (some bp) = descend read (d.nlevels - 1) (epbs d) blkid bp

-- `ObjectReader::locate`.
unfoldable pub locate : BlockReader → Object → ℕ → Result (Option BlkPtr) ReadError
unfolding locate_from
locate read o blkid =
    if o.dnode.nlevels == 0
    then ok none
    else locate_from read o.dnode blkid (get_elem? o.dnode.blkptr (top_index o.dnode blkid))

-- `data.resize(size, 0)`.
unfoldable pub resize : ℕ → List ℕ → List ℕ
resize size bytes = take size (bytes ++ replicate size 0)

-- What `read_blkid_ext` makes of a located pointer.
unfoldable pub block_of : BlockReader → Object → Option BlkPtr → Result (List ℕ × Endian) ReadError
unfolding datablksz resize
block_of read o none = ok (replicate (datablksz o.dnode) 0, o.endian)
block_of read o (some bp) = do data' ← read bp; ok (resize (datablksz o.dnode) data', bp.endian)

-- `ObjectReader::read_blkid_ext`.
unfoldable pub read_blkid_ext : BlockReader → Object → ℕ → Result (List ℕ × Endian) ReadError
unfolding locate block_of
read_blkid_ext read o blkid = do found ← locate read o blkid; block_of read o found

-- `ObjectReader::read_blkid`.
unfoldable pub read_blkid : BlockReader → Object → ℕ → Result (List ℕ) ReadError
unfolding read_blkid_ext
read_blkid read o blkid = do (bytes, e) ← read_blkid_ext read o blkid; ok bytes

-- The loop of `read_range`, for `rounds` rounds.
unfoldable pub range_loop : ℕ → BlockReader → Object → ℕ → ℕ → Result (List ℕ) ReadError
unfolding read_blkid slice datablksz
range_loop zero read o pos end = if leb end pos then ok [] else stuck
range_loop (suc rounds) read o pos end = if leb end pos then ok [] else (do
  block ← read_blkid read o (pos / datablksz o.dnode)
  let within = pos % datablksz o.dnode
  let n = min (datablksz o.dnode - within) (end - pos)
  bytes ← expect (slice block within n)
  rest ← range_loop rounds read o (pos + n) end
  ok (bytes ++ rest))

-- `ObjectReader::read_range`. A round takes a byte at least.
unfoldable pub read_range : BlockReader → Object → ℕ → ℕ → Result (List ℕ) ReadError
unfolding range_loop
read_range read o offset len =
    if datablksz o.dnode == 0
    then err (io zero_blocks)
    else range_loop len read o offset (add64 offset len)

-- `ObjectReader::logical_size`.
unfoldable pub logical_size : Object → ℕ
unfolding datablksz
logical_size o = wrapping_mul (add64 o.dnode.maxblkid 1) (datablksz o.dnode)

-- `DnodeArray::slots_per_block`, of the meta-dnode as an object.
unfoldable pub slots_per_block : Object → ℕ
unfolding datablksz
slots_per_block meta = datablksz meta.dnode / dnode_size

-- `DnodeArray::max_object`.
unfoldable pub max_object : Object → ℕ
unfolding slots_per_block
max_object meta = wrapping_mul (add64 meta.dnode.maxblkid 1) (slots_per_block meta)

-- `&block[at..]`.
abbrev pub from_slot : List ℕ → ℕ → Option (List ℕ)
from_slot block at = if leb at (length block) then some (drop at block) else none

-- `DnodeArray::get`.
unfoldable pub get : BlockReader → Object → ℕ → Result DnodePhys ReadError
unfolding read_blkid parse_dnode as_read slots_per_block
get read meta objnum =
    let per = slots_per_block meta in
    if per == 0 then err (io zero_blocks) else (do
      block ← read_blkid read meta (objnum / per)
      slot ← expect (from_slot block (objnum % per * dnode_size))
      as_read (parse_dnode slot meta.endian))

-- The slots to step over: those that a dnode owns.
unfoldable pub step_over : ℕ → Result DnodePhys ReadError → Result ℕ ReadError
step_over objnum (ok d) = ok (add64 (add64 objnum 1) d.extra_slots)
step_over objnum (err x) = ok (add64 (add64 objnum 1) 0)
step_over objnum panic = panic
step_over objnum stuck = stuck

-- `DnodeArray::next_object`.
unfoldable pub next_object : BlockReader → Object → ℕ → Result ℕ ReadError
unfolding get step_over
next_object read meta objnum = step_over objnum (get read meta objnum)
