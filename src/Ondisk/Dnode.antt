-- ===== src/Ondisk/Dnode.antt =====
-- crates/zfs-ondisk/src/dmu.rs: dnodes and object sets. Bytes are not above 255 where a theorem
-- says so; sizes do not overflow a usize.
pub mod Parsed
pub mod Objset
mod Runs
use zvolrescue.Prelude.{ℕ, zero, suc, ◌+◌, ◌-◌, ◌*◌, ◌/◌, ◌%◌, ◌^◌, ◌≤◌, ◌<◌, min, max}
use zvolrescue.Prelude.{◌≡◌, refl, sym, ap, ◌∙◌, ◌≢◌, ◌↔◌, ◌⊎◌, inl, inr, arith}
use zvolrescue.Prelude.{Bool, true, false, not, ◌&&◌, ◌||◌, Option, none, some}
use zvolrescue.Prelude.{
  List, [], ◌∷◌, ◌++◌, map, length, get_elem?, take, drop, replicate, set, All,
}
use zvolrescue.Prelude.{ltb, leb, ◌==◌, if◌then◌else◌, Bool-cases, Option-cases}
use zvolrescue.Prelude.{
  ltb→lt, lt→ltb, le→ltb, leb→le, ==_iff, length-append, length-take, length-drop,
}
use zvolrescue.Prelude.{
  length-replicate, length-set, get_elem?-take, get_elem?-set_self, get_elem?-set_ne, take-append,
  drop-append, get_elem?-some, get_elem?_lt, get_elem?-append, get_elem?-drop, drop-drop,
  get_elem?-front, All-append,
}
use zvolrescue.Prelude.{u64_mod, u64_max, saturating_add, checked_add, checked_mul, wrapping_mul}
use zvolrescue.Prelude.{shl64, shr64, low_bits, div_ceil, add64, sub64}
use zvolrescue.Prelude.{Result, ok, err, panic, stuck, ◌>>=◌, ok_or, expect, Returns}
use zvolrescue.Ondisk.Bytes.{Endian, ParseError, truncated, malformed, slice, from_bytes, u64_at}
use zvolrescue.Ondisk.Dva.{bits, minblockshift}
use zvolrescue.Ondisk.BlkPtr.{BlkPtr, ptr_size, parse}

-- `DNODE_SIZE`, `DNODE_CORE_SIZE`.
abbrev pub dnode_size : ℕ
dnode_size = 512

abbrev pub dnode_core_size : ℕ
dnode_core_size = 64

pub record DnodePhys : Type 0 where
  pub object_type : ℕ
  pub indblkshift : ℕ
  pub nlevels : ℕ
  pub nblkptr : ℕ
  pub bonus_type : ℕ
  pub checksum : ℕ
  pub compress : ℕ
  pub flags : ℕ
  pub datablkszsec : ℕ
  pub bonuslen : ℕ
  pub extra_slots : ℕ
  pub maxblkid : ℕ
  pub used : ℕ
  pub blkptr : List BlkPtr
  pub bonus : List ℕ
  pub spill : Option BlkPtr

-- `buf[o]`.
abbrev pub u8_at : List ℕ → ℕ → Result ℕ ParseError
u8_at buf o = expect (get_elem? buf o)

-- `u16_at`.
unfoldable pub u16_at : Endian → List ℕ → ℕ → Result ℕ ParseError
unfolding from_bytes
u16_at e buf o = do b0 ← u8_at buf o; b1 ← u8_at buf (o + 1); ok (from_bytes e (b0 ∷ b1 ∷ []))

-- `flags & FLAG_SPILL_BLKPTR != 0`, `flags & FLAG_USED_BYTES != 0`.
abbrev pub has_spill : ℕ → Bool
has_spill flags = not (bits flags 2 1 == 0)

abbrev pub counts_bytes : ℕ → Bool
counts_bytes flags = not (bits flags 0 1 == 0)

-- `BlkPtr::parse(&buf[at..at + blkptr::SIZE], endian)`.
unfoldable pub pointer_at : List ℕ → Endian → ℕ → Result BlkPtr ParseError
unfolding slice parse
pointer_at buf e at = do bytes ← expect (slice buf at ptr_size); parse bytes e

-- The loop over the block pointers, from the one at `at` on.
unfoldable pub pointers_at : ℕ → List ℕ → Endian → ℕ → Result (List BlkPtr) ParseError
unfolding pointer_at
pointers_at zero buf e at = ok []
pointers_at (suc n) buf e at = do
  p ← pointer_at buf e at
  rest ← pointers_at n buf e (at + ptr_size)
  ok (p ∷ rest)

-- The spill pointer, if the flags say there is one.
unfoldable pub spill_of : List ℕ → Endian → ℕ → ℕ → Result (Option BlkPtr) ParseError
unfolding pointer_at
spill_of buf e flags at =
    if has_spill flags then pointer_at buf e at >>= (λ p. ok (some p)) else ok none

-- Where the bonus ends at the latest.
abbrev pub spill_start : ℕ → ℕ → ℕ
spill_start flags total = if has_spill flags then total - ptr_size else total

-- The fields of `DnodePhys::parse`, once the parts are read.
unfoldable pub fields_of :
    List ℕ
    → Endian
    → ℕ
    → ℕ
    → ℕ
    → ℕ
    → List BlkPtr
    → List ℕ
    → Option BlkPtr
    → Result DnodePhys ParseError
unfolding u16_at u64_at
fields_of buf e extra nblkptr flags bonuslen pointers bonus spill = do
  object_type ← u8_at buf 0
  indblkshift ← u8_at buf 1
  nlevels ← u8_at buf 2
  bonus_type ← u8_at buf 4
  checksum ← u8_at buf 5
  compress ← u8_at buf 6
  datablkszsec ← u16_at e buf 8
  maxblkid ← expect (u64_at e buf 16)
  used ← expect (u64_at e buf 24)
  ok (record {
    object_type = object_type;
    indblkshift = indblkshift;
    nlevels = nlevels;
    nblkptr = nblkptr;
    bonus_type = bonus_type;
    checksum = checksum;
    compress = compress;
    flags = flags;
    datablkszsec = datablkszsec;
    bonuslen = bonuslen;
    extra_slots = extra;
    maxblkid = maxblkid;
    used = used;
    blkptr = pointers;
    bonus = bonus;
    spill = spill;
  })

-- `DnodePhys::parse` behind the tests of the length and of `dn_nblkptr`.
unfoldable pub parts_of : List ℕ → Endian → ℕ → ℕ → Result DnodePhys ParseError
unfolding pointers_at spill_of u16_at fields_of slice
parts_of buf e extra nblkptr = do
  let nbp = min nblkptr 3
  pointers ← pointers_at nbp buf e dnode_core_size
  flags ← u8_at buf 7
  let total = dnode_size * (1 + extra)
  let bonus_start = dnode_core_size + nbp * ptr_size
  bonuslen ← u16_at e buf 10
  (if ltb (spill_start flags total) (bonus_start + bonuslen) then err (malformed 10) else (do
    spill ← spill_of buf e flags (total - ptr_size)
    bonus ← expect (slice buf bonus_start bonuslen)
    fields_of buf e extra nblkptr flags bonuslen pointers bonus spill))

-- `DnodePhys::parse` behind the first test of the length.
unfoldable pub slots_of : List ℕ → Endian → Result DnodePhys ParseError
unfolding parts_of
slots_of buf e = do
  extra ← u8_at buf 12
  let total = dnode_size * (1 + extra)
  (if ltb (length buf) total then err (truncated total (length buf)) else (do
    nblkptr ← u8_at buf 3
    object_type ← u8_at buf 0
    (if not (leb 1 nblkptr && leb nblkptr 3) && not (object_type == 0)
        then err (malformed 3)
        else parts_of buf e extra nblkptr)))

-- `DnodePhys::parse`.
unfoldable pub parse_dnode : List ℕ → Endian → Result DnodePhys ParseError
unfolding slots_of
parse_dnode buf e =
    if ltb (length buf) dnode_size then err (truncated dnode_size (length buf)) else slots_of buf e

-- `is_free`, `datablksz`, `indblksz`, `ptrs_per_indirect`, `slot_bytes`, `used_bytes`.
unfoldable pub is_free : DnodePhys → Bool
is_free d = d.object_type == 0

unfoldable pub datablksz : DnodePhys → ℕ
datablksz d = shl64 d.datablkszsec minblockshift

unfoldable pub indblksz : DnodePhys → ℕ
indblksz d = shl64 1 (min d.indblkshift 63)

unfoldable pub ptrs_per_indirect : DnodePhys → ℕ
unfolding indblksz
ptrs_per_indirect d = indblksz d / ptr_size

unfoldable pub slot_bytes : DnodePhys → ℕ
slot_bytes d = dnode_size * (1 + d.extra_slots)

unfoldable pub used_bytes : DnodePhys → ℕ
used_bytes d = if counts_bytes d.flags then d.used else shl64 d.used minblockshift

pub data ObjsetType : Type 0 where
  nothing meta zfs zvol other : ObjsetType
  unknown_type : ℕ → ObjsetType

-- `ObjsetType::from_raw`.
unfoldable pub objset_type_of : ℕ → ObjsetType
objset_type_of v =
    if v == 0
    then nothing
    else if v == 1
    then meta
    else if v == 2
    then zfs
    else if v == 3
    then zvol
    else if v == 4
    then other
    else unknown_type v

pub record ObjsetPhys : Type 0 where
  pub meta_dnode : DnodePhys
  pub zil_claim_txg : ℕ
  pub zil_log : BlkPtr
  pub os_type : ObjsetType
  pub flags : ℕ
  pub userused_dnode : Option DnodePhys
  pub groupused_dnode : Option DnodePhys
  pub projectused_dnode : Option DnodePhys

-- `dnode_at`: no dnode past the end of the buffer.
unfoldable pub dnode_of : Option (List ℕ) → Endian → Result (Option DnodePhys) ParseError
unfolding parse_dnode
dnode_of none e = ok none
dnode_of (some bytes) e = parse_dnode bytes e >>= (λ d. ok (some d))

unfoldable pub dnode_at : List ℕ → Endian → ℕ → Result (Option DnodePhys) ParseError
unfolding slice dnode_of
dnode_at buf e o = dnode_of (slice buf o dnode_size) e

-- `ObjsetPhys::parse`.
unfoldable pub parse_objset : List ℕ → Endian → Result ObjsetPhys ParseError
unfolding parse_dnode dnode_at u64_at slice objset_type_of pointer_at
parse_objset buf e = if ltb (length buf) 1024 then err (truncated 1024 (length buf)) else (do
  meta_dnode ← parse_dnode (take dnode_size buf) e
  zil_claim_txg ← expect (u64_at e buf 512)
  zil_log ← pointer_at buf e 528
  raw_type ← expect (u64_at e buf 704)
  flags ← expect (u64_at e buf 712)
  userused ← dnode_at buf e 1024
  groupused ← dnode_at buf e 1536
  projectused ← dnode_at buf e 2048
  ok (record {
    meta_dnode = meta_dnode;
    zil_claim_txg = zil_claim_txg;
    zil_log = zil_log;
    os_type = objset_type_of raw_type;
    flags = flags;
    userused_dnode = userused;
    groupused_dnode = groupused;
    projectused_dnode = projectused;
  }))
