-- ===== src/Read/Object/Runs.antt =====
-- Tests and examples of objects and of the dnode array.
use zvolrescue.Prelude.{ℕ, zero, suc, ◌+◌, ◌*◌, ◌/◌, ◌^◌, ◌≤◌, ◌<◌}
use zvolrescue.Prelude.{◌≡◌, refl, ap, ◌∙◌, ◌↔◌, inl, inr, arith}
use zvolrescue.Prelude.{Option, none, some}
use zvolrescue.Prelude.{List, [], ◌∷◌, ◌++◌, length, get_elem?, replicate}
use zvolrescue.Prelude.{◌==◌, Bool-cases}
use zvolrescue.Prelude.{==_iff}
use zvolrescue.Prelude.{Result, ok, Returns}
use zvolrescue.Ondisk.Bytes.{little}
use zvolrescue.Ondisk.Dva.{from_words}
use zvolrescue.Ondisk.BlkPtr.{BlkPtr, pointer_of}
use zvolrescue.Ondisk.BlkPtr.Parsed.{pointer_in}
use zvolrescue.Ondisk.Dnode.{DnodePhys, datablksz}
use zvolrescue.Read.Object.{
  ReadError, BlockReader, Object, locate, read_blkid, read_range, slots_per_block, get, next_object,
  epbs,
}
use zvolrescue.Read.Object.Tree.{Leads, digits, locate_iff}
use zvolrescue.Read.Object.Content.{BlockAt, RangeOutcome, read_range_content}
use zvolrescue.Read.Object.Walk.{GetOutcome, Steps, get_total, next_object-Steps}

-- The bytes of a pointer, which differ by the offset.
pointer_bytes : ℕ → List ℕ
pointer_bytes k = 1 ∷ (replicate 7 0 ++ (k ∷ (replicate 46 0 ++ (128 ∷ replicate 72 0))))

abbrev pointer : ℕ → BlkPtr
unfolding pointer_bytes pointer_of
pointer k = pointer_in little (pointer_bytes k)

-- A dnode whose blocks have a sector.
abbrev dnode_with : ℕ → List BlkPtr → DnodePhys
dnode_with levels pointers = record {
  object_type = 23;
  indblkshift = 8;
  nlevels = levels;
  nblkptr = length pointers;
  bonus_type = 0;
  checksum = 0;
  compress = 0;
  flags = 0;
  datablkszsec = 1;
  bonuslen = 0;
  extra_slots = 0;
  maxblkid = 3;
  used = 0;
  blkptr = pointers;
  bonus = [];
  spill = none;
}

-- Two levels, of two pointers to an indirect block.
abbrev tree : Object
tree = record { dnode = dnode_with 2 (pointer 1 ∷ pointer 2 ∷ []); endian = little }

indirect : BlockReader
unfolding pointer_bytes
indirect bp = ok (pointer_bytes 3 ++ pointer_bytes 4)

abbrev offset_of : Result (Option BlkPtr) ReadError → Option ℕ
offset_of (ok (some bp)) = some bp.dva0.offset
offset_of _ = none

locate_test : offset_of (locate indirect tree 3) ≡ some (4 * 512)
unfolding locate indirect pointer from_words
locate_test = refl

past_test : locate indirect tree 4 ≡ ok none
unfolding locate indirect pointer from_words
past_test = refl

locate_iff_example : (locate indirect tree 3 ≡ ok (some (pointer 4))) ↔ (
    (root : BlkPtr) × (get_elem? tree.dnode.blkptr (3 / 2 ^ (epbs tree.dnode * 1)) ≡ some root)
    × Leads indirect root (digits (epbs tree.dnode) 1 3) (pointer 4))
locate_iff_example = locate_iff indirect tree 1 3 (pointer 4) refl (omega arith) (omega arith)

-- An object of two blocks full of sevens.
abbrev flat : Object
flat = record { dnode = dnode_with 1 (pointer 1 ∷ pointer 2 ∷ []); endian = little }

sevens : BlockReader
sevens bp = ok (replicate 512 7)

abbrev content : ℕ → ℕ
content at = 7

get_elem?-sevens : (n i : ℕ) → i < n → get_elem? {A = ℕ} (replicate n 7) i ≡ some 7
get_elem?-sevens zero i h = absurd (omega arith)
get_elem?-sevens (suc n) zero h = refl
get_elem?-sevens (suc n) (suc i) h = get_elem?-sevens n i (omega arith)

flat-datablksz : datablksz flat.dnode ≡ 512
unfolding datablksz
flat-datablksz = refl

some_size : 0 < datablksz flat.dnode
unfolding datablksz
some_size = omega arith

read_0 : read_blkid sevens flat 0 ≡ ok (replicate 512 7)
unfolding read_blkid sevens pointer from_words
read_0 = refl

read_1 : read_blkid sevens flat 1 ≡ ok (replicate 512 7)
unfolding read_blkid sevens pointer from_words
read_1 = refl

flat_blocks : (at : ℕ) → 500 ≤ at → at < 500 + 24 → BlockAt sevens flat content some_size at
unfolding datablksz
flat_blocks at low high =
    let block : List ℕ = replicate 512 7 in
    let size : length block ≡ 512 = refl in
    let read_at : (b : ℕ) → b < 2 → read_blkid sevens flat b ≡ ok block = λ b small.
      elim (Bool-cases (b == 0)) [
        | inl first ↦ ap (read_blkid sevens flat) ((==_iff b 0).0 first) ∙ read_0
        | inr second ↦
            let is_one : b ≡ 1 = ground (arith, second, small) in
            ap (read_blkid sevens flat) is_one ∙ read_1
      ] in
    inl (
      block,
      read_at _ (omega (arith, low, high, flat-datablksz)),
      record { size = refl; bytes = λ i h. get_elem?-sevens 512 i (omega (arith, size, h)) },
    )

read_range_content_example :
    RangeOutcome sevens flat content some_size 500 (500 + 24) (read_range sevens flat 500 24)
read_range_content_example =
    read_range_content sevens flat content some_size 500 24 (omega arith) flat_blocks

range_test : read_range sevens flat 510 4 ≡ ok (7 ∷ 7 ∷ 7 ∷ 7 ∷ [])
unfolding read_range sevens pointer from_words
range_test = refl

-- An array of dnodes, each a block.
dnode_block : BlockReader
dnode_block bp = ok (23 ∷ 17 ∷ 2 ∷ 1 ∷ replicate 508 0)

one_slot : 0 < slots_per_block flat
unfolding slots_per_block
one_slot = omega arith

read_object_1 : Returns (read_blkid dnode_block flat (1 / slots_per_block flat))
unfolding read_blkid dnode_block pointer from_words slots_per_block
read_object_1 = inl (23 ∷ 17 ∷ 2 ∷ 1 ∷ replicate 508 0, refl)

get_total_example : GetOutcome dnode_block flat 1 one_slot (get dnode_block flat 1)
get_total_example = get_total dnode_block flat 1 one_slot read_object_1

next_object-Steps_example :
    (m : ℕ) × (next_object dnode_block flat 1 ≡ ok m) × Steps dnode_block flat 1 one_slot m
unfolding slots_per_block
next_object-Steps_example =
    next_object-Steps dnode_block flat 1 one_slot read_object_1 (omega arith)

next_test : next_object dnode_block flat 1 ≡ ok 2
unfolding next_object dnode_block pointer from_words
next_test = refl
