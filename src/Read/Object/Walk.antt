-- ===== src/Read/Object/Walk.antt =====
-- The dnode array: which bytes an object number stands for, and how a walk steps.
use zvolrescue.Prelude.{ℕ, ◌+◌, ◌*◌, ◌/◌, ◌%◌, ◌^◌, ◌≤◌, ◌<◌}
use zvolrescue.Prelude.{◌≡◌, refl, ap, ◌∙◌, ◌⊎◌, inl, inr, arith}
use zvolrescue.Prelude.{true, false, some}
use zvolrescue.Prelude.{List, length, drop}
use zvolrescue.Prelude.{leb, ◌==◌}
use zvolrescue.Prelude.{length-drop}
use zvolrescue.Prelude.{add64}
use zvolrescue.Prelude.{Result, ok, err, Returns}
use native.Mathlib.Nat.{mod-lt}
use zvolrescue.Ondisk.Dnode.{dnode_size, DnodePhys, datablksz, slot_bytes, parse_dnode}
use zvolrescue.Ondisk.Dnode.Parsed.{parse_dnode_total}
use zvolrescue.Read.Object.{
  ReadError, BlockReader, Object, as_read, io, bad_parse, read_blkid, slots_per_block, from_slot,
  get, step_over, next_object,
}
use zvolrescue.Read.Object.Content.{length-read_blkid}

-- The bytes from the slot of an object on.
abbrev pub slot_of : Object → ℕ → List ℕ → List ℕ
slot_of meta objnum block = drop (objnum % slots_per_block meta * dnode_size) block

-- Slots fill blocks whole.
datablksz-sectors : (d : DnodePhys) → (n : ℕ) × (datablksz d ≡ n * dnode_size)
unfolding datablksz
datablksz-sectors d =
    let sectors : datablksz d ≡ d.datablkszsec % 2 ^ 55 * dnode_size = omega arith in
    (d.datablkszsec % 2 ^ 55, sectors)

slots-fill : (meta : Object) → slots_per_block meta * dnode_size ≡ datablksz meta.dnode
unfolding slots_per_block
slots-fill meta = let (n, size) = datablksz-sectors meta.dnode in omega (arith, size)

module _ (read : BlockReader) (meta : Object) (objnum : ℕ)
    (some_slots : 0 < slots_per_block meta) where
  -- The slot of an object lies in its block.
  from_slot-some :
      (block : List ℕ)
      → length block ≡ datablksz meta.dnode
      → from_slot block (objnum % slots_per_block meta * dnode_size)
        ≡ some (slot_of meta objnum block)
  from_slot-some block size =
      let low = mod-lt objnum some_slots in
      let fits : leb (objnum % slots_per_block meta * dnode_size) (length block) ≡ true =
        ground (arith, low, size, slots-fill meta) in
      rw fits refl

  get-block :
      (block : List ℕ)
      → read_blkid read meta (objnum / slots_per_block meta) ≡ ok block
      → get read meta objnum ≡ as_read (parse_dnode (slot_of meta objnum block) meta.endian)
  unfolding get
  get-block block got =
      let used : (slots_per_block meta == 0) ≡ false = ground (arith, some_slots) in
      rw (used, got, from_slot-some block (length-read_blkid read meta _ block got)) refl

  -- What stepping to the next object gives: it moves on, and not past the end of the block.
  abbrev pub Steps : ℕ → Type 0
  Steps m = (objnum < m) × (m + objnum % slots_per_block meta ≤ objnum + slots_per_block meta)

  -- The object is a dnode of its block, at its slot, that keeps to the slots which are left in the
  -- block; or there is an error.
  abbrev pub GetOutcome : Result DnodePhys ReadError → Type 0
  GetOutcome r =
      ((d : DnodePhys) × (block : List ℕ) × (read_blkid read meta (objnum / slots_per_block meta)
          ≡ ok block)
        × (r ≡ ok d)
        × (parse_dnode (slot_of meta objnum block) meta.endian ≡ ok d)
        × (objnum % slots_per_block meta + 1 + d.extra_slots ≤ slots_per_block meta))
      ⊎ ((x : ReadError) × (r ≡ err x))

  get-dnode :
      (block : List ℕ)
      → read_blkid read meta (objnum / slots_per_block meta) ≡ ok block
      → GetOutcome (get read meta objnum)
  unfolding as_read slot_bytes
  get-dnode block got = elim (parse_dnode_total (slot_of meta objnum block) meta.endian) [
    | inl (d, good, is) ↦
        let size = length-read_blkid read meta _ block got in
        let left = length-drop (objnum % slots_per_block meta * dnode_size) block in
        let low = mod-lt objnum some_slots in
        inl (
          d,
          block,
          got,
          get-block block got ∙ ap as_read good,
          good,
          omega (arith, is.inside, size, left, low, slots-fill meta),
        )
    | inr (x, bad, _) ↦ inr (io (bad_parse x), get-block block got ∙ ap as_read bad)
  ]

  -- In an array whose blocks have slots, where reading a block returns, looking up an object returns:
  -- the dnode that is parsed from its slot of its block, with all its extra slots in that block, or
  -- an error. It never panics.
  pub get_total :
      Returns (read_blkid read meta (objnum / slots_per_block meta))
      → GetOutcome (get read meta objnum)
  unfolding get
  get_total (inl (block, got)) = get-dnode block got
  get_total (inr (x, bad)) =
      let used : (slots_per_block meta == 0) ≡ false = ground (arith, some_slots) in
      inr (x, rw (used, bad) refl)

  -- Each step of a walk over the array gets on, whatever it reads, and never past the first object
  -- of the next block, so that no block is skipped: where reading a block returns and object numbers
  -- of the next block do not overflow.
  pub next_object-Steps :
      Returns (read_blkid read meta (objnum / slots_per_block meta))
      → objnum + slots_per_block meta < 2 ^ 64
      → (m : ℕ) × (next_object read meta objnum ≡ ok m) × Steps m
  unfolding next_object step_over
  next_object-Steps returns no_overflow =
      let low = mod-lt objnum some_slots in
      elim (get_total returns) [
        | inl (d, block, _, good, _, inside) ↦
            let exact : add64 (add64 objnum 1) d.extra_slots ≡ objnum + 1 + d.extra_slots =
              omega (arith, no_overflow, inside) in
            (
              objnum + 1 + d.extra_slots,
              ap (step_over objnum) good ∙ ap ok exact,
              (omega arith, omega (arith, inside)),
            )
        | inr (x, bad) ↦
            let exact : add64 (add64 objnum 1) 0 ≡ objnum + 1 = omega (arith, no_overflow, low) in
            (objnum + 1, ap (step_over objnum) bad ∙ ap ok exact, (omega arith, omega (arith, low)))
      ]
