-- ===== src/Ondisk/Draid.antt =====
-- crates/zfs-ondisk/src/draid.rs: the geometry of distributed RAIDZ.
pub mod Table
pub mod Shuffle
pub mod Setup
pub mod Rows
mod Runs
use zvolrescue.Prelude.{ℕ, zero, suc, ◌+◌, ◌-◌, ◌*◌, ◌/◌, ◌%◌, ◌^◌, ◌≤◌, ◌<◌, min, max}
use zvolrescue.Prelude.{◌≡◌, refl, sym, ap, ◌∙◌, ◌≢◌, ◌↔◌, ◌⊎◌, inl, inr, arith}
use zvolrescue.Prelude.{Bool, true, false, not, ◌&&◌, ◌||◌, Option, none, some}
use zvolrescue.Prelude.{
  List, [], ◌∷◌, ◌++◌, map, length, get_elem?, take, drop, replicate, set, All,
}
use zvolrescue.Prelude.{ltb, leb, ◌==◌, if◌then◌else◌, Bool-cases, Option-cases}
use zvolrescue.Prelude.{
  ltb→lt, lt→ltb, le→ltb, leb→le, ==_iff, length-append, length-take, length-drop,
}
use zvolrescue.Prelude.{
  length-replicate, take-append, drop-append, get_elem?-some, get_elem?_lt, get_elem?-append,
  get_elem?-drop, drop-drop, get_elem?-front, All-append,
}
use zvolrescue.Prelude.{u64_mod, u64_max, saturating_add, checked_add, checked_mul, wrapping_mul}
use zvolrescue.Prelude.{shl64, shr64, low_bits, div_ceil, add64, sub64}
use zvolrescue.Prelude.{Result, ok, err, panic, stuck, ◌>>=◌, ok_or, expect, Returns}
use mathlib.Core.Option
use Prim.Native.Nat.{bit_xor}
use zvolrescue.Prelude.Chain
use zvolrescue.Ondisk.Bytes.{little}
use zvolrescue.Ondisk.Checksum.{fletcher4_sum}
use zvolrescue.Ondisk.Raidz.{Column, Map}
use zvolrescue.Ondisk.Draid.Table.{MapEntry, maps}

-- `ROWHEIGHT`, `SEED` and `MAX_PARITY`.
abbrev pub rowheight : ℕ
rowheight = 2 ^ 24

abbrev pub fixed_seed : ℕ
fixed_seed = 0xd7a1d5eed

abbrev pub max_parity : ℕ
max_parity = 3

-- `x.rotate_left(k)` for `0 < k < 64`: the two parts share no bit.
abbrev pub rotate_left : ℕ → ℕ → ℕ
rotate_left x k = (x * 2 ^ k) % u64_mod + x / 2 ^ (64 - k)

abbrev pub Seeds : Type 0
Seeds = ℕ × ℕ

-- `rand`: the state after it, and the number.
unfoldable pub rand : Seeds → Seeds × ℕ
rand (s0, s1) =
    let x = bit_xor s1 s0 in
    (
      (bit_xor (bit_xor (rotate_left s0 49) x) (shl64 x 21), rotate_left x 28),
      add64 (rotate_left (add64 s0 s1) 17) s0,
    )

-- `row.swap(i, j)`; `none` is the panic of an index out of range.
unfoldable pub swap : List ℕ → ℕ → ℕ → Option (List ℕ)
swap row i j =
    Chain.◌>>=◌ (get_elem? row i) (λ a. Option.map (λ b. set (set row i b) j a) (get_elem? row j))

-- The Fisher–Yates loop, from position `j` down to 1.
unfoldable pub shuffle : ℕ → List ℕ → Seeds → Option (List ℕ × Seeds)
unfolding swap rand
shuffle zero row s = some (row, s)
shuffle (suc j) row s =
    Chain.◌>>=◌ (swap row (suc j) ((rand s).1 % (suc j + 1)))
      (λ swapped. shuffle j swapped (rand s).0)

-- `n` rows, each a shuffle of the one before it; `none` is a panic, as that of `copy_from_slice` of a
-- row of another length.
unfoldable pub perm_rows : ℕ → ℕ → List ℕ → Seeds → Option (List ℕ)
unfolding shuffle
perm_rows zero children previous s = some []
perm_rows (suc n) children previous s =
    if not (length previous == children)
    then none
    else Chain.◌>>=◌ (shuffle (children - 1) previous s)
        (λ (row, s'). Option.map (λ rest. row ++ rest) (perm_rows n children row s'))

-- `0..n`.
unfoldable pub count_up : ℕ → ℕ → List ℕ
count_up i zero = []
count_up i (suc n) = i ∷ count_up (i + 1) n

-- `generate_perms`; the first row counts up to `children as u8`.
unfoldable pub generate_perms : ℕ → ℕ → ℕ → Option (List ℕ)
unfolding perm_rows count_up
generate_perms children nperms seed =
    perm_rows nperms children (count_up 0 (children % 256)) (fixed_seed, seed)

pub data DraidError : Type 0 where
  no_map : ℕ → DraidError
  geometry : DraidError
  map_checksum : (children : ℕ) → (expected : ℕ) → (got : ℕ) → DraidError

pub record Config : Type 0 where
  pub ndata : ℕ
  pub nparity : ℕ
  pub nspares : ℕ
  pub children : ℕ
  pub ngroups : ℕ
  pub nperms : ℕ
  pub perms : List ℕ
  pub groupwidth : ℕ
  pub ndisks : ℕ
  pub groupsz : ℕ
  pub devslicesz : ℕ

-- `MAPS.iter().find(|m| m.0 == children)`.
unfoldable pub find_map : ℕ → List MapEntry → Option MapEntry
find_map children [] = none
find_map children ((c, nperms, seed, sum) ∷ ms) =
    if c == children then some (c, nperms, seed, sum) else find_map children ms

abbrev pub built : ℕ → ℕ → ℕ → ℕ → ℕ → ℕ → List ℕ → Config
built ndata nparity nspares children ngroups nperms perms =
    let groupwidth = add64 ndata nparity in
    let ndisks = sub64 children nspares in
    let groupsz = wrapping_mul groupwidth rowheight in
    record {
      ndata = ndata;
      nparity = nparity;
      nspares = nspares;
      children = children;
      ngroups = ngroups;
      nperms = nperms;
      perms = perms;
      groupwidth = groupwidth;
      ndisks = ndisks;
      groupsz = groupsz;
      devslicesz = wrapping_mul groupsz ngroups / ndisks;
    }

-- `Config::new` once the permutations are there: their checksum, and that the groups fill slices.
unfoldable pub config_of : ℕ → ℕ → ℕ → ℕ → ℕ → ℕ → ℕ → List ℕ → Result Config DraidError
unfolding fletcher4_sum
config_of ndata nparity nspares children ngroups nperms sum perms =
    let c = built ndata nparity nspares children ngroups nperms perms in
    if not ((fletcher4_sum perms little).0 == sum)
    then err (map_checksum children sum (fletcher4_sum perms little).0)
    else if ltb c.ndisks c.groupwidth
    then err geometry
    else if c.ndisks == 0
    then panic
    else if not (wrapping_mul c.groupwidth ngroups % c.ndisks == 0)
    then err geometry
    else ok c

-- `Config::new`.
unfoldable pub new : ℕ → ℕ → ℕ → ℕ → ℕ → Result Config DraidError
unfolding config_of find_map generate_perms
new ndata nparity nspares children ngroups =
    if nparity == 0 || ltb max_parity nparity
    then err geometry
    else if ngroups == 0 || ltb children (add64 (add64 ndata nparity) nspares) || ndata == 0
    then err geometry
    else (do
      (_, nperms, seed, sum) ← ok_or (find_map children maps) (no_map children)
      perms ← expect (generate_perms children nperms seed)
      config_of ndata nparity nspares children ngroups nperms sum perms)

-- `Config::permute`; `none` is a panic, a division by zero or an index out of range.
unfoldable pub permute : Config → ℕ → ℕ → Option ℕ
permute c pindex index =
    if wrapping_mul c.nperms c.children == 0
    then none
    else let poff = pindex % wrapping_mul c.nperms c.children in
      Option.map (λ p. (p + poff % c.children) % c.children)
        (get_elem? (drop ((poff / c.children) * c.children) c.perms) index)

-- `Config::asize` and `Config::asize_to_psize`.
unfoldable pub asize : Config → ℕ → ℕ → Option ℕ
asize c psize ashift =
    if shl64 c.ndata ashift == 0
    then none
    else let rows = add64 (sub64 psize 1 / shl64 c.ndata ashift) 1 in
      some (shl64 (wrapping_mul rows c.groupwidth) ashift)

unfoldable pub asize_to_psize : Config → ℕ → Option ℕ
asize_to_psize c size =
    if c.groupwidth == 0 then none else some (wrapping_mul (size / c.groupwidth) c.ndata)

-- `Config::logical_to_physical`: the offset on a child, then all three results.
abbrev pub physical_of : Config → ℕ → ℕ → ℕ
physical_of c logical ashift =
    let sectors = shr64 rowheight ashift in
    let group = logical / c.groupsz in
    let b_offset = shr64 logical ashift % wrapping_mul sectors c.groupwidth in
    let row =
      add64 (wrapping_mul (group / c.ngroups) (wrapping_mul c.groupwidth c.ngroups / c.ndisks))
        (wrapping_mul (group % c.ngroups) c.groupwidth / c.ndisks) in
    shl64 (add64 (wrapping_mul sectors row) (b_offset / c.groupwidth)) ashift

unfoldable pub logical_to_physical : Config → ℕ → ℕ → Option (ℕ × ℕ × ℕ)
logical_to_physical c logical ashift =
    if c.groupsz == 0
      || c.ndisks == 0
      || c.ngroups == 0
      || c.groupwidth == 0
      || wrapping_mul (shr64 rowheight ashift) c.groupwidth == 0
    then none
    else let group = logical / c.groupsz in
      some (
        physical_of c logical ashift,
        group / c.ngroups,
        wrapping_mul group c.groupwidth % c.ndisks,
      )

-- The size of column `i` of a row.
abbrev pub column_size : ℕ → ℕ → ℕ → ℕ → ℕ
column_size q bc i ashift =
    if q == 0 && leb bc i then 0 else if ltb i bc then shl64 (q + 1) ashift else shl64 q ashift

-- The loop of `Config::row`, at column `i` with `n` to come.
unfoldable pub row_columns : Config → ℕ → ℕ → ℕ → ℕ → ℕ → ℕ → ℕ → ℕ → ℕ → Option (List Column)
unfolding permute
row_columns c perm groupstart wrap q bc ashift zero i physical = some []
row_columns c perm groupstart wrap q bc ashift (suc n) i physical =
    let here = if i == wrap then add64 physical rowheight else physical in
    Chain.◌>>=◌ (permute c perm (add64 groupstart i % c.ndisks)) (λ child.
      Option.map
        (λ rest. record { devidx = child; offset = here; size = column_size q bc i ashift } ∷ rest)
        (row_columns c perm groupstart wrap q bc ashift n (i + 1) here))

-- `wrap`, `r` and `bc` of `Config::row`.
abbrev pub row_wrap : Config → ℕ → ℕ
row_wrap c groupstart =
    if ltb c.ndisks (add64 groupstart c.groupwidth) then sub64 c.ndisks groupstart else c.groupwidth

abbrev pub row_rest : Config → ℕ → ℕ
row_rest c psize = sub64 psize (wrapping_mul (psize / c.ndata) c.ndata)

abbrev pub row_big : Config → ℕ → ℕ
row_big c psize = if row_rest c psize == 0 then 0 else add64 (row_rest c psize) c.nparity

-- The end of `Config::row`: the map, from the sectors of the row and its columns.
abbrev pub row_map : Config → ℕ → ℕ → List Column → Map
row_map c psize ashift cols =
    let tot =
      add64 psize (
        wrapping_mul c.nparity
          (add64 (psize / c.ndata) (if row_rest c psize == 0 then 0 else 1))) in
    record {
      cols = cols;
      nparity = c.nparity;
      acols = c.groupwidth;
      bigcols = row_big c psize;
      asize = shl64 tot ashift;
      nskip = sub64 (wrapping_mul (div_ceil tot c.groupwidth) c.groupwidth) tot;
    }

-- `Config::row`.
unfoldable pub row_of : Config → ℕ → ℕ → ℕ → Option Map
unfolding logical_to_physical row_columns
row_of c io_offset io_size ashift =
    if c.ndata == 0
    then none
    else Chain.◌>>=◌ (logical_to_physical c io_offset ashift) (λ (physical, perm, groupstart).
      let psize = shr64 io_size ashift in
      Option.map (row_map c psize ashift) (
        row_columns c perm groupstart (row_wrap c groupstart) (psize / c.ndata) (row_big c psize)
          ashift c.groupwidth 0 physical))

-- `Config::map`: what of the block fits in front of the next group.
unfoldable pub first_size : Config → ℕ → ℕ → ℕ → Option ℕ
unfolding asize asize_to_psize
first_size c offset psize ashift =
    if c.groupsz == 0
    then none
    else let next_group = wrapping_mul (offset / c.groupsz + 1) c.groupsz in
      Chain.◌>>=◌ (asize c psize ashift) (λ size.
        if ltb next_group (add64 offset size)
        then asize_to_psize c (sub64 next_group offset)
        else some psize)

-- `Config::map`.
unfoldable pub map_rows : Config → ℕ → ℕ → ℕ → Option (List Map)
unfolding first_size row_of asize
map_rows c offset psize ashift = Chain.◌>>=◌ (first_size c offset psize ashift) (λ io_size.
    Chain.◌>>=◌ (row_of c offset io_size ashift) (λ first.
      if ltb io_size psize
      then Chain.◌>>=◌ (asize c io_size ashift) (λ size.
        Option.map (λ second. first ∷ second ∷ [])
          (row_of c (add64 offset size) (sub64 psize io_size) ashift))
      else some (first ∷ [])))

-- `Config::spare_child`.
unfoldable pub spare_child : Config → ℕ → ℕ → Option ℕ
unfolding permute
spare_child c spare_id physical_offset =
    if c.devslicesz == 0
    then none
    else permute c (physical_offset / c.devslicesz) (sub64 (sub64 c.children 1) spare_id)
