-- ===== src/Ondisk/Draid/Rows.antt =====
-- The columns of a row lie on different children.
use zvolrescue.Prelude.{ℕ, zero, suc, ◌+◌, ◌*◌, ◌/◌, ◌%◌, ◌^◌, ◌≤◌, ◌<◌}
use zvolrescue.Prelude.{◌≡◌, refl, sym, ap, ◌∙◌, inl, inr, arith}
use zvolrescue.Prelude.{false, some}
use zvolrescue.Prelude.{List, [], ◌∷◌, length, get_elem?, All}
use zvolrescue.Prelude.{ltb, ◌==◌, if◌then◌else◌, Bool-cases}
use zvolrescue.Prelude.{get_elem?_lt}
use zvolrescue.Prelude.{u64_mod, wrapping_mul}
use zvolrescue.Prelude.{shl64, shr64, add64, sub64}
use native.Mathlib.Nat.{
  mod-lt, mod-eq_of_lt, le-div_iff_mul-le, div-le_self, pow-le-pow_right, mul-le-mul, mul-pos,
  mul_comm,
}
use zvolrescue.Ondisk.Raidz.{Column, Map}
use zvolrescue.Ondisk.Draid.{
  Config, permute, row_columns, logical_to_physical, physical_of, row_wrap, row_big, row_map,
  row_of, first_size, asize, asize_to_psize, map_rows, rowheight, column_size,
}
use zvolrescue.Ondisk.Draid.Setup.{IsConfig, permute-some, permute_injective, rotation_injective}

-- The columns lie on different children of the vdev.
abbrev pub AreApart : Config → List Column → Type 0
AreApart c cols =
    (length cols ≡ c.groupwidth)
    × ((i : ℕ) (a : Column) → get_elem? cols i ≡ some a → a.devidx < c.children)
    × ((i j : ℕ) (a b : Column)
        → get_elem? cols i ≡ some a
        → get_elem? cols j ≡ some b
        → a.devidx ≡ b.devidx
        → i ≡ j)

module _ (c : Config) (is : IsConfig c) (perm groupstart : ℕ) (start : groupstart < c.ndisks) where
  -- The column of the permutation that a column of the row stands for.
  abbrev logical : ℕ → ℕ
  logical i = add64 groupstart i % c.ndisks

  logical-lt : (i : ℕ) → logical i < c.children
  logical-lt i =
      let below : logical i < c.ndisks = mod-lt (add64 groupstart i) (omega arith) in
      omega (arith, is.disks, below)

  logical_injective :
      (i j : ℕ) → i < c.groupwidth → j < c.groupwidth → logical i ≡ logical j → i ≡ j
  logical_injective i j hi hj h =
      let same_i : add64 groupstart i ≡ i + groupstart =
        omega (arith, is.fits, is.disks, is.few_children) in
      let same_j : add64 groupstart j ≡ j + groupstart =
        omega (arith, is.fits, is.disks, is.few_children) in
      rotation_injective i j groupstart c.ndisks (omega (arith, is.fits)) (omega (arith, is.fits))
        start (ap (λ n. n % c.ndisks) (sym same_i) ∙ h ∙ ap (λ n. n % c.ndisks) same_j)

  row_columns_lem :
      (wrap q bc ashift n i physical : ℕ)
      → (cols : List Column) × (row_columns c perm groupstart wrap q bc ashift n i physical
          ≡ some cols)
        × (length cols ≡ n)
        × ((k : ℕ) (a : Column)
            → get_elem? cols k ≡ some a
            → permute c perm (logical (i + k)) ≡ some a.devidx)
  unfolding row_columns
  row_columns_lem wrap q bc ashift zero i physical = ([], refl, refl, λ k a h. cc)
  row_columns_lem wrap q bc ashift (suc n) i physical =
      let (x, here, below) = permute-some c is perm (logical i) (logical-lt i) in
      let at : ℕ = if i == wrap then add64 physical rowheight else physical in
      let (cols, done, size, rest) = row_columns_lem wrap q bc ashift n (i + 1) at in
      (
        record { devidx = x; offset = at; size = column_size q bc i ashift } ∷ cols,
        rw here (rw done refl),
        ap suc size,
        λ k a.
            elim k
              as (λ k.
                get_elem?
                    (record { devidx = x; offset = at; size = column_size q bc i ashift } ∷ cols) k
                  ≡ some a
                → permute c perm (logical (i + k)) ≡ some a.devidx) [
                  | zero ↦ λ h. ap (λ n. permute c perm (logical n)) (omega arith) ∙ here ∙ cc h
                  | suc k ↦ λ h. ap (λ n. permute c perm (logical n)) (omega arith) ∙ rest k a h
                ],
      )

  row_columns-AreApart :
      (wrap q bc ashift physical : ℕ)
      → (cols : List Column) × (row_columns c perm groupstart wrap q bc ashift c.groupwidth 0
            physical
          ≡ some cols)
        × AreApart c cols
  row_columns-AreApart wrap q bc ashift physical =
      let (cols, done, size, places) = row_columns_lem wrap q bc ashift c.groupwidth 0 physical in
      let place : (k : ℕ) (a : Column)
          → get_elem? cols k ≡ some a
          → permute c perm (logical k) ≡ some a.devidx =
        λ k a h. ap (λ n. permute c perm (logical n)) (omega arith) ∙ places k a h in
      (
        cols,
        done,
        (
          size,
          λ i a h.
              let (x, here, below) = permute-some c is perm (logical i) (logical-lt i) in
              let same : x ≡ a.devidx = cc (here, place i a h) in omega (arith, below, same),
          λ i j a b hi hj same.
              logical_injective i j (omega (arith, size, get_elem?_lt cols i hi))
                (omega (arith, size, get_elem?_lt cols j hj))
                (permute_injective c is perm (logical i) (logical j) a.devidx (logical-lt i)
                  (logical-lt j) (place i a hi) (place j b hj ∙ ap some (sym same))),
        ),
      )

power_bounds : (a : ℕ) → a ≤ 24 → (1 ≤ 2 ^ a) × (2 ^ a ≤ 2 ^ 24)
power_bounds a h = (
  pow-le-pow_right {n = 2} (omega arith) {i = 0} {j = a} (omega arith),
  pow-le-pow_right (omega arith) h,
)

-- What an `ashift` up to 24 makes of a row and of a number of columns.
sectors_bounds :
    (ashift : ℕ) → ashift ≤ 24 → (1 ≤ shr64 rowheight ashift) × (shr64 rowheight ashift ≤ 2 ^ 24)
sectors_bounds ashift h =
    let same : ashift % 64 ≡ ashift = omega (arith, h) in
    let (low, high) = power_bounds ashift h in
    rw same ((le-div_iff_mul-le low).1 (omega (arith, high)), div-le_self rowheight (2 ^ ashift))

product_nonzero : (a b : ℕ) → 1 ≤ a → a ≤ 2 ^ 24 → 1 ≤ b → b ≤ 255 → (wrapping_mul a b == 0) ≡ false
product_nonzero a b la ha lb hb =
    let low : 0 < a * b = mul-pos la lb in
    let high : a * b ≤ 2 ^ 24 * 255 = mul-le-mul ha hb in
    let same : wrapping_mul a b ≡ a * b = mod-eq_of_lt (omega (arith, high)) in
    ground (arith, same, low)

module _ (c : Config) (is : IsConfig c) (ashift : ℕ) (small : ashift ≤ 24) where
  logical_to_physical-some :
      (at : ℕ)
      → (physical perm groupstart : ℕ) × (logical_to_physical c at ashift
          ≡ some (physical, perm, groupstart))
        × (groupstart < c.ndisks)
  unfolding logical_to_physical
  logical_to_physical-some at =
      let (low, high) = sectors_bounds ashift small in
      let no_sectors : (wrapping_mul (shr64 rowheight ashift) c.groupwidth == 0) ≡ false =
        product_nonzero (shr64 rowheight ashift) c.groupwidth low high
          (omega (arith, is.width, is.some_data))
          (omega (arith, is.fits, is.disks, is.few_children)) in
      let size : (c.groupsz == 0) ≡ false = ground (arith, is.group_size, is.width, is.some_data) in
      let disks : (c.ndisks == 0) ≡ false = ground (arith, is.fits, is.width, is.some_data) in
      let groups : (c.ngroups == 0) ≡ false = ground (arith, is.groups) in
      let width : (c.groupwidth == 0) ≡ false = ground (arith, is.width, is.some_data) in
      (
        physical_of c at ashift,
        at / c.groupsz / c.ngroups,
        wrapping_mul (at / c.groupsz) c.groupwidth % c.ndisks,
        rw size (rw disks (rw groups (rw width (rw no_sectors refl)))),
        mod-lt (wrapping_mul (at / c.groupsz) c.groupwidth)
            (omega (arith, is.fits, is.width, is.some_data)),
      )

  row_of-AreApart :
      (io_offset io_size : ℕ)
      → (m : Map) × (row_of c io_offset io_size ashift ≡ some m) × AreApart c m.cols
  unfolding row_of
  row_of-AreApart io_offset io_size =
      let (physical, perm, groupstart, found, start) = logical_to_physical-some io_offset in
      let psize = shr64 io_size ashift in
      let pos : (c.ndata == 0) ≡ false = ground (arith, is.some_data) in
      let (cols, done, apart) =
        row_columns-AreApart c is perm groupstart start (row_wrap c groupstart) (psize / c.ndata)
          (row_big c psize) ashift physical in
      (row_map c psize ashift cols, rw pos (rw found (rw done refl)), apart)

  asize-some : (psize : ℕ) → (size : ℕ) × (asize c psize ashift ≡ some size)
  unfolding asize
  asize-some psize =
      let same : ashift % 64 ≡ ashift = omega (arith, small) in
      let (low, high) = power_bounds ashift small in
      let swapped : wrapping_mul (2 ^ ashift) c.ndata ≡ shl64 c.ndata ashift =
        rw same (ap (λ n. n % u64_mod) (mul_comm (2 ^ ashift) c.ndata)) in
      let fine : (shl64 c.ndata ashift == 0) ≡ false = rw (← swapped) (
        product_nonzero (2 ^ ashift) c.ndata low high (omega (arith, is.some_data))
          (omega (arith, is.width, is.fits, is.disks, is.few_children))) in
      (
        shl64 (wrapping_mul (add64 (sub64 psize 1 / shl64 c.ndata ashift) 1) c.groupwidth) ashift,
        rw fine refl,
      )

  first_size-some : (offset psize : ℕ) → (size : ℕ) × (first_size c offset psize ashift ≡ some size)
  unfolding first_size asize_to_psize
  first_size-some offset psize =
      let (size, found) = asize-some psize in
      let groupsz : (c.groupsz == 0) ≡ false =
        ground (arith, is.group_size, is.width, is.some_data) in
      let width : (c.groupwidth == 0) ≡ false = ground (arith, is.width, is.some_data) in
      let next_group = wrapping_mul (offset / c.groupsz + 1) c.groupsz in
      elim (Bool-cases (ltb next_group (add64 offset size))) [
        | inl over ↦ (
          wrapping_mul (sub64 next_group offset / c.groupwidth) c.ndata,
          rw groupsz (rw found (rw over (rw width refl))),
        )
        | inr fits ↦ (psize, rw groupsz (rw found (rw fits refl)))
      ]

  -- With a configuration as `Config::new` accepts it and sectors of at most 16 MiB, a block of any size
  -- at any offset is mapped, without a panic, to rows each of whose columns lie on different children
  -- of the vdev, as many as a group is wide.
  pub map_rows-AreApart :
      (offset psize : ℕ)
      → (ms : List Map) × (map_rows c offset psize ashift ≡ some ms)
        × All (λ (m : Map). AreApart c m.cols) ms
  unfolding map_rows
  map_rows-AreApart offset psize =
      let (io_size, cut) = first_size-some offset psize in
      let (first, made, apart) = row_of-AreApart offset io_size in
      elim (Bool-cases (ltb io_size psize)) [
        | inr whole ↦ (first ∷ [], rw cut (rw made (rw whole refl)), (apart, tt))
        | inl split ↦
            let (size, found) = asize-some io_size in
            let (second, made', apart') =
              row_of-AreApart (add64 offset size) (sub64 psize io_size) in
            (
              first ∷ second ∷ [],
              rw cut (rw made (rw split (rw found (rw made' refl)))),
              (apart, (apart', tt)),
            )
      ]
