-- ===== src/Ondisk/Raidz/Sizes.antt =====
-- Each column's place and size, and that the columns hold the block and its parity.
use zvolrescue.Prelude.{ℕ, ◌+◌, ◌*◌, ◌/◌, ◌%◌, ◌^◌, ◌≤◌, ◌<◌}
use zvolrescue.Prelude.{◌≡◌, ap, inl, inr, arith}
use zvolrescue.Prelude.{ltb, leb, if◌then◌else◌, Bool-cases}
use zvolrescue.Prelude.{add64}
use native.Mathlib.Nat.{div-eq_of_lt-le, mod-add-div', mod-lt}
use zvolrescue.Ondisk.Raidz.{Geometry, column}
use zvolrescue.Ondisk.Raidz.Layout

-- `c` steps past `n`, in rows of `d`.
abbrev pub carry : ℕ → ℕ → ℕ → ℕ
carry n c d = if leb d (n % d + c) then 1 else 0

row_of : (n c d : ℕ) → c < d → (n + c) / d ≡ n / d + carry n c d
row_of n c d h = elim (Bool-cases (leb d (n % d + c))) [
  | inl over ↦
      rw over
        (div-eq_of_lt-le d (ground (arith, over, split, low)) (ground (arith, over, split, low)))
  | inr inside ↦
      rw inside (
        div-eq_of_lt-le d (ground (arith, inside, split, low)) (ground (arith, inside, split, low)))
]
  where
    split : n % d + n / d * d ≡ n
    split = mod-add-div' n d

    low : n % d < d
    low = mod-lt n (omega arith)

pub place_of : (n c d : ℕ) → c < d → (n + c) % d + carry n c d * d ≡ n % d + c
place_of n c d h =
    let row = row_of n c d h in
    let here = mod-add-div' n d in
    let there = mod-add-div' (n + c) d in omega (arith, ap (λ (t : ℕ). t * d) row)

module _ (offset psize ashift dcols nparity : ℕ)
    (lay : Layout.IsLayout offset psize ashift dcols nparity) where
  abbrev pub plan : Geometry
  plan = Layout.plan offset psize ashift dcols nparity lay

  -- The sectors of the block that column `c` holds.
  abbrev pub share : ℕ → ℕ
  share c = if leb plan.acols c then 0 else if ltb c plan.big then plan.full + 1 else plan.full

  -- The sector of the vdev that the block begins at.
  abbrev pub sector : ℕ
  sector = offset / 2 ^ ashift

  low_place : sector % dcols < dcols
  low_place = mod-lt sector (omega (arith, lay.some_data))

  full_bound : plan.full ≤ 2 ^ 32 + 1
  full_bound = omega (
    arith,
    Layout.sectors_bound offset psize ashift dcols nparity lay,
    Layout.rows_bound offset psize ashift dcols nparity lay,
  )

  no_wrap : (c : ℕ) → c < dcols → add64 (sector % dcols) c ≡ sector % dcols + c
  no_wrap c h = omega (arith, lay.children, low_place)

  -- Column `c` lies on the child that sector `sector + c` falls on, row by row.
  pub column-devidx :
      (c : ℕ) → c < dcols → (column plan ashift dcols c).devidx ≡ (sector + c) % dcols
  unfolding column
  column-devidx c h = ground (arith, place_of sector c dcols h, no_wrap c h, low_place)

  -- It begins at the row of that sector.
  pub column-offset :
      (c : ℕ) → c < dcols → (column plan ashift dcols c).offset ≡ (sector + c) / dcols * 2 ^ ashift
  unfolding column
  column-offset c h =
      let (pos, short) = Layout.sector_bounds ashift lay.small_sector in
      let base = Layout.base_bound offset psize ashift dcols nparity lay in
      rw (row_of sector c dcols h, no_wrap c h)
        (elim (Bool-cases (leb dcols (sector % dcols + c))) [
          | inl over ↦ rw over (omega (arith, lay.low, base, short))
          | inr inside ↦ rw inside (omega arith)
        ])

  -- It holds its share of the sectors.
  pub column-size : (c : ℕ) → (column plan ashift dcols c).size ≡ share c * 2 ^ ashift
  unfolding column
  column-size c =
      let small : add64 plan.full 1 ≡ plan.full + 1 = omega (arith, full_bound) in
      let wide =
        Layout.shl64_small (plan.full + 1) ashift lay.small_sector (omega (arith, full_bound)) in
      let narrow =
        Layout.shl64_small plan.full ashift lay.small_sector (omega (arith, full_bound)) in
      rw small (ground (arith, wide, narrow))
