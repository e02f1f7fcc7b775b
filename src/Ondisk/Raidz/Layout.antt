-- ===== src/Ondisk/Raidz/Layout.antt =====
-- Where each column of a RAIDZ map lies. The bounds keep every word below 2 ^ 64.
use zvolrescue.Prelude.{ℕ, zero, suc, ◌+◌, ◌-◌, ◌*◌, ◌/◌, ◌%◌, ◌^◌, ◌≤◌, ◌<◌, min}
use zvolrescue.Prelude.{◌≡◌, refl, ◌∙◌, arith}
use zvolrescue.Prelude.{◌==◌, if◌then◌else◌}
use zvolrescue.Prelude.{wrapping_mul}
use zvolrescue.Prelude.{shl64, shr64, div_ceil, add64, sub64}
use native.Mathlib.Nat.{
  div-mul-le_self, mul-le-mul_right, one-mul, mod-eq_of_lt, mul-le-mul, div-le_self, mod-add-div',
  mod-lt, pow-le-pow_right, pow-suc,
}
use zvolrescue.Ondisk.Raidz.{Geometry, geometry_of, geometry, round_up}

-- What a vdev and a block of a pool are like: sectors of 64 KiB at most, one to three parity
-- columns and a data column at least among 255 children at most, and blocks below 4 GiB.
pub record IsLayout (offset psize ashift dcols nparity : ℕ) : Type 0 where
  pub small_sector : ashift ≤ 16
  pub some_parity : 0 < nparity
  pub parity : nparity ≤ 3
  pub some_data : nparity < dcols
  pub children : dcols ≤ 255
  pub block : psize ≤ 2 ^ 32
  pub low : offset < 2 ^ 63

sector_pos : (ashift : ℕ) → 0 < 2 ^ ashift
sector_pos zero = omega arith
sector_pos (suc k) = omega (arith, pow-suc 2 k, sector_pos k)

-- The size of a sector.
pub sector_bounds : (ashift : ℕ) → ashift ≤ 16 → (0 < 2 ^ ashift) × (2 ^ ashift ≤ 65536)
sector_bounds ashift h = (sector_pos ashift, pow-le-pow_right (omega arith) h)

pub shl64_small : (k ashift : ℕ) → ashift ≤ 16 → k ≤ 2 ^ 40 → shl64 k ashift ≡ k * 2 ^ ashift
shl64_small k ashift h small =
    let (pos, short) = sector_bounds ashift h in
    let amount : ashift % 64 ≡ ashift = omega arith in
    rw amount (mod-eq_of_lt (omega (arith, mul-le-mul small short)))

-- Rounding up to whole groups loses nothing.
pub le-div_ceil : (n group : ℕ) → 0 < group → n ≤ div_ceil n group * group
le-div_ceil n group pos = ground (arith, mod-add-div' n group, mod-lt n pos)

round_up_exact : (n group : ℕ) → n ≤ 255 → group ≤ 4 → round_up n group ≡ div_ceil n group * group
round_up_exact n group h g = ground (arith, div-mul-le_self n group)

module _ (offset psize ashift dcols nparity : ℕ)
    (lay : IsLayout offset psize ashift dcols nparity) where
  abbrev pub unit : ℕ
  unit = 2 ^ ashift

  -- The block in sectors, the data columns, the rows that are full and what is left over.
  abbrev pub sectors : ℕ
  sectors = div_ceil psize unit

  abbrev pub ndata : ℕ
  ndata = dcols - nparity

  abbrev pub rows : ℕ
  rows = sectors / ndata

  abbrev pub rest : ℕ
  rest = sectors % ndata

  -- The first sector of the block on the vdev.
  abbrev pub sector : ℕ
  sector = offset / unit

  abbrev pub big_columns : ℕ
  big_columns = if rest == 0 then 0 else rest + nparity

  abbrev pub used_columns : ℕ
  used_columns = if rows == 0 then big_columns else dcols

  -- The geometry, in plain arithmetic.
  abbrev pub plan : Geometry
  plan = record {
    unit = unit;
    first = sector % dcols;
    base = sector / dcols * unit;
    full = rows;
    big = big_columns;
    total = sectors + nparity * (rows + (if rest == 0 then 0 else 1));
    acols = used_columns;
    scols =
        if rows == 0 then min dcols (div_ceil big_columns (nparity + 1) * (nparity + 1)) else dcols;
  }

  pub sectors_bound : sectors ≤ 2 ^ 32 + 1
  sectors_bound = ground (arith, div-le_self psize unit, lay.block)

  pub sectors_pos : 0 < psize → 0 < sectors
  sectors_pos h = ground (arith, mod-add-div' psize unit)

  pub rows_bound :
      (rows ≤ sectors) × (rows * ndata ≤ sectors) × (sectors - rows * ndata ≡ rest) × (rest < ndata)
  rows_bound =
      let pos : 0 < ndata = omega (arith, lay.some_data) in
      (
        div-le_self sectors ndata,
        omega (arith, mod-add-div' sectors ndata),
        omega (arith, mod-add-div' sectors ndata),
        mod-lt sectors pos,
      )

  unit_lem : shl64 1 ashift ≡ unit
  unit_lem = shl64_small 1 ashift lay.small_sector (omega arith) ∙ one-mul unit

  sector_lem : shr64 offset ashift ≡ sector
  sector_lem = let amount : ashift % 64 ≡ ashift = omega (arith, lay.small_sector) in rw amount

  ndata_lem : sub64 dcols nparity ≡ ndata
  ndata_lem = omega (arith, lay.some_data, lay.children)

  rest_lem : sub64 sectors (wrapping_mul rows ndata) ≡ rest
  rest_lem = omega (arith, sectors_bound, rows_bound)

  pub base_bound : sector / dcols * unit ≤ offset
  base_bound =
      omega (arith, div-mul-le_self offset unit, mul-le-mul_right unit (div-le_self sector dcols))

  base_lem : shl64 (sector / dcols) ashift ≡ sector / dcols * unit
  base_lem =
      let amount : ashift % 64 ≡ ashift = omega (arith, lay.small_sector) in
      rw amount (mod-eq_of_lt (omega (arith, lay.low, base_bound)))

  parity_rows_lem :
      (extra : ℕ)
      → extra ≤ 1
      → add64 sectors (wrapping_mul nparity (add64 rows extra)) ≡ sectors + nparity * (rows + extra)
  parity_rows_lem extra h =
      let bound : nparity * (rows + extra) ≤ 3 * (rows + extra) =
        mul-le-mul_right (rows + extra) lay.parity in
      let plain : add64 rows extra ≡ rows + extra = omega (arith, rows_bound, sectors_bound) in
      rw plain (omega (arith, bound, rows_bound, sectors_bound))

  pub big_bound : big_columns ≤ dcols
  big_bound = ground (arith, rows_bound, lay.some_data)

  big_lem : add64 rest nparity ≡ rest + nparity
  big_lem = omega (arith, rows_bound, lay.parity, lay.children)

  group_lem : add64 nparity 1 ≡ nparity + 1
  group_lem = omega (arith, lay.parity)

  pub geometry_lem : geometry offset psize ashift dcols nparity ≡ plan
  unfolding geometry geometry_of
  geometry_lem =
      rw (unit_lem, sector_lem, ndata_lem, rest_lem, base_lem, big_lem, group_lem)
        (rw (parity_rows_lem (if rest == 0 then 0 else 1) (ground arith)) (
          rw
            (round_up_exact big_columns (nparity + 1) (omega (arith, big_bound, lay.children))
              (omega (arith, lay.parity)))
            refl))
