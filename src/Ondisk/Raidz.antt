-- ===== src/Ondisk/Raidz.antt =====
-- crates/zfs-ondisk/src/raidz.rs: how a block is laid out over the children of a RAIDZ vdev.
pub mod Layout
pub mod Sizes
pub mod Totals
pub mod Places
mod Runs
use zvolrescue.Prelude.{ℕ, zero, suc, ◌+◌, ◌-◌, ◌*◌, ◌/◌, ◌%◌, ◌^◌, ◌≤◌, ◌<◌, min, max}
use zvolrescue.Prelude.{◌≡◌, refl, sym, ap, ◌∙◌, ◌≢◌, ◌↔◌, ◌⊎◌, inl, inr, arith}
use zvolrescue.Prelude.{Bool, true, false, not, ◌&&◌, ◌||◌, Option, none, some}
use zvolrescue.Prelude.{List, [], ◌∷◌, ◌++◌, map, length, get_elem?, take, drop, replicate, All}
use zvolrescue.Prelude.{ltb, leb, ◌==◌, if◌then◌else◌, Bool-cases, Option-cases}
use zvolrescue.Prelude.{ltb→lt, lt→ltb, leb→le, ==_iff, length-append, length-take, length-drop}
use zvolrescue.Prelude.{
  length-replicate, take-append, drop-append, get_elem?-some, get_elem?_lt, get_elem?-append,
  All-append,
}
use zvolrescue.Prelude.{u64_mod, u64_max, saturating_add, checked_add, checked_mul, wrapping_mul}
use zvolrescue.Prelude.{shl64, shr64, low_bits, div_ceil, add64, sub64}
use zvolrescue.Prelude.{Result, ok, err, panic, stuck, ◌>>=◌, ok_or, expect, Returns}

pub record Column : Type 0 where
  pub devidx : ℕ
  pub offset : ℕ
  pub size : ℕ

pub record Map : Type 0 where
  pub cols : List Column
  pub nparity : ℕ
  pub acols : ℕ
  pub bigcols : ℕ
  pub asize : ℕ
  pub nskip : ℕ

-- `Map::data`: `cols[nparity..acols]`; `none` is the panic of a slice out of range.
unfoldable pub data_columns : Map → Option (List Column)
data_columns m =
    if leb m.nparity m.acols && leb m.acols (length m.cols)
    then some (drop m.nparity (take m.acols m.cols))
    else none

-- `Map::parity`: `cols[..nparity]`.
unfoldable pub parity_columns : Map → Option (List Column)
parity_columns m = if leb m.nparity (length m.cols) then some (take m.nparity m.cols) else none

-- The numbers that `map` computes before its loop.
pub record Geometry : Type 0 where
  pub unit : ℕ
  pub first : ℕ
  pub base : ℕ
  pub full : ℕ
  pub big : ℕ
  pub total : ℕ
  pub acols : ℕ
  pub scols : ℕ

-- `bc.div_ceil(nparity + 1) * (nparity + 1)`: rounded up to whole groups.
abbrev pub round_up : ℕ → ℕ → ℕ
round_up n group = (div_ceil n group * group) % u64_mod

-- From the number of sectors `s`, the rows that they fill and the rest.
unfoldable pub geometry_of : ℕ → ℕ → ℕ → ℕ → ℕ → ℕ → ℕ → Geometry
geometry_of offset ashift dcols nparity s q r =
    let b = shr64 offset ashift in
    let bc = if r == 0 then 0 else add64 r nparity in
    record {
      unit = shl64 1 ashift;
      first = b % dcols;
      base = shl64 (b / dcols) ashift;
      full = q;
      big = bc;
      total = add64 s (wrapping_mul nparity (add64 q (if r == 0 then 0 else 1)));
      acols = if q == 0 then bc else dcols;
      scols = if q == 0 then min dcols (round_up bc (add64 nparity 1)) else dcols;
    }

unfoldable pub geometry : ℕ → ℕ → ℕ → ℕ → ℕ → Geometry
unfolding geometry_of
geometry offset psize ashift dcols nparity =
    let s = div_ceil psize (shl64 1 ashift) in
    let ndata = sub64 dcols nparity in
    let q = s / ndata in
    geometry_of offset ashift dcols nparity s q (sub64 s (wrapping_mul q ndata))

-- The body of the loop: column `c`.
unfoldable pub column : Geometry → ℕ → ℕ → ℕ → Column
column g ashift dcols c =
    let col = add64 g.first c in
    let wraps = leb dcols col in
    record {
      devidx = if wraps then col - dcols else col;
      offset = if wraps then add64 g.base g.unit else g.base;
      size =
          if leb g.acols c
          then 0
          else if ltb c g.big
          then shl64 (add64 g.full 1) ashift
          else shl64 g.full ashift;
    }

-- The loop: `n` columns from column `c` on.
unfoldable pub columns : ℕ → Geometry → ℕ → ℕ → ℕ → List Column
columns zero g ashift dcols c = []
columns (suc n) g ashift dcols c = column g ashift dcols c ∷ columns n g ashift dcols (c + 1)

-- `asize += size` over the columns.
unfoldable pub sum_sizes : ℕ → List Column → ℕ
sum_sizes sum [] = sum
sum_sizes sum (c ∷ cs) = sum_sizes (add64 sum c.size) cs

-- The first two columns change places on the children; their sizes stay.
unfoldable pub swap_first : List Column → List Column
swap_first (c ∷ d ∷ cs) =
    record c { devidx = d.devidx; offset = d.offset }
    ∷ record d { devidx = c.devidx; offset = c.offset }
    ∷ cs
swap_first cs = cs

-- `offset & (1 << 20) != 0`.
abbrev pub bit_20 : ℕ → Bool
bit_20 offset = not (low_bits (shr64 offset 20) 1 == 0)

unfoldable pub map_of : ℕ → ℕ → ℕ → ℕ → Geometry → Map
map_of offset ashift dcols nparity g =
    let cols = columns g.scols g ashift dcols 0 in
    let group = shl64 (add64 nparity 1) ashift in
    record {
      cols = if (nparity == 1) && bit_20 offset then swap_first cols else cols;
      nparity = nparity;
      acols = g.acols;
      bigcols = g.big;
      asize = wrapping_mul (div_ceil (sum_sizes 0 cols) group) group;
      nskip = sub64 (round_up g.total (add64 nparity 1)) g.total;
    }

-- `map`; `none` is a panic, a division by zero: by the children, the data columns or the group.
unfoldable pub map_block : ℕ → ℕ → ℕ → ℕ → ℕ → Option Map
map_block offset psize ashift dcols nparity =
    if (dcols == 0) || (sub64 dcols nparity == 0)
    then none
    else if shl64 (add64 nparity 1) ashift == 0
    then none
    else some (map_of offset ashift dcols nparity (geometry offset psize ashift dcols nparity))
