-- ===== src/Ondisk/Raidz/Runs.antt =====
-- Concrete runs, and the theorems at concrete inputs.
use zvolrescue.Prelude.{◌*◌, ◌^◌}
use zvolrescue.Prelude.{◌≡◌, refl, arith}
use zvolrescue.Prelude.{none, some}
use zvolrescue.Prelude.{List, [], ◌∷◌, get_elem?}
use zvolrescue.Prelude.{div_ceil}
use zvolrescue.Ondisk.Raidz.{
  Column, Map, map_block, data_columns, column, columns, swap_first, sum_sizes, geometry, map_of,
}
use zvolrescue.Ondisk.Raidz.Layout.{IsLayout}
use zvolrescue.Ondisk.Raidz.Totals.{map_block-data, held}
use zvolrescue.Ondisk.Raidz.Places.{IsAt, map_block-IsAt}

abbrev five_on_four : IsLayout 512 2560 9 4 1
five_on_four = record {
  small_sector = omega arith;
  some_parity = omega arith;
  parity = omega arith;
  some_data = omega arith;
  children = omega arith;
  block = omega arith;
  low = omega arith;
}

abbrev five_sectors : Map
five_sectors = record {
  cols =
      record { devidx = 1; offset = 0; size = 1024 }
      ∷ record { devidx = 2; offset = 0; size = 1024 }
      ∷ record { devidx = 3; offset = 0; size = 1024 }
      ∷ record { devidx = 0; offset = 512; size = 512 }
      ∷ [];
  nparity = 1;
  acols = 4;
  bigcols = 3;
  asize = 4096;
  nskip = 1;
}

-- The source's own example: five sectors over four children, from sector 1 on.
wraps_and_big_columns : map_block 512 2560 9 4 1 ≡ some five_sectors
unfolding map_block column columns swap_first sum_sizes geometry map_of
wraps_and_big_columns = refl

no_children : map_block 0 512 9 0 1 ≡ none
unfolding map_block
no_children = refl

map_block-data_example :
    (m : Map) × (ds : List Column) × (map_block 512 2560 9 4 1 ≡ some m)
    × (data_columns m ≡ some ds)
    × (held ds ≡ div_ceil 2560 (2 ^ 9) * 2 ^ 9)
map_block-data_example = map_block-data 512 2560 9 4 1 five_on_four (omega arith)

map_block-IsAt_example :
    (x : Column) × (get_elem? five_sectors.cols 3 ≡ some x) × IsAt 512 2560 9 4 1 five_on_four 3 x
map_block-IsAt_example =
    map_block-IsAt 512 2560 9 4 1 five_on_four five_sectors 3 wraps_and_big_columns (omega arith)
