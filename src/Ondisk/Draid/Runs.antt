-- ===== src/Ondisk/Draid/Runs.antt =====
-- Tests and examples of the dRAID geometry.
use zvolrescue.Prelude.{ℕ, ◌-◌, ◌^◌}
use zvolrescue.Prelude.{◌≡◌, refl, ◌⊎◌, arith}
use zvolrescue.Prelude.{Option, none, some}
use zvolrescue.Prelude.{List, All}
use zvolrescue.Prelude.{Result, ok, err}
use zvolrescue.Ondisk.Bytes.{from_bytes, from_le_bytes}
use zvolrescue.Ondisk.Checksum.{fletcher4_sum, fletcher4_loop}
use zvolrescue.Ondisk.Raidz.{Map}
use zvolrescue.Ondisk.Draid.{
  Config, DraidError, geometry, rand, swap, shuffle, perm_rows, count_up, generate_perms, find_map,
  built, config_of, new, map_rows,
}
use zvolrescue.Ondisk.Draid.Shuffle.{AreRows, generate_perms-AreRows}
use zvolrescue.Ondisk.Draid.Setup.{IsConfig, new_total}
use zvolrescue.Ondisk.Draid.Rows.{AreApart, map_rows-AreApart}

abbrev groupwidth_of : Result Config DraidError → Option ℕ
groupwidth_of (ok c) = some c.groupwidth
groupwidth_of _ = none

-- The permutations for two children have the checksum of the table.
new_test : groupwidth_of (new 1 1 0 2 1) ≡ some 2
unfolding new config_of find_map generate_perms perm_rows shuffle swap rand count_up fletcher4_sum
    fletcher4_loop from_bytes from_le_bytes
new_test = refl

new_too_wide_test : new 2 1 0 2 1 ≡ err geometry
unfolding new
new_too_wide_test = refl

-- The sum of the counts wraps, and a group of no columns gets through.
new_wrap_test : groupwidth_of (new (2 ^ 64 - 1) 1 0 2 1) ≡ some 0
unfolding new config_of find_map generate_perms perm_rows shuffle swap rand count_up fletcher4_sum
    fletcher4_loop from_bytes from_le_bytes
new_wrap_test = refl

generate_perms-AreRows_example :
    (perms : List ℕ) × (generate_perms 5 3 7 ≡ some perms) × AreRows 3 5 perms
generate_perms-AreRows_example = generate_perms-AreRows 5 3 7 (omega arith) (omega arith)

new_total_example :
    ((c : Config) × (new 1 1 0 2 1 ≡ ok c) × IsConfig c)
    ⊎ ((e : DraidError) × (new 1 1 0 2 1 ≡ err e))
new_total_example = new_total 1 1 0 2 1 (omega arith)

-- Four children, groups of two data columns and a parity, one spare.
abbrev four_perms : (perms : List ℕ) × (generate_perms 4 256 99 ≡ some perms) × AreRows 256 4 perms
four_perms = generate_perms-AreRows 4 256 99 (omega arith) (omega arith)

abbrev four : Config
four = built 2 1 1 4 1 256 four_perms.0

four-IsConfig : IsConfig four
four-IsConfig = record {
  some_rows = omega arith;
  few_rows = omega arith;
  some_children = omega arith;
  few_children = omega arith;
  some_data = omega arith;
  parity = omega arith;
  width = refl;
  disks = refl;
  fits = omega arith;
  groups = omega arith;
  group_size = refl;
  rows = four_perms.2;
}

map_rows-AreApart_example :
    (ms : List Map) × (map_rows four 1048576 131072 12 ≡ some ms)
    × All (λ (m : Map). AreApart four m.cols) ms
map_rows-AreApart_example = map_rows-AreApart four four-IsConfig 12 (omega arith) 1048576 131072
