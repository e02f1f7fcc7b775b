-- ===== src/Ondisk/Ranges/Runs.antt =====
-- Concrete runs, and the theorems at concrete inputs.
use zvolrescue.Prelude.{◌≡◌, refl, ◌↔◌, arith}
use zvolrescue.Prelude.{true, not, ◌&&◌, ◌||◌, none}
use zvolrescue.Prelude.{List, [], ◌∷◌}
use zvolrescue.Prelude.{u64_max}
use zvolrescue.Ondisk.SpaceMap.{alloc, free, Entry}
use zvolrescue.Ondisk.Ranges.{
  Ranges, intersects, add, remove, replay, replay_run, apply, scan, visit, widen, carve, finish,
  sort_ranges, insert_range, merge_on, merge_pass,
}
use zvolrescue.Ondisk.Ranges.Members.{has, within}
use zvolrescue.Ondisk.Ranges.Merged.{IsMerged}
use zvolrescue.Ondisk.Ranges.Apply.{has-add, has-remove, add-IsMerged, remove-IsMerged}
use zvolrescue.Ondisk.Ranges.Canonical.{add_comm}
use zvolrescue.Ondisk.Ranges.Replay.{has-replay, last_word}
use zvolrescue.Ondisk.Ranges.Queries.{intersects_iff, Meets}

abbrev two : Ranges
two = (10, 20) ∷ (30, 40) ∷ []

add_touching : add 20 5 two ≡ (10, 25) ∷ (30, 40) ∷ []
unfolding add apply scan visit widen carve finish sort_ranges insert_range merge_on merge_pass
add_touching = refl

add_across : add 15 20 two ≡ (10, 40) ∷ []
unfolding add apply scan visit widen carve finish sort_ranges insert_range merge_on merge_pass
add_across = refl

remove_inside : remove 12 3 two ≡ (10, 12) ∷ (15, 20) ∷ (30, 40) ∷ []
unfolding remove apply scan visit widen carve finish sort_ranges insert_range merge_on merge_pass
remove_inside = refl

-- A run that starts at the last address is cut to nothing, and leaves an empty range in the set.
add_at_top : add u64_max 1 [] ≡ (u64_max, u64_max) ∷ []
unfolding add apply scan visit widen carve finish sort_ranges insert_range merge_on merge_pass
add_at_top = refl

has-add_example : has 22 (add 20 5 two) ≡ (has 22 two || within 20 25 22)
has-add_example = has-add 22 20 5 two (omega arith) (omega arith)

has-remove_example : has 13 (remove 12 3 two) ≡ (has 13 two && not (within 12 15 13))
has-remove_example = has-remove 13 12 3 two (omega arith)

add-IsMerged_example : IsMerged (add 20 5 two)
add-IsMerged_example = add-IsMerged 20 5 two (omega arith) (omega arith)

remove-IsMerged_example : IsMerged (remove 12 3 two)
remove-IsMerged_example = remove-IsMerged 12 3 two (omega arith) (omega arith)

add_comm_example : add 5 10 (add 18 15 two) ≡ add 18 15 (add 5 10 two)
add_comm_example = add_comm 5 10 18 15 two (omega arith) (omega arith) (omega arith)

abbrev log : List Entry
log =
    record { kind = alloc; offset = 0; run = 8; vdev = none }
    ∷ record { kind = free; offset = 4; run = 2; vdev = none }
    ∷ []

replay_test : replay log 100 [] ≡ (100, 104) ∷ (106, 108) ∷ []
unfolding replay replay_run add remove apply scan visit widen carve finish sort_ranges insert_range
    merge_on merge_pass
replay_test = refl

has-replay_example : has 105 (replay log 100 two) ≡ last_word 100 105 log (has 105 two)
has-replay_example = has-replay 105 log 100 two (omega arith) (omega arith)

intersects_iff_example : (intersects 15 20 two ≡ true) ↔ Meets 15 35 two
intersects_iff_example = intersects_iff 15 20 two (omega arith) (omega arith) (omega arith)
