-- ===== src/Ondisk/Label/Runs.antt =====
-- Tests and examples of the places of labels.
use zvolrescue.Prelude.{ℕ, ◌+◌, ◌-◌, ◌*◌, ◌%◌, ◌^◌, ◌≤◌, ◌<◌}
use zvolrescue.Prelude.{◌≡◌, refl, ◌⊎◌}
use zvolrescue.Prelude.{none, some}
use zvolrescue.Ondisk.Label.{label_size, label_offsets, label_offsets_total}

label_test : label_offsets (2 ^ 30 + 5) ≡ some (0, 262144, 2 ^ 30 - 524288, 2 ^ 30 - 262144)
unfolding label_offsets
label_test = refl

label_offsets_total_example :
    ((label_offsets 2000000 ≡ none) × (2000000 < 4 * label_size))
    ⊎ ((l1 : ℕ) × (l2 : ℕ) × (l3 : ℕ) × (label_offsets 2000000 ≡ some (0, l1, l2, l3))
        × (label_size ≤ l1)
        × (l1 + label_size ≤ l2)
        × (l2 + label_size ≤ l3)
        × (l3 + label_size ≤ 2000000)
        × (2000000 < l3 + 2 * label_size)
        × (l1 % label_size ≡ 0)
        × (l2 % label_size ≡ 0)
        × (l3 % label_size ≡ 0))
label_offsets_total_example = label_offsets_total 2000000
