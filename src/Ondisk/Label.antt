-- ===== src/Ondisk/Label.antt =====
-- crates/zfs-ondisk/src/label.rs: where the four labels of a vdev lie.
mod Runs
use zvolrescue.Prelude.{ℕ, zero, suc, ◌+◌, ◌-◌, ◌*◌, ◌/◌, ◌%◌, ◌^◌, ◌≤◌, ◌<◌, min, max}
use zvolrescue.Prelude.{◌≡◌, refl, sym, ap, ◌∙◌, ◌≢◌, ◌↔◌, ◌⊎◌, inl, inr, arith}
use zvolrescue.Prelude.{Bool, true, false, not, ◌&&◌, ◌||◌, Option, none, some}
use zvolrescue.Prelude.{
  List, [], ◌∷◌, ◌++◌, map, length, get_elem?, take, drop, replicate, set, All,
}
use zvolrescue.Prelude.{ltb, leb, ◌==◌, if◌then◌else◌, Bool-cases, Option-cases}
use zvolrescue.Prelude.{
  ltb→lt, lt→ltb, le→ltb, leb→le, ==_iff, length-append, length-take, length-drop,
}
use zvolrescue.Prelude.{
  length-replicate, length-set, get_elem?-take, get_elem?-set_self, get_elem?-set_ne, take-append,
  drop-append, get_elem?-some, get_elem?_lt, get_elem?-append, get_elem?-drop, drop-drop,
  get_elem?-front, All-append,
}
use zvolrescue.Prelude.{u64_mod, u64_max, saturating_add, checked_add, checked_mul, wrapping_mul}
use zvolrescue.Prelude.{shl64, shr64, low_bits, div_ceil, add64, sub64}
use zvolrescue.Prelude.{Result, ok, err, panic, stuck, ◌>>=◌, ok_or, expect, Returns}

-- `LABEL_SIZE`, `LABELS_PER_VDEV`.
abbrev pub label_size : ℕ
label_size = 256 * 1024

abbrev pub labels_per_vdev : ℕ
labels_per_vdev = 4

-- `psize & !(LABEL_SIZE - 1)`.
abbrev pub aligned : ℕ → ℕ
aligned psize = psize - psize % label_size

-- `label_offsets`.
unfoldable pub label_offsets : ℕ → Option (ℕ × ℕ × ℕ × ℕ)
label_offsets psize =
    if ltb (aligned psize) (label_size * labels_per_vdev)
    then none
    else some (0, label_size, aligned psize - 2 * label_size, aligned psize - label_size)

-- A device has labels exactly when four of them fit. Then they lie one behind the other without
-- overlap, on multiples of the size of a label, the last within a label's size of the end.
pub label_offsets_total :
    (psize : ℕ)
    → ((label_offsets psize ≡ none) × (psize < 4 * label_size))
      ⊎ ((l1 : ℕ) × (l2 : ℕ) × (l3 : ℕ) × (label_offsets psize ≡ some (0, l1, l2, l3))
          × (label_size ≤ l1)
          × (l1 + label_size ≤ l2)
          × (l2 + label_size ≤ l3)
          × (l3 + label_size ≤ psize)
          × (psize < l3 + 2 * label_size)
          × (l1 % label_size ≡ 0)
          × (l2 % label_size ≡ 0)
          × (l3 % label_size ≡ 0))
unfolding label_offsets
label_offsets_total psize = elim (Bool-cases (ltb (aligned psize) (label_size * labels_per_vdev))) [
  | inl short ↦
      let small : aligned psize < label_size * labels_per_vdev = ltb→lt _ _ short in
      inl (rw short refl, omega (arith, small))
  | inr enough ↦
      let long : label_size * labels_per_vdev ≤ aligned psize = ground (arith, enough) in
      inr (
        label_size,
        aligned psize - 2 * label_size,
        aligned psize - label_size,
        rw enough refl,
        omega arith,
        omega (arith, long),
        omega (arith, long),
        omega (arith, long),
        omega (arith, long),
        omega arith,
        omega (arith, long),
        omega (arith, long),
      )
]
