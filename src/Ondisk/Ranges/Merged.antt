-- ===== src/Ondisk/Ranges/Merged.antt =====
-- The invariant of the set: no range is empty, and there is a gap between any two.
use zvolrescue.Prelude.{ℕ, suc, ◌≤◌, ◌<◌, max}
use zvolrescue.Prelude.{arith}
use zvolrescue.Prelude.{[], ◌∷◌, ◌++◌}
use zvolrescue.Ondisk.Ranges.{Range, Ranges, insert_range, sort_ranges, merge_on, merge_pass}
use zvolrescue.Ondisk.Ranges.Members.{StartsFrom, StartsFrom-mono, IsOrdered}
use mathlib.Core.List.{reverse, reverse-append}

-- No range is empty.
abbrev pub Nonempty : Ranges → Type 0
Nonempty [] = Unit
Nonempty ((a, b) ∷ rs) = (a < b) × Nonempty rs

-- Sorted by start, no range empty, and no two ranges touch.
abbrev pub IsMerged : Ranges → Type 0
IsMerged [] = Unit
IsMerged ((a, b) ∷ rs) = (a < b) × StartsFrom (suc b) rs × IsMerged rs

pub IsMerged-IsOrdered : (rs : Ranges) → IsMerged rs → IsOrdered rs
IsMerged-IsOrdered [] m = tt
IsMerged-IsOrdered ((a, b) ∷ rs) (p, s, m) =
    (StartsFrom-mono a (suc b) rs (omega arith) s, IsMerged-IsOrdered rs m)

pub IsMerged-Nonempty : (rs : Ranges) → IsMerged rs → Nonempty rs
IsMerged-Nonempty [] m = tt
IsMerged-Nonempty ((a, b) ∷ rs) (p, s, m) = (p, IsMerged-Nonempty rs m)

pub Nonempty-append : (rs ss : Ranges) → Nonempty rs → Nonempty ss → Nonempty (rs ++ ss)
Nonempty-append [] ss p q = q
Nonempty-append ((a, b) ∷ rs) ss (h, p) q = (h, Nonempty-append rs ss p q)

pub Nonempty-reverse : (rs : Ranges) → Nonempty rs → Nonempty (reverse rs)
Nonempty-reverse [] p = tt
Nonempty-reverse ((a, b) ∷ rs) (h, p) =
    rw (reverse-append ((a, b) ∷ []) rs)
      (Nonempty-append (reverse rs) _ (Nonempty-reverse rs p) (h, tt))

insert_range-Nonempty :
    (r : Range) (rs : Ranges) → r.0 < r.1 → Nonempty rs → Nonempty (insert_range r rs)
unfolding insert_range
insert_range-Nonempty r [] h p = (h, tt)
insert_range-Nonempty r (s ∷ rs) h (q, p) = ground (arith, insert_range-Nonempty r rs)

pub sort_ranges-Nonempty : (rs : Ranges) → Nonempty rs → Nonempty (sort_ranges rs)
unfolding sort_ranges
sort_ranges-Nonempty [] p = tt
sort_ranges-Nonempty (r ∷ rs) (h, p) =
    insert_range-Nonempty r (sort_ranges rs) h (sort_ranges-Nonempty rs p)

merge_on-StartsFrom :
    (lo c d : ℕ) (rs : Ranges) → lo ≤ c → StartsFrom lo rs → StartsFrom lo (merge_on c d rs)
unfolding merge_on
merge_on-StartsFrom lo c d [] h s = (h, tt)
merge_on-StartsFrom lo c d ((a, b) ∷ rs) h (p, s) =
    ground (arith, merge_on-StartsFrom lo c (max d b) rs, merge_on-StartsFrom lo a b rs)

-- The last pass leaves a merged list, of any ordered list of ranges that are not empty.
merge_on-IsMerged :
    (c d : ℕ) (rs : Ranges)
    → c < d
    → StartsFrom c rs
    → IsOrdered rs
    → Nonempty rs
    → IsMerged (merge_on c d rs)
unfolding merge_on
merge_on-IsMerged c d [] h s o p = (h, tt, tt)
merge_on-IsMerged c d ((a, b) ∷ rs) h (q, s) (t, o) (r, p) = ground (
  arith,
  merge_on-IsMerged c (max d b) rs,
  merge_on-IsMerged a b rs,
  StartsFrom-mono c a rs,
  StartsFrom-mono (suc d) a rs,
  merge_on-StartsFrom (suc d) a b rs,
)

pub merge_pass-IsMerged : (rs : Ranges) → IsOrdered rs → Nonempty rs → IsMerged (merge_pass rs)
unfolding merge_pass
merge_pass-IsMerged [] o p = tt
merge_pass-IsMerged ((a, b) ∷ rs) (s, o) (h, p) = merge_on-IsMerged a b rs h s o p
