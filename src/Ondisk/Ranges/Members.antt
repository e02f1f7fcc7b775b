-- ===== src/Ondisk/Ranges/Members.antt =====
-- Which bytes a list of ranges holds, and what sorting and the last pass do to them.
use zvolrescue.Prelude.{ℕ, ◌≤◌, max}
use zvolrescue.Prelude.{◌≡◌, refl, ap, arith}
use zvolrescue.Prelude.{Bool, false, ◌&&◌, ◌||◌}
use zvolrescue.Prelude.{[], ◌∷◌, ◌++◌}
use zvolrescue.Prelude.{ltb, leb}
use zvolrescue.Ondisk.Ranges.{Range, Ranges, insert_range, sort_ranges, merge_on, merge_pass}
use mathlib.Core.List.{reverse, reverse-append}

-- Byte `x` lies in the range.
abbrev pub within : ℕ → ℕ → ℕ → Bool
within a b x = leb a x && ltb x b

unfoldable pub has : ℕ → Ranges → Bool
has x [] = false
has x ((a, b) ∷ rs) = within a b x || has x rs

pub has-append : (x : ℕ) (rs ss : Ranges) → has x (rs ++ ss) ≡ (has x rs || has x ss)
unfolding has
has-append x [] ss = refl
has-append x ((a, b) ∷ rs) ss = ground (arith, has-append x rs ss)

pub has-reverse : (x : ℕ) (rs : Ranges) → has x (reverse rs) ≡ has x rs
unfolding has
has-reverse x [] = refl
has-reverse x ((a, b) ∷ rs) = ground (
  arith,
  ap (has x) (reverse-append ((a, b) ∷ []) rs),
  has-append x (reverse rs) ((a, b) ∷ []),
  has-reverse x rs,
)

has-insert_range :
    (x : ℕ) (r : Range) (rs : Ranges) → has x (insert_range r rs) ≡ (within r.0 r.1 x || has x rs)
unfolding has insert_range
has-insert_range x r [] = refl
has-insert_range x r (s ∷ rs) = ground (arith, has-insert_range x r rs)

pub has-sort_ranges : (x : ℕ) (rs : Ranges) → has x (sort_ranges rs) ≡ has x rs
unfolding has sort_ranges
has-sort_ranges x [] = refl
has-sort_ranges x (r ∷ rs) =
    ground (arith, has-insert_range x r (sort_ranges rs), has-sort_ranges x rs)

-- Every range starts at `lo` or above.
abbrev pub StartsFrom : ℕ → Ranges → Type 0
StartsFrom lo [] = Unit
StartsFrom lo ((a, b) ∷ rs) = (lo ≤ a) × StartsFrom lo rs

-- In the order of the starts.
abbrev pub IsOrdered : Ranges → Type 0
IsOrdered [] = Unit
IsOrdered ((a, b) ∷ rs) = StartsFrom a rs × IsOrdered rs

pub StartsFrom-mono : (lo hi : ℕ) (rs : Ranges) → lo ≤ hi → StartsFrom hi rs → StartsFrom lo rs
StartsFrom-mono lo hi [] h s = tt
StartsFrom-mono lo hi ((a, b) ∷ rs) h (p, s) = (omega arith, StartsFrom-mono lo hi rs h s)

insert_range-StartsFrom :
    (lo : ℕ) (r : Range) (rs : Ranges)
    → lo ≤ r.0
    → StartsFrom lo rs
    → StartsFrom lo (insert_range r rs)
unfolding insert_range
insert_range-StartsFrom lo r [] h s = (h, tt)
insert_range-StartsFrom lo r (t ∷ rs) h (p, s) = ground (arith, insert_range-StartsFrom lo r rs)

insert_range-IsOrdered : (r : Range) (rs : Ranges) → IsOrdered rs → IsOrdered (insert_range r rs)
unfolding insert_range
insert_range-IsOrdered r [] o = (tt, tt)
insert_range-IsOrdered r (t ∷ rs) (p, o) = ground (
  arith,
  insert_range-IsOrdered r rs,
  StartsFrom-mono r.0 t.0 rs,
  insert_range-StartsFrom t.0 r rs,
)

pub sort_ranges-IsOrdered : (rs : Ranges) → IsOrdered (sort_ranges rs)
unfolding sort_ranges
sort_ranges-IsOrdered [] = tt
sort_ranges-IsOrdered (r ∷ rs) =
    insert_range-IsOrdered r (sort_ranges rs) (sort_ranges-IsOrdered rs)

-- The last pass keeps the bytes of an ordered list.
has-merge_on :
    (x c d : ℕ) (rs : Ranges)
    → StartsFrom c rs
    → IsOrdered rs
    → has x (merge_on c d rs) ≡ (within c d x || has x rs)
unfolding has merge_on
has-merge_on x c d [] s o = refl
has-merge_on x c d ((a, b) ∷ rs) (p, s) (q, o) =
    ground (arith, has-merge_on x c (max d b) rs, has-merge_on x a b rs, StartsFrom-mono c a rs)

pub has-merge_pass : (x : ℕ) (rs : Ranges) → IsOrdered rs → has x (merge_pass rs) ≡ has x rs
unfolding has merge_pass
has-merge_pass x [] o = refl
has-merge_pass x ((a, b) ∷ rs) (s, o) = has-merge_on x a b rs s o
