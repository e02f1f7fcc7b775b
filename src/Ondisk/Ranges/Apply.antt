-- ===== src/Ondisk/Ranges/Apply.antt =====
-- `Ranges::apply`: what one pass over the set does to the bytes that it holds.
use zvolrescue.Prelude.{ℕ, suc, ◌≤◌, ◌<◌}
use zvolrescue.Prelude.{◌≡◌, refl, ◌∙◌, ◌⊎◌, inl, inr, arith}
use zvolrescue.Prelude.{Bool, true, false, not, ◌&&◌, ◌||◌}
use zvolrescue.Prelude.{[], ◌∷◌}
use zvolrescue.Prelude.{◌==◌, Bool-cases}
use zvolrescue.Prelude.{u64_max, saturating_add}
use zvolrescue.Ondisk.Ranges.{Range, Ranges, Building, widen, carve, visit, scan, finish}
use zvolrescue.Ondisk.Ranges.{sort_ranges, apply, add, remove}
use zvolrescue.Ondisk.Ranges.Members.{has, within, has-reverse, has-sort_ranges, has-merge_pass}
use zvolrescue.Ondisk.Ranges.Members.{StartsFrom, StartsFrom-mono, sort_ranges-IsOrdered}
use zvolrescue.Ondisk.Ranges.Merged.{Nonempty, IsMerged, IsMerged-Nonempty}
use zvolrescue.Ondisk.Ranges.Merged.{Nonempty-reverse, sort_ranges-Nonempty, merge_pass-IsMerged}
use mathlib.Core.List.{reverse}

module _ (from to : ℕ) (order : from ≤ to) where
  -- Removing keeps the bytes outside the hole.
  visit_remove :
      (x a b : ℕ) (out : Ranges) (ins : Bool)
      → has x (visit from to false (a, b) (out, ins)).0
        ≡ (has x out || (within a b x && not (within from to x)))
  unfolding visit carve has
  visit_remove x a b out ins = ground arith

  visit_remove_flag :
      (r : Range) (out : Ranges) (ins : Bool) → (visit from to false r (out, ins)).1 ≡ ins
  unfolding visit
  visit_remove_flag r out ins = ground arith

  scan_remove :
      (x : ℕ) (rs out : Ranges) (ins : Bool)
      → has x (scan from to false rs (out, ins)).0
        ≡ (has x out || (has x rs && not (within from to x)))
  unfolding scan has
  scan_remove x [] out ins = ground arith
  scan_remove x ((a, b) ∷ rs) out ins =
      let next = visit from to false (a, b) (out, ins) in
      ground (arith, visit_remove x a b out ins, scan_remove x rs next.0 next.1)

  -- The last range pushed starts low enough to be widened, or lies above what is added.
  abbrev HeadOk : ℕ → Ranges → Type 0
  HeadOk a [] = Unit
  HeadOk a ((c, d) ∷ out) = (c ≤ a) × ((c ≤ from) ⊎ (to < a))

  -- Once what is added is in, its bytes are in.
  abbrev Covered : ℕ → Building → Type 0
  Covered x (out, ins) = (ins && within from to x && not (has x out)) ≡ false

  -- The bytes so far, with what is still to be added.
  abbrev total : ℕ → Building → Bool
  total x (out, ins) = has x out || (not ins && within from to x)

  visit_add :
      (x a b : ℕ) (out : Ranges) (ins : Bool)
      → a ≤ b
      → HeadOk a out
      → Covered x (out, ins)
      → total x (visit from to true (a, b) (out, ins)) ≡ (total x (out, ins) || within a b x)
  unfolding visit widen has
  visit_add x a b [] ins h k c = ground arith
  visit_add x a b ((c, d) ∷ out) ins h k cov = ground arith

  visit_add-Covered :
      (x a b : ℕ) (out : Ranges) (ins : Bool)
      → a ≤ b
      → HeadOk a out
      → Covered x (out, ins)
      → Covered x (visit from to true (a, b) (out, ins))
  unfolding visit widen has
  visit_add-Covered x a b [] ins h k c = ground arith
  visit_add-Covered x a b ((c, d) ∷ out) ins h k cov = ground arith

  visit_add-HeadOk :
      (a b next : ℕ) (out : Ranges) (ins : Bool)
      → a ≤ b
      → a ≤ next
      → HeadOk a out
      → HeadOk next (visit from to true (a, b) (out, ins)).0
  unfolding visit widen
  visit_add-HeadOk a b next [] ins h n k = ground arith
  visit_add-HeadOk a b next ((c, d) ∷ out) ins h n k = ground arith

  -- The first range still to be visited, if there is one.
  abbrev NextOk : Ranges → Ranges → Type 0
  NextOk [] out = Unit
  NextOk ((a, b) ∷ rs) out = HeadOk a out

  NextOk-nil : (rs : Ranges) → NextOk rs []
  NextOk-nil [] = tt
  NextOk-nil ((a, b) ∷ rs) = tt

  visit_add-NextOk :
      (a b : ℕ) (rs out : Ranges) (ins : Bool)
      → a ≤ b
      → StartsFrom a rs
      → HeadOk a out
      → NextOk rs (visit from to true (a, b) (out, ins)).0
  visit_add-NextOk a b [] out ins h s k = tt
  visit_add-NextOk a b ((c, d) ∷ rs) out ins h (n, s) k = visit_add-HeadOk a b c out ins h n k

  scan_add :
      (x : ℕ) (rs out : Ranges) (ins : Bool)
      → IsMerged rs
      → NextOk rs out
      → Covered x (out, ins)
      → total x (scan from to true rs (out, ins)) ≡ (total x (out, ins) || has x rs)
  unfolding scan has
  scan_add x [] out ins m k c = ground arith
  scan_add x ((a, b) ∷ rs) out ins (h, s, m) k c =
      let next = visit from to true (a, b) (out, ins) in
      let low : StartsFrom a rs = StartsFrom-mono a (suc b) rs (omega arith) s in
      let rest =
        scan_add x rs next.0 next.1 m (visit_add-NextOk a b rs out ins (omega arith) low k)
          (visit_add-Covered x a b out ins (omega arith) k c) in
      ground (arith, rest, visit_add x a b out ins (omega arith) k c)

  -- What the pass leaves before it is sorted and merged.
  abbrev scanned : Bool → Ranges → Ranges
  scanned add rs = finish from to add (scan from to add rs ([], false))

  has-scanned_add :
      (x : ℕ) (rs : Ranges) → IsMerged rs → has x (scanned true rs) ≡ (has x rs || within from to x)
  unfolding finish has
  has-scanned_add x rs m = ground (arith, scan_add x rs [] false m (NextOk-nil rs) refl)

  has-scanned_remove :
      (x : ℕ) (rs : Ranges) → has x (scanned false rs) ≡ (has x rs && not (within from to x))
  unfolding finish has
  has-scanned_remove x rs = ground (arith, scan_remove x rs [] false)

  has-apply :
      (x : ℕ) (add : Bool) (rs : Ranges) → has x (apply from to add rs) ≡ has x (scanned add rs)
  unfolding apply
  has-apply x add rs =
      has-merge_pass x _ (sort_ranges-IsOrdered (reverse (scanned add rs)))
      ∙ has-sort_ranges x (reverse (scanned add rs))
      ∙ has-reverse x (scanned add rs)

  visit-Nonempty :
      (add : Bool) (a b : ℕ) (out : Ranges) (ins : Bool)
      → (add ≡ true → from < to)
      → a < b
      → Nonempty out
      → Nonempty (visit from to add (a, b) (out, ins)).0
  unfolding visit widen carve
  visit-Nonempty add a b [] ins real h p = ground arith
  visit-Nonempty add a b ((c, d) ∷ out) ins real h p = ground arith

  scan-Nonempty :
      (add : Bool) (rs out : Ranges) (ins : Bool)
      → (add ≡ true → from < to)
      → Nonempty rs
      → Nonempty out
      → Nonempty (scan from to add rs (out, ins)).0
  unfolding scan
  scan-Nonempty add [] out ins real p q = q
  scan-Nonempty add ((a, b) ∷ rs) out ins real (h, p) q =
      let next = visit from to add (a, b) (out, ins) in
      scan-Nonempty add rs next.0 next.1 real p (visit-Nonempty add a b out ins real h q)

  scanned-Nonempty :
      (add : Bool) (rs : Ranges)
      → (add ≡ true → from < to)
      → Nonempty rs
      → Nonempty (scanned add rs)
  unfolding finish
  scanned-Nonempty add rs real p = ground (arith, scan-Nonempty add rs [] false real p tt)

  apply-IsMerged :
      (add : Bool) (rs : Ranges)
      → (add ≡ true → from < to)
      → IsMerged rs
      → IsMerged (apply from to add rs)
  unfolding apply
  apply-IsMerged add rs real m =
      let sorted = sort_ranges (reverse (scanned add rs)) in
      merge_pass-IsMerged sorted (sort_ranges-IsOrdered (reverse (scanned add rs))) (
        sort_ranges-Nonempty _
          (Nonempty-reverse _ (scanned-Nonempty add rs real (IsMerged-Nonempty rs m))))

-- Adding a run of u64 addresses to a merged set adds exactly its bytes, cut at the top of the
-- address space.
pub has-add :
    (x start len : ℕ) (rs : Ranges)
    → start ≤ u64_max
    → IsMerged rs
    → has x (add start len rs) ≡ (has x rs || within start (saturating_add start len) x)
unfolding add
has-add x start len rs h m = ground (
  arith,
  has-apply start (saturating_add start len) (omega arith) x true rs,
  has-scanned_add start (saturating_add start len) (omega arith) x rs m,
)

-- Removing a run of u64 addresses takes out exactly its bytes, cut at the top of the address space.
pub has-remove :
    (x start len : ℕ) (rs : Ranges)
    → start ≤ u64_max
    → has x (remove start len rs) ≡ (has x rs && not (within start (saturating_add start len) x))
unfolding remove
has-remove x start len rs h = ground (
  arith,
  has-apply start (saturating_add start len) (omega arith) x false rs,
  has-scanned_remove start (saturating_add start len) (omega arith) x rs,
)

-- Adding a run that starts below the top of the address space keeps a merged set merged: sorted,
-- with a gap between any two ranges and no empty range.
pub add-IsMerged :
    (start len : ℕ) (rs : Ranges) → start < u64_max → IsMerged rs → IsMerged (add start len rs)
unfolding add
add-IsMerged start len rs h m = elim (Bool-cases (len == 0)) [
  | inl none_added ↦ rw none_added m
  | inr some_added ↦ rw some_added (
      apply-IsMerged start (saturating_add start len) (omega arith) true rs
        (λ _. ground (arith, some_added)) m)
]

-- Removing a run keeps a merged set merged.
pub remove-IsMerged :
    (start len : ℕ) (rs : Ranges) → start ≤ u64_max → IsMerged rs → IsMerged (remove start len rs)
unfolding remove
remove-IsMerged start len rs h m = elim (Bool-cases (len == 0)) [
  | inl none_taken ↦ rw none_taken m
  | inr some_taken ↦
      rw some_taken
        (apply-IsMerged start (saturating_add start len) (omega arith) false rs (λ e. cc) m)
]
