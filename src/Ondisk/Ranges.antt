-- ===== src/Ondisk/Ranges.antt =====
-- crates/zfs-ondisk/src/spacemap.rs, `Ranges`: a set of byte ranges, kept sorted and merged.
pub mod Members
pub mod Apply
pub mod Merged
pub mod Replay
pub mod Canonical
pub mod Queries
mod Runs
use zvolrescue.Prelude.{ℕ, zero, suc, ◌+◌, ◌-◌, ◌*◌, ◌/◌, ◌%◌, ◌^◌, ◌≤◌, ◌<◌, min, max}
use zvolrescue.Prelude.{◌≡◌, refl, sym, ap, ◌∙◌, ◌≢◌, ◌↔◌, ◌⊎◌, inl, inr, arith}
use zvolrescue.Prelude.{Bool, true, false, not, ◌&&◌, ◌||◌, Option, none, some}
use zvolrescue.Prelude.{List, [], ◌∷◌, ◌++◌, map, length, get_elem?, take, drop, replicate, All}
use zvolrescue.Prelude.{ltb, leb, ◌==◌, if◌then◌else◌, Bool-cases, Option-cases}
use zvolrescue.Prelude.{ltb→lt, lt→ltb, leb→le, ==_iff, length-append, length-take, length-drop}
use zvolrescue.Prelude.{
  length-replicate, take-append, drop-append, get_elem?-some, get_elem?_lt, get_elem?-append,
  All-append,
}
use zvolrescue.Prelude.{u64_mod, u64_max, saturating_add, checked_add, checked_mul, wrapping_mul}
use zvolrescue.Prelude.{shl64, shr64, low_bits, div_ceil}
use zvolrescue.Prelude.{Result, ok, err, panic, stuck, ◌>>=◌, ok_or, expect, Returns}
use zvolrescue.Ondisk.SpaceMap.{MapType, alloc, free, Entry}
use mathlib.Core.List.{reverse}

-- A range runs from its first byte to the one past its last.
abbrev pub Range : Type 0
Range = ℕ × ℕ

abbrev pub Ranges : Type 0
Ranges = List Range

-- `Ranges::bytes`.
unfoldable pub bytes : Ranges → ℕ
bytes [] = 0
bytes ((a, b) ∷ rs) = (b - a) + bytes rs

-- The vector under construction has its last element in front, and the flag `inserted` beside it.
abbrev pub Building : Type 0
Building = Ranges × Bool

-- A touching range when adding: the last one pushed is widened, or a new one is pushed.
unfoldable pub widen : ℕ → ℕ → Building → Building
widen lo hi ([], inserted) = ((lo, hi) ∷ [], true)
widen lo hi ((c, d) ∷ out, inserted) =
    if leb lo d then ((c, max d hi) ∷ out, inserted) else ((lo, hi) ∷ (c, d) ∷ out, true)

-- What is kept of a touching range when removing.
unfoldable pub carve : ℕ → ℕ → Range → Ranges → Ranges
carve from to (a, b) out =
    let left = if ltb a from then (a, from) ∷ out else out in
    if ltb to b then (to, b) ∷ left else left

-- A range above the hole: what is added goes in front of it, once.
abbrev pub pass_above : ℕ → ℕ → Bool → Range → Building → Building
pass_above from to add r (out, inserted) =
    if add && not inserted then (r ∷ (from, to) ∷ out, true) else (r ∷ out, inserted)

-- One round of the loop of `Ranges::apply`.
unfoldable pub visit : ℕ → ℕ → Bool → Range → Building → Building
visit from to add (a, b) (out, inserted) =
    if ltb b from
    then ((a, b) ∷ out, inserted)
    else if ltb to a
    then pass_above from to add (a, b) (out, inserted)
    else if add
    then widen (min a from) (max b to) (out, inserted)
    else (carve from to (a, b) out, inserted)

unfoldable pub scan : ℕ → ℕ → Bool → Ranges → Building → Building
scan from to add [] built = built
scan from to add (r ∷ rs) built = scan from to add rs (visit from to add r built)

-- What is added goes last, if no range was at or above it.
unfoldable pub finish : ℕ → ℕ → Bool → Building → Ranges
finish from to add (out, inserted) = if add && not inserted then (from, to) ∷ out else out

-- `out.sort_unstable()`: pairs in lexicographic order. Equal pairs cannot be told apart.
abbrev pub le_pair : Range → Range → Bool
le_pair (a, b) (c, d) = ltb a c || (a == c && leb b d)

unfoldable pub insert_range : Range → Ranges → Ranges
insert_range r [] = r ∷ []
insert_range r (s ∷ rs) = if le_pair r s then r ∷ s ∷ rs else s ∷ insert_range r rs

unfoldable pub sort_ranges : Ranges → Ranges
sort_ranges [] = []
sort_ranges (r ∷ rs) = insert_range r (sort_ranges rs)

-- The last pass: `(c, d)` is the last range of the result so far.
unfoldable pub merge_on : ℕ → ℕ → Ranges → Ranges
merge_on c d [] = (c, d) ∷ []
merge_on c d ((a, b) ∷ rs) =
    let wider = merge_on c (max d b) rs in
    let apart = merge_on a b rs in if leb a d then wider else (c, d) ∷ apart

unfoldable pub merge_pass : Ranges → Ranges
merge_pass [] = []
merge_pass ((a, b) ∷ rs) = merge_on a b rs

-- `Ranges::apply`.
unfoldable pub apply : ℕ → ℕ → Bool → Ranges → Ranges
apply from to add rs =
    merge_pass (sort_ranges (reverse (finish from to add (scan from to add rs ([], false)))))

-- `Ranges::add`.
unfoldable pub add : ℕ → ℕ → Ranges → Ranges
add start len rs = if len == 0 then rs else apply start (saturating_add start len) true rs

-- `Ranges::remove`.
unfoldable pub remove : ℕ → ℕ → Ranges → Ranges
remove start len rs = if len == 0 then rs else apply start (saturating_add start len) false rs

-- `Ranges::intersects`.
unfoldable pub intersects_until : ℕ → ℕ → Ranges → Bool
intersects_until start end_ [] = false
intersects_until start end_ ((a, b) ∷ rs) =
    (ltb a end_ && ltb start b) || intersects_until start end_ rs

unfoldable pub intersects : ℕ → ℕ → Ranges → Bool
unfolding intersects_until
intersects start len rs = intersects_until start (saturating_add start len) rs

-- `Ranges::replay`: what an entry of each kind does, then the loop.
unfoldable pub replay_run : MapType → ℕ → ℕ → Ranges → Ranges
replay_run alloc at run rs = add at run rs
replay_run free at run rs = remove at run rs

unfoldable pub replay : List Entry → ℕ → Ranges → Ranges
replay [] base rs = rs
replay (x ∷ xs) base rs = replay xs base (replay_run x.kind (saturating_add base x.offset) x.run rs)
