-- ===== src/Ondisk/Indirect/Remap.antt =====
-- What `remap` returns: termination, the bytes that its segments place, and where it fails.
use zvolrescue.Prelude.{ℕ, zero, suc, ◌+◌, ◌-◌, ◌<◌, min}
use zvolrescue.Prelude.{◌≡◌, ◌⊎◌, inl, inr, arith}
use zvolrescue.Prelude.{Option, none, some}
use zvolrescue.Prelude.{List, [], ◌∷◌, drop}
use zvolrescue.Prelude.{ltb, ◌==◌, if◌then◌else◌, Bool-cases, Option-cases}
use zvolrescue.Prelude.{Result, ok}
use mathlib.Core.Path.{subst}
use zvolrescue.Ondisk.Indirect.{Entry, Mapping, Segment, Unmapped, entry_for, remap, remap_loop}
use zvolrescue.Ondisk.Indirect.{remap_round}
use zvolrescue.Ondisk.Indirect.Sorted.{In, Spans}
use zvolrescue.Ondisk.Indirect.Lookup.{entry_for_sound}

-- The number of bytes that the segments place.
unfoldable pub placed : List Segment → ℕ
placed [] = 0
placed (s ∷ ss) = s.size + placed ss

-- The vdev and the offset on it that byte `k` of the read comes from.
unfoldable pub place : List Segment → ℕ → Option (ℕ × ℕ)
place [] k = none
place (s ∷ ss) k = if ltb k s.size then some (s.vdev, s.offset + k) else place ss (k - s.size)

-- An entry of the mapping sends address `a` of the removed vdev to `target`.
abbrev pub Maps : Mapping → ℕ → ℕ × ℕ → Type 0
Maps m a target =
    (e : Entry) × In e m × Spans e a × (target ≡ (e.dst_vdev, e.dst_offset + (a - e.src)))

-- The segments place the `left` bytes from `at` on, each where an entry of the mapping sends it.
abbrev pub Follows : Mapping → ℕ → ℕ → List Segment → Type 0
Follows m at left segments =
    (placed segments ≡ left)
    × ((k : ℕ) → k < left → (t : ℕ × ℕ) × (place segments k ≡ some t) × Maps m (at + k) t)

-- The segment of a round.
abbrev pub piece_at : Entry → ℕ → ℕ → Segment
piece_at e at left = record {
  vdev = e.dst_vdev;
  offset = e.dst_offset + (at - e.src);
  size = min (e.size - (at - e.src)) left;
}

-- A round that finds an entry places a byte at least, and the rest of the read follows.
Follows-cons :
    (m : Mapping) (e : Entry) (at left : ℕ) (ss : List Segment)
    → In e m
    → Spans e at
    → let s = piece_at e at left in
      Follows m (at + s.size) (left - s.size) ss → Follows m at left (s ∷ ss)
unfolding placed place
Follows-cons m e at left ss i span (sum, each) = (omega arith, byte)
  where
    s : Segment
    s = piece_at e at left

    byte : (k : ℕ) → k < left → (t : ℕ × ℕ) × (place (s ∷ ss) k ≡ some t) × Maps m (at + k) t
    byte k below = elim (Bool-cases (ltb k s.size)) [
      | inl inside ↦ (
        (e.dst_vdev, e.dst_offset + (at - e.src) + k),
        ground (arith, inside),
        (e, i, ground (arith, inside), ground (arith, inside)),
      )
      | inr past ↦
          let (t, found, maps) = each (k - s.size) (ground (arith, past)) in
          let address : at + s.size + (k - s.size) ≡ at + k = ground (arith, past) in
          (t, ground (arith, found, past), subst (λ a. Maps m a t) address maps)
    ]

Follows-nil : (m : Mapping) (at left : ℕ) → left ≡ 0 → Follows m at left []
unfolding placed
Follows-nil m at left h = (omega arith, λ k below. absurd (omega arith))

-- How a round that succeeds goes: it finds an entry, and the rest of the read succeeds too.
advance_ok :
    (next : ℕ → ℕ → Result (List Segment) Unmapped) (e : Entry) (at left : ℕ) {ss : List Segment}
    → remap_round next (some e) at left ≡ ok ss
    → (rest : List Segment) × (ss ≡ piece_at e at left ∷ rest)
      × ((next (at + (piece_at e at left).size) (left - (piece_at e at left).size) ≡ ok rest)
          ⊎ (left - (piece_at e at left).size ≡ 0) × (rest ≡ []))
advance_ok next e at left {ss} h = (drop 1 ss, ground arith, ground arith)

nil_eq : (ss : List Segment) → ◌≡◌ {A = Result (List Segment) Unmapped} (ok []) (ok ss) → [] ≡ ss
nil_eq ss h = cc

remap_loop_sound :
    (rounds : ℕ) (m : Mapping) (at left : ℕ) (ss : List Segment)
    → remap_loop rounds m at left ≡ ok ss
    → Follows m at left ss
unfolding remap_loop
remap_loop_sound zero m at left ss h = elim (Bool-cases (left == 0)) [
  | inl done ↦ rw (← nil_eq ss (rw done at h)) (Follows-nil m at left (ground (arith, done)))
  | inr more ↦ cc (rw more at h)
]
remap_loop_sound (suc rounds) m at left ss h = elim (Bool-cases (left == 0)) [
  | inl done ↦ rw (← nil_eq ss (rw done at h)) (Follows-nil m at left (ground (arith, done)))
  | inr more ↦ elim (Option-cases (entry_for m at)) [
    | inl miss ↦ cc (rw (more, miss) at h)
    | inr (e, hit) ↦
        let (i, span) = entry_for_sound m at e hit in
        let (rest, is_cons, next) =
          advance_ok (remap_loop rounds m) e at left (rw (more, hit) at h) in
        let s = piece_at e at left in
        rw is_cons (
          Follows-cons m e at left rest i span (elim next [
            | inl again ↦ remap_loop_sound rounds m (at + s.size) (left - s.size) rest again
            | inr (last, empty) ↦ rw empty (Follows-nil m (at + s.size) (left - s.size) last)
          ]))
  ]
]

-- Every segment list that `remap` returns places exactly the bytes asked for: the sizes add up to
-- `size`, and byte `k` is read from where an entry of the mapping sends address `offset + k`.
pub remap_sound :
    (m : Mapping) (offset size : ℕ) (ss : List Segment)
    → remap m offset size ≡ ok ss
    → Follows m offset size ss
unfolding remap
remap_sound m offset size ss h = remap_loop_sound size m offset size ss h
