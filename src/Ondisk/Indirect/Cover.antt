-- ===== src/Ondisk/Indirect/Cover.antt =====
-- When `remap` fails, and that it always returns.
use zvolrescue.Prelude.{ℕ, zero, suc, ◌+◌, ◌-◌, ◌≤◌, ◌<◌}
use zvolrescue.Prelude.{◌≡◌, refl, inl, inr, arith}
use zvolrescue.Prelude.{false, none, some}
use zvolrescue.Prelude.{List, [], ◌∷◌}
use zvolrescue.Prelude.{ltb, ◌==◌, Bool-cases, Option-cases}
use zvolrescue.Prelude.{u64_mod, u64_max}
use zvolrescue.Prelude.{Result, ok, err, Returns}
use zvolrescue.Ondisk.Indirect.{Entry, Mapping, Segment, Unmapped, entry_for, remap, remap_loop}
use zvolrescue.Ondisk.Indirect.{remap_round, cons_segment}
use zvolrescue.Ondisk.Indirect.Sorted.{In, Spans, IsDisjoint}
use zvolrescue.Ondisk.Indirect.Lookup.{entry_for_sound, entry_for_complete}
use zvolrescue.Ondisk.Indirect.Remap.{Maps, Follows, piece_at, remap_sound}

cons_segment-Returns :
    (s : Segment) (r : Result (List Segment) Unmapped) → Returns r → Returns (cons_segment s r)
cons_segment-Returns s r (inl (ss, e)) = inl (s ∷ ss, rw e)
cons_segment-Returns s r (inr (u, e)) = inr (u, rw e)

remap_round-Returns :
    (next : ℕ → ℕ → Result (List Segment) Unmapped) (e : Entry) (at left : ℕ)
    → (let s = piece_at e at left in Returns (next (at + s.size) (left - s.size)))
    → Returns (remap_round next (some e) at left)
remap_round-Returns next e at left again =
    let s = piece_at e at left in
    elim (Bool-cases (ltb (e.dst_offset + (at - e.src)) u64_mod)) [
      | inr high ↦ rw high (inr (record { offset = at; size = left }, refl))
      | inl fits ↦ rw fits (elim (Bool-cases (ltb (at + s.size) u64_mod)) [
        | inl on ↦ rw on (cons_segment-Returns s _ again)
        | inr over ↦ rw over (elim (Bool-cases (left - s.size == 0)) [
          | inl done ↦ rw done (inl (s ∷ [], refl))
          | inr more ↦ rw more (inr (record { offset = at; size = left - s.size }, refl))
        ])
      ])
    ]

-- With a round for each byte that is left, the loop ends by itself.
remap_loop-Returns :
    (rounds : ℕ) (m : Mapping) (at left : ℕ) → left ≤ rounds → Returns (remap_loop rounds m at left)
unfolding remap_loop
remap_loop-Returns zero m at left h = inl ([], ground arith)
remap_loop-Returns (suc rounds) m at left h = elim (Bool-cases (left == 0)) [
  | inl done ↦ inl ([], rw done)
  | inr more ↦ rw more (elim (Option-cases (entry_for m at)) [
    | inl miss ↦ inr (record { offset = at; size = left }, rw miss)
    | inr (e, hit) ↦
        let (_, span) = entry_for_sound m at e hit in
        let s = piece_at e at left in
        rw hit (
          remap_round-Returns (remap_loop rounds m) e at left
            (remap_loop-Returns rounds m (at + s.size) (left - s.size) (ground (arith, more))))
  ])
]

-- `remap` always returns: its loop ends, and it does not panic.
pub remap-Returns : (m : Mapping) (offset size : ℕ) → Returns (remap m offset size)
unfolding remap
remap-Returns m offset size = remap_loop-Returns size m offset size (omega arith)

-- Every destination range ends inside the address space.
abbrev pub FitsDst : Mapping → Type 0
FitsDst m = (e : Entry) → In e m → e.dst_offset + e.size ≤ u64_mod

-- `u` is the first gap of the mapping from `at` on, with what was left of the read.
pub record IsFirstGap (m : Mapping) (at left : ℕ) (u : Unmapped) : Type 0 where
  pub from : at ≤ u.offset
  pub left_over : u.offset + u.size ≡ at + left
  pub some_left : 0 < u.size
  pub uncovered : (e : Entry) → In e m → ¬ (Spans e u.offset)
  pub covered_before : (a : ℕ) → at ≤ a → a < u.offset → (t : ℕ × ℕ) × Maps m a t

module _ (m : Mapping) (disjoint : IsDisjoint m) (fits : FitsDst m) where
  advance_err :
      (next : ℕ → ℕ → Result (List Segment) Unmapped) (e : Entry) (at left : ℕ) {u : Unmapped}
      → In e m
      → Spans e at
      → at + left ≤ u64_max
      → remap_round next (some e) at left ≡ err u
      → let s = piece_at e at left in next (at + s.size) (left - s.size) ≡ err u
  advance_err next e at left i span top h = ground (arith, fits e i)

  IsFirstGap-cons :
      (e : Entry) (at left : ℕ) {u : Unmapped}
      → In e m
      → Spans e at
      → let s = piece_at e at left in
        IsFirstGap m (at + s.size) (left - s.size) u → IsFirstGap m at left u
  IsFirstGap-cons e at left {u} i span g = record {
    from = omega (arith, g.from);
    left_over = omega (arith, g.left_over);
    some_left = g.some_left;
    uncovered = g.uncovered;
    covered_before = λ a low high. elim (Bool-cases (ltb a (at + (piece_at e at left).size))) [
      | inl here ↦ ((e.dst_vdev, e.dst_offset + (a - e.src)), (e, i, ground (arith, here), refl))
      | inr later ↦ g.covered_before a (ground (arith, later)) high
    ];
  }

  remap_loop_gap :
      (rounds at left : ℕ) (u : Unmapped)
      → at + left ≤ u64_max
      → remap_loop rounds m at left ≡ err u
      → IsFirstGap m at left u
  unfolding remap_loop
  remap_loop_gap zero at left u top h = absurd (elim (Bool-cases (left == 0)) [
    | inl done ↦ cc (rw done at h)
    | inr more ↦ cc (rw more at h)
  ])
  remap_loop_gap (suc rounds) at left u top h = elim (Bool-cases (left == 0)) [
    | inl done ↦ absurd (cc (rw done at h))
    | inr more ↦ elim (Option-cases (entry_for m at)) [
      | inl miss ↦ gap_here more miss (rw (more, miss) at h)
      | inr (e, hit) ↦
          let (i, span) = entry_for_sound m at e hit in
          let s = piece_at e at left in
          let again =
            advance_err (remap_loop rounds m) e at left i span top (rw (more, hit) at h) in
          IsFirstGap-cons e at left i span
            (remap_loop_gap rounds (at + s.size) (left - s.size) u (omega arith) again)
    ]
  ]
    where
      gap_here :
          (left == 0) ≡ false
          → entry_for m at ≡ none
          → ◌≡◌ {A = Result (List Segment) Unmapped}
              (err (record { offset = at; size = left }))
              (err u)
          → IsFirstGap m at left u
      gap_here more miss e =
          let same : at ≡ u.offset = ground (arith, e) in
          record {
            from = omega arith;
            left_over = ground (arith, e);
            some_left = ground (arith, e, more);
            uncovered = λ x i s.
                absurd (
                  clash x
                    (entry_for_complete m at x disjoint i (rw same s) (ground (arith, more))));
            covered_before = λ a low high. absurd (omega arith);
          }
        where
          clash : (x : Entry) → entry_for m at ≡ some x → ⊥
          clash x hit = cc

-- With entries that share no address and whose destinations fit, `remap` of a range below the top
-- of the address space fails only at the first address that no entry covers, and names it.
pub remap_gap :
    (m : Mapping) (offset size : ℕ) (u : Unmapped)
    → IsDisjoint m
    → FitsDst m
    → offset + size ≤ u64_max
    → remap m offset size ≡ err u
    → IsFirstGap m offset size u
unfolding remap
remap_gap m offset size u disjoint fits top h =
    remap_loop_gap m disjoint fits size offset size u top h

-- With entries that share no address and whose destinations fit, a range below the top of the
-- address space that the entries cover is translated, whole.
pub remap_covered :
    (m : Mapping) (offset size : ℕ)
    → IsDisjoint m
    → FitsDst m
    → offset + size ≤ u64_max
    → ((a : ℕ) → offset ≤ a → a < offset + size → (e : Entry) × In e m × Spans e a)
    → (ss : List Segment) × (remap m offset size ≡ ok ss) × Follows m offset size ss
remap_covered m offset size disjoint fits top covered = elim (remap-Returns m offset size) [
  | inl (ss, good) ↦ (ss, good, remap_sound m offset size ss good)
  | inr (u, bad) ↦ absurd (no_gap u (remap_gap m offset size u disjoint fits top bad))
]
  where
    no_gap : (u : Unmapped) → IsFirstGap m offset size u → ⊥
    no_gap u g =
        let (e, i, s) = covered u.offset g.from (omega (arith, g.left_over, g.some_left)) in
        g.uncovered e i s
