-- ===== src/Ondisk/Ranges/Queries.antt =====
-- What the set answers: the bytes it covers, and whether a run meets it.
use zvolrescue.Prelude.{ℕ, zero, suc, ◌+◌, ◌-◌, ◌≤◌, ◌<◌, min, max}
use zvolrescue.Prelude.{◌≡◌, refl, sym, ◌↔◌, inl, inr, arith}
use zvolrescue.Prelude.{true, ◌&&◌}
use zvolrescue.Prelude.{[], ◌∷◌}
use zvolrescue.Prelude.{ltb, if◌then◌else◌, Bool-cases}
use zvolrescue.Prelude.{u64_max, saturating_add}
use zvolrescue.Ondisk.Ranges.{Ranges, bytes, intersects_until, intersects}
use zvolrescue.Ondisk.Ranges.Members.{has, within, StartsFrom}
use zvolrescue.Ondisk.Ranges.Merged.{IsMerged, Nonempty, IsMerged-Nonempty}
use zvolrescue.Ondisk.Ranges.Canonical.{has_below}

-- How many of the bytes below `n` the set holds.
unfoldable pub count : ℕ → Ranges → ℕ
count zero rs = 0
count (suc n) rs = (if has n rs then 1 else 0) + count n rs

-- Every range ends at `top` or below.
abbrev pub EndsBy : ℕ → Ranges → Type 0
EndsBy top [] = Unit
EndsBy top ((a, b) ∷ rs) = (b ≤ top) × EndsBy top rs

count-nil : (n : ℕ) → count n [] ≡ 0
unfolding count has
count-nil zero = refl
count-nil (suc n) = omega (arith, count-nil n)

count-cons :
    (n a b : ℕ) (rs : Ranges)
    → StartsFrom (suc b) rs
    → count n ((a, b) ∷ rs) ≡ (min n b - min n a) + count n rs
unfolding count has
count-cons zero a b rs s = omega arith
count-cons (suc n) a b rs s = ground (arith, count-cons n a b rs s, has_below n (suc b) rs s)

-- `bytes` counts the bytes that a merged set holds.
pub bytes-count : (top : ℕ) (rs : Ranges) → IsMerged rs → EndsBy top rs → bytes rs ≡ count top rs
unfolding bytes
bytes-count top [] m e = sym (count-nil top)
bytes-count top ((a, b) ∷ rs) (h, s, m) (f, e) =
    omega (arith, count-cons top a b rs s, bytes-count top rs m e)

-- The run from `start` to before `end_` and the set share a byte.
abbrev pub Meets : ℕ → ℕ → Ranges → Type 0
Meets start end_ rs = (x : ℕ) × (within start end_ x ≡ true) × (has x rs ≡ true)

intersects_until_sound :
    (start end_ : ℕ) (rs : Ranges)
    → start < end_
    → Nonempty rs
    → intersects_until start end_ rs ≡ true
    → Meets start end_ rs
unfolding intersects_until has
intersects_until_sound start end_ [] r p h = absurd (cc)
intersects_until_sound start end_ ((a, b) ∷ rs) r (q, p) h =
    elim (Bool-cases (ltb a end_ && ltb start b)) [
      | inl here ↦ (max start a, ground (arith, here), ground (arith, here))
      | inr not_here ↦
          let (x, inside, held) =
            intersects_until_sound start end_ rs r p (ground (arith, not_here)) in
          (x, inside, ground (arith, held))
    ]

intersects_until_complete :
    (start end_ x : ℕ) (rs : Ranges)
    → within start end_ x ≡ true
    → has x rs ≡ true
    → intersects_until start end_ rs ≡ true
unfolding intersects_until has
intersects_until_complete start end_ x [] w h = cc
intersects_until_complete start end_ x ((a, b) ∷ rs) w h =
    ground (arith, intersects_until_complete start end_ x rs)

-- On a merged set, `intersects` holds of a run that is not empty exactly when one of its bytes,
-- below the top of the address space, is in the set.
pub intersects_iff :
    (start len : ℕ) (rs : Ranges)
    → start < u64_max
    → 0 < len
    → IsMerged rs
    → (intersects start len rs ≡ true) ↔ Meets start (saturating_add start len) rs
unfolding intersects
intersects_iff start len rs h l m = (
  intersects_until_sound start (saturating_add start len) rs (omega arith) (IsMerged-Nonempty rs m),
  λ (x, inside, held). intersects_until_complete start _ x rs inside held,
)
