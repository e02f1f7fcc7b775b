-- ===== src/Ondisk/Indirect/Lookup.antt =====
-- `entry_for` against a search of the whole array.
use zvolrescue.Prelude.{ℕ, suc, ◌+◌, ◌≤◌, ◌<◌}
use zvolrescue.Prelude.{◌≡◌, refl, ◌↔◌, inl, inr, arith}
use zvolrescue.Prelude.{Option, none, some}
use zvolrescue.Prelude.{List, [], ◌∷◌, length}
use zvolrescue.Prelude.{leb, Bool-cases, Option-cases}
use zvolrescue.Prelude.{get_elem?-some}
use zvolrescue.Prelude.{u64_max}
use mathlib.Core.Path.{subst}
use zvolrescue.Ondisk.Indirect.{Entry, Mapping, contains}
use zvolrescue.Ondisk.Indirect.{partition_point, entry_before, entry_for}
use zvolrescue.Ondisk.Indirect.Sorted.{FromOn, FromOn-mono, In, In-FromOn, Spans, IsDisjoint}

-- What the lookup finds in `f ∷ es`, from what it finds in `es`.
abbrev or_first : Entry → Option Entry → Option Entry
or_first f none = some f
or_first f (some e) = some e

partition_point-le : (es : List Entry) (a : ℕ) → partition_point es a ≤ length es
unfolding partition_point
partition_point-le [] a = omega arith
partition_point-le (e ∷ es) a = ground (arith, partition_point-le es a)

entry_before-cons :
    (f : Entry) (es : List Entry) (a : ℕ)
    → f.src ≤ a
    → entry_before (f ∷ es) (partition_point (f ∷ es) a)
      ≡ or_first f (entry_before es (partition_point es a))
unfolding partition_point entry_before
entry_before-cons f [] a low = ground arith
entry_before-cons f (g ∷ es) a low =
    let bound = partition_point-le es a in
    let (e, found) = get_elem?-some (g ∷ es) (partition_point es a) (omega arith) in
    ground (arith, found)

-- No entry above `a` is found.
entry_before-none :
    (es : List Entry) (a : ℕ) → FromOn (suc a) es → entry_before es (partition_point es a) ≡ none
unfolding partition_point entry_before
entry_before-none [] a above = refl
entry_before-none (e ∷ es) a (above, _) = ground arith

entry_before_sound :
    (m : List Entry) (a : ℕ) (e : Entry)
    → entry_before m (partition_point m a) ≡ some e
    → In e m × (e.src ≤ a)
entry_before_sound [] a e h = unfold entry_before partition_point in cc
entry_before_sound (f ∷ es) a e h = elim (Bool-cases (leb f.src a)) [
  | inl le ↦ ground (arith, entry_before-cons f es a, entry_before_sound es a e)
  | inr gt ↦ unfold entry_before partition_point in ground arith
]

-- What `entry_for` finds is an entry of the mapping that spans the address.
pub entry_for_sound :
    (m : Mapping) (a : ℕ) (e : Entry) → entry_for m a ≡ some e → In e m × Spans e a
unfolding entry_for
entry_for_sound m a e h = elim (Option-cases (entry_before m (partition_point m a))) [
  | inl miss ↦ ground (arith, miss)
  | inr (f, hit) ↦
      let same : contains a (some f) ≡ some e = rw hit at h in
      hit_sound f (entry_before_sound m a f hit) same
]
  where
    hit_sound :
        (f : Entry) → In f m × (f.src ≤ a) → contains a (some f) ≡ some e → In e m × Spans e a
    hit_sound f (i, low) same =
        let is_f : f ≡ e = ground (arith, same) in
        (subst (λ x. In x m) is_f i, ground (arith, same))

-- In a mapping with no shared address the last entry that starts at or below `a` spans it.
entry_before_complete :
    (m : Mapping) (a : ℕ) (e : Entry)
    → IsDisjoint m
    → In e m
    → Spans e a
    → entry_before m (partition_point m a) ≡ some e
entry_before_complete [] a e d i s = elim i [ ]
entry_before_complete (f ∷ es) a e (after, d) (inl same) s = ground (
  arith,
  entry_before-cons f es a,
  entry_before-none es a,
  FromOn-mono (suc a) (f.src + f.size) es,
)
entry_before_complete (f ∷ es) a e (after, d) (inr later) s = ground (
  arith,
  entry_before-cons f es a,
  In-FromOn (f.src + f.size) e es after later,
  entry_before_complete es a e d later s,
)

pub entry_for_complete :
    (m : Mapping) (a : ℕ) (e : Entry)
    → IsDisjoint m
    → In e m
    → Spans e a
    → a < u64_max
    → entry_for m a ≡ some e
unfolding entry_for
entry_for_complete m a e d i s top = rw (entry_before_complete m a e d i s) (ground arith)

-- In a mapping whose entries share no address, `entry_for` finds an entry exactly when the entry
-- belongs to the mapping and spans the address, below the last address of the space.
pub entry_for_iff :
    (m : Mapping) (a : ℕ) (e : Entry)
    → IsDisjoint m
    → a < u64_max
    → (entry_for m a ≡ some e) ↔ (In e m × Spans e a)
entry_for_iff m a e d top =
    (λ h. entry_for_sound m a e h, λ (i, s). entry_for_complete m a e d i s top)
