-- ===== src/Ondisk/Ranges/Replay.antt =====
-- Replaying a log: the last entry about a byte decides.
use zvolrescue.Prelude.{ℕ, ◌≤◌, ◌<◌}
use zvolrescue.Prelude.{◌≡◌, refl, ap, ◌∙◌, arith}
use zvolrescue.Prelude.{Bool, true, false}
use zvolrescue.Prelude.{List, [], ◌∷◌, All}
use zvolrescue.Prelude.{if◌then◌else◌}
use zvolrescue.Prelude.{u64_max, saturating_add}
use zvolrescue.Ondisk.SpaceMap.{MapType, alloc, free, Entry}
use zvolrescue.Ondisk.Ranges.{Ranges, replay_run, replay}
use zvolrescue.Ondisk.Ranges.Members.{has, within}
use zvolrescue.Ondisk.Ranges.Merged.{IsMerged}
use zvolrescue.Ondisk.Ranges.Apply.{has-add, has-remove, add-IsMerged, remove-IsMerged}

-- The entry is about byte `x`, its offset counted from `base`.
abbrev pub about : ℕ → ℕ → Entry → Bool
about base x e =
    within (saturating_add base e.offset) (saturating_add (saturating_add base e.offset) e.run) x

abbrev pub is_alloc : MapType → Bool
is_alloc alloc = true
is_alloc free = false

-- What the log says of byte `x`: its last entry about it, or else what held before.
unfoldable pub last_word : ℕ → ℕ → List Entry → Bool → Bool
last_word base x [] before = before
last_word base x (e ∷ es) before =
    last_word base x es (if about base x e then is_alloc e.kind else before)

-- The entry starts below the top of the address space.
abbrev pub StartsBelow : ℕ → Entry → Type 0
StartsBelow base e = saturating_add base e.offset < u64_max

replay_run-has :
    (k : MapType) (x at run : ℕ) (rs : Ranges)
    → at ≤ u64_max
    → IsMerged rs
    → has x (replay_run k at run rs)
      ≡ (if within at (saturating_add at run) x then is_alloc k else has x rs)
unfolding replay_run
replay_run-has alloc x at run rs h m = ground (arith, has-add x at run rs h m)
replay_run-has free x at run rs h m = ground (arith, has-remove x at run rs h)

replay_run-IsMerged :
    (k : MapType) (at run : ℕ) (rs : Ranges)
    → at < u64_max
    → IsMerged rs
    → IsMerged (replay_run k at run rs)
unfolding replay_run
replay_run-IsMerged alloc at run rs h m = add-IsMerged at run rs h m
replay_run-IsMerged free at run rs h m = remove-IsMerged at run rs (omega arith) m

-- Replaying entries that start below the top of the address space keeps a merged set merged.
pub replay-IsMerged :
    (es : List Entry) (base : ℕ) (rs : Ranges)
    → All (StartsBelow base) es
    → IsMerged rs
    → IsMerged (replay es base rs)
unfolding replay
replay-IsMerged [] base rs h m = m
replay-IsMerged (e ∷ es) base rs (he, h) m =
    replay-IsMerged es base _ h (replay_run-IsMerged e.kind _ e.run rs he m)

-- After entries that start below the top of the address space are replayed into a merged set, a
-- byte is in the set exactly when the last entry about it is an allocation, or no entry is about
-- it and it was in the set before.
pub has-replay :
    (x : ℕ) (es : List Entry) (base : ℕ) (rs : Ranges)
    → All (StartsBelow base) es
    → IsMerged rs
    → has x (replay es base rs) ≡ last_word base x es (has x rs)
unfolding replay last_word
has-replay x [] base rs h m = refl
has-replay x (e ∷ es) base rs (he, h) m =
    let at = saturating_add base e.offset in
    has-replay x es base _ h (replay_run-IsMerged e.kind at e.run rs he m)
    ∙ ap (last_word base x es) (replay_run-has e.kind x at e.run rs (omega arith) m)
