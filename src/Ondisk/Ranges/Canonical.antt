-- ===== src/Ondisk/Ranges/Canonical.antt =====
-- A merged list is determined by the bytes that it holds.
use zvolrescue.Prelude.{ℕ, suc, ◌<◌}
use zvolrescue.Prelude.{◌≡◌, refl, arith}
use zvolrescue.Prelude.{false}
use zvolrescue.Prelude.{[], ◌∷◌}
use zvolrescue.Prelude.{u64_max}
use zvolrescue.Ondisk.Ranges.{Ranges, add}
use zvolrescue.Ondisk.Ranges.Members.{has, StartsFrom}
use zvolrescue.Ondisk.Ranges.Merged.{IsMerged}
use zvolrescue.Ondisk.Ranges.Apply.{has-add, add-IsMerged}

pub has_below : (x lo : ℕ) (rs : Ranges) → StartsFrom lo rs → x < lo → has x rs ≡ false
unfolding has
has_below x lo [] s h = refl
has_below x lo ((a, b) ∷ rs) (p, s) h = ground (arith, has_below x lo rs)

-- Two merged lists that hold the same bytes are the same list.
pub IsMerged-ext :
    (rs ss : Ranges) → IsMerged rs → IsMerged ss → ((x : ℕ) → has x rs ≡ has x ss) → rs ≡ ss
unfolding has
IsMerged-ext [] [] m n same = refl
IsMerged-ext [] ((c, d) ∷ ss) (m) (h, t, n) same = absurd (ground (arith, same c))
IsMerged-ext ((a, b) ∷ rs) [] (h, s, m) n same = absurd (ground (arith, same a))
IsMerged-ext ((a, b) ∷ rs) ((c, d) ∷ ss) (h, s, m) (k, t, n) same =
    let start : a ≡ c =
      ground (arith, same a, same c, has_below a (suc d) ss t, has_below c (suc b) rs s) in
    let stop : b ≡ d = ground (
      arith,
      start,
      same b,
      same d,
      has_below b (suc b) rs s,
      has_below d (suc d) ss t,
      has_below b (suc d) ss t,
      has_below d (suc b) rs s,
    ) in
    let tails = IsMerged-ext rs ss m n (λ x.
      ground (arith, start, stop, same x, has_below x (suc b) rs s, has_below x (suc d) ss t)) in
    cc (start, stop, tails)

-- The order in which two runs that start below the top of the address space are added to a merged
-- set does not matter.
pub add_comm :
    (s l s' l' : ℕ) (rs : Ranges)
    → s < u64_max
    → s' < u64_max
    → IsMerged rs
    → add s l (add s' l' rs) ≡ add s' l' (add s l rs)
add_comm s l s' l' rs h h' m =
    let m1 = add-IsMerged s l rs h m in
    let m2 = add-IsMerged s' l' rs h' m in
    IsMerged-ext _ _ (add-IsMerged s l _ h m2) (add-IsMerged s' l' _ h' m1) λ x. ground (
      arith,
      has-add x s l (add s' l' rs) (omega arith) m2,
      has-add x s' l' (add s l rs) (omega arith) m1,
      has-add x s l rs (omega arith) m,
      has-add x s' l' rs (omega arith) m,
    )
