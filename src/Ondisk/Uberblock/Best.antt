-- ===== src/Ondisk/Uberblock/Best.antt =====
-- The uberblock that a pool is imported from.
use zvolrescue.Prelude.{ℕ, zero, suc, ◌≤◌, ◌<◌}
use zvolrescue.Prelude.{◌≡◌, refl, sym, ◌∙◌, ◌⊎◌, inl, inr, arith}
use zvolrescue.Prelude.{true, false, none, some}
use zvolrescue.Prelude.{List, [], ◌∷◌, get_elem?}
use zvolrescue.Prelude.{if◌then◌else◌, Bool-cases}
use mathlib.Core.Path.{subst}
use zvolrescue.Ondisk.Uberblock.{Uberblock, le_key, best_from, best}

le_key_refl : (u : Uberblock) → le_key u u ≡ true
le_key_refl u = ground arith

le_key_trans : (u v w : Uberblock) → le_key u v ≡ true → le_key v w ≡ true → le_key u w ≡ true
le_key_trans u v w h k = ground arith

le_key_total : (u v : Uberblock) → le_key u v ≡ false → le_key v u ≡ true
le_key_total u v h = ground arith

-- `u` stands at `i`; none that is later has its key or more, and none at all has more.
abbrev IsBest : List Uberblock → Uberblock → Type 0
IsBest us u =
    (i : ℕ) × (get_elem? us i ≡ some u)
    × ((k : ℕ) (v : Uberblock) → get_elem? us k ≡ some v → le_key v u ≡ true)
    × ((k : ℕ) (v : Uberblock) → i < k → get_elem? us k ≡ some v → le_key u v ≡ false)

-- A candidate that the next one equals or beats is out.
IsBest-beaten :
    (u v b : Uberblock) (us : List Uberblock)
    → le_key u v ≡ true
    → IsBest (v ∷ us) b
    → IsBest (u ∷ v ∷ us) b
IsBest-beaten u v b us h (i, here, all, after) = (
  suc i,
  here,
  λ k w at_k.
      elim k as (λ k. get_elem? (u ∷ v ∷ us) k ≡ some w → le_key w b ≡ true) [
        | zero ↦ λ at_k.
            let same : u ≡ w = cc at_k in
            subst (λ (x : Uberblock). le_key x b ≡ true) same (le_key_trans u v b h (all 0 v refl))
        | suc k ↦ λ at_k. all k w at_k
      ]
        at_k,
  λ k w later at_k.
      elim k as (λ k. suc i < k → get_elem? (u ∷ v ∷ us) k ≡ some w → le_key b w ≡ false) [
        | zero ↦ λ later at_k. absurd (omega arith)
        | suc k ↦ λ later at_k. after k w (omega arith) at_k
      ]
        later at_k,
)

-- Where an element of `u ∷ us` stands once `v` is put behind `u`.
abbrev shifted : ℕ → ℕ
shifted zero = 0
shifted (suc i) = suc (suc i)

get_elem?-shifted :
    (u v : Uberblock) (us : List Uberblock) (i : ℕ)
    → get_elem? (u ∷ v ∷ us) (shifted i) ≡ get_elem? (u ∷ us) i
get_elem?-shifted u v us zero = refl
get_elem?-shifted u v us (suc i) = refl

kept_all :
    (u v b : Uberblock) (us : List Uberblock)
    → le_key u v ≡ false
    → ((k : ℕ) (w : Uberblock) → get_elem? (u ∷ us) k ≡ some w → le_key w b ≡ true)
    → (k : ℕ) (w : Uberblock) → get_elem? (u ∷ v ∷ us) k ≡ some w
    → le_key w b ≡ true
kept_all u v b us h all zero w at_k = all 0 w at_k
kept_all u v b us h all (suc zero) w at_k =
    let same : v ≡ w = cc at_k in
    subst (λ (x : Uberblock). le_key x b ≡ true) same
      (le_key_trans v u b (le_key_total u v h) (all 0 u refl))
kept_all u v b us h all (suc (suc k)) w at_k = all (suc k) w at_k

kept_after :
    (u v b : Uberblock) (us : List Uberblock) (i : ℕ)
    → le_key u v ≡ false
    → get_elem? (u ∷ us) i ≡ some b
    → ((k : ℕ) (w : Uberblock) → i < k → get_elem? (u ∷ us) k ≡ some w → le_key b w ≡ false)
    → (k : ℕ) (w : Uberblock) → shifted i < k
    → get_elem? (u ∷ v ∷ us) k ≡ some w
    → le_key b w ≡ false
kept_after u v b us i h here after zero w later at_k = absurd (omega arith)
kept_after u v b us zero h here after (suc zero) w later at_k =
    let is_u : u ≡ b = cc here in
    let is_v : v ≡ w = cc at_k in
    subst (λ (x : Uberblock). le_key x w ≡ false) is_u
      (subst (λ (x : Uberblock). le_key u x ≡ false) is_v h)
kept_after u v b us (suc i) h here after (suc zero) w later at_k = absurd (omega arith)
kept_after u v b us zero h here after (suc (suc k)) w later at_k =
    after (suc k) w (omega arith) at_k
kept_after u v b us (suc i) h here after (suc (suc k)) w later at_k =
    after (suc k) w (omega arith) at_k

-- A candidate that beats the next one stays.
IsBest-kept :
    (u v b : Uberblock) (us : List Uberblock)
    → le_key u v ≡ false
    → IsBest (u ∷ us) b
    → IsBest (u ∷ v ∷ us) b
IsBest-kept u v b us h (i, here, all, after) = (
  shifted i,
  get_elem?-shifted u v us i ∙ here,
  kept_all u v b us h all,
  kept_after u v b us i h here after,
)

IsBest-single : (u : Uberblock) → IsBest (u ∷ []) u
IsBest-single u = (
  0,
  refl,
  λ k w at_k.
      elim k as (λ k. get_elem? (u ∷ []) k ≡ some w → le_key w u ≡ true) [
        | zero ↦ λ at_k.
            let same : u ≡ w = cc at_k in
            subst (λ (x : Uberblock). le_key x u ≡ true) same (le_key_refl u)
        | suc k ↦ λ at_k. absurd (cc at_k)
      ]
        at_k,
  λ k w later at_k.
      elim k as (λ k. 0 < k → get_elem? (u ∷ []) k ≡ some w → le_key u w ≡ false) [
        | zero ↦ λ later at_k. absurd (omega arith)
        | suc k ↦ λ later at_k. absurd (cc at_k)
      ]
        later at_k,
)

best_from-IsBest : (u : Uberblock) (us : List Uberblock) → IsBest (u ∷ us) (best_from u us)
unfolding best_from
best_from-IsBest u [] = IsBest-single u
best_from-IsBest u (v ∷ us) = elim (Bool-cases (le_key u v)) [
  | inl beaten ↦
      let choice : (if le_key u v then v else u) ≡ v = rw beaten refl in
      subst (λ c. IsBest (u ∷ v ∷ us) (best_from c us)) (sym choice)
        (IsBest-beaten u v (best_from v us) us beaten (best_from-IsBest v us))
  | inr kept ↦
      let choice : (if le_key u v then v else u) ≡ u = rw kept refl in
      subst (λ c. IsBest (u ∷ v ∷ us) (best_from c us)) (sym choice)
        (IsBest-kept u v (best_from u us) us kept (best_from-IsBest u us))
]

-- `u` stands at `i`; none has a greater transaction group, or a later timestamp in the same one, and
-- those behind `i` do not equal it in both.
abbrev pub IsLatest : List Uberblock → Uberblock → Type 0
IsLatest us u =
    (i : ℕ) × (get_elem? us i ≡ some u)
    × ((k : ℕ) (v : Uberblock)
        → get_elem? us k ≡ some v
        → (v.txg < u.txg) ⊎ ((v.txg ≡ u.txg) × (v.timestamp ≤ u.timestamp)))
    × ((k : ℕ) (v : Uberblock)
        → i < k
        → get_elem? us k ≡ some v
        → (v.txg < u.txg) ⊎ ((v.txg ≡ u.txg) × (v.timestamp < u.timestamp)))

le_key-earlier :
    (v u : Uberblock)
    → le_key v u ≡ true
    → (v.txg < u.txg) ⊎ ((v.txg ≡ u.txg) × (v.timestamp ≤ u.timestamp))
le_key-earlier v u h = ground arith

le_key-later :
    (u v : Uberblock)
    → le_key u v ≡ false
    → (v.txg < u.txg) ⊎ ((v.txg ≡ u.txg) × (v.timestamp < u.timestamp))
le_key-later u v h = ground arith

IsLatest-le_key : (us : List Uberblock) (u : Uberblock) → IsBest us u → IsLatest us u
IsLatest-le_key us u (i, here, all, after) = (
  i,
  here,
  λ k v at_k. le_key-earlier v u (all k v at_k),
  λ k v later at_k. le_key-later u v (after k v later at_k),
)

-- The choice among no uberblocks is none; else it is one of them with the greatest transaction
-- group, the latest timestamp among those, and the last in order among equals.
pub best-IsLatest :
    (us : List Uberblock)
    → ((us ≡ []) × (best us ≡ none)) ⊎ ((u : Uberblock) × (best us ≡ some u) × IsLatest us u)
unfolding best
best-IsLatest [] = inl (refl, refl)
best-IsLatest (u ∷ us) =
    inr (best_from u us, refl, IsLatest-le_key (u ∷ us) _ (best_from-IsBest u us))
