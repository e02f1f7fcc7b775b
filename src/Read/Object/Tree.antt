-- ===== src/Read/Object/Tree.antt =====
-- Where `ObjectReader::locate` leads: down the digits of the block number.
use zvolrescue.Prelude.{ℕ, zero, suc, ◌+◌, ◌-◌, ◌*◌, ◌/◌, ◌%◌, ◌^◌, ◌≤◌, ◌<◌, min}
use zvolrescue.Prelude.{◌≡◌, refl, sym, ap, ◌∙◌, ◌↔◌, inl, inr, arith}
use zvolrescue.Prelude.{false, Option, none, some}
use zvolrescue.Prelude.{List, [], ◌∷◌, get_elem?}
use zvolrescue.Prelude.{leb, ◌==◌, Bool-cases, Option-cases}
use zvolrescue.Prelude.{wrapping_mul}
use zvolrescue.Prelude.{Result, ok, err, panic, stuck, ◌>>=◌, ok_or}
use mathlib.Core.Path.{subst}
use native.Mathlib.Nat.{
  div-add-mod, div-div-eq-div-mul, mod-eq_of_lt, mod-lt, mul-suc, pow-suc, pow-le-pow_right,
  one-le-pow,
}
use zvolrescue.Ondisk.Bytes.{ParseError, slice}
use zvolrescue.Ondisk.BlkPtr.{BlkPtr, ptr_size, parse, is_hole}
use zvolrescue.Read.Object.{
  BlockReader, Object, as_read, epbs, child_index, top_index, descend, locate_from, locate,
}

-- What a chain of operations ends in, its first ended in.
pub bind_inv :
    {A : Type 0} {B : Type 0} {E : Type 0} (r : Result A E) (f : A → Result B E) (b : B)
    → (r >>= f) ≡ ok b
    → (a : A) × (r ≡ ok a) × (f a ≡ ok b)
bind_inv (ok a) f b h = (a, refl, h)
bind_inv (err x) f b h = cc h
bind_inv panic f b h = cc h
bind_inv stuck f b h = cc h

ok_or-ok : {A : Type 0} {E : Type 0} (o : Option A) (x : E) (a : A) → ok_or o x ≡ ok a → o ≡ some a
ok_or-ok none x a h = cc h
ok_or-ok (some b) x a h = cc h

as_read-ok : {A : Type 0} (r : Result A ParseError) (a : A) → as_read r ≡ ok a → r ≡ ok a
unfolding as_read
as_read-ok (ok b) a h = cc h
as_read-ok (err x) a h = cc h
as_read-ok panic a h = cc h
as_read-ok stuck a h = cc h

-- The path from a pointer: each pointer on the way is no hole, and the next one stands at the index
-- in the block that it points at.
unfoldable pub Leads : BlockReader → BlkPtr → List ℕ → BlkPtr → Type 0
Leads read bp [] goal = (is_hole bp ≡ false) × (bp ≡ goal)
Leads read bp (i ∷ is) goal =
    (is_hole bp ≡ false)
    × (bytes : List ℕ) × (child : List ℕ) × (next : BlkPtr) × (read bp ≡ ok bytes)
    × (slice bytes (i * ptr_size) ptr_size ≡ some child)
    × (parse child bp.endian ≡ ok next)
    × Leads read next is goal

-- The `n` lower digits of a block number, of `width` bits each, the highest first.
unfoldable pub digits : ℕ → ℕ → ℕ → List ℕ
digits width zero blkid = []
digits width (suc n) blkid = ((blkid / 2 ^ (width * n)) % 2 ^ width) ∷ digits width n blkid

-- Where no shift is masked, the index is the digit.
child_index-digit :
    (width level blkid : ℕ)
    → width ≤ 57
    → width * level < 64
    → (child_index width level blkid ≡ (blkid / 2 ^ (width * level)) % 2 ^ width)
      × (wrapping_mul (child_index width level blkid) ptr_size
          ≡ (blkid / 2 ^ (width * level)) % 2 ^ width * ptr_size)
child_index-digit width level blkid narrow low =
    let masked : (width * level) % 64 ≡ width * level = mod-eq_of_lt low in
    let kept : width % 64 ≡ width = mod-eq_of_lt (omega (arith, narrow)) in
    let index : child_index width level blkid ≡ (blkid / 2 ^ (width * level)) % 2 ^ width =
      ap (λ (k : ℕ). blkid / 2 ^ k % 2 ^ (width % 64)) masked
      ∙ ap (λ (k : ℕ). blkid / 2 ^ (width * level) % 2 ^ k) kept in
    let small : 2 ^ width ≤ 2 ^ 57 = pow-le-pow_right (omega arith) narrow in
    let digit = mod-lt (blkid / 2 ^ (width * level)) (one-le-pow width 2 (omega arith)) in
    (
      index,
      ap (λ (k : ℕ). wrapping_mul k ptr_size) index ∙ mod-eq_of_lt (omega (arith, small, digit)),
    )

descend_iff :
    (read : BlockReader) (level width blkid : ℕ) (bp goal : BlkPtr)
    → width ≤ 57
    → width * level < 64
    → (descend read level width blkid bp ≡ ok (some goal))
      ↔ Leads read bp (digits width level blkid) goal
unfolding descend Leads digits
descend_iff read zero width blkid bp goal narrow low = elim (Bool-cases (is_hole bp)) [
  | inl hole ↦ rw hole (λ h. cc h, λ (open', _). cc open')
  | inr whole ↦ rw whole (λ h. (refl, cc h), λ (_, same). cc same)
]
descend_iff read (suc level) width blkid bp goal narrow low =
    let below : width * level < 64 = omega (arith, low, mul-suc width level) in
    let (digit, place) = child_index-digit width level blkid narrow below in
    elim (Bool-cases (is_hole bp)) [
      | inl hole ↦ rw hole (λ h. cc h, λ steps. cc steps.0)
      | inr whole ↦
          rw (whole, place)
            (
              λ h.
                  let (bytes, got, after) = bind_inv (read bp) _ (some goal) h in
                  let (child, found, then') = bind_inv (ok_or _ _) _ (some goal) after in
                  let (next, parsed, last) = bind_inv (as_read _) _ (some goal) then' in
                  (
                    refl,
                    bytes,
                    child,
                    next,
                    got,
                    ok_or-ok _ _ child found,
                    as_read-ok _ next parsed,
                    (descend_iff read level width blkid next goal narrow below).0 last,
                  ),
              λ (_, bytes, child, next, got, found, parsed, rest).
                  rw (got, found, parsed)
                    ((descend_iff read level width blkid next goal narrow below).1 rest),
            )
    ]

-- In a dnode of `n + 1` levels whose shifts stay below 64, a block is located exactly where the path
-- leads that begins at the dnode's pointer for it and follows the digits of its number, through
-- pointers none of which is a hole.
pub locate_iff :
    (read : BlockReader) (o : Object) (n blkid : ℕ) (goal : BlkPtr)
    → o.dnode.nlevels ≡ n + 1
    → epbs o.dnode ≤ 57
    → epbs o.dnode * n < 64
    → (locate read o blkid ≡ ok (some goal)) ↔ (
        (root : BlkPtr) × (get_elem? o.dnode.blkptr (blkid / 2 ^ (epbs o.dnode * n)) ≡ some root)
        × Leads read root (digits (epbs o.dnode) n blkid) goal)
unfolding locate locate_from
locate_iff read o n blkid goal levels narrow low =
    let used : (o.dnode.nlevels == 0) ≡ false = ground (arith, levels) in
    let depth : o.dnode.nlevels - 1 ≡ n = omega (arith, levels) in
    let shift : min (epbs o.dnode * (o.dnode.nlevels - 1)) (2 ^ 32 - 1) ≡ epbs o.dnode * n =
      ap (λ (k : ℕ). min (epbs o.dnode * k) (2 ^ 32 - 1)) depth ∙ omega (arith, low) in
    let fits : leb 64 (epbs o.dnode * n) ≡ false = ground (arith, low) in
    let top : top_index o.dnode blkid ≡ blkid / 2 ^ (epbs o.dnode * n) = rw (shift, fits) refl in
    rw (used, top)
      (elim (Option-cases (get_elem? o.dnode.blkptr (blkid / 2 ^ (epbs o.dnode * n)))) [
        | inl past ↦ rw past (λ h. cc h, λ (root, found, _). cc found)
        | inr (root, found) ↦
            rw (found, depth)
              (
                λ h. (
                  root,
                  refl,
                  (descend_iff read n (epbs o.dnode) blkid root goal narrow low).0 h,
                ),
                λ (root', same, path).
                    (descend_iff read n (epbs o.dnode) blkid root goal narrow low).1 (
                      subst (λ p. Leads read p (digits (epbs o.dnode) n blkid) goal) (cc same)
                        path),
              )
      ])

pow_add : (a b : ℕ) → 2 ^ (a + b) ≡ 2 ^ a * 2 ^ b
pow_add a zero = let alone : a + 0 ≡ a = omega arith in ap (λ (k : ℕ). 2 ^ k) alone ∙ omega arith
pow_add a (suc b) =
    let moved : a + suc b ≡ suc (a + b) = omega arith in
    let stepped : 2 ^ (a + suc b) ≡ 2 ^ (a + b) * 2 =
      ap (λ (k : ℕ). 2 ^ k) moved ∙ pow-suc 2 (a + b) in
    let doubled : 2 ^ suc b ≡ 2 ^ b * 2 = pow-suc 2 b in
    grind (arith, stepped, doubled, pow_add a b)

-- Blocks with the same path are the same: no two block numbers share their first index and all the
-- digits that follow.
pub path-injective :
    (width n a b : ℕ)
    → a / 2 ^ (width * n) ≡ b / 2 ^ (width * n)
    → digits width n a ≡ digits width n b
    → a ≡ b
unfolding digits
path-injective width zero a b top same =
    let none_left : width * 0 ≡ 0 = omega arith in
    let one : 2 ^ (width * 0) ≡ 1 = ap (λ (k : ℕ). 2 ^ k) none_left in
    let same' : a / 1 ≡ b / 1 = ap (λ (k : ℕ). a / k) (sym one) ∙ top ∙ ap (λ (k : ℕ). b / k) one in
    omega (arith, same')
path-injective width (suc n) a b top same =
    let m = 2 ^ (width * n) in
    let up : (x : ℕ) → x / 2 ^ (width * suc n) ≡ x / m / 2 ^ width = λ x.
      ap (λ (k : ℕ). x / k) (ap (λ (k : ℕ). 2 ^ k) (mul-suc width n) ∙ pow_add (width * n) width)
      ∙ sym (div-div-eq-div-mul x m (2 ^ width)) in
    let high : a / m / 2 ^ width ≡ b / m / 2 ^ width = sym (up a) ∙ top ∙ up b in
    let low : a / m % 2 ^ width ≡ b / m % 2 ^ width = cc same in
    let split : (x : ℕ) → 2 ^ width * (x / m / 2 ^ width) + x / m % 2 ^ width ≡ x / m =
      λ x. div-add-mod (x / m) (2 ^ width) in
    let next : a / m ≡ b / m =
      sym (split a)
      ∙ ap (λ (k : ℕ). 2 ^ width * k + a / m % 2 ^ width) high
      ∙ ap (λ (k : ℕ). 2 ^ width * (b / m / 2 ^ width) + k) low
      ∙ split b in
    path-injective width n a b next (cc same)
