-- ===== src/Ondisk/Indirect/Sorted.antt =====
-- The sorted array and its lookup.
use zvolrescue.Prelude.{ℕ, suc, ◌+◌, ◌≤◌, ◌<◌}
use zvolrescue.Prelude.{◌≡◌, refl, ap, ◌∙◌, ◌⊎◌, inl, inr, arith}
use zvolrescue.Prelude.{List, [], ◌∷◌, length}
use zvolrescue.Prelude.{leb, Bool-cases}
use zvolrescue.Ondisk.Indirect.{Entry, insert_entry, sort_by_src}
use mathlib.Core.List.{Perm}
use mathlib.Core.List.Perm

-- Every entry of `es` starts at `lo` or above.
abbrev pub FromOn : ℕ → List Entry → Type 0
FromOn lo [] = Unit
FromOn lo (e ∷ es) = (lo ≤ e.src) × FromOn lo es

-- In the order of the source offsets.
abbrev pub IsSorted : List Entry → Type 0
IsSorted [] = Unit
IsSorted (e ∷ es) = FromOn e.src es × IsSorted es

pub FromOn-mono : (lo hi : ℕ) (es : List Entry) → lo ≤ hi → FromOn hi es → FromOn lo es
FromOn-mono lo hi [] h f = tt
FromOn-mono lo hi (e ∷ es) h (p, f) = (omega arith, FromOn-mono lo hi es h f)

insert_entry-FromOn :
    (lo : ℕ) (e : Entry) (es : List Entry)
    → lo ≤ e.src
    → FromOn lo es
    → FromOn lo (insert_entry e es)
unfolding insert_entry
insert_entry-FromOn lo e [] h f = (h, tt)
insert_entry-FromOn lo e (g ∷ es) h (p, f) = ground (arith, insert_entry-FromOn lo e es)

insert_entry-IsSorted : (e : Entry) (es : List Entry) → IsSorted es → IsSorted (insert_entry e es)
unfolding insert_entry
insert_entry-IsSorted e [] s = (tt, tt)
insert_entry-IsSorted e (f ∷ es) (low, s) =
    ground (
      arith,
      insert_entry-IsSorted e es,
      FromOn-mono e.src f.src es,
      insert_entry-FromOn f.src e es,
    )

pub sort_by_src-IsSorted : (es : List Entry) → IsSorted (sort_by_src es)
unfolding sort_by_src
sort_by_src-IsSorted [] = tt
sort_by_src-IsSorted (e ∷ es) = insert_entry-IsSorted e (sort_by_src es) (sort_by_src-IsSorted es)

length-insert_entry : (e : Entry) (es : List Entry) → length (insert_entry e es) ≡ suc (length es)
unfolding insert_entry
length-insert_entry e [] = refl
length-insert_entry e (f ∷ es) = ground (arith, length-insert_entry e es)

pub length-sort_by_src : (es : List Entry) → length (sort_by_src es) ≡ length es
unfolding sort_by_src
length-sort_by_src [] = refl
length-sort_by_src (e ∷ es) =
    length-insert_entry e (sort_by_src es) ∙ ap suc (length-sort_by_src es)

insert_entry-perm : (e : Entry) (es : List Entry) → Perm (insert_entry e es) (e ∷ es)
unfolding insert_entry
insert_entry-perm e [] = Perm.refl _
insert_entry-perm e (f ∷ es) = elim (Bool-cases (leb e.src f.src)) [
  | inl le ↦ rw le (Perm.refl _)
  | inr gt ↦ rw gt (Perm.trans (Perm.cons f (insert_entry-perm e es)) (Perm.swap e f es))
]

pub sort_by_src-perm : (es : List Entry) → Perm (sort_by_src es) es
unfolding sort_by_src
sort_by_src-perm [] = Perm.refl []
sort_by_src-perm (e ∷ es) =
    Perm.trans (insert_entry-perm e (sort_by_src es)) (Perm.cons e (sort_by_src-perm es))

abbrev pub In : Entry → List Entry → Type 0
In e [] = ⊥
In e (f ∷ es) = (e ≡ f) ⊎ In e es

-- The entry spans the address, its end not cut at the top of the address space.
abbrev pub Spans : Entry → ℕ → Type 0
Spans e a = (e.src ≤ a) × (a < e.src + e.size)

pub In-FromOn : (lo : ℕ) (e : Entry) (es : List Entry) → FromOn lo es → In e es → lo ≤ e.src
In-FromOn lo e [] f i = elim i [ ]
In-FromOn lo e (g ∷ es) (p, f) (inl same) = rw same p
In-FromOn lo e (g ∷ es) (p, f) (inr later) = In-FromOn lo e es f later

-- No two entries share an address.
abbrev pub IsDisjoint : List Entry → Type 0
IsDisjoint [] = Unit
IsDisjoint (e ∷ es) = FromOn (e.src + e.size) es × IsDisjoint es

pub IsDisjoint-IsSorted : (es : List Entry) → IsDisjoint es → IsSorted es
IsDisjoint-IsSorted [] d = tt
IsDisjoint-IsSorted (e ∷ es) (f, d) =
    (FromOn-mono e.src (e.src + e.size) es (omega arith) f, IsDisjoint-IsSorted es d)
