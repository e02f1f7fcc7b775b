-- ===== src/Ondisk/BlkPtr/Gang.antt =====
-- Gang block headers: how many pointers, and where each stands.
use zvolrescue.Prelude.{ℕ, zero, suc, ◌+◌, ◌-◌, ◌*◌, ◌/◌, ◌≤◌, ◌<◌}
use zvolrescue.Prelude.{◌≡◌, refl, ap, ◌⊎◌, inl, inr, arith}
use zvolrescue.Prelude.{List, [], ◌∷◌, length, take, drop}
use zvolrescue.Prelude.{ltb, Bool-cases}
use zvolrescue.Prelude.{ltb→lt}
use zvolrescue.Prelude.{ok, err}
use zvolrescue.Ondisk.Bytes.{Endian, truncated}
use zvolrescue.Ondisk.Bytes.Laws.{slice-some, length-slice}
use zvolrescue.Ondisk.BlkPtr.{
  BlkPtr, ptr_size, gang_header_size, eck_size, gang_nblkptrs, parse_children, parse_gang_header,
}
use zvolrescue.Ondisk.BlkPtr.Parsed.{pointer_in, parse_total}

-- The `k`-th pointer of the list is the one that stands in the `i + k`-th 128 bytes.
abbrev pub AreAt : List ℕ → Endian → ℕ → List BlkPtr → Type 0
AreAt buf e i [] = Unit
AreAt buf e i (p ∷ ps) =
    (p ≡ pointer_in e (take ptr_size (drop (i * ptr_size) buf))) × AreAt buf e (i + 1) ps

parse_children_some :
    (n i : ℕ) (buf : List ℕ) (e : Endian)
    → (i + n) * ptr_size ≤ length buf
    → (ps : List BlkPtr) × (parse_children n i buf e ≡ ok ps) × (length ps ≡ n) × AreAt buf e i ps
unfolding parse_children
parse_children_some zero i buf e fits = ([], refl, refl, tt)
parse_children_some (suc n) i buf e fits =
    let found = slice-some buf (i * ptr_size) ptr_size (omega arith) in
    let size = length-slice buf (i * ptr_size) ptr_size found in
    let (ps, done, long, places) = parse_children_some n (i + 1) buf e (omega arith) in
    elim (parse_total (take ptr_size (drop (i * ptr_size) buf)) e) [
      | inl (short, _) ↦ absurd (omega (arith, size))
      | inr (_, good) ↦ (_ ∷ ps, rw (found, good, done) refl, ap suc long, (refl, places))
    ]

-- A buffer is a gang header exactly when it has 512 bytes at least, otherwise the error says how
-- many it has. A header has as many pointers as fit in front of the checksum tail: the `k`-th is
-- the one in the `k`-th 128 bytes, there are at least three, and one more would not fit.
pub parse_gang_header_total :
    (buf : List ℕ) (e : Endian)
    → ((length buf < gang_header_size)
        × (parse_gang_header buf e ≡ err (truncated gang_header_size (length buf))))
      ⊎ ((gang_header_size ≤ length buf)
          × (ps : List BlkPtr) × (parse_gang_header buf e ≡ ok ps)
          × AreAt buf e 0 ps
          × (3 ≤ length ps)
          × (length ps * ptr_size + eck_size ≤ length buf)
          × (length buf < (length ps + 1) * ptr_size + eck_size))
unfolding parse_gang_header gang_nblkptrs
parse_gang_header_total buf e = elim (Bool-cases (ltb (length buf) gang_header_size)) [
  | inl short ↦ inl (ltb→lt _ _ short, rw short refl)
  | inr enough ↦
      let fits : gang_header_size ≤ length buf = ground (arith, enough) in
      let (ps, done, long, places) =
        parse_children_some ((length buf - eck_size) / ptr_size) 0 buf e (omega (arith, fits)) in
      inr (
        fits,
        ps,
        rw (enough, done) refl,
        places,
        omega (arith, long, fits),
        omega (arith, long, fits),
        omega (arith, long, fits),
      )
]
