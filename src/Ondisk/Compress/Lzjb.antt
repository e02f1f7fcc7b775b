-- ===== src/Ondisk/Compress/Lzjb.antt =====
-- The `lzjb` decoder: what a match writes, and the end of its loop.
use zvolrescue.Prelude.{ℕ, zero, suc, ◌+◌, ◌-◌, ◌*◌, ◌/◌, ◌≤◌, ◌<◌, min}
use zvolrescue.Prelude.{◌≡◌, refl, sym, ap, ◌∙◌, inl, inr, arith}
use zvolrescue.Prelude.{◌||◌, some}
use zvolrescue.Prelude.{List, [], ◌∷◌, ◌++◌, length, get_elem?}
use zvolrescue.Prelude.{ltb, ◌==◌, Bool-cases, Option-cases}
use zvolrescue.Prelude.{ltb→lt, le→ltb, length-append}
use zvolrescue.Prelude.{get_elem?-some, get_elem?-append, get_elem?-front}
use zvolrescue.Prelude.{low_bits}
use zvolrescue.Prelude.{ok}
use zvolrescue.Ondisk.Compress.Sizes.{IsSized}
use zvolrescue.Ondisk.Compress.{
  LzjbNext, copy_match, lzjb_match, lzjb_literal, lzjb_item, lzjb_round, lzjb_loop, lzjb_decode,
}

pub copy_match_some :
    (n at : ℕ) (dst : List ℕ)
    → at < length dst
    → (out : List ℕ) × (copy_match n at dst ≡ ok out) × (length out ≡ length dst + n)
unfolding copy_match
copy_match_some zero at dst h = (dst, refl, omega arith)
copy_match_some (suc n) at dst h =
    let (b, e) = get_elem?-some dst at h in
    let (out, done, long) =
      copy_match_some n (at + 1) (dst ++ b ∷ []) (omega (arith, length-append dst (b ∷ []))) in
    (out, rw e done, omega (arith, long, length-append dst (b ∷ [])))

-- The continuation is fine from any longer output on.
abbrev IsFine : LzjbNext → ℕ → List ℕ → Type 0
IsFine next lsize dst =
    (s copymap copymask : ℕ) (longer : List ℕ)
    → length dst < length longer
    → length longer ≤ lsize
    → IsSized lsize (next s copymap copymask longer)

module _ (next : LzjbNext) (src : List ℕ) (lsize : ℕ) (dst : List ℕ) (room : length dst < lsize)
    (fine : IsFine next lsize dst) where
  lzjb_literal-IsSized :
      (s copymap copymask : ℕ) → IsSized lsize (lzjb_literal next src s copymap copymask dst)
  unfolding lzjb_literal
  lzjb_literal-IsSized s copymap copymask = elim (Option-cases (get_elem? src s)) [
    | inl e ↦ rw e (inr (_, refl))
    | inr (b, e) ↦ rw e (
        fine _ _ _ _ (omega (arith, length-append dst (b ∷ [])))
          (omega (arith, length-append dst (b ∷ []))))
  ]

  lzjb_match-IsSized :
      (s copymap copymask : ℕ) → IsSized lsize (lzjb_match next src lsize s copymap copymask dst)
  unfolding lzjb_match
  lzjb_match-IsSized s copymap copymask = elim (Option-cases (get_elem? src s)) [
    | inl e ↦ rw e (inr (_, refl))
    | inr (b0, e0) ↦ rw e0 (elim (Option-cases (get_elem? src (s + 1))) [
      | inl e ↦ rw e (inr (_, refl))
      | inr (b1, e1) ↦ rw e1 (
          let offset = low_bits (b0 * 256 + b1) 10 in
          elim (Bool-cases (offset == 0 || ltb (length dst) offset)) [
            | inl bad ↦ rw bad (inr (_, refl))
            | inr good ↦
                let (out, done, long) =
                  copy_match_some (min (b0 / 4 + 3) (lsize - length dst)) (length dst - offset) dst
                    (ground (arith, good)) in
                rw good (rw done (fine _ _ _ out (omega (arith, long)) (omega (arith, long))))
          ])
    ])
  ]

  lzjb_item-IsSized :
      (s copymap copymask : ℕ) → IsSized lsize (lzjb_item next src lsize s copymap copymask dst)
  unfolding lzjb_item
  lzjb_item-IsSized s copymap copymask = elim (Bool-cases (low_bits (copymap / copymask) 1 == 0)) [
    | inl e ↦ rw e (lzjb_literal-IsSized s copymap copymask)
    | inr e ↦ rw e (lzjb_match-IsSized s copymap copymask)
  ]

  lzjb_round-IsSized :
      (s copymap copymask : ℕ) → IsSized lsize (lzjb_round next src lsize s copymap copymask dst)
  unfolding lzjb_round
  lzjb_round-IsSized s copymap copymask = elim (Bool-cases (copymask * 2 == 256)) [
    | inl e ↦ rw e (elim (Option-cases (get_elem? src s)) [
      | inl missing ↦ rw missing (inr (_, refl))
      | inr (fresh, found) ↦ rw found (lzjb_item-IsSized (s + 1) fresh 1)
    ])
    | inr e ↦ rw e (lzjb_item-IsSized s copymap (copymask * 2))
  ]

lzjb_loop-IsSized :
    (rounds : ℕ) (src : List ℕ) (lsize s copymap copymask : ℕ) (dst : List ℕ)
    → length dst ≤ lsize
    → lsize ≤ length dst + rounds
    → IsSized lsize (lzjb_loop rounds src lsize s copymap copymask dst)
unfolding lzjb_loop
lzjb_loop-IsSized zero src lsize s copymap copymask dst below enough =
    rw (le→ltb (length dst) lsize (omega arith)) (inl (dst, refl, omega arith))
lzjb_loop-IsSized (suc rounds) src lsize s copymap copymask dst below enough =
    elim (Bool-cases (ltb (length dst) lsize)) [
      | inr full ↦ rw full (inl (dst, refl, ground (arith, full)))
      | inl room ↦ rw room (
          lzjb_round-IsSized (lzjb_loop rounds src lsize) src lsize dst (ltb→lt _ _ room)
            (λ s copymap copymask longer more fits.
              lzjb_loop-IsSized rounds src lsize s copymap copymask longer fits (omega arith))
            s copymap copymask)
    ]

pub lzjb_decode-IsSized : (src : List ℕ) (lsize : ℕ) → IsSized lsize (lzjb_decode src lsize)
unfolding lzjb_decode
lzjb_decode-IsSized src lsize =
    lzjb_loop-IsSized lsize src lsize 0 0 128 [] (omega arith) (omega arith)

-- What a match of a distance from 1 to the length of the output leaves in it: all that was there,
-- and behind it the match's length of bytes that repeat with its distance, also where the match
-- overlaps the bytes it writes.
pub copy_match-repeats :
    (n d : ℕ) (dst out : List ℕ)
    → 1 ≤ d
    → d ≤ length dst
    → copy_match n (length dst - d) dst ≡ ok out
    → (length out ≡ length dst + n)
      × ((i : ℕ) → i < length dst → get_elem? out i ≡ get_elem? dst i)
      × ((i : ℕ) → length dst ≤ i → i < length dst + n → get_elem? out i ≡ get_elem? out (i - d))
unfolding copy_match
copy_match-repeats zero d dst out pos fits h =
    let same : dst ≡ out = cc in
    (
      ap length (sym same) ∙ omega arith,
      λ i lt. ap (λ l. get_elem? l i) (sym same),
      λ i ge lt. absurd (omega arith),
    )
copy_match-repeats (suc n) d dst out pos fits h =
    let (b, e) = get_elem?-some dst (length dst - d) (omega arith) in
    let one_more : length (dst ++ b ∷ []) ≡ length dst + 1 = length-append dst (b ∷ []) in
    let step : copy_match n (length (dst ++ b ∷ []) - d) (dst ++ b ∷ []) ≡ ok out =
      ap (λ k. copy_match n k (dst ++ b ∷ [])) (omega (arith, one_more)) ∙ (rw e at h) in
    let (long, kept, again) =
      copy_match-repeats n d (dst ++ b ∷ []) out pos (omega (arith, one_more)) step in
    let front : (i : ℕ) → i < length dst → get_elem? out i ≡ get_elem? dst i =
      λ i lt. kept i (omega (arith, one_more)) ∙ get_elem?-front dst (b ∷ []) i lt in
    (
      omega (arith, long, one_more),
      front,
      λ i ge lt. elim (Bool-cases (i == length dst)) [
        | inl at_end ↦
            let last : i ≡ length dst = ground (arith, at_end) in
            let new : get_elem? (dst ++ b ∷ []) (length dst + 0) ≡ some b =
              get_elem?-append dst (b ∷ []) 0 in
            let here : get_elem? out i ≡ some b =
              kept i (omega (arith, one_more, last))
              ∙ ap (get_elem? (dst ++ b ∷ [])) (omega (arith, last))
              ∙ new in
            here
            ∙ sym (front (i - d) (omega (arith, last)) ∙ ap (λ k. get_elem? dst (k - d)) last ∙ e)
        | inr beyond ↦ again i (ground (arith, beyond, one_more)) (ground (arith, beyond, one_more))
      ],
    )
