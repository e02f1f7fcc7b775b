-- ===== src/Io/Salvage/Sound.antt =====
-- What salvaging keeps and gives up.
use zvolrescue.Prelude.{ℕ, zero, suc, ◌+◌, ◌-◌, ◌≤◌, ◌<◌, min}
use zvolrescue.Prelude.{◌≡◌, refl, sym, ap, ◌∙◌, ◌⊎◌, inl, inr, arith}
use zvolrescue.Prelude.{Bool, true, false, ◌&&◌, ◌||◌, some}
use zvolrescue.Prelude.{List, [], ◌∷◌, ◌++◌, length, get_elem?, replicate}
use zvolrescue.Prelude.{ltb, leb, Bool-cases, add64, ◌^◌}
use zvolrescue.Prelude.{ltb→lt, le→ltb, length-append}
use zvolrescue.Prelude.{length-replicate, get_elem?-append, get_elem?-front}
use zvolrescue.Prelude.{ok, err}
use mathlib.Core.Path.{subst}
use mathlib.Core.List.{reverse, reverse-cons}
use zvolrescue.Io.Salvage.{
  Answer, filled, eof, failed, unexpected_eof, Reader, Ranges, Progress, Salvaged, salvage_sector,
  salvage_piece, note, next_edge, take_sector, sector_loop, take_piece, piece_loop, salvage_after,
  salvage,
}

unfoldable pub in_ranges : Ranges → ℕ → Bool
in_ranges [] i = false
in_ranges ((s, l) ∷ rs) i = (leb s i && ltb i (s + l)) || in_ranges rs i

in_ranges-note :
    (start n : ℕ) (bad : Ranges) (i : ℕ)
    → in_ranges (note start n bad) i ≡ (in_ranges bad i || (leb start i && ltb i (start + n)))
unfolding in_ranges note
in_ranges-note start n [] i = ground arith
in_ranges-note start n ((s, l) ∷ bad) i = ground arith

in_ranges-append :
    (rs qs : Ranges) (i : ℕ) → in_ranges (rs ++ qs) i ≡ (in_ranges rs i || in_ranges qs i)
unfolding in_ranges
in_ranges-append [] qs i = refl
in_ranges-append ((s, l) ∷ rs) qs i = ground (arith, in_ranges-append rs qs i)

in_ranges-reverse : (rs : Ranges) (i : ℕ) → in_ranges (reverse rs) i ≡ in_ranges rs i
unfolding in_ranges
in_ranges-reverse [] i = refl
in_ranges-reverse ((s, l) ∷ rs) i =
    rw reverse-cons
      (ground (arith, in_ranges-append (reverse rs) ((s, l) ∷ []) i, in_ranges-reverse rs i))

get_elem?-replicate : (n i a : ℕ) → i < n → get_elem? (replicate n a) i ≡ some a
get_elem?-replicate zero i a h = absurd (omega arith)
get_elem?-replicate (suc n) zero a h = refl
get_elem?-replicate (suc n) (suc i) a h = get_elem?-replicate n i a (omega arith)

-- Behind the front of an append.
get_elem?-behind :
    (xs ys : List ℕ) (i : ℕ) → length xs ≤ i → get_elem? (xs ++ ys) i ≡ get_elem? ys (i - length xs)
get_elem?-behind xs ys i h =
    ap (get_elem? (xs ++ ys)) (omega arith) ∙ get_elem?-append xs ys (i - length xs)

-- A source of one content: what it gives is that, of the length asked for.
abbrev pub IsFaithful : (ℕ → ℕ) → Reader → Type 0
IsFaithful content read =
    (at n : ℕ) (got : List ℕ)
    → read at n ≡ filled got
    → (length got ≡ n) × ((i : ℕ) → i < n → get_elem? got i ≡ some (content (at + i)))

-- A read of a sector at most, which holds byte `i` of the request, failed.
abbrev pub WasRefused : Reader → ℕ → ℕ → Type 0
WasRefused read offset i =
    (a n : ℕ) × (a ≤ i) × (i < a + n) × (n ≤ salvage_sector) × (read (offset + a) n ≡ failed)

-- The first `at` bytes are done: each is the source's, or zero, in a range and refused.
pub record IsSalvaged (content : ℕ → ℕ) (read : Reader) (offset at : ℕ) (p : Progress)
    : Type 0 where
  pub size : length p.1 ≡ at
  pub kept :
      (i : ℕ) → i < at → in_ranges p.0 i ≡ false → get_elem? p.1 i ≡ some (content (offset + i))
  pub lost :
      (i : ℕ)
      → i < at
      → in_ranges p.0 i ≡ true
      → (get_elem? p.1 i ≡ some 0) × WasRefused read offset i
  pub ahead : (i : ℕ) → at ≤ i → in_ranges p.0 i ≡ false

-- Either the progress up to `at`, or the end of the source.
abbrev Ends : (ℕ → ℕ) → Reader → ℕ → ℕ → Salvaged → Type 0
Ends content read offset at r =
    ((p : Progress) × (r ≡ ok p) × IsSalvaged content read offset at p) ⊎ (r ≡ err unexpected_eof)

module _ (content : ℕ → ℕ) (read : Reader) (faithful : IsFaithful content read) (offset limit : ℕ)
    (low : offset + limit + salvage_piece ≤ 2 ^ 64) where
  filled-IsSalvaged :
      (at n : ℕ) (bad : Ranges) (out got : List ℕ)
      → IsSalvaged content read offset at (bad, out)
      → read (offset + at) n ≡ filled got
      → IsSalvaged content read offset (at + n) (bad, out ++ got)
  filled-IsSalvaged at n bad out got is h =
      let (long, same) = faithful (offset + at) n got h in
      let behind : (i : ℕ)
          → at ≤ i
          → i < at + n
          → get_elem? (out ++ got) i ≡ some (content (offset + i)) =
        λ i ge lt.
          get_elem?-behind out got i (omega (arith, is.size))
          ∙ ap (get_elem? got) (omega (arith, is.size))
          ∙ same (i - at) (omega arith)
          ∙ ap (λ k. some (content k)) (omega arith) in
      record {
        size = omega (arith, length-append out got, long, is.size);
        kept = λ i lt no. elim (Bool-cases (ltb i at)) [
          | inl low ↦
              get_elem?-front out got i (ground (arith, low, is.size))
              ∙ is.kept i (ltb→lt i at low) no
          | inr high ↦ behind i (ground (arith, high)) lt
        ];
        lost = λ i lt yes. elim (Bool-cases (ltb i at)) [
          | inl low ↦
              let (zero_, refused) = is.lost i (ltb→lt i at low) yes in
              (get_elem?-front out got i (ground (arith, low, is.size)) ∙ zero_, refused)
          | inr high ↦
              let not_lost = is.ahead i (ground (arith, high)) in absurd (cc (not_lost, yes))
        ];
        ahead = λ i ge. is.ahead i (omega arith);
      }

  failed-IsSalvaged :
      (at n : ℕ) (bad : Ranges) (out : List ℕ)
      → IsSalvaged content read offset at (bad, out)
      → n ≤ salvage_sector
      → read (offset + at) n ≡ failed
      → IsSalvaged content read offset (at + n) (note at n bad, out ++ replicate n 0)
  failed-IsSalvaged at n bad out is few h = record {
    size = omega (arith, length-append out (replicate n 0), length-replicate {A = ℕ} n 0, is.size);
    kept = λ i lt no.
        let low : i < at = ground (arith, in_ranges-note at n bad i, no) in
        let old : in_ranges bad i ≡ false = ground (arith, in_ranges-note at n bad i, no) in
        get_elem?-front out (replicate n 0) i (omega (arith, is.size, low)) ∙ is.kept i low old;
    lost = λ i lt yes. elim (Bool-cases (ltb i at)) [
      | inl low ↦
          let below : i < at = ltb→lt i at low in
          let old : in_ranges bad i ≡ true =
            ground (arith, in_ranges-note at n bad i, yes, below) in
          let (zero_, refused) = is.lost i below old in
          (get_elem?-front out (replicate n 0) i (omega (arith, is.size, below)) ∙ zero_, refused)
      | inr high ↦
          let above : at ≤ i = ground (arith, high) in
          (
            get_elem?-behind out (replicate n 0) i (omega (arith, is.size, above))
                ∙ get_elem?-replicate n (i - length out) 0 (omega (arith, is.size, above)),
            (at, n, above, lt, few, h),
          )
    ];
    ahead = λ i ge.
        let old = is.ahead i (omega arith) in ground (arith, in_ranges-note at n bad i, old, ge);
  }

  take_sector-Ends :
      (next : Progress → Salvaged) (a : Answer) (s n goal : ℕ) (p : Progress)
      → read (offset + s) n ≡ a
      → n ≤ salvage_sector
      → IsSalvaged content read offset s p
      → ((q : Progress)
          → IsSalvaged content read offset (s + n) q
          → Ends content read offset goal (next q))
      → Ends content read offset goal (take_sector next a s n p)
  unfolding take_sector
  take_sector-Ends next (filled got) s n goal (bad, out) h few is then_ =
      then_ (bad, out ++ got) (filled-IsSalvaged s n bad out got is h)
  take_sector-Ends next eof s n goal (bad, out) h few is then_ = inr refl
  take_sector-Ends next failed s n goal (bad, out) h few is then_ =
      then_ (note s n bad, out ++ replicate n 0) (failed-IsSalvaged s n bad out is few h)

  module _ (s piece_end : ℕ) where
    abbrev sector_end : ℕ
    sector_end = min (next_edge offset s salvage_sector) piece_end

    sector_bounds :
        s < piece_end
        → piece_end ≤ limit
        → (s < sector_end) × (sector_end ≤ piece_end) × (sector_end - s ≤ salvage_sector)
    sector_bounds h inside = omega (arith, low, inside, h)

  piece_bounds :
      (at len : ℕ)
      → at < len
      → len ≤ limit
      → let piece_end = min (next_edge offset at salvage_piece) len in
        (at < piece_end) × (piece_end ≤ len)
  piece_bounds at len h inside = omega (arith, low, inside, h)

  -- A read inside the request does not wrap.
  place : (at : ℕ) → at < limit → offset + at ≡ add64 offset at
  place at h = omega (arith, low, h)

  at_goal :
      (s goal : ℕ) (p : Progress)
      → s ≡ goal
      → IsSalvaged content read offset s p
      → IsSalvaged content read offset goal p
  at_goal s goal p same is = subst (λ n. IsSalvaged content read offset n p) same is

  sector_loop-Ends :
      (rounds s piece_end : ℕ) (p : Progress)
      → s ≤ piece_end
      → piece_end ≤ limit
      → piece_end ≤ s + rounds
      → IsSalvaged content read offset s p
      → Ends content read offset piece_end (sector_loop rounds read offset s piece_end p)
  unfolding sector_loop
  sector_loop-Ends zero s piece_end p inside short enough is =
      rw (le→ltb s piece_end (omega arith)) (inl (p, refl, at_goal s piece_end p (omega arith) is))
  sector_loop-Ends (suc rounds) s piece_end p inside short enough is =
      elim (Bool-cases (ltb s piece_end)) [
        | inr done ↦ rw done (inl (p, refl, at_goal s piece_end p (ground (arith, done)) is))
        | inl more ↦
            let (later, within_, few) = sector_bounds s piece_end (ltb→lt s piece_end more) short in
            let here =
              ap (λ (k : ℕ). read k (sector_end s piece_end - s))
                (place s (omega (arith, ltb→lt s piece_end more, short))) in
            let edge = sector_end s piece_end in
            rw more (
              take_sector-Ends (sector_loop rounds read offset edge piece_end)
                (read (add64 offset s) (edge - s)) s (edge - s) piece_end p here few is
                (λ q is_q.
                  sector_loop-Ends rounds edge piece_end q within_ short (omega (arith, later))
                    (at_goal (s + (edge - s)) edge q (omega (arith, later)) is_q)))
      ]

  take_piece-Ends :
      (next : Progress → Salvaged) (a : Answer) (at piece_end goal : ℕ) (p : Progress)
      → read (offset + at) (piece_end - at) ≡ a
      → at ≤ piece_end
      → piece_end ≤ limit
      → IsSalvaged content read offset at p
      → ((q : Progress)
          → IsSalvaged content read offset piece_end q
          → Ends content read offset goal (next q))
      → Ends content read offset goal (take_piece next read a offset at piece_end p)
  unfolding take_piece
  take_piece-Ends next (filled got) at piece_end goal (bad, out) h inside short is then_ =
      then_ (bad, out ++ got)
        (at_goal (at + (piece_end - at)) piece_end (bad, out ++ got) (omega arith)
          (filled-IsSalvaged at (piece_end - at) bad out got is h))
  take_piece-Ends next eof at piece_end goal p h inside short is then_ = inr refl
  take_piece-Ends next failed at piece_end goal p h inside short is then_ =
      elim (sector_loop-Ends (piece_end - at) at piece_end p inside short (omega arith) is) [
        | inl (q, done, is_q) ↦ rw done (then_ q is_q)
        | inr ended ↦ rw ended (inr refl)
      ]

  piece_loop-Ends :
      (rounds at len : ℕ) (p : Progress)
      → at ≤ len
      → len ≤ limit
      → len ≤ at + rounds
      → IsSalvaged content read offset at p
      → Ends content read offset len (piece_loop rounds read offset at len p)
  unfolding piece_loop
  piece_loop-Ends zero at len p inside short enough is =
      rw (le→ltb at len (omega arith)) (inl (p, refl, at_goal at len p (omega arith) is))
  piece_loop-Ends (suc rounds) at len p inside short enough is = elim (Bool-cases (ltb at len)) [
    | inr done ↦ rw done (inl (p, refl, at_goal at len p (ground (arith, done)) is))
    | inl more ↦
        let (later, within_) = piece_bounds at len (ltb→lt at len more) short in
        let edge = min (next_edge offset at salvage_piece) len in
        let here =
          ap (λ (k : ℕ). read k (edge - at))
            (place at (omega (arith, ltb→lt at len more, short))) in
        rw more (
          take_piece-Ends (piece_loop rounds read offset edge len)
            (read (add64 offset at) (edge - at)) at edge len p here (omega (arith, later))
            (omega (arith, within_, short)) is
            (λ q is_q. piece_loop-Ends rounds edge len q within_ short (omega (arith, later)) is_q))
  ]

  nothing-IsSalvaged : IsSalvaged content read offset 0 ([], [])
  unfolding in_ranges
  nothing-IsSalvaged = record {
    size = refl;
    kept = λ i lt no. absurd (omega arith);
    lost = λ i lt yes. cc;
    ahead = λ i ge. refl;
  }

  salvage_after-Ends :
      (a : Answer) (len : ℕ)
      → len ≤ limit
      → read offset len ≡ a
      → Ends content read offset len (salvage_after read a offset len)
  unfolding salvage_after in_ranges
  salvage_after-Ends (filled got) len inside h =
      let (size, same) = faithful offset len got h in
      inl (
        ([], got),
        refl,
        record {
          size = size;
          kept = λ i lt no. same i lt;
          lost = λ i lt yes. cc;
          ahead = λ i ge. refl;
        },
      )
  salvage_after-Ends eof len inside h = inr refl
  salvage_after-Ends failed len inside h =
      elim (piece_loop-Ends len 0 len ([], []) (omega arith) inside (omega arith)
        nothing-IsSalvaged) [
          | inr short ↦ rw short (inr refl)
          | inl ((bad, out), done, is) ↦ rw done (
              inl (
                (reverse bad, out),
                refl,
                record {
                  size = is.size;
                  kept = λ i lt no. is.kept i lt (sym (in_ranges-reverse bad i) ∙ no);
                  lost = λ i lt yes. is.lost i lt (sym (in_ranges-reverse bad i) ∙ yes);
                  ahead = λ i ge. in_ranges-reverse bad i ∙ is.ahead i ge;
                },
              ))
        ]

-- From a source that gives only its content, and for a request that ends 4096 bytes or more below
-- 2^64, so that no offset wraps, salvaging ends: at the end of the source, or with all
-- the bytes asked for. Outside the ranges that it reports each byte is the source's; inside, it is
-- zero and a read of a sector at most that holds it failed.
pub salvage_sound :
    (content : ℕ → ℕ) (read : Reader) (offset len : ℕ)
    → IsFaithful content read
    → offset + len + salvage_piece ≤ 2 ^ 64
    → ((p : Progress) × (salvage read offset len ≡ ok p) × IsSalvaged content read offset len p)
      ⊎ (salvage read offset len ≡ err unexpected_eof)
unfolding salvage
salvage_sound content read offset len faithful low =
    salvage_after-Ends content read faithful offset len low (read offset len) len (omega arith) refl
