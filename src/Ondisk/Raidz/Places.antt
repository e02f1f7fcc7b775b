-- ===== src/Ondisk/Raidz/Places.antt =====
-- Where the columns of a map lie: row by row from the block's first sector, on distinct children.
use zvolrescue.Prelude.{ℕ, zero, suc, ◌+◌, ◌*◌, ◌/◌, ◌%◌, ◌^◌, ◌≤◌, ◌<◌}
use zvolrescue.Prelude.{◌≡◌, refl, sym, ap, ◌∙◌, arith}
use zvolrescue.Prelude.{Bool, true, false, not, ◌&&◌, some}
use zvolrescue.Prelude.{List, [], ◌∷◌, length, get_elem?}
use zvolrescue.Prelude.{◌==◌, if◌then◌else◌}
use zvolrescue.Prelude.{get_elem?_lt}
use mathlib.Core.Path.{subst}
use zvolrescue.Ondisk.Raidz.{
  Column, Map, Geometry, column, columns, swap_first, map_of, map_block, bit_20,
}
use zvolrescue.Ondisk.Raidz.Layout
use zvolrescue.Ondisk.Raidz.Layout.{IsLayout}
use zvolrescue.Ondisk.Raidz.Sizes
use zvolrescue.Ondisk.Raidz.Sizes.{share, place_of, carry}
use zvolrescue.Ondisk.Raidz.Totals

-- The place that column `c` takes: the first two change places where the format says so.
unfoldable pub seat : Bool → ℕ → ℕ
seat true zero = 1
seat true (suc zero) = 0
seat _ c = c

seat-lt : (b : Bool) (c n : ℕ) → 2 ≤ n → c < n → seat b c < n
unfolding seat
seat-lt true zero n two h = omega arith
seat-lt true (suc zero) n two h = omega arith
seat-lt true (suc (suc c)) n two h = h
seat-lt false c n two h = h

seat_injective : (b : Bool) (i j : ℕ) → seat b i ≡ seat b j → i ≡ j
unfolding seat
seat_injective true zero zero h = refl
seat_injective true zero (suc zero) h = omega arith
seat_injective true zero (suc (suc j)) h = omega arith
seat_injective true (suc zero) zero h = omega arith
seat_injective true (suc zero) (suc zero) h = refl
seat_injective true (suc zero) (suc (suc j)) h = omega arith
seat_injective true (suc (suc i)) zero h = omega arith
seat_injective true (suc (suc i)) (suc zero) h = omega arith
seat_injective true (suc (suc i)) (suc (suc j)) h = h
seat_injective false i j h = h

-- Sectors of one row-length fall on distinct children.
child_injective : (n d i j : ℕ) → i < d → j < d → (n + i) % d ≡ (n + j) % d → i ≡ j
child_injective n d i j hi hj same = ground (arith, place_of n i d hi, place_of n j d hj, same)

-- Column `c` of the columns in their places, where there are two at least.
get_elem?-swap_first :
    (c : ℕ) (cs : List Column) (x y : Column)
    → 2 ≤ length cs
    → get_elem? cs c ≡ some x
    → get_elem? cs (seat true c) ≡ some y
    → get_elem? (swap_first cs) c
      ≡ some (record { devidx = y.devidx; offset = y.offset; size = x.size })
unfolding seat swap_first
get_elem?-swap_first c [] x y two hx hy = absurd (omega arith)
get_elem?-swap_first c (a ∷ []) x y two hx hy = absurd (omega arith)
get_elem?-swap_first zero (a ∷ b ∷ cs) x y two hx hy = ground arith
get_elem?-swap_first (suc zero) (a ∷ b ∷ cs) x y two hx hy = ground arith
get_elem?-swap_first (suc (suc c)) (a ∷ b ∷ cs) x y two hx hy = ground arith

odd-bit : (k : ℕ) → not (k % 2 == 0) ≡ (k % 2 == 1)
odd-bit k = ground arith

module _ (offset psize ashift dcols nparity : ℕ)
    (lay : IsLayout offset psize ashift dcols nparity) where
  abbrev plan : Geometry
  plan = Totals.plan offset psize ashift dcols nparity lay

  abbrev swaps : Bool
  swaps = (nparity == 1) && bit_20 offset

  abbrev laid_out : List Column
  laid_out = Totals.laid_out offset psize ashift dcols nparity lay

  two_columns : 0 < plan.scols → 2 ≤ plan.scols
  two_columns h = ground (
    arith,
    lay.some_parity,
    lay.some_data,
    Layout.le-div_ceil plan.big (nparity + 1) (omega arith),
  )

  -- Column `c` holds its share of the block, from sector `seat b c` of it on.
  abbrev pub IsSeated : Bool → ℕ → Column → Type 0
  IsSeated b c x =
      (x.devidx ≡ (offset / 2 ^ ashift + seat b c) % dcols)
      × (x.offset ≡ (offset / 2 ^ ashift + seat b c) / dcols * 2 ^ ashift)
      × (x.size ≡ share offset psize ashift dcols nparity lay c * 2 ^ ashift)

  -- The first two change places with one parity column, in every other MiB of the vdev.
  abbrev pub IsAt : ℕ → Column → Type 0
  IsAt c x = IsSeated ((nparity == 1) && (offset / 2 ^ 20 % 2 == 1)) c x

  swaps-odd_mib : swaps ≡ ((nparity == 1) && (offset / 2 ^ 20 % 2 == 1))
  swaps-odd_mib = ap (λ (b : Bool). (nparity == 1) && b) (odd-bit (offset / 2 ^ 20))

  abbrev plain : ℕ → Column
  plain c = column plan ashift dcols c

  get_elem?-plain :
      (c : ℕ)
      → c < plan.scols
      → get_elem? (columns plan.scols plan ashift dcols 0) c ≡ some (plain c)
  get_elem?-plain c h =
      let place : 0 + c ≡ c = omega arith in
      Totals.get_elem?-columns plan ashift dcols c plan.scols 0 h ∙ ap (λ k. some (plain k)) place

  -- The column that ends up in place `c`, the first two exchanged or not.
  abbrev seated : Bool → ℕ → Column
  seated b c = record {
    devidx = (plain (seat b c)).devidx;
    offset = (plain (seat b c)).offset;
    size = (plain c).size;
  }

  found :
      (b : Bool) (c : ℕ)
      → c < plan.scols
      → get_elem?
          (if b
            then swap_first (columns plan.scols plan ashift dcols 0)
            else columns plan.scols plan ashift dcols 0)
          c
        ≡ some (seated b c)
  found false c h = get_elem?-plain c h ∙ ap (λ k. some (seated_at k c)) (sym (seat_false c))
    where
      seated_at : ℕ → ℕ → Column
      seated_at k c = record {
        devidx = (plain k).devidx;
        offset = (plain k).offset;
        size = (plain c).size;
      }

      seat_false : (c : ℕ) → seat false c ≡ c
      seat_false c = unfold seat in refl
  found true c h =
      let two = two_columns (omega arith) in
      let counted = Totals.length-columns plan ashift dcols plan.scols 0 in
      get_elem?-swap_first c (columns plan.scols plan ashift dcols 0) (plain c)
        (plain (seat true c)) (rw counted two) (get_elem?-plain c h)
        (get_elem?-plain (seat true c) (seat-lt true c plan.scols two h))

  laid_out-IsSeated :
      (c : ℕ) → c < plan.scols → (x : Column) × (get_elem? laid_out c ≡ some x) × IsSeated swaps c x
  laid_out-IsSeated c h =
      let two = two_columns (omega arith) in
      let below : seat swaps c < dcols = omega (
        arith,
        seat-lt swaps c plan.scols two h,
        Totals.stored-le-children offset psize ashift dcols nparity lay,
      ) in
      (
        seated swaps c,
        found swaps c h,
        (
          Sizes.column-devidx offset psize ashift dcols nparity lay (seat swaps c) below,
          Sizes.column-offset offset psize ashift dcols nparity lay (seat swaps c) below,
          Sizes.column-size offset psize ashift dcols nparity lay c,
        ),
      )

  laid_out-IsAt :
      (c : ℕ) → c < plan.scols → (x : Column) × (get_elem? laid_out c ≡ some x) × IsAt c x
  laid_out-IsAt c h =
      subst (λ b. (x : Column) × (get_elem? laid_out c ≡ some x) × IsSeated b c x) swaps-odd_mib
        (laid_out-IsSeated c h)

  -- A map that is returned is the one of the plan.
  is_result :
      {m : Map}
      → map_block offset psize ashift dcols nparity ≡ some m
      → Totals.result offset psize ashift dcols nparity lay ≡ m
  is_result h = cc (Totals.map_block-some offset psize ashift dcols nparity lay, h)

  count :
      (c : ℕ)
      → c < length (Totals.result offset psize ashift dcols nparity lay).cols
      → c < plan.scols
  count c h =
      unfold map_of in (rw (Totals.length-laid_out offset psize ashift dcols nparity lay) at h)

  -- In the map of a block every column lies where the sector of its number falls, counted row by row
  -- over the children from the block's first sector, and holds its share of the sectors; but with one
  -- parity column, the places of the first two are exchanged where bit 20 of the offset is set. The
  -- vdev has at most 255 children, with one to three parity columns among them and a data column at
  -- least, in sectors of at most 64 KiB, and the block at most 4 GiB at an offset below 2^63.
  pub map_block-IsAt :
      (m : Map) (c : ℕ)
      → map_block offset psize ashift dcols nparity ≡ some m
      → c < length m.cols
      → (x : Column) × (get_elem? m.cols c ≡ some x) × IsAt c x
  map_block-IsAt m c h inside =
      subst (λ r. (x : Column) × (get_elem? r.cols c ≡ some x) × IsAt c x) (is_result h)
        (unfold map_of in
          laid_out-IsAt c (count c (subst (λ r. c < length r.cols) (sym (is_result h)) inside)))

  seated_lt : (c : ℕ) → c < plan.scols → seat swaps c < dcols
  seated_lt c h = omega (
    arith,
    seat-lt swaps c plan.scols (two_columns (omega arith)) h,
    Totals.stored-le-children offset psize ashift dcols nparity lay,
  )

  -- A column of the map is the one in its place.
  column_there :
      (i : ℕ) {x : Column} → get_elem? laid_out i ≡ some x → (i < plan.scols) × IsSeated swaps i x
  column_there i {x} h =
      let inside : i < plan.scols =
        rw (Totals.length-laid_out offset psize ashift dcols nparity lay) at
          (get_elem?_lt laid_out i h) in
      let (y, there, at) = laid_out-IsSeated i inside in
      let same : y ≡ x = cc (there, h) in (inside, subst (IsSeated swaps i) same at)

  distinct :
      (i j : ℕ) {x y : Column}
      → get_elem? laid_out i ≡ some x
      → get_elem? laid_out j ≡ some y
      → x.devidx ≡ y.devidx
      → i ≡ j
  distinct i j {x} {y} hx hy same =
      let (hi, (dx, _, _)) = column_there i hx in
      let (hj, (dy, _, _)) = column_there j hy in
      seat_injective swaps i j (
        child_injective (offset / 2 ^ ashift) dcols (seat swaps i) (seat swaps j) (seated_lt i hi)
          (seated_lt j hj) (sym dx ∙ same ∙ dy))

  -- No two columns of a block's map lie on one child.
  pub map_block-distinct :
      (m : Map) (i j : ℕ) (x y : Column)
      → map_block offset psize ashift dcols nparity ≡ some m
      → get_elem? m.cols i ≡ some x
      → get_elem? m.cols j ≡ some y
      → x.devidx ≡ y.devidx
      → i ≡ j
  map_block-distinct m i j x y h hx hy same = distinct i j (in_result i hx) (in_result j hy) same
    where
      in_result : (k : ℕ) {z : Column} → get_elem? m.cols k ≡ some z → get_elem? laid_out k ≡ some z
      in_result k {z} hz =
          unfold map_of in subst (λ r. get_elem? r.cols k ≡ some z) (sym (is_result h)) hz
