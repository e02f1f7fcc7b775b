-- ===== src/Ondisk/Raidz/Totals.antt =====
-- The map as a whole: its columns by number, and the bytes that its data columns hold.
use zvolrescue.Prelude.{shl64, add64}
use native.Mathlib.Nat.{mul-le-mul_right, mod-eq_of_lt}
use zvolrescue.Prelude.{ℕ, zero, suc, ◌+◌, ◌-◌, ◌*◌, ◌%◌, ◌^◌, ◌≤◌, ◌<◌, min}
use zvolrescue.Prelude.{◌≡◌, refl, sym, ap, ◌∙◌, inl, inr, arith}
use zvolrescue.Prelude.{Bool, true, false, ◌&&◌, some}
use zvolrescue.Prelude.{List, [], ◌∷◌, length, get_elem?, take, drop}
use zvolrescue.Prelude.{ltb, leb, ◌==◌, if◌then◌else◌, Bool-cases}
use zvolrescue.Prelude.{div_ceil, sub64}
use native.Mathlib.Nat.{add-zero, sub-zero, mul-add, mod-add-div', mod-lt}
use zvolrescue.Ondisk.Raidz.{Column, Map, Geometry, column, columns, swap_first}
use zvolrescue.Ondisk.Raidz.{map_of, map_block, bit_20, data_columns}
use zvolrescue.Ondisk.Raidz.Layout
use zvolrescue.Ondisk.Raidz.Layout.{IsLayout}
use zvolrescue.Ondisk.Raidz.Sizes
use zvolrescue.Ondisk.Raidz.Sizes.{share}

-- The bytes of the columns.
unfoldable pub held : List Column → ℕ
held [] = 0
held (c ∷ cs) = c.size + held cs

held-swap_first :
    (n k : ℕ) (cs : List Column)
    → held (drop n (take k (swap_first cs))) ≡ held (drop n (take k cs))
unfolding held swap_first
held-swap_first n k [] = refl
held-swap_first n k (c ∷ []) = refl
held-swap_first n zero (c ∷ d ∷ cs) = refl
held-swap_first zero (suc zero) (c ∷ d ∷ cs) = refl
held-swap_first zero (suc (suc k)) (c ∷ d ∷ cs) = refl
held-swap_first (suc n) (suc zero) (c ∷ d ∷ cs) = refl
held-swap_first (suc zero) (suc (suc k)) (c ∷ d ∷ cs) = refl
held-swap_first (suc (suc n)) (suc (suc k)) (c ∷ d ∷ cs) = refl

length-swap_first : (cs : List Column) → length (swap_first cs) ≡ length cs
unfolding swap_first
length-swap_first [] = refl
length-swap_first (c ∷ []) = refl
length-swap_first (c ∷ d ∷ cs) = refl

data_columns-some :
    (m : Map)
    → m.nparity ≤ m.acols
    → m.acols ≤ length m.cols
    → data_columns m ≡ some (drop m.nparity (take m.acols m.cols))
unfolding data_columns
data_columns-some m h k = ground arith

module _ (g : Geometry) (ashift dcols : ℕ) where
  take-columns :
      (k n c : ℕ) → k ≤ n → take k (columns n g ashift dcols c) ≡ columns k g ashift dcols c
  unfolding columns
  take-columns zero n c h = refl
  take-columns (suc k) zero c h = absurd (omega arith)
  take-columns (suc k) (suc n) c h = cc (take-columns k n (c + 1) (omega arith))

  drop-columns :
      (k n c : ℕ)
      → k ≤ n
      → drop k (columns n g ashift dcols c) ≡ columns (n - k) g ashift dcols (c + k)
  unfolding columns
  drop-columns zero n c h = cc (add-zero c, sub-zero n)
  drop-columns (suc k) zero c h = absurd (omega arith)
  drop-columns (suc k) (suc n) c h =
      let place : c + 1 + k ≡ c + suc k = omega arith in
      let count : suc n - suc k ≡ n - k = omega arith in
      drop-columns k n (c + 1) (omega arith) ∙ cc (place, count)

  pub get_elem?-columns :
      (i n c : ℕ)
      → i < n
      → get_elem? (columns n g ashift dcols c) i ≡ some (column g ashift dcols (c + i))
  unfolding columns
  get_elem?-columns zero zero c h = absurd (omega arith)
  get_elem?-columns zero (suc n) c h = cc (add-zero c)
  get_elem?-columns (suc i) zero c h = absurd (omega arith)
  get_elem?-columns (suc i) (suc n) c h =
      let place : c + 1 + i ≡ c + suc i = omega arith in
      get_elem?-columns i n (c + 1) (omega arith) ∙ cc place

  pub length-columns : (n c : ℕ) → length (columns n g ashift dcols c) ≡ n
  unfolding columns
  length-columns zero c = refl
  length-columns (suc n) c = ap suc (length-columns n (c + 1))

-- The sectors in the columns before `x`, and what column `c` adds to them.
abbrev before : ℕ → ℕ → ℕ → ℕ → ℕ
before q big acols x = q * min x acols + min x big

before-suc :
    (q big acols c : ℕ)
    → big ≤ acols
    → (if leb acols c then 0 else if ltb c big then q + 1 else q) + before q big acols c
      ≡ before q big acols (c + 1)
before-suc q big acols c h = elim (Bool-cases (leb acols c)) [
  | inl past ↦
      let now : min c acols ≡ acols = ground (arith, past) in
      let next : min (c + 1) acols ≡ acols = ground (arith, past) in
      rw (past, now, next) (ground (arith, past))
  | inr inside ↦
      let now : min c acols ≡ c = ground (arith, inside) in
      let next : min (c + 1) acols ≡ c + 1 = ground (arith, inside) in
      rw (inside, now, next) (ground (arith, mul-add q c 1))
]

add_share :
    (share now next all rest unit : ℕ)
    → share + now ≡ next
    → rest + next * unit ≡ all * unit
    → share * unit + rest + now * unit ≡ all * unit
add_share share now next all rest unit step h = omega (arith, ap (λ (t : ℕ). t * unit) step)

-- `q` full rows of `n` data columns and `r` sectors more.
data_share :
    (q r n p : ℕ)
    → r < n
    → let big = if r == 0 then 0 else r + p in
      let acols = if q == 0 then big else n + p in
      before q big acols acols ≡ before q big acols p + (q * n + r)
data_share q r n p h =
    let whole : min (n + p) (n + p) ≡ n + p = omega arith in
    let front : min p (n + p) ≡ p = omega arith in
    let all_big : min (n + p) (r + p) ≡ r + p = omega arith in
    let front_big : min p (r + p) ≡ p = omega arith in
    let no_big : min (n + p) 0 ≡ 0 = omega arith in
    let no_front : min p 0 ≡ 0 = omega arith in
    elim (Bool-cases (r == 0)) [
      | inl none_left ↦ elim (Bool-cases (q == 0)) [
        | inl flat ↦ rw (none_left, flat) (ground (arith, none_left, flat))
        | inr tall ↦
            rw (none_left, tall, whole, front, no_big, no_front)
              (ground (arith, none_left, mul-add q n p))
      ]
      | inr some_left ↦ elim (Bool-cases (q == 0)) [
        | inl flat ↦
            let flat_q : q ≡ 0 = ground (arith, flat) in rw (some_left, flat, flat_q) (omega arith)
        | inr tall ↦
            rw (some_left, tall, whole, front, all_big, front_big) (omega (arith, mul-add q n p))
      ]
    ]

group_nonzero : (n unit group : ℕ) → group ≡ (n + 1) * unit → 0 < unit → (group == 0) ≡ false
group_nonzero n unit group same pos =
    let low : 1 * unit ≤ (n + 1) * unit = mul-le-mul_right unit (omega arith) in
    ground (arith, same, low, pos)

module _ (offset psize ashift dcols nparity : ℕ)
    (lay : IsLayout offset psize ashift dcols nparity) where
  abbrev pub plan : Geometry
  plan = Sizes.plan offset psize ashift dcols nparity lay

  abbrev sectors : ℕ
  sectors = Layout.sectors offset psize ashift dcols nparity lay

  abbrev ndata : ℕ
  ndata = dcols - nparity

  abbrev sum_before : ℕ → ℕ
  sum_before x = before plan.full plan.big plan.acols x

  big-le-acols : plan.big ≤ plan.acols
  big-le-acols = ground (arith, Layout.big_bound offset psize ashift dcols nparity lay)

  held-columns :
      (n c : ℕ)
      → held (columns n plan ashift dcols c) + sum_before c * 2 ^ ashift
        ≡ sum_before (c + n) * 2 ^ ashift
  unfolding held columns
  held-columns zero c = rw add-zero (omega arith)
  held-columns (suc n) c =
      let size = Sizes.column-size offset psize ashift dcols nparity lay c in
      let step = before-suc plan.full plan.big plan.acols c big-le-acols in
      let place : c + 1 + n ≡ c + suc n = omega arith in
      let rest = held-columns n (c + 1) in rw size (add_share _ _ _ _ _ _ step (rw place at rest))

  -- The data columns hold the sectors of the block, no more and no less.
  data_sectors : sum_before plan.acols ≡ sum_before nparity + sectors
  data_sectors =
      let whole : sectors ≡ plan.full * ndata + sectors % ndata =
        omega (arith, mod-add-div' sectors ndata) in
      let split : ndata + nparity ≡ dcols = omega (arith, lay.some_data) in
      let total =
        data_share plan.full (sectors % ndata) ndata nparity
          (mod-lt sectors (omega (arith, lay.some_data))) in
      (rw split at total) ∙ ap (λ t. sum_before nparity + t) (sym whole)

  pub used-le-stored : plan.acols ≤ plan.scols
  used-le-stored = ground (
    arith,
    Layout.le-div_ceil plan.big (nparity + 1) (omega arith),
    Layout.big_bound offset psize ashift dcols nparity lay,
  )

  pub stored-le-children : plan.scols ≤ dcols
  stored-le-children = ground arith

  parity-le-used : 0 < psize → nparity ≤ plan.acols
  parity-le-used h =
      let some_sectors = Layout.sectors_pos offset psize ashift dcols nparity lay h in
      elim (Bool-cases (plan.full == 0)) [
        | inr tall ↦ rw tall (omega (arith, lay.some_data))
        | inl flat ↦ rw flat (flat_case flat some_sectors)
      ]
    where
      flat_case : (plan.full == 0) ≡ true → 0 < sectors → nparity ≤ plan.big
      flat_case flat some_sectors =
          let flat_rows : plan.full ≡ 0 = ground (arith, flat) in
          let all_left : sectors % ndata ≡ sectors =
            omega (arith, ap (λ (t : ℕ). t * ndata) flat_rows, mod-add-div' sectors ndata) in
          ground (arith, all_left, some_sectors)

  abbrev pub plain_columns : List Column
  plain_columns = columns plan.scols plan ashift dcols 0

  -- The map, with the columns in their places.
  abbrev pub swaps : Bool
  swaps = (nparity == 1) && bit_20 offset

  abbrev pub laid_out : List Column
  laid_out = if swaps then swap_first plain_columns else plain_columns

  abbrev pub result : Map
  result = map_of offset ashift dcols nparity plan

  pub map_block-some : map_block offset psize ashift dcols nparity ≡ some result
  unfolding map_block
  map_block-some =
      let children : (dcols == 0) ≡ false = ground (arith, lay.some_data) in
      let data_left : (sub64 dcols nparity == 0) ≡ false =
        ground (arith, lay.some_data, lay.children) in
      let group : shl64 (add64 nparity 1) ashift ≡ (nparity + 1) * 2 ^ ashift =
        ap (λ (n : ℕ). shl64 n ashift) (mod-eq_of_lt (omega (arith, lay.parity)))
        ∙ Layout.shl64_small (nparity + 1) ashift lay.small_sector (omega (arith, lay.parity)) in
      let some_group : (shl64 (add64 nparity 1) ashift == 0) ≡ false =
        group_nonzero nparity (2 ^ ashift) _ group
          (Layout.sector_bounds ashift lay.small_sector).0 in
      rw
        (children, data_left, some_group, Layout.geometry_lem offset psize ashift dcols nparity lay)
        refl

  held-laid_out : (n k : ℕ) → held (drop n (take k laid_out)) ≡ held (drop n (take k plain_columns))
  held-laid_out n k = elim (Bool-cases swaps) [
    | inl turned ↦ rw turned (held-swap_first n k plain_columns)
    | inr straight ↦ rw straight
  ]

  pub length-laid_out : length laid_out ≡ plan.scols
  length-laid_out = elim (Bool-cases swaps) [
    | inl turned ↦
        rw turned (length-swap_first plain_columns ∙ length-columns plan ashift dcols plan.scols 0)
    | inr straight ↦ rw straight (length-columns plan ashift dcols plan.scols 0)
  ]

  -- The bytes of the columns from `from` to before `until`.
  held-between :
      (from until : ℕ)
      → from ≤ until
      → until ≤ plan.scols
      → held (drop from (take until laid_out)) + sum_before from * 2 ^ ashift
        ≡ sum_before until * 2 ^ ashift
  held-between from until h k =
      let cut = take-columns plan ashift dcols until plan.scols 0 k in
      let tail = drop-columns plan ashift dcols from until 0 h in
      let stop : from + (until - from) ≡ until = omega arith in
      let total = held-columns (until - from) from in
      let start : 0 + from ≡ from = omega arith in
      rw (held-laid_out, cut, tail, start) (rw stop at total)

  result_data :
      some (drop result.nparity (take result.acols result.cols))
      ≡ some (drop nparity (take plan.acols laid_out))
  unfolding map_of
  result_data = refl

  -- A block that is not empty has a map, whose data columns hold exactly its sectors, on a vdev of at
  -- most 255 children, with one to three parity columns among them and a data column at least, in
  -- sectors of at most 64 KiB, for a block of at most 4 GiB at an offset below 2^63.
  pub map_block-data :
      0 < psize
      → (m : Map) × (ds : List Column) × (map_block offset psize ashift dcols nparity ≡ some m)
        × (data_columns m ≡ some ds)
        × (held ds ≡ div_ceil psize (2 ^ ashift) * 2 ^ ashift)
  map_block-data h = (
    result,
    drop nparity (take plan.acols laid_out),
    map_block-some,
    data_columns-some result (unfold map_of in parity-le-used h)
          (unfold map_of in rw length-laid_out used-le-stored)
        ∙ result_data,
    omega (
      arith,
      held-between nparity plan.acols (parity-le-used h) used-le-stored,
      ap (λ (t : ℕ). t * 2 ^ ashift) data_sectors,
    ),
  )
