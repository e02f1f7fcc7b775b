-- ===== src/Ondisk/Draid/Shuffle.antt =====
-- The shuffles are permutations.
use zvolrescue.Prelude.{true, ◌≤◌, ◌==◌, if◌then◌else◌}
use zvolrescue.Prelude.{ℕ, zero, suc, ◌+◌, ◌-◌, ◌*◌, ◌%◌, ◌<◌}
use zvolrescue.Prelude.{◌≡◌, refl, sym, ap, ◌∙◌, inl, inr, arith}
use zvolrescue.Prelude.{some}
use zvolrescue.Prelude.{List, [], ◌++◌, length, get_elem?, take, drop, set}
use zvolrescue.Prelude.{◌==◌, if◌then◌else◌, Bool-cases}
use zvolrescue.Prelude.{length-append}
use zvolrescue.Prelude.{
  length-set, get_elem?-set_self, get_elem?-set_ne, take-append, drop-append, get_elem?-some,
  get_elem?_lt, drop-drop,
}
use mathlib.Core.Path.{subst}
use zvolrescue.Ondisk.Draid.{Seeds, rand, swap, shuffle, perm_rows, count_up, generate_perms}

-- A permutation of the numbers below `n`: that many of them, none twice.
pub record IsRow (n : ℕ) (row : List ℕ) : Type 0 where
  pub size : length row ≡ n
  pub below : (k x : ℕ) → get_elem? row k ≡ some x → x < n
  pub once : (i j x : ℕ) → get_elem? row i ≡ some x → get_elem? row j ≡ some x → i ≡ j

-- Where the element at `k` was before `i` and `j` changed places.
abbrev exchange : ℕ → ℕ → ℕ → ℕ
exchange i j k = if k == j then i else if k == i then j else k

exchange_injective : (i j k l : ℕ) → exchange i j k ≡ exchange i j l → k ≡ l
exchange_injective i j k l h = ground arith

swap_lem :
    (row : List ℕ) (i j : ℕ)
    → i < length row
    → j < length row
    → (row' : List ℕ) × (swap row i j ≡ some row')
      × (length row' ≡ length row)
      × ((k : ℕ) → get_elem? row' k ≡ get_elem? row (exchange i j k))
unfolding swap
swap_lem row i j hi hj =
    let (a, at_i) = get_elem?-some row i hi in
    let (b, at_j) = get_elem?-some row j hj in
    let once = set row i b in
    let size : length once ≡ length row = length-set row i b in
    (
      set once j a,
      rw at_i (rw at_j refl),
      length-set once j a ∙ size,
      λ k. elim (Bool-cases (k == j)) [
        | inl is_j ↦
            let same : k ≡ j = ground (arith, is_j) in
            rw is_j (
              ap (get_elem? (set once j a)) same
              ∙ get_elem?-set_self once j a (omega (arith, size))
              ∙ sym at_i)
        | inr not_j ↦ rw not_j (
            get_elem?-set_ne once j k a (λ e. ground (arith, e, not_j))
            ∙ elim (Bool-cases (k == i)) [
              | inl is_i ↦
                  let same : k ≡ i = ground (arith, is_i) in
                  rw is_i (ap (get_elem? once) same ∙ get_elem?-set_self row i b hi ∙ sym at_j)
              | inr not_i ↦ rw not_i (get_elem?-set_ne row i k b (λ e. ground (arith, e, not_i)))
            ])
      ],
    )

swap-IsRow :
    (n : ℕ) (row row' : List ℕ) (i j : ℕ)
    → IsRow n row
    → length row' ≡ length row
    → ((k : ℕ) → get_elem? row' k ≡ get_elem? row (exchange i j k))
    → IsRow n row'
swap-IsRow n row row' i j r size moved = record {
  size = size ∙ r.size;
  below = λ k x at_k. r.below (exchange i j k) x (sym (moved k) ∙ at_k);
  once = λ k l x at_k at_l.
      exchange_injective i j k l
        (r.once (exchange i j k) (exchange i j l) x (sym (moved k) ∙ at_k) (sym (moved l) ∙ at_l));
}

shuffle-IsRow :
    (n j : ℕ) (row : List ℕ) (s : Seeds)
    → IsRow n row
    → j < n
    → (row' : List ℕ) × (s' : Seeds) × (shuffle j row s ≡ some (row', s')) × IsRow n row'
unfolding shuffle
shuffle-IsRow n zero row s r h = (row, s, refl, r)
shuffle-IsRow n (suc j) row s r h =
    let k = (rand s).1 % (suc j + 1) in
    let (once, swapped, size, moved) =
      swap_lem row (suc j) k (omega (arith, r.size)) (grind (arith, r.size)) in
    let (row', s', done, r') =
      shuffle-IsRow n j once (rand s).0 (swap-IsRow n row once (suc j) k r size moved)
        (omega arith) in
    (row', s', rw swapped done, r')

-- `n` rows one behind the other, each a permutation.
abbrev pub AreRows : ℕ → ℕ → List ℕ → Type 0
AreRows n children perms =
    (length perms ≡ n * children)
    × ((r : ℕ) → r < n → IsRow children (take children (drop (r * children) perms)))

front_row :
    (children : ℕ) (row rest : List ℕ)
    → length row ≡ children
    → take children (drop (0 * children) (row ++ rest)) ≡ row
front_row children row rest size =
    let none_dropped : 0 * children ≡ 0 = grind arith in
    rw none_dropped (ap (λ n. take n (row ++ rest)) (sym size) ∙ take-append row rest)

later_row :
    (children k : ℕ) (row rest : List ℕ)
    → length row ≡ children
    → drop (suc k * children) (row ++ rest) ≡ drop (k * children) rest
later_row children k row rest size =
    let split : suc k * children ≡ length row + k * children = grind arith in
    ap (λ n. drop n (row ++ rest)) split
    ∙ sym (drop-drop (k * children) (length row) (row ++ rest))
    ∙ ap (drop (k * children)) (drop-append row rest)

perm_rows-AreRows :
    (n children : ℕ) (previous : List ℕ) (s : Seeds)
    → 0 < children
    → IsRow children previous
    → (perms : List ℕ) × (perm_rows n children previous s ≡ some perms) × AreRows n children perms
unfolding perm_rows
perm_rows-AreRows zero children previous s pos r =
    ([], refl, (grind arith, λ r h. absurd (omega arith)))
perm_rows-AreRows (suc n) children previous s pos r =
    let right_size : (length previous == children) ≡ true = ground (arith, r.size) in
    let (row, s', shuffled, is_row) =
      shuffle-IsRow children (children - 1) previous s r (omega arith) in
    let (rest, done, (size, rows)) = perm_rows-AreRows n children row s' pos is_row in
    (
      row ++ rest,
      rw right_size (rw shuffled (rw done refl)),
      (
        length-append row rest ∙ grind (arith, size, is_row.size),
        λ k h.
            elim k
                as (λ k.
                  k < suc n → IsRow children (take children (drop (k * children) (row ++ rest)))) [
                    | zero ↦ λ h.
                        subst (IsRow children) (sym (front_row children row rest is_row.size))
                          is_row
                    | suc k ↦ λ h.
                        subst (λ l. IsRow children (take children l))
                          (sym (later_row children k row rest is_row.size)) (rows k (omega arith))
                  ]
              h,
      ),
    )

count_up-get : (i n k : ℕ) → k < n → get_elem? (count_up i n) k ≡ some (i + k)
unfolding count_up
count_up-get i zero k h = absurd (omega arith)
count_up-get i (suc n) zero h = ap some (omega arith)
count_up-get i (suc n) (suc k) h = count_up-get (i + 1) n k (omega arith) ∙ ap some (omega arith)

length-count_up : (i n : ℕ) → length (count_up i n) ≡ n
unfolding count_up
length-count_up i zero = refl
length-count_up i (suc n) = ap suc (length-count_up (i + 1) n)

count_up-inv : (n k x : ℕ) → get_elem? (count_up 0 n) k ≡ some x → (k < n) × (x ≡ k)
count_up-inv n k x h =
    let inside : k < n = omega (arith, get_elem?_lt (count_up 0 n) k h, length-count_up 0 n) in
    (inside, ground (arith, count_up-get 0 n k inside, h))

count_up-IsRow : (n : ℕ) → IsRow n (count_up 0 n)
count_up-IsRow n = record {
  size = length-count_up 0 n;
  below = λ k x h. omega (arith, count_up-inv n k x h);
  once = λ i j x h h'. omega (arith, count_up-inv n i x h, count_up-inv n j x h');
}

-- For one to 255 children, any number of rows and every seed, the permutations are generated without
-- a panic, and each row holds every child once.
pub generate_perms-AreRows :
    (children nperms seed : ℕ)
    → 0 < children
    → children ≤ 255
    → (perms : List ℕ) × (generate_perms children nperms seed ≡ some perms)
      × AreRows nperms children perms
unfolding generate_perms
generate_perms-AreRows children nperms seed pos few =
    let whole : children % 256 ≡ children = omega (arith, few) in
    rw whole
      (perm_rows-AreRows nperms children (count_up 0 children) _ pos (count_up-IsRow children))
