-- ===== src/Ondisk/Draid/Setup.antt =====
-- What `Config::new` lets through, and the permutations that it holds.
use zvolrescue.Prelude.{ℕ, ◌+◌, ◌-◌, ◌*◌, ◌/◌, ◌%◌, ◌^◌, ◌≤◌, ◌<◌}
use zvolrescue.Prelude.{◌≡◌, refl, sym, ap, ◌∙◌, ◌⊎◌, inl, inr, arith}
use zvolrescue.Prelude.{Bool, true, false, not, ◌&&◌, ◌||◌, none, some}
use zvolrescue.Prelude.{List, [], ◌∷◌, get_elem?, take, drop}
use zvolrescue.Prelude.{ltb, leb, ◌==◌, if◌then◌else◌, Bool-cases, Option-cases}
use zvolrescue.Prelude.{ltb→lt}
use zvolrescue.Prelude.{get_elem?-take, get_elem?-some}
use zvolrescue.Prelude.{u64_mod, wrapping_mul}
use zvolrescue.Prelude.{add64, sub64}
use zvolrescue.Prelude.{ok, err, Returns}
use mathlib.Core.Path.{subst}
use native.Mathlib.Nat.{
  mod-eq_of_lt, mod-eq-sub-mod, mod-lt, div-lt_iff_lt-mul, mul-le-mul, mul-pos,
}
use zvolrescue.Ondisk.Bytes.{little}
use zvolrescue.Ondisk.Checksum.{fletcher4_sum}
use zvolrescue.Ondisk.Draid.Table.{MapEntry, maps}
use zvolrescue.Ondisk.Draid.{
  Config, DraidError, geometry, max_parity, find_map, built, config_of, new, permute,
  generate_perms,
}
use zvolrescue.Ondisk.Draid.Shuffle.{IsRow, AreRows, generate_perms-AreRows}

-- A configuration that can be used: its groups fit the children that are no spares, and every
-- permutation holds every child once.
pub record IsConfig (c : Config) : Type 0 where
  pub some_rows : 0 < c.nperms
  pub few_rows : c.nperms ≤ 512
  pub some_children : 2 ≤ c.children
  pub few_children : c.children ≤ 255
  pub some_data : 0 < c.ndata
  pub parity : (1 ≤ c.nparity) × (c.nparity ≤ max_parity)
  pub width : c.groupwidth ≡ c.ndata + c.nparity
  pub disks : c.ndisks + c.nspares ≡ c.children
  pub fits : c.groupwidth ≤ c.ndisks
  pub groups : 0 < c.ngroups
  pub group_size : c.groupsz ≡ c.groupwidth * 2 ^ 24
  pub rows : AreRows c.nperms c.children c.perms

abbrev is_entry : MapEntry → Bool
is_entry (c, nperms, seed, sum) = leb 2 c && leb c 255 && ltb 0 nperms && leb nperms 512

abbrev are_entries : List MapEntry → Bool
are_entries [] = true
are_entries (m ∷ ms) = is_entry m && are_entries ms

maps_test : are_entries maps ≡ true
maps_test = refl

find_map-inv :
    (children : ℕ) (ms : List MapEntry) (c nperms seed sum : ℕ)
    → are_entries ms ≡ true
    → find_map children ms ≡ some (c, nperms, seed, sum)
    → (2 ≤ children) × (children ≤ 255) × (0 < nperms) × (nperms ≤ 512)
unfolding find_map
find_map-inv children [] c nperms seed sum ok_all h = cc
find_map-inv children ((c', nperms', seed', sum') ∷ ms) c nperms seed sum ok_all h =
    ground (arith, find_map-inv children ms c nperms seed sum)

-- Either the table has no map for this many children, or the permutations of one are generated.
has_perms :
    (children : ℕ)
    → (find_map children maps ≡ none)
      ⊎ ((nperms : ℕ) × (seed : ℕ) × (sum : ℕ) × (perms : List ℕ) × ((c : ℕ) × (find_map children
                maps
              ≡ some (c, nperms, seed, sum)))
          × (generate_perms children nperms seed ≡ some perms)
          × ((2 ≤ children) × (children ≤ 255) × (0 < nperms) × (nperms ≤ 512))
          × AreRows nperms children perms)
has_perms children = elim (Option-cases (find_map children maps)) [
  | inl missing ↦ inl missing
  | inr ((c, nperms, seed, sum), found) ↦
      let bounds = find_map-inv children maps c nperms seed sum maps_test found in
      let (perms, made, rows) =
        generate_perms-AreRows children nperms seed (omega arith) (omega arith) in
      inr (nperms, seed, sum, perms, (c, found), made, bounds, rows)
]

config_of-IsConfig :
    (ndata nparity nspares children ngroups nperms sum : ℕ) (perms : List ℕ) (c : Config)
    → ndata + nparity + nspares ≤ children
    → 0 < ndata
    → 0 < ngroups
    → (1 ≤ nparity) × (nparity ≤ max_parity)
    → (2 ≤ children) × (children ≤ 255) × (0 < nperms) × (nperms ≤ 512)
    → AreRows nperms children perms
    → config_of ndata nparity nspares children ngroups nperms sum perms ≡ ok c
    → IsConfig c
unfolding config_of
config_of-IsConfig ndata nparity nspares children ngroups nperms sum perms c fits pos groups parity
      bounds rows h =
    let same : built ndata nparity nspares children ngroups nperms perms ≡ c = ground arith in
    subst IsConfig same (record {
      some_rows = omega arith;
      few_rows = omega arith;
      some_children = omega arith;
      few_children = omega arith;
      some_data = pos;
      parity = parity;
      width = omega arith;
      disks = omega arith;
      fits = ground (arith, h);
      groups = groups;
      group_size = omega arith;
      rows = rows;
    })

config_of-Returns :
    (ndata nparity nspares children ngroups nperms sum : ℕ) (perms : List ℕ)
    → ndata + nparity + nspares ≤ children
    → 0 < ndata
    → children ≤ 255
    → Returns (config_of ndata nparity nspares children ngroups nperms sum perms)
unfolding config_of
config_of-Returns ndata nparity nspares children ngroups nperms sum perms fits pos few =
    let used : (sub64 children nspares == 0) ≡ false = ground arith in
    elim (Bool-cases (not ((fletcher4_sum perms little).0 == sum))) [
      | inl wrong ↦ rw wrong (inr (_, refl))
      | inr right ↦
          rw right (elim (Bool-cases (ltb (sub64 children nspares) (add64 ndata nparity))) [
            | inl wide ↦ rw wide (inr (_, refl))
            | inr narrow ↦ rw narrow (
                rw used
                  (elim (Bool-cases (
                    not
                      (wrapping_mul (add64 ndata nparity) ngroups % sub64 children nspares == 0))) [
                        | inl uneven ↦ rw uneven (inr (_, refl))
                        | inr even ↦ rw even (inl (_, refl))
                      ]))
          ])
    ]

-- With counts whose sum does not wrap, `Config::new` neither panics nor runs on. It refuses, or it
-- gives a configuration whose groups fit the children that are no spares and whose permutations
-- each hold every child once.
pub new_total :
    (ndata nparity nspares children ngroups : ℕ)
    → ndata + nparity + nspares < u64_mod
    → ((c : Config) × (new ndata nparity nspares children ngroups ≡ ok c) × IsConfig c)
      ⊎ ((e : DraidError) × (new ndata nparity nspares children ngroups ≡ err e))
unfolding new
new_total ndata nparity nspares children ngroups room =
    elim (Bool-cases (nparity == 0 || ltb max_parity nparity)) [
      | inl bad ↦ rw bad (inr (geometry, refl))
      | inr parity ↦
          rw parity
            (elim (Bool-cases
              (ngroups == 0 || ltb children (add64 (add64 ndata nparity) nspares) || ndata == 0)) [
                | inl bad ↦ rw bad (inr (geometry, refl))
                | inr guarded ↦
                    let fits : ndata + nparity + nspares ≤ children = ground (arith, guarded) in
                    let pos : 0 < ndata = ground (arith, guarded) in
                    let groups : 0 < ngroups = ground (arith, guarded) in
                    let few_parity : (1 ≤ nparity) × (nparity ≤ max_parity) =
                      ground (arith, parity) in
                    rw guarded (elim (has_perms children) [
                      | inl missing ↦ rw missing (inr (_, refl))
                      | inr (nperms, seed, sum, perms, (c, found), made, bounds, rows) ↦ rw found (
                          rw made
                            (elim (config_of-Returns ndata nparity nspares children ngroups nperms
                              sum perms fits pos (omega arith)) [
                                | inr (e, refused) ↦ inr (e, refused)
                                | inl (built, good) ↦ inl (
                                  built,
                                  good,
                                  config_of-IsConfig ndata nparity nspares children ngroups nperms
                                      sum perms built fits pos groups few_parity bounds rows good,
                                )
                              ]))
                    ])
              ])
    ]

-- The remainder by `n` of a number below twice `n`.
mod_once : (x n : ℕ) → x < n + n → x % n ≡ (if ltb x n then x else x - n)
mod_once x n h = elim (Bool-cases (ltb x n)) [
  | inl low ↦ rw low (mod-eq_of_lt (ltb→lt x n low))
  | inr high ↦
      let above : n ≤ x = ground (arith, high) in
      rw high (mod-eq-sub-mod above ∙ mod-eq_of_lt (omega (arith, above)))
]

pub rotation_injective : (a b k n : ℕ) → a < n → b < n → k < n → (a + k) % n ≡ (b + k) % n → a ≡ b
rotation_injective a b k n ha hb hk h = ground (arith, mod_once (a + k) n, mod_once (b + k) n, h)

-- The row that a permutation index picks, and by how much it is rotated.
module _ (c : Config) (is : IsConfig c) where
  perms_size : wrapping_mul c.nperms c.children ≡ c.nperms * c.children
  perms_size =
      mod-eq_of_lt
        (omega (arith, is.few_rows, is.few_children, mul-le-mul is.few_rows is.few_children))

  abbrev poff : ℕ → ℕ
  poff pindex = pindex % wrapping_mul c.nperms c.children

  abbrev row_start : ℕ → ℕ
  row_start pindex = (poff pindex / c.children) * c.children

  perms_pos : 0 < wrapping_mul c.nperms c.children
  perms_pos =
      let few : 0 < c.children = omega (arith, is.some_children) in
      omega (arith, perms_size, mul-pos is.some_rows few)

  row_index : (pindex : ℕ) → poff pindex / c.children < c.nperms
  row_index pindex =
      (div-lt_iff_lt-mul (omega (arith, is.some_children))).1
        (omega (arith, perms_size, mod-lt pindex perms_pos))

  abbrev row_at : ℕ → List ℕ
  row_at pindex = take c.children (drop (row_start pindex) c.perms)

  row_at-IsRow : (pindex : ℕ) → IsRow c.children (row_at pindex)
  row_at-IsRow pindex = is.rows.1 (poff pindex / c.children) (row_index pindex)

  -- The child of a column, from the row and its rotation.
  permute-row :
      (pindex index : ℕ)
      → index < c.children
      → (p : ℕ) × (get_elem? (row_at pindex) index ≡ some p)
        × (p < c.children)
        × (permute c pindex index ≡ some ((p + poff pindex % c.children) % c.children))
  unfolding permute
  permute-row pindex index h =
      let r = row_at-IsRow pindex in
      let (p, found) = get_elem?-some (row_at pindex) index (omega (arith, r.size)) in
      let fine : (wrapping_mul c.nperms c.children == 0) ≡ false = ground (arith, perms_pos) in
      let inside : get_elem? (drop (row_start pindex) c.perms) index ≡ some p =
        sym (get_elem?-take c.children index (drop (row_start pindex) c.perms) h) ∙ found in
      (p, found, r.below index p found, rw fine (rw inside refl))

  -- Two columns of one permutation that lie on one child are one column.
  pub permute_injective :
      (pindex i j x : ℕ)
      → i < c.children
      → j < c.children
      → permute c pindex i ≡ some x
      → permute c pindex j ≡ some x
      → i ≡ j
  permute_injective pindex i j x hi hj at_i at_j =
      let (p, found_p, below_p, is_p) = permute-row pindex i hi in
      let (q, found_q, below_q, is_q) = permute-row pindex j hj in
      let same : p ≡ q =
        rotation_injective p q (poff pindex % c.children) c.children below_p below_q
          (mod-lt (poff pindex) (omega (arith, is.some_children))) (cc (is_p, is_q, at_i, at_j)) in
      (row_at-IsRow pindex).once i j p found_p (found_q ∙ ap some (sym same))

  pub permute-some :
      (pindex index : ℕ)
      → index < c.children
      → (x : ℕ) × (permute c pindex index ≡ some x) × (x < c.children)
  permute-some pindex index h =
      let (p, found, below, is_p) = permute-row pindex index h in
      (_, is_p, mod-lt (p + poff pindex % c.children) (omega (arith, is.some_children)))
