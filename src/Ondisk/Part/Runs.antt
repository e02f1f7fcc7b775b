-- ===== src/Ondisk/Part/Runs.antt =====
-- Tests and examples of partition tables.
use zvolrescue.Prelude.{ℕ, ◌*◌, ◌^◌, ◌≤◌}
use zvolrescue.Prelude.{◌≡◌, refl, ◌⊎◌}
use zvolrescue.Prelude.{Bool, true, false, Option, none, some}
use zvolrescue.Prelude.{List, [], ◌∷◌, ◌++◌, map, replicate, All}
use zvolrescue.Prelude.{ok}
use zvolrescue.Ondisk.Part.{
  PartitionTable, Parsed, Utf16, gpt_signature, gpt_zfs, u32le, parse_gpt, parse_mbr,
}
use zvolrescue.Ondisk.Part.Gpt.{IsIn, parse_gpt_total}

-- The units as they are.
abbrev as_units : Utf16
as_units us = some us

-- A header of two slots of 128 bytes.
gpt_header : List ℕ
gpt_header = gpt_signature ++ (replicate 72 0 ++ (2 ∷ 0 ∷ 0 ∷ 0 ∷ 128 ∷ 0 ∷ 0 ∷ 0 ∷ replicate 4 0))

-- A slot of a ZFS partition named `z`, and one that is not used.
gpt_entries : List ℕ
gpt_entries =
    gpt_zfs
    ++ (replicate 16 0
        ++ (40 ∷ (replicate 7 0 ++ (47 ∷ (replicate 15 0 ++ (122 ∷ replicate 199 0))))))

abbrev bounds_of : Option PartitionTable → List (ℕ × ℕ × ℕ × Bool)
bounds_of none = []
bounds_of (some t) = map (λ p. (p.index, p.start, p.len, p.zfs)) t.partitions

abbrev bounds_in : Parsed (Option PartitionTable) → List (ℕ × ℕ × ℕ × Bool)
bounds_in (ok t) = bounds_of t
bounds_in _ = []

gpt_test :
    bounds_in (parse_gpt as_units gpt_header gpt_entries 512 false)
    ≡ (1, 40 * 512, 8 * 512, true) ∷ []
unfolding gpt_header gpt_entries parse_gpt
gpt_test = refl

-- Sector numbers that do not fit the bytes of an address are skipped.
far_test : bounds_in (parse_gpt as_units gpt_header gpt_entries (2 ^ 60) false) ≡ []
unfolding gpt_header gpt_entries parse_gpt
far_test = refl

mbr_test :
    bounds_in (
      parse_mbr
        (replicate 450 0
          ++ (0xbf
              ∷ 0
              ∷ 0
              ∷ 0
              ∷ 63
              ∷ 0
              ∷ 0
              ∷ 0
              ∷ 100
              ∷ 0
              ∷ 0
              ∷ 0
              ∷ (replicate 48 0 ++ (0x55 ∷ 0xaa ∷ []))))
        512)
    ≡ (1, 63 * 512, 100 * 512, true) ∷ []
unfolding parse_mbr
mbr_test = refl

parse_gpt_total_example :
    (parse_gpt as_units gpt_header gpt_entries 512 false ≡ ok none)
    ⊎ ((t : PartitionTable) × (count : ℕ) × (size : ℕ) × (parse_gpt as_units gpt_header gpt_entries
            512 false
          ≡ ok (some t))
        × (u32le gpt_header 80 ≡ ok count)
        × (u32le gpt_header 84 ≡ ok size)
        × (128 ≤ size)
        × (1 ≤ count)
        × (count ≤ 4096)
        × All (IsIn gpt_entries count size 512) t.partitions)
parse_gpt_total_example = parse_gpt_total as_units gpt_header gpt_entries 512 false
