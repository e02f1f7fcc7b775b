-- ===== src/Ondisk/Uberblock/Runs.antt =====
-- Tests and examples of the uberblocks.
use zvolrescue.Prelude.{ℕ, zero, suc}
use zvolrescue.Prelude.{◌≡◌, refl, ◌⊎◌, arith}
use zvolrescue.Prelude.{none, some}
use zvolrescue.Prelude.{List, [], ◌∷◌, ◌++◌, replicate, All}
use zvolrescue.Ondisk.Bytes.{little, IsByte}
use zvolrescue.Ondisk.Uberblock.{Uberblock, best_from, best}
use zvolrescue.Ondisk.Uberblock.Parsed.{uberblock_in}
use zvolrescue.Ondisk.Uberblock.Best.{IsLatest, best-IsLatest}

-- Two slots of 1 KiB, each with a magic and a transaction group in front.
abbrev two_slots : List ℕ
two_slots = (12 ∷ 177 ∷ 186 ∷ []) ++ replicate 2045 0

zeros-IsByte : (n : ℕ) → All IsByte (replicate n 0)
zeros-IsByte zero = tt
zeros-IsByte (suc n) = (omega arith, zeros-IsByte n)

two_slots-IsByte : All IsByte two_slots
two_slots-IsByte = (omega arith, (omega arith, (omega arith, zeros-IsByte 2045)))

abbrev at_txg : ℕ → ℕ → Uberblock
at_txg t time = record (uberblock_in little []) { txg = t; timestamp = time }

abbrev candidates : List Uberblock
candidates = at_txg 7 5 ∷ at_txg 9 1 ∷ at_txg 9 4 ∷ at_txg 8 9 ∷ []

best_test : best candidates ≡ some (at_txg 9 4)
unfolding best best_from
best_test = refl

best-IsLatest_example :
    ((candidates ≡ []) × (best candidates ≡ none))
    ⊎ ((u : Uberblock) × (best candidates ≡ some u) × IsLatest candidates u)
best-IsLatest_example = best-IsLatest candidates
