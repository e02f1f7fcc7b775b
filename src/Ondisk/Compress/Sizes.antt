-- ===== src/Ondisk/Compress/Sizes.antt =====
-- What every decoder promises: an error, or exactly the bytes asked for.
use zvolrescue.Prelude.{ℕ}
use zvolrescue.Prelude.{◌≡◌, refl, ◌⊎◌, inl, inr, arith}
use zvolrescue.Prelude.{List, length}
use zvolrescue.Prelude.{◌==◌, Bool-cases}
use zvolrescue.Prelude.{ok, err}
use zvolrescue.Ondisk.Compress.{DecompressError, Output, check_size}

-- The decoder ends in an error, or in exactly `n` bytes: it neither panics nor runs on.
abbrev pub IsSized : ℕ → Output → Type 0
IsSized n r =
    ((out : List ℕ) × (r ≡ ok out) × (length out ≡ n)) ⊎ ((e : DecompressError) × (r ≡ err e))

pub check_size-IsSized : (out : List ℕ) (lsize : ℕ) → IsSized lsize (check_size out lsize)
unfolding check_size
check_size-IsSized out lsize = elim (Bool-cases (length out == lsize)) [
  | inl e ↦ rw e (inl (out, refl, ground (arith, e)))
  | inr e ↦ rw e (inr (_, refl))
]
