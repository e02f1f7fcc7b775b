-- ===== src/Ondisk/Checksum/Fletcher.antt =====
-- The Fletcher sums of crates/zfs-ondisk/src/checksum.rs as running sums taken again and again.
use zvolrescue.Prelude.{ℕ, zero, suc, ◌+◌, ◌/◌, ◌%◌, ◌^◌}
use zvolrescue.Prelude.{◌≡◌, refl}
use zvolrescue.Prelude.{List, [], ◌∷◌, length, take, drop}
use zvolrescue.Ondisk.Bytes.{Endian, from_bytes}
use zvolrescue.Ondisk.Checksum.{Sum, fletcher2_loop, fletcher2_sum, fletcher4_loop, fletcher4_sum}

-- The running sums modulo 2^64 behind a sum so far.
abbrev pub running : ℕ → List ℕ → List ℕ
running acc [] = []
running acc (w ∷ ws) = (acc + w) % 2 ^ 64 ∷ running ((acc + w) % 2 ^ 64) ws

-- The last of them.
abbrev pub total : ℕ → List ℕ → ℕ
total acc [] = acc
total acc (w ∷ ws) = total ((acc + w) % 2 ^ 64) ws

-- The words of four bytes, without an incomplete last one.
abbrev pub quads : Endian → List ℕ → List ℕ
quads e (p ∷ q ∷ r ∷ s ∷ rest) = from_bytes e (p ∷ q ∷ r ∷ s ∷ []) ∷ quads e rest
quads e _ = []

-- The word of eight bytes at one place of each of the first pieces of sixteen bytes.
abbrev pub column : ℕ → Endian → ℕ → List ℕ → List ℕ
column at e zero bytes = []
column at e (suc n) bytes = from_bytes e (take 8 (drop at bytes)) ∷ column at e n (drop 16 bytes)

-- The words, their running sums, the running sums of these, and once more: the total of each.
abbrev pub sums_of_quads : Endian → List ℕ → Sum
sums_of_quads e bytes =
    let ws = quads e bytes in
    (
      total 0 ws,
      total 0 (running 0 ws),
      total 0 (running 0 (running 0 ws)),
      total 0 (running 0 (running 0 (running 0 ws))),
    )

-- The two columns of words, and the running sums of each.
abbrev pub sums_of_columns : Endian → List ℕ → Sum
sums_of_columns e bytes =
    let n = length bytes / 16 in
    let even = column 0 e n bytes in
    let odd = column 8 e n bytes in
    (total 0 even, total 0 odd, total 0 (running 0 even), total 0 (running 0 odd))

fletcher4_loop_lem :
    (bytes : List ℕ) (e : Endian) (a b c d : ℕ)
    → fletcher4_loop bytes e (a, b, c, d) ≡ (
      total a (quads e bytes),
      total b (running a (quads e bytes)),
      total c (running b (running a (quads e bytes))),
      total d (running c (running b (running a (quads e bytes)))),
    )
unfolding fletcher4_loop
fletcher4_loop_lem (p ∷ q ∷ r ∷ s ∷ rest) e a b c d = fletcher4_loop_lem rest e _ _ _ _
fletcher4_loop_lem [] e a b c d = refl
fletcher4_loop_lem (p ∷ []) e a b c d = refl
fletcher4_loop_lem (p ∷ q ∷ []) e a b c d = refl
fletcher4_loop_lem (p ∷ q ∷ r ∷ []) e a b c d = refl

pub fletcher4_sum_lem :
    (bytes : List ℕ) (e : Endian) → fletcher4_sum bytes e ≡ sums_of_quads e bytes
unfolding fletcher4_sum
fletcher4_sum_lem bytes e = fletcher4_loop_lem bytes e 0 0 0 0

fletcher2_loop_lem :
    (n : ℕ) (bytes : List ℕ) (e : Endian) (a0 a1 b0 b1 : ℕ)
    → fletcher2_loop n bytes e (a0, a1, b0, b1) ≡ (
      total a0 (column 0 e n bytes),
      total a1 (column 8 e n bytes),
      total b0 (running a0 (column 0 e n bytes)),
      total b1 (running a1 (column 8 e n bytes)),
    )
unfolding fletcher2_loop
fletcher2_loop_lem zero bytes e a0 a1 b0 b1 = refl
fletcher2_loop_lem (suc n) bytes e a0 a1 b0 b1 = fletcher2_loop_lem n (drop 16 bytes) e _ _ _ _

pub fletcher2_sum_lem :
    (bytes : List ℕ) (e : Endian) → fletcher2_sum bytes e ≡ sums_of_columns e bytes
unfolding fletcher2_sum
fletcher2_sum_lem bytes e = fletcher2_loop_lem (length bytes / 16) bytes e 0 0 0 0
