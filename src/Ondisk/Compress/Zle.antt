-- ===== src/Ondisk/Compress/Zle.antt =====
-- The `zle` decoder: the end of its loop, and that it undoes the encoding.
use zvolrescue.Prelude.{ℕ, zero, suc, ◌+◌, ◌-◌, ◌≤◌, ◌<◌, min}
use zvolrescue.Prelude.{◌≡◌, refl, sym, ap, ◌∙◌, inl, inr, arith}
use zvolrescue.Prelude.{true, false, ◌&&◌, some}
use zvolrescue.Prelude.{List, [], ◌∷◌, ◌++◌, length, get_elem?, take, drop, replicate, All}
use zvolrescue.Prelude.{ltb, leb, ◌==◌, Bool-cases}
use zvolrescue.Prelude.{length-append, length-drop}
use zvolrescue.Prelude.{
  length-replicate, take-append, drop-append, get_elem?-some, get_elem?-drop, drop-drop,
}
use zvolrescue.Prelude.{ok, Returns}
use zvolrescue.Ondisk.Bytes.{slice}
use mathlib.Core.List.{append_assoc, append-nil}
use zvolrescue.Ondisk.Bytes.Laws.{slice-some}
use zvolrescue.Ondisk.Compress.Sizes.{IsSized, check_size-IsSized}
use zvolrescue.Ondisk.Compress.{Output, check_size, zle_run, zle_round, zle_loop, zle_decode}

module _ (next : ℕ → List ℕ → Output) (src : List ℕ) (lsize s : ℕ) (dst : List ℕ)
    (fine : (at : ℕ) (longer : List ℕ) → s < at → Returns (next at longer)) where
  zle_run-Returns : (at len : ℕ) → s < at → Returns (zle_run next src lsize at len dst)
  unfolding zle_run
  zle_run-Returns at len beyond = elim (Bool-cases (leb len 64)) [
    | inr zeros ↦ rw zeros (fine at _ beyond)
    | inl literal ↦ rw literal (elim (Bool-cases (ltb (length src) (at + len))) [
      | inl short ↦ rw short (inr (_, refl))
      | inr long ↦ rw long (
          rw (slice-some src at (min len (lsize - length dst)) (ground (arith, long)))
            (fine (at + len) _ (omega (arith, beyond))))
    ])
  ]

  zle_round-Returns : s < length src → Returns (zle_round next src lsize s dst)
  unfolding zle_round
  zle_round-Returns h =
      let (b, e) = get_elem?-some src s h in rw e (zle_run-Returns (s + 1) (1 + b) (omega arith))

zle_loop-Returns :
    (rounds : ℕ) (src : List ℕ) (lsize s : ℕ) (dst : List ℕ)
    → length src ≤ s + rounds
    → Returns (zle_loop rounds src lsize s dst)
unfolding zle_loop
zle_loop-Returns zero src lsize s dst enough =
    let done : ltb s (length src) ≡ false = ground arith in rw done (inl (dst, refl))
zle_loop-Returns (suc rounds) src lsize s dst enough =
    elim (Bool-cases (ltb s (length src) && ltb (length dst) lsize)) [
      | inr done ↦ rw done (inl (dst, refl))
      | inl more ↦ rw more (
          zle_round-Returns (zle_loop rounds src lsize) src lsize s dst
            (λ at longer beyond. zle_loop-Returns rounds src lsize at longer (omega arith))
            (ground (arith, more)))
    ]

-- The encoding: a run of 1 to 64 bytes after its length less one, or one byte for 1 to 192 zeros.
pub data ZleRun : Type 0 where
  literals : List ℕ → ZleRun
  zeros : ℕ → ZleRun

unfoldable pub IsRun : ZleRun → Type 0
IsRun (literals bs) = (1 ≤ length bs) × (length bs ≤ 64)
IsRun (zeros n) = (1 ≤ n) × (n ≤ 192)

abbrev pub expand_run : ZleRun → List ℕ
expand_run (literals bs) = bs
expand_run (zeros n) = replicate n 0

abbrev pub encode_run : ZleRun → List ℕ
encode_run (literals bs) = (length bs - 1) ∷ bs
encode_run (zeros n) = (n + 63) ∷ []

abbrev pub expand_runs : List ZleRun → List ℕ
expand_runs [] = []
expand_runs (r ∷ rs) = expand_run r ++ expand_runs rs

abbrev pub encode_runs : List ZleRun → List ℕ
encode_runs [] = []
encode_runs (r ∷ rs) = encode_run r ++ encode_runs rs

length-encode_run :
    (r : ZleRun) → IsRun r → (1 ≤ length (encode_run r)) × (1 ≤ length (expand_run r))
unfolding IsRun
length-encode_run (literals bs) run = omega arith
length-encode_run (zeros n) run = (omega arith, omega (arith, length-replicate {A = ℕ} n 0))

head-drop :
    (src : List ℕ) (s : ℕ) {b : ℕ} {rest : List ℕ}
    → drop s src ≡ b ∷ rest
    → get_elem? src s ≡ some b
head-drop src s here =
    ap (get_elem? src) (omega arith) ∙ sym (get_elem?-drop s 0 src) ∙ ap (λ l. get_elem? l 0) here

-- A round at an encoded run writes its bytes and goes on behind it.
zle_round-encode_run :
    (next : ℕ → List ℕ → Output) (src : List ℕ) (lsize s : ℕ) (dst rest : List ℕ) (r : ZleRun)
    → IsRun r
    → s ≤ length src
    → drop s src ≡ encode_run r ++ rest
    → length dst + length (expand_run r) ≤ lsize
    → zle_round next src lsize s dst ≡ next (s + length (encode_run r)) (dst ++ expand_run r)
unfolding zle_round zle_run IsRun
zle_round-encode_run next src lsize s dst rest (zeros n) (lo, hi) inside here room =
    let big : leb (1 + (n + 63)) 64 ≡ false = ground arith in
    let count : min (1 + (n + 63) - 64) (lsize - length dst) ≡ n =
      omega (arith, room, length-replicate {A = ℕ} n 0) in
    rw (head-drop src s here) (rw big (rw count refl))
zle_round-encode_run next src lsize s dst rest (literals bs) (lo, hi) inside here room =
    let k = 1 + (length bs - 1) in
    let all : length src - s ≡ 1 + (length bs + length rest) =
      sym (length-drop s src) ∙ ap length here ∙ omega (arith, length-append bs rest) in
    let small : leb k 64 ≡ true = ground arith in
    let long : ltb (length src) (s + 1 + k) ≡ false = ground (arith, all) in
    let behind : drop (s + 1) src ≡ bs ++ rest = sym (drop-drop 1 s src) ∙ ap (drop 1) here in
    let count : min k (lsize - length dst) ≡ length bs = omega (arith, room) in
    let bytes : slice src (s + 1) (min k (lsize - length dst)) ≡ some bs =
      ap (slice src (s + 1)) count
      ∙ slice-some src (s + 1) (length bs) (omega (arith, all))
      ∙ ap (λ l. some (take (length bs) l)) behind
      ∙ ap some (take-append bs rest) in
    rw (head-drop src s here)
      (rw small (rw long (rw bytes (ap (λ at. next at (dst ++ bs)) (omega arith)))))

zle_loop-encode_runs :
    (rounds : ℕ) (src : List ℕ) (lsize s : ℕ) (dst : List ℕ) (rs : List ZleRun)
    → All IsRun rs
    → s ≤ length src
    → drop s src ≡ encode_runs rs
    → lsize ≡ length dst + length (expand_runs rs)
    → length src ≤ s + rounds
    → zle_loop rounds src lsize s dst ≡ ok (dst ++ expand_runs rs)
unfolding zle_loop
zle_loop-encode_runs zero src lsize s dst [] runs inside here size enough =
    let stop : (ltb s (length src) && ltb (length dst) lsize) ≡ false = ground arith in
    rw stop (ap ok (sym (append-nil dst)))
zle_loop-encode_runs (suc rounds) src lsize s dst [] runs inside here size enough =
    let stop : (ltb s (length src) && ltb (length dst) lsize) ≡ false = ground arith in
    rw stop (ap ok (sym (append-nil dst)))
zle_loop-encode_runs zero src lsize s dst (r ∷ rs) (run, runs) inside here size enough = absurd (
    omega (
      arith,
      length-drop s src,
      ap length here,
      length-append (encode_run r) (encode_runs rs),
      length-encode_run r run,
    ))
zle_loop-encode_runs (suc rounds) src lsize s dst (r ∷ rs) (run, runs) inside here size enough =
    let (some_code, some_bytes) = length-encode_run r run in
    let all : length src - s ≡ length (encode_run r) + length (encode_runs rs) =
      sym (length-drop s src) ∙ ap length here ∙ length-append (encode_run r) (encode_runs rs) in
    let total = length-append (expand_run r) (expand_runs rs) in
    let longer = length-append dst (expand_run r) in
    let go : (ltb s (length src) && ltb (length dst) lsize) ≡ true = ground (arith, all, total) in
    let rest : drop (s + length (encode_run r)) src ≡ encode_runs rs =
      sym (drop-drop (length (encode_run r)) s src)
      ∙ ap (drop (length (encode_run r))) here
      ∙ drop-append (encode_run r) (encode_runs rs) in
    rw go (
      rw
        (zle_round-encode_run (zle_loop rounds src lsize) src lsize s dst (encode_runs rs) r run
          inside here (omega (arith, total)))
        (zle_loop-encode_runs rounds src lsize (s + length (encode_run r)) (dst ++ expand_run r) rs
            runs (omega (arith, all)) rest (omega (arith, total, longer)) (omega (arith, all))
          ∙ ap ok (append_assoc dst (expand_run r) (expand_runs rs))))

-- What was encoded as runs, of 1 to 64 bytes or of 1 to 192 zeros each, is decoded to the bytes that
-- they stand for.
pub zle_decode-encode_runs :
    (rs : List ZleRun)
    → All IsRun rs
    → zle_decode (encode_runs rs) (length (expand_runs rs)) ≡ ok (expand_runs rs)
unfolding zle_decode check_size
zle_decode-encode_runs rs runs =
    let same : (length (expand_runs rs) == length (expand_runs rs)) ≡ true = ground arith in
    rw
      (zle_loop-encode_runs (length (encode_runs rs)) (encode_runs rs) (length (expand_runs rs)) 0
        [] rs runs (omega arith) refl (omega arith) (omega arith))
      (rw same refl)

pub zle_decode-IsSized : (src : List ℕ) (lsize : ℕ) → IsSized lsize (zle_decode src lsize)
unfolding zle_decode
zle_decode-IsSized src lsize = elim (zle_loop-Returns (length src) src lsize 0 [] (omega arith)) [
  | inl (out, e) ↦ rw e (check_size-IsSized out lsize)
  | inr (bad, e) ↦ rw e (inr (bad, refl))
]
