-- ===== src/Ondisk/BlkPtr/Payload.antt =====
-- The payload of an embedded pointer, and the parameters of an encrypted one.
use native.Mathlib.Nat.{suc-add}
use mathlib.Core.List.{append_assoc}
use zvolrescue.Prelude.{zero, suc, drop-drop, length-drop, sym, ℕ, ◌+◌, ◌*◌, ◌≤◌, min}
use zvolrescue.Prelude.{◌≡◌, refl, ap, ◌∙◌, ◌⊎◌, inl, inr, arith}
use zvolrescue.Prelude.{true, false, none, some}
use zvolrescue.Prelude.{List, [], ◌∷◌, ◌++◌, length, take, drop, All}
use zvolrescue.Prelude.{if◌then◌else◌, Bool-cases}
use zvolrescue.Prelude.{length-append, length-take}
use zvolrescue.Prelude.{ok}
use zvolrescue.Ondisk.Bytes.{Endian, word}
use zvolrescue.Ondisk.Bytes.Laws.{slice-some, u64_at-some}
use zvolrescue.Ondisk.Dva.{bits}
use zvolrescue.Ondisk.BlkPtr.{
  BlkPtr, ptr_size, embedded_capacity, pointer_of, parse, is_encrypted, crypt_params, gather,
  embedded_payload,
}
use zvolrescue.Ondisk.BlkPtr.Parsed.{parse_inv}

pub length-raw :
    (buf : List ℕ) (e : Endian) (p : BlkPtr) → parse buf e ≡ ok p → length p.raw ≡ ptr_size
unfolding pointer_of
length-raw buf e p h =
    let (long, same) = parse_inv buf e p h in
    ap (λ (q : BlkPtr). length q.raw) same ∙ length-take ptr_size buf ∙ omega (arith, long)

raw-parse :
    (buf : List ℕ) (e : Endian) (p : BlkPtr) → parse buf e ≡ ok p → p.raw ≡ take ptr_size buf
unfolding pointer_of
raw-parse buf e p h = ap (λ (q : BlkPtr). q.raw) (parse_inv buf e p h).1

-- The words numbered in a list, one behind the other.
abbrev words_at : List ℕ → List ℕ → List ℕ
words_at raw [] = []
words_at raw (i ∷ is) = take 8 (drop (i * 8) raw) ++ words_at raw is

gather-words_at :
    (raw is : List ℕ) → All (λ i. i * 8 + 8 ≤ length raw) is → gather raw is ≡ ok (words_at raw is)
unfolding gather
gather-words_at raw [] inside = refl
gather-words_at raw (i ∷ is) (here, inside) =
    rw (slice-some raw (i * 8) 8 here, gather-words_at raw is inside) refl

-- The numbers from `k` on, `n` of them.
abbrev run : ℕ → ℕ → List ℕ
run k zero = []
run k (suc n) = k ∷ run (k + 1) n

words_at-append :
    (raw is ks : List ℕ) → words_at raw (is ++ ks) ≡ words_at raw is ++ words_at raw ks
words_at-append raw [] ks = refl
words_at-append raw (i ∷ is) ks =
    ap (λ l. take 8 (drop (i * 8) raw) ++ l) (words_at-append raw is ks)
    ∙ sym (append_assoc (take 8 (drop (i * 8) raw)) (words_at raw is) (words_at raw ks))

take-nil : (n : ℕ) → take {A = ℕ} n [] ≡ []
take-nil zero = refl
take-nil (suc n) = refl

take-plus : (a b : ℕ) (l : List ℕ) → take a l ++ take b (drop a l) ≡ take (a + b) l
take-plus zero b l = ap (λ (k : ℕ). take k l) (omega arith)
take-plus (suc a) b [] = take-nil b ∙ sym (take-nil (suc a + b))
take-plus (suc a) b (x ∷ l) = rw suc-add (ap (λ k. x ∷ k) (take-plus a b l))

-- Words that follow each other are a part of the bytes.
words_at-run : (raw : List ℕ) (n k : ℕ) → words_at raw (run k n) ≡ take (n * 8) (drop (k * 8) raw)
words_at-run raw zero k = refl
words_at-run raw (suc n) k =
    let next : (k + 1) * 8 ≡ k * 8 + 8 = omega arith in
    let size : 8 + n * 8 ≡ suc n * 8 = omega arith in
    ap (λ l. take 8 (drop (k * 8) raw) ++ l)
      (words_at-run raw n (k + 1)
        ∙ ap (λ (m : ℕ). take (n * 8) (drop m raw)) next
        ∙ ap (take (n * 8)) (sym (drop-drop 8 (k * 8) raw)))
    ∙ take-plus 8 (n * 8) (drop (k * 8) raw)
    ∙ ap (λ (m : ℕ). take m (drop (k * 8) raw)) size

-- The bytes of a pointer that may hold a payload: all but the words 6 and 10.
abbrev pub payload_bytes : List ℕ → List ℕ
payload_bytes raw = take 48 raw ++ (take 24 (drop 56 raw) ++ take 40 (drop 88 raw))

gather-payload :
    (raw : List ℕ)
    → length raw ≡ ptr_size
    → gather raw (0 ∷ 1 ∷ 2 ∷ 3 ∷ 4 ∷ 5 ∷ 7 ∷ 8 ∷ 9 ∷ 11 ∷ 12 ∷ 13 ∷ 14 ∷ 15 ∷ [])
      ≡ ok (payload_bytes raw)
gather-payload raw size =
    let first : words_at raw (run 0 6) ≡ take 48 raw = words_at-run raw 6 0 in
    let second : words_at raw (run 7 3) ≡ take 24 (drop 56 raw) = words_at-run raw 3 7 in
    let third : words_at raw (run 11 5) ≡ take 40 (drop 88 raw) = words_at-run raw 5 11 in
    let split : words_at raw (run 0 6 ++ (run 7 3 ++ run 11 5)) ≡ payload_bytes raw =
      words_at-append raw (run 0 6) (run 7 3 ++ run 11 5)
      ∙ ap (λ l. words_at raw (run 0 6) ++ l) (words_at-append raw (run 7 3) (run 11 5))
      ∙ ap (λ l. l ++ (words_at raw (run 7 3) ++ words_at raw (run 11 5))) first
      ∙ ap (λ l. take 48 raw ++ (l ++ words_at raw (run 11 5))) second
      ∙ ap (λ l. take 48 raw ++ (take 24 (drop 56 raw) ++ l)) third in
    gather-words_at raw _ (omega (arith, size)) ∙ ap ok split

-- A parsed pointer has a payload exactly when it is embedded: the first `psize` of its 128 bytes
-- without those of the words 6 and 10, or all 112 of them if `psize` is more. Taking it never panics.
pub embedded_payload-parse :
    (buf : List ℕ) (e : Endian) (p : BlkPtr)
    → parse buf e ≡ ok p
    → ((p.embedded ≡ false) × (embedded_payload p ≡ ok none))
      ⊎ ((p.embedded ≡ true)
          × (out : List ℕ) × (embedded_payload p ≡ ok (some out))
          × (out ≡ take p.psize (payload_bytes (take ptr_size buf)))
          × (length out ≡ min p.psize embedded_capacity))
unfolding embedded_payload
embedded_payload-parse buf e p h =
    let raw_size = length-raw buf e p h in
    let raw = raw-parse buf e p h in
    elim (Bool-cases p.embedded) [
      | inr plain ↦ inl (plain, rw plain refl)
      | inl inline ↦
          let done = gather-payload p.raw raw_size in
          inr (
            inline,
            take p.psize (payload_bytes p.raw),
            rw inline (rw done refl),
            ap (λ l. take p.psize (payload_bytes l)) raw,
            length-take p.psize (payload_bytes p.raw)
                ∙ omega (
                  arith,
                  raw_size,
                  length-append (take 48 p.raw)
                      (take 24 (drop 56 p.raw) ++ take 40 (drop 88 p.raw)),
                  length-append (take 24 (drop 56 p.raw)) (take 40 (drop 88 p.raw)),
                  length-take 48 p.raw,
                  length-take 24 (drop 56 p.raw),
                  length-take 40 (drop 88 p.raw),
                  length-drop 56 p.raw,
                  length-drop 88 p.raw,
                ),
          )
    ]

-- A parsed pointer has encryption parameters exactly when it is encrypted: words 4 and 5 and the
-- upper half of word 11, in the byte order that the pointer's own bit says. Never a panic.
pub crypt_params-parse :
    (buf : List ℕ) (e : Endian) (p : BlkPtr)
    → parse buf e ≡ ok p
    → crypt_params p
      ≡ ok (
          if is_encrypted p
          then some
              (word p.endian p.raw 32, word p.endian p.raw 40, bits (word p.endian p.raw 88) 32 32)
          else none)
unfolding crypt_params
crypt_params-parse buf e p h =
    let raw_size = length-raw buf e p h in
    elim (Bool-cases (is_encrypted p)) [
      | inr clear ↦ rw clear refl
      | inl secret ↦
          rw
            (
              secret,
              u64_at-some p.endian p.raw 32 (omega (arith, raw_size)),
              u64_at-some p.endian p.raw 40 (omega (arith, raw_size)),
              u64_at-some p.endian p.raw 88 (omega (arith, raw_size)),
            )
            refl
    ]
