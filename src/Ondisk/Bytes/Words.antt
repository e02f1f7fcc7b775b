-- ===== src/Ondisk/Bytes/Words.antt =====
-- Records of u64 words: reading word `i` of what was written.
use zvolrescue.Prelude.{ℕ, zero, suc, ◌+◌, ◌*◌}
use zvolrescue.Prelude.{◌≡◌, refl, sym, ap, ◌∙◌, arith}
use zvolrescue.Prelude.{some}
use zvolrescue.Prelude.{List, [], ◌∷◌, ◌++◌, length, get_elem?, take, drop, All}
use zvolrescue.Prelude.{length-append}
use zvolrescue.Prelude.{take-append}
use zvolrescue.Ondisk.Bytes.{Endian, little, big, slice, from_bytes, u64_at, to_bytes}
use zvolrescue.Ondisk.Bytes.{encode_words, IsU64}
use zvolrescue.Ondisk.Bytes.Laws.{from_bytes-to_bytes, u64_at-some}
use mathlib.Core.List.{append_assoc}
use native.Mathlib.Nat.{suc-add}

pub length-to_bytes : (e : Endian) (x : ℕ) → length (to_bytes e x) ≡ 8
unfolding to_bytes
length-to_bytes little x = refl
length-to_bytes big x = refl

pub length-encode_words : (e : Endian) (ws : List ℕ) → length (encode_words e ws) ≡ 8 * length ws
unfolding encode_words
length-encode_words e [] = refl
length-encode_words e (w ∷ ws) = omega (
  arith,
  length-append (to_bytes e w) (encode_words e ws),
  length-to_bytes e w,
  length-encode_words e ws,
)

drop_past : (n : ℕ) (xs ys : List ℕ) → drop (length xs + n) (xs ++ ys) ≡ drop n ys
drop_past n [] ys = ap (λ k. drop k ys) (omega arith)
drop_past n (x ∷ xs) ys = rw suc-add (drop_past n xs ys)

take_front : (e : Endian) (x : ℕ) (ys : List ℕ) → take 8 (to_bytes e x ++ ys) ≡ to_bytes e x
take_front e x ys = rw (← length-to_bytes e x) (take-append (to_bytes e x) ys)

-- The first word.
u64_at_front :
    (e : Endian) (x : ℕ) (ys : List ℕ) → IsU64 x → u64_at e (to_bytes e x ++ ys) 0 ≡ some x
u64_at_front e x ys h =
    u64_at-some e (to_bytes e x ++ ys) 0
      (omega (arith, length-append (to_bytes e x) ys, length-to_bytes e x))
    ∙ ap some (ap (from_bytes e) (take_front e x ys) ∙ from_bytes-to_bytes e x h)

-- The words behind the first.
u64_at_behind :
    (e : Endian) (x n : ℕ) (ys : List ℕ) → u64_at e (to_bytes e x ++ ys) (8 + n) ≡ u64_at e ys n
unfolding u64_at slice
u64_at_behind e x n ys =
    ground (arith, length-append (to_bytes e x) ys, length-to_bytes e x, drop_behind)
  where
    drop_behind : drop (8 + n) (to_bytes e x ++ ys) ≡ drop n ys
    drop_behind =
        ap (λ k. drop (k + n) (to_bytes e x ++ ys)) (sym (length-to_bytes e x))
        ∙ drop_past n (to_bytes e x) ys

-- Word `i` of a written record reads back, whatever follows the record.
pub u64_at-encode_words :
    (e : Endian) (ws : List ℕ) (i x : ℕ) (ys : List ℕ)
    → get_elem? ws i ≡ some x
    → All IsU64 ws
    → u64_at e (encode_words e ws ++ ys) (8 * i) ≡ some x
unfolding encode_words
u64_at-encode_words e [] i x ys h all = cc
u64_at-encode_words e (w ∷ ws) zero x ys h (hw, all) =
    rw append_assoc (u64_at_front e w (encode_words e ws ++ ys) hw ∙ h)
u64_at-encode_words e (w ∷ ws) (suc i) x ys h (hw, all) =
    let place : 8 * suc i ≡ 8 + 8 * i = omega arith in
    rw (append_assoc, place)
      (u64_at_behind e w (8 * i) (encode_words e ws ++ ys) ∙ u64_at-encode_words e ws i x ys h all)
