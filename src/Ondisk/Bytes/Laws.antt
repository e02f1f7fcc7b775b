-- ===== src/Ondisk/Bytes/Laws.antt =====
-- Reading back what was written, and when a read succeeds.
use zvolrescue.Prelude.{ℕ, zero, suc, ◌+◌, ◌/◌, ◌^◌, ◌≤◌, ◌<◌}
use zvolrescue.Prelude.{◌≡◌, ap, ◌∙◌, arith}
use zvolrescue.Prelude.{none, some}
use zvolrescue.Prelude.{List, [], ◌∷◌, length, take, drop, All}
use zvolrescue.Prelude.{length-take, length-drop}
use zvolrescue.Prelude.{u64_mod}
use zvolrescue.Ondisk.Bytes.{Endian, little, big, IsByte, slice, from_le_bytes, from_be_bytes}
use zvolrescue.Ondisk.Bytes.{from_bytes, word, u64_at, to_le_bytes, to_bytes}
use native.Mathlib.Nat.{pow-suc}
use mathlib.Core.List.{reverse-reverse}

pub from_le_bytes-lt : (bs : List ℕ) → All IsByte bs → from_le_bytes bs < 256 ^ length bs
unfolding from_le_bytes
from_le_bytes-lt [] h = omega arith
from_le_bytes-lt (b ∷ bs) (hb, hbs) =
    omega (arith, from_le_bytes-lt bs hbs, pow-suc 256 (length bs))

pub from_le_bytes-to_le_bytes : (n x : ℕ) → x < 256 ^ n → from_le_bytes (to_le_bytes n x) ≡ x
unfolding from_le_bytes to_le_bytes
from_le_bytes-to_le_bytes zero x h = omega arith
from_le_bytes-to_le_bytes (suc n) x h =
    omega (arith, from_le_bytes-to_le_bytes n (x / 256) (omega (arith, pow-suc 256 n)))

pub from_bytes-to_bytes : (e : Endian) (x : ℕ) → x < u64_mod → from_bytes e (to_bytes e x) ≡ x
unfolding from_bytes from_be_bytes to_bytes
from_bytes-to_bytes little x h = from_le_bytes-to_le_bytes 8 x h
from_bytes-to_bytes big x h =
    ap from_le_bytes (reverse-reverse (to_le_bytes 8 x)) ∙ from_le_bytes-to_le_bytes 8 x h

pub length-slice :
    (buf : List ℕ) (from n : ℕ) {s : List ℕ} → slice buf from n ≡ some s → length s ≡ n
unfolding slice
length-slice buf from n h = ground (arith, length-take n (drop from buf), length-drop from buf)

pub slice-some :
    (buf : List ℕ) (from n : ℕ)
    → from + n ≤ length buf
    → slice buf from n ≡ some (take n (drop from buf))
unfolding slice
slice-some buf from n h = ground arith

pub u64_at-some :
    (e : Endian) (buf : List ℕ) (offset : ℕ)
    → offset + 8 ≤ length buf
    → u64_at e buf offset ≡ some (word e buf offset)
unfolding u64_at
u64_at-some e buf offset h = rw (slice-some buf offset 8 h)

pub u64_at-none :
    (e : Endian) (buf : List ℕ) (offset : ℕ) → length buf < offset + 8 → u64_at e buf offset ≡ none
unfolding u64_at slice
u64_at-none e buf offset h = ground arith
