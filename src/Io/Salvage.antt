-- ===== src/Io/Salvage.antt =====
-- crates/zvolrescue-io/src/lib.rs: reading around the ranges that an imager could not read. The
-- reader is a function of where it is asked and for how much, as that of an image is. Offsets in the
-- file and those of a mapfile wrap as u64; what is relative to the buffer stays inside it.
pub mod Sound
use zvolrescue.Prelude.{ℕ, zero, suc, ◌+◌, ◌-◌, ◌*◌, ◌/◌, ◌%◌, ◌^◌, ◌≤◌, ◌<◌, min, max}
use zvolrescue.Prelude.{◌≡◌, refl, sym, ap, ◌∙◌, ◌≢◌, ◌↔◌, ◌⊎◌, inl, inr, arith}
use zvolrescue.Prelude.{Bool, true, false, not, ◌&&◌, ◌||◌, Option, none, some}
use zvolrescue.Prelude.{
  List, [], ◌∷◌, ◌++◌, map, length, get_elem?, take, drop, replicate, set, All,
}
use zvolrescue.Prelude.{ltb, leb, ◌==◌, if◌then◌else◌, Bool-cases, Option-cases}
use zvolrescue.Prelude.{
  ltb→lt, lt→ltb, le→ltb, leb→le, ==_iff, length-append, length-take, length-drop,
}
use zvolrescue.Prelude.{
  length-replicate, length-set, get_elem?-take, get_elem?-set_self, get_elem?-set_ne, take-append,
  drop-append, get_elem?-some, get_elem?_lt, get_elem?-append, get_elem?-drop, drop-drop,
  get_elem?-front, All-append,
}
use zvolrescue.Prelude.{u64_mod, u64_max, saturating_add, checked_add, checked_mul, wrapping_mul}
use zvolrescue.Prelude.{shl64, shr64, low_bits, div_ceil, add64, sub64}
use zvolrescue.Prelude.{Result, ok, err, panic, stuck, ◌>>=◌, ok_or, expect, Returns}
use mathlib.Core.List.{reverse}

-- What a read ends in: the bytes, the end of the source, or any other failure.
pub data Answer : Type 0 where
  filled : List ℕ → Answer
  eof failed : Answer

pub data UnexpectedEof : Type 0 where
  unexpected_eof : UnexpectedEof

abbrev pub Reader : Type 0
Reader = ℕ → ℕ → Answer

abbrev pub Ranges : Type 0
Ranges = List (ℕ × ℕ)

abbrev pub salvage_sector : ℕ
salvage_sector = 512

abbrev pub salvage_piece : ℕ
salvage_piece = 4096

-- `note`: the last range is in front.
unfoldable pub note : ℕ → ℕ → Ranges → Ranges
note start n [] = (start, n) ∷ []
note start n ((s, l) ∷ bad) = if s + l == start then (s, l + n) ∷ bad else (start, n) ∷ (s, l) ∷ bad

-- `next_edge`.
abbrev pub next_edge : ℕ → ℕ → ℕ → ℕ
next_edge offset at unit = sub64 (wrapping_mul (add64 offset at / unit + 1) unit) offset

-- The ranges given up so far, and the bytes of the buffer so far.
abbrev pub Progress : Type 0
Progress = Ranges × List ℕ

abbrev pub Salvaged : Type 0
Salvaged = Result Progress UnexpectedEof

-- A sector, and the sectors of a piece behind it.
unfoldable pub take_sector : (Progress → Salvaged) → Answer → ℕ → ℕ → Progress → Salvaged
unfolding note
take_sector next (filled bytes) s n (bad, out) = next (bad, out ++ bytes)
take_sector next eof s n (bad, out) = err unexpected_eof
take_sector next failed s n (bad, out) = next (note s n bad, out ++ replicate n 0)

unfoldable pub sector_loop : ℕ → Reader → ℕ → ℕ → ℕ → Progress → Salvaged
unfolding take_sector
sector_loop zero read offset s piece_end p = if ltb s piece_end then stuck else ok p
sector_loop (suc rounds) read offset s piece_end p =
    if ltb s piece_end
    then (let sector_end = min (next_edge offset s salvage_sector) piece_end in
        take_sector (sector_loop rounds read offset sector_end piece_end)
          (read (add64 offset s) (sector_end - s)) s (sector_end - s) p)
    else ok p

-- A piece, and those behind it.
unfoldable pub take_piece :
    (Progress → Salvaged) → Reader → Answer → ℕ → ℕ → ℕ → Progress → Salvaged
unfolding sector_loop
take_piece next read (filled bytes) offset at piece_end (bad, out) = next (bad, out ++ bytes)
take_piece next read eof offset at piece_end p = err unexpected_eof
take_piece next read failed offset at piece_end p =
    sector_loop (piece_end - at) read offset at piece_end p >>= next

unfoldable pub piece_loop : ℕ → Reader → ℕ → ℕ → ℕ → Progress → Salvaged
unfolding take_piece
piece_loop zero read offset at len p = if ltb at len then stuck else ok p
piece_loop (suc rounds) read offset at len p =
    if ltb at len
    then (let piece_end = min (next_edge offset at salvage_piece) len in
        take_piece (piece_loop rounds read offset piece_end len) read
          (read (add64 offset at) (piece_end - at)) offset at piece_end p)
    else ok p

-- `salvage`: the first read, and what follows when it fails.
unfoldable pub salvage_after : Reader → Answer → ℕ → ℕ → Salvaged
unfolding piece_loop
salvage_after read (filled bytes) offset len = ok ([], bytes)
salvage_after read eof offset len = err unexpected_eof
salvage_after read failed offset len = do
  (bad, out) ← piece_loop len read offset 0 len ([], [])
  ok (reverse bad, out)

unfoldable pub salvage : Reader → ℕ → ℕ → Salvaged
unfolding salvage_after
salvage read offset len = salvage_after read (read offset len) offset len

-- `Map::touches`, on the ranges that the imager did not finish.
unfoldable pub touches : Ranges → ℕ → ℕ → Bool
touches [] offset len = false
touches ((s, l) ∷ rs) offset len =
    (ltb s (saturating_add offset len) && ltb offset (add64 s l)) || touches rs offset len

-- `Map::unreadable_bytes`.
unfoldable pub unreadable_bytes : Ranges → ℕ
unreadable_bytes [] = 0
unreadable_bytes ((s, l) ∷ rs) = add64 l (unreadable_bytes rs)

-- `Map::within`.
unfoldable pub within : Ranges → ℕ → ℕ → Ranges
within [] offset len = []
within ((s, l) ∷ rs) offset len =
    let end_ = saturating_add offset len in
    let rest = within rs offset len in
    if ltb s end_ && ltb offset (add64 s l)
    then (max s offset - offset, sub64 (min (add64 s l) end_) (max s offset)) ∷ rest
    else rest
