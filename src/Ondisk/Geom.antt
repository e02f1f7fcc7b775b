-- ===== src/Ondisk/Geom.antt =====
-- crates/zfs-ondisk/src/geom.rs: the metadata that a GEOM class leaves in the last sector of a provider.
-- A name is its bytes; `std::str::from_utf8` is a parameter that tells whether they are text.
pub mod Magic
mod Runs
use zvolrescue.Prelude.{ℕ, zero, suc, ◌+◌, ◌-◌, ◌*◌, ◌/◌, ◌%◌, ◌^◌, ◌≤◌, ◌<◌, min, max}
use zvolrescue.Prelude.{◌≡◌, refl, sym, ap, ◌∙◌, ◌≢◌, ◌↔◌, ◌⊎◌, inl, inr, arith}
use zvolrescue.Prelude.{Bool, true, false, not, ◌&&◌, ◌||◌, Option, none, some}
use zvolrescue.Prelude.{
  List, [], ◌∷◌, ◌++◌, map, length, get_elem?, take, drop, replicate, set, All,
}
use zvolrescue.Prelude.{ltb, leb, ◌==◌, if◌then◌else◌, Bool-cases, Option-cases}
use zvolrescue.Prelude.{
  ltb→lt, lt→ltb, le→ltb, leb→le, ==_iff, length-append, length-take, length-drop,
}
use zvolrescue.Prelude.{
  length-replicate, length-set, get_elem?-take, get_elem?-set_self, get_elem?-set_ne, take-append,
  drop-append, get_elem?-some, get_elem?_lt, get_elem?-append, get_elem?-drop, drop-drop,
  get_elem?-front, All-append,
}
use zvolrescue.Prelude.{u64_mod, u64_max, saturating_add, checked_add, checked_mul, wrapping_mul}
use zvolrescue.Prelude.{shl64, shr64, low_bits, div_ceil, add64, sub64}
use zvolrescue.Prelude.{Result, ok, err, panic, stuck, ◌>>=◌, ok_or, expect, Returns}
use mathlib.Core.Option
use zvolrescue.Prelude.Chain
use zvolrescue.Ondisk.Bytes.{Endian, little, slice, from_bytes, u64_at}

abbrev pub sector_size : ℕ
sector_size = 512

pub data Class : Type 0 where
  label mirror eli stripe concat raid3 raid journal cache virstor shsec : Class

-- The magics of `CLASSES`.
abbrev pub magic_of : Class → List ℕ
magic_of label = 71 ∷ 69 ∷ 79 ∷ 77 ∷ 58 ∷ 58 ∷ 76 ∷ 65 ∷ 66 ∷ 69 ∷ 76 ∷ []
magic_of mirror = 71 ∷ 69 ∷ 79 ∷ 77 ∷ 58 ∷ 58 ∷ 77 ∷ 73 ∷ 82 ∷ 82 ∷ 79 ∷ 82 ∷ []
magic_of eli = 71 ∷ 69 ∷ 79 ∷ 77 ∷ 58 ∷ 58 ∷ 69 ∷ 76 ∷ 73 ∷ []
magic_of stripe = 71 ∷ 69 ∷ 79 ∷ 77 ∷ 58 ∷ 58 ∷ 83 ∷ 84 ∷ 82 ∷ 73 ∷ 80 ∷ 69 ∷ []
magic_of concat = 71 ∷ 69 ∷ 79 ∷ 77 ∷ 58 ∷ 58 ∷ 67 ∷ 79 ∷ 78 ∷ 67 ∷ 65 ∷ 84 ∷ []
magic_of raid3 = 71 ∷ 69 ∷ 79 ∷ 77 ∷ 58 ∷ 58 ∷ 82 ∷ 65 ∷ 73 ∷ 68 ∷ 51 ∷ []
magic_of raid = 71 ∷ 69 ∷ 79 ∷ 77 ∷ 58 ∷ 58 ∷ 82 ∷ 65 ∷ 73 ∷ 68 ∷ []
magic_of journal = 71 ∷ 69 ∷ 79 ∷ 77 ∷ 58 ∷ 58 ∷ 74 ∷ 79 ∷ 85 ∷ 82 ∷ 78 ∷ 65 ∷ 76 ∷ []
magic_of cache = 71 ∷ 69 ∷ 79 ∷ 77 ∷ 58 ∷ 58 ∷ 67 ∷ 65 ∷ 67 ∷ 72 ∷ 69 ∷ []
magic_of virstor = 71 ∷ 69 ∷ 79 ∷ 77 ∷ 58 ∷ 58 ∷ 86 ∷ 73 ∷ 82 ∷ 83 ∷ 84 ∷ 79 ∷ 82 ∷ []
magic_of shsec = 71 ∷ 69 ∷ 79 ∷ 77 ∷ 58 ∷ 58 ∷ 83 ∷ 72 ∷ 83 ∷ 69 ∷ 67 ∷ []

-- The order of `CLASSES`.
abbrev pub classes : List Class
classes =
    label ∷ mirror ∷ eli ∷ stripe ∷ concat ∷ raid3 ∷ raid ∷ journal ∷ cache ∷ virstor ∷ shsec ∷ []

pub record GeomMeta : Type 0 where
  pub class : Class
  pub name : Option (List ℕ)
  pub provsize : Option ℕ
  pub version : ℕ

-- `GeomMeta::inner_size`.
unfoldable pub inner_size : GeomMeta → Option ℕ
inner_size m = Option.map (λ p. p - sector_size) m.provsize

-- `field[..field.iter().position(|&b| b == 0)?]`.
unfoldable pub before_zero : List ℕ → Option (List ℕ)
before_zero [] = none
before_zero (b ∷ bs) = if b == 0 then some [] else Option.map (λ w. b ∷ w) (before_zero bs)

unfoldable pub same_word : List ℕ → List ℕ → Bool
same_word [] [] = true
same_word (a ∷ as') (b ∷ bs) = a == b && same_word as' bs
same_word _ _ = false

-- `CLASSES.iter().find_map(…)`.
unfoldable pub find_class : List Class → List ℕ → Option Class
unfolding same_word
find_class [] word = none
find_class (c ∷ cs) word = if same_word (magic_of c) word then some c else find_class cs word

-- `raw[..end]`: up to a zero, or all.
unfoldable pub text_of : List ℕ → List ℕ
text_of [] = []
text_of (b ∷ bs) = if b == 0 then [] else b ∷ text_of bs

abbrev pub Utf8 : Type 0
Utf8 = List ℕ → Bool

-- `name_at`, of the bytes it found.
unfoldable pub name_in : Utf8 → Option (List ℕ) → Option (List ℕ)
unfolding text_of
name_in is_utf8 none = none
name_in is_utf8 (some raw) =
    if is_utf8 (text_of raw) && not (length (text_of raw) == 0) then some (text_of raw) else none

-- `name_at(20)`.
unfoldable pub name_field : Utf8 → List ℕ → Option (List ℕ)
unfolding name_in slice
name_field is_utf8 sector = name_in is_utf8 (slice sector 20 16)

-- The name and the size that a class keeps.
unfoldable pub class_fields : Utf8 → Class → ℕ → List ℕ → Option (List ℕ) × Option ℕ
unfolding name_field u64_at
class_fields is_utf8 label version sector =
    (name_field is_utf8 sector, if leb 2 version then u64_at little sector 36 else none)
class_fields is_utf8 mirror version sector =
    (name_field is_utf8 sector, if leb 3 version then u64_at little sector 111 else none)
class_fields is_utf8 eli version sector = (none, none)
class_fields is_utf8 raid version sector = (none, none)
class_fields is_utf8 _ version sector = (name_field is_utf8 sector, none)

abbrev pub ParsedMeta : Type 0
ParsedMeta = Result (Option GeomMeta) (Unit {0})

-- The rest of `parse`, once the class is known.
unfoldable pub meta_of : Utf8 → List ℕ → Option Class → ParsedMeta
unfolding class_fields slice from_bytes
meta_of is_utf8 sector none = ok none
meta_of is_utf8 sector (some c) = do
  bytes ← expect (slice sector 16 4)
  let version = from_bytes little bytes
  ok (
      some (record {
        class = c;
        name = (class_fields is_utf8 c version sector).0;
        provsize = (class_fields is_utf8 c version sector).1;
        version = version;
      }))

-- The class of the magic in the first 16 bytes.
unfoldable pub class_of : List ℕ → Option Class
unfolding before_zero find_class
class_of sector = Chain.◌>>=◌ (before_zero (take 16 sector)) (find_class classes)

-- `parse`.
unfoldable pub parse_geom : Utf8 → List ℕ → ParsedMeta
unfolding class_of meta_of
parse_geom is_utf8 sector =
    if ltb (length sector) 36 then ok none else meta_of is_utf8 sector (class_of sector)
