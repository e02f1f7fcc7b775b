-- ===== src/Ondisk/Geom/Magic.antt =====
-- Which class a sector is of.
use zvolrescue.Prelude.{ℕ, ◌≤◌, ◌<◌}
use zvolrescue.Prelude.{◌≡◌, refl, sym, ap, ◌∙◌, ◌≢◌, ◌⊎◌, inl, inr, arith}
use zvolrescue.Prelude.{true, false, not, ◌&&◌, Option, none, some}
use zvolrescue.Prelude.{List, [], ◌∷◌, ◌++◌, length, take, drop, All}
use zvolrescue.Prelude.{ltb, leb, ◌==◌, Bool-cases}
use zvolrescue.Prelude.{le→ltb, leb→le, ==_iff}
use zvolrescue.Prelude.{ok}
use zvolrescue.Ondisk.Bytes.{little, slice, from_bytes, u64_at}
use zvolrescue.Ondisk.Bytes.Laws.{slice-some}
use zvolrescue.Ondisk.Geom.{
  Class, label, mirror, eli, stripe, concat, raid3, raid, journal, cache, virstor, shsec, magic_of,
  class_fields, GeomMeta, Utf8, text_of, name_in, name_field, class_of, meta_of, parse_geom,
}

class_of-magic_of : (c : Class) (junk : List ℕ) → class_of (magic_of c ++ (0 ∷ junk)) ≡ some c
unfolding class_of
class_of-magic_of label junk = refl
class_of-magic_of mirror junk = refl
class_of-magic_of eli junk = refl
class_of-magic_of stripe junk = refl
class_of-magic_of concat junk = refl
class_of-magic_of raid3 junk = refl
class_of-magic_of raid junk = refl
class_of-magic_of journal junk = refl
class_of-magic_of cache junk = refl
class_of-magic_of virstor junk = refl
class_of-magic_of shsec junk = refl

-- One of a list.
abbrev pub One : Class → List Class → Type 0
One c [] = ⊥
One c (d ∷ ds) = (c ≡ d) ⊎ One c ds

empty_or :
    (is_utf8 : Utf8) (text : List ℕ)
    → (is_utf8 text && not (length text == 0)) ≡ false
    → (text ≡ []) ⊎ (is_utf8 text ≡ false)
empty_or is_utf8 [] h = inl refl
empty_or is_utf8 (b ∷ bs) h = inr (ground (arith, h))

full_of :
    (is_utf8 : Utf8) (text : List ℕ)
    → (is_utf8 text && not (length text == 0)) ≡ true
    → (text ≢ []) × (is_utf8 text ≡ true)
full_of is_utf8 [] h = absurd (ground (arith, h))
full_of is_utf8 (b ∷ bs) h = (λ e. cc e, ground (arith, h))

-- The name in the 16 bytes behind the version: up to a zero or all, if it is text and not empty.
pub data IsName (is_utf8 : Utf8) (sector : List ℕ) : Option (List ℕ) → Type 0 where
  named :
      (text rest : List ℕ)
      → slice sector 20 16 ≡ some (text ++ rest)
      → All (λ b. b ≢ 0) text
      → (rest ≡ []) ⊎ ((r : List ℕ) × (rest ≡ 0 ∷ r))
      → text ≢ []
      → is_utf8 text ≡ true
      → IsName is_utf8 sector (some text)
  unnamed :
      (text rest : List ℕ)
      → slice sector 20 16 ≡ some (text ++ rest)
      → All (λ b. b ≢ 0) text
      → (rest ≡ []) ⊎ ((r : List ℕ) × (rest ≡ 0 ∷ r))
      → (text ≡ []) ⊎ (is_utf8 text ≡ false)
      → IsName is_utf8 sector none

-- What a class keeps in its sector, with a version: the name and the size of the provider.
pub data Keeps (is_utf8 : Utf8) (sector : List ℕ) (version : ℕ)
    : Class → Option (List ℕ) → Option ℕ → Type 0 where
  new_label :
      (n : Option (List ℕ))
      → 2 ≤ version
      → IsName is_utf8 sector n
      → Keeps is_utf8 sector version label n (u64_at little sector 36)
  old_label :
      (n : Option (List ℕ))
      → version < 2
      → IsName is_utf8 sector n
      → Keeps is_utf8 sector version label n none
  new_mirror :
      (n : Option (List ℕ))
      → 3 ≤ version
      → IsName is_utf8 sector n
      → Keeps is_utf8 sector version mirror n (u64_at little sector 111)
  old_mirror :
      (n : Option (List ℕ))
      → version < 3
      → IsName is_utf8 sector n
      → Keeps is_utf8 sector version mirror n none
  bare_eli : Keeps is_utf8 sector version eli none none
  bare_raid : Keeps is_utf8 sector version raid none none
  name_only :
      (c : Class) (n : Option (List ℕ))
      → One c (stripe ∷ concat ∷ raid3 ∷ journal ∷ cache ∷ virstor ∷ shsec ∷ [])
      → IsName is_utf8 sector n
      → Keeps is_utf8 sector version c n none

text_of-split :
    (raw : List ℕ)
    → (rest : List ℕ) × (text_of raw ++ rest ≡ raw)
      × All (λ b. b ≢ 0) (text_of raw)
      × ((rest ≡ []) ⊎ ((r : List ℕ) × (rest ≡ 0 ∷ r)))
unfolding text_of
text_of-split [] = ([], refl, tt, inl refl)
text_of-split (b ∷ bs) = elim (Bool-cases (b == 0)) [
  | inl end ↦
      let is_zero : b ≡ 0 = (==_iff b 0).0 end in
      rw end (b ∷ bs, refl, tt, inr (bs, ap (λ (k : ℕ). k ∷ bs) is_zero))
  | inr more ↦
      let (rest, whole, all, ends) = text_of-split bs in
      rw more (rest, ap (λ l. b ∷ l) whole, ((λ h. ground (arith, more, h)), all), ends)
]

name_field-IsName :
    (is_utf8 : Utf8) (sector : List ℕ)
    → 36 ≤ length sector
    → IsName is_utf8 sector (name_field is_utf8 sector)
unfolding name_field name_in
name_field-IsName is_utf8 sector long =
    let raw = take 16 (drop 20 sector) in
    let found = slice-some sector 20 16 long in
    let (rest, whole, all, ends) = text_of-split raw in
    let at : slice sector 20 16 ≡ some (text_of raw ++ rest) = found ∙ ap some (sym whole) in
    elim (Bool-cases (is_utf8 (text_of raw) && not (length (text_of raw) == 0))) [
      | inl good ↦
          rw (found, good)
            (named (text_of raw) rest at all ends (full_of is_utf8 (text_of raw) good).0
              (full_of is_utf8 (text_of raw) good).1)
      | inr wrong ↦
          rw (found, wrong)
            (unnamed (text_of raw) rest at all ends (empty_or is_utf8 (text_of raw) wrong))
    ]

class_fields-Keeps :
    (is_utf8 : Utf8) (c : Class) (version : ℕ) (sector : List ℕ)
    → 36 ≤ length sector
    → Keeps is_utf8 sector version c
        (class_fields is_utf8 c version sector).0
        (class_fields is_utf8 c version sector).1
unfolding class_fields
class_fields-Keeps is_utf8 label version sector long = elim (Bool-cases (leb 2 version)) [
  | inl new ↦ rw new (new_label _ (leb→le _ _ new) (name_field-IsName is_utf8 sector long))
  | inr old ↦ rw old (old_label _ (ground (arith, old)) (name_field-IsName is_utf8 sector long))
]
class_fields-Keeps is_utf8 mirror version sector long = elim (Bool-cases (leb 3 version)) [
  | inl new ↦ rw new (new_mirror _ (leb→le _ _ new) (name_field-IsName is_utf8 sector long))
  | inr old ↦ rw old (old_mirror _ (ground (arith, old)) (name_field-IsName is_utf8 sector long))
]
class_fields-Keeps is_utf8 eli version sector long = bare_eli
class_fields-Keeps is_utf8 raid version sector long = bare_raid
class_fields-Keeps is_utf8 stripe version sector long =
    name_only stripe _ (inl refl) (name_field-IsName is_utf8 sector long)
class_fields-Keeps is_utf8 concat version sector long =
    name_only concat _ (inr (inl refl)) (name_field-IsName is_utf8 sector long)
class_fields-Keeps is_utf8 raid3 version sector long =
    name_only raid3 _ (inr (inr (inl refl))) (name_field-IsName is_utf8 sector long)
class_fields-Keeps is_utf8 journal version sector long =
    name_only journal _ (inr (inr (inr (inl refl)))) (name_field-IsName is_utf8 sector long)
class_fields-Keeps is_utf8 cache version sector long =
    name_only cache _ (inr (inr (inr (inr (inl refl))))) (name_field-IsName is_utf8 sector long)
class_fields-Keeps is_utf8 virstor version sector long =
    name_only virstor _ (inr (inr (inr (inr (inr (inl refl))))))
      (name_field-IsName is_utf8 sector long)
class_fields-Keeps is_utf8 shsec version sector long =
    name_only shsec _ (inr (inr (inr (inr (inr (inr (inl refl)))))))
      (name_field-IsName is_utf8 sector long)

-- A sector that begins with the magic of a class and a zero is of that class, whatever stands behind
-- the zero, and so a record of one class is never taken for one of another. Reading it does not panic.
-- The version is the u32 at 16; the size of the provider is the u64 at 36 for a label from version 2
-- on and at 111 for a mirror from version 3 on, if the sector holds it, and otherwise there is none;
-- the name, which all classes but eli and raid keep, is that in the 16 bytes at 20, up to a zero, if it
-- is text and not empty.
pub parse_geom-Keeps :
    (is_utf8 : Utf8) (c : Class) (junk : List ℕ)
    → 36 ≤ length (magic_of c ++ (0 ∷ junk))
    → (m : GeomMeta) × (parse_geom is_utf8 (magic_of c ++ (0 ∷ junk)) ≡ ok (some m))
      × (m.class ≡ c)
      × (m.version ≡ from_bytes little (take 4 (drop 16 (magic_of c ++ (0 ∷ junk)))))
      × Keeps is_utf8 (magic_of c ++ (0 ∷ junk)) m.version c m.name m.provsize
unfolding parse_geom meta_of
parse_geom-Keeps is_utf8 c junk long =
    let sector = magic_of c ++ (0 ∷ junk) in
    let enough : ltb (length sector) 36 ≡ false = le→ltb (length sector) 36 long in
    let version = from_bytes little (take 4 (drop 16 sector)) in
    (
      record {
        class = c;
        name = (class_fields is_utf8 c version sector).0;
        provsize = (class_fields is_utf8 c version sector).1;
        version = version;
      },
      rw (enough, class_of-magic_of c junk, slice-some sector 16 4 (omega (arith, long))) refl,
      refl,
      refl,
      class_fields-Keeps is_utf8 c version sector long,
    )
