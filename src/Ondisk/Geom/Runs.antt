-- ===== src/Ondisk/Geom/Runs.antt =====
-- Tests and examples of GEOM metadata.
use zvolrescue.Prelude.{ℕ}
use zvolrescue.Prelude.{◌≡◌, refl, arith}
use zvolrescue.Prelude.{true, Option, none, some}
use zvolrescue.Prelude.{List, ◌∷◌, ◌++◌, replicate}
use zvolrescue.Prelude.{ok}
use zvolrescue.Prelude.{take, drop}
use zvolrescue.Ondisk.Bytes.{little, from_bytes}
use zvolrescue.Ondisk.Geom.{label, magic_of, GeomMeta, Utf8, inner_size, ParsedMeta, parse_geom}
use zvolrescue.Ondisk.Geom.Magic.{Keeps, parse_geom-Keeps}

abbrev any_text : Utf8
any_text bytes = true

-- Behind the magic: what was on the stack, version 2, the name `z`, and the size of the provider.
abbrev label_rest : List ℕ
label_rest = 9 ∷ 9 ∷ 9 ∷ 9 ∷ 2 ∷ 0 ∷ 0 ∷ 0 ∷ 122 ∷ (replicate 15 0 ++ (0 ∷ 4 ∷ replicate 6 0))

abbrev inner_of : ParsedMeta → Option ℕ
unfolding inner_size
inner_of (ok (some m)) = inner_size m
inner_of _ = none

inner_test : inner_of (parse_geom any_text (magic_of label ++ (0 ∷ label_rest))) ≡ some 512
unfolding parse_geom inner_of
inner_test = refl

parse_geom-Keeps_example :
    (m : GeomMeta) × (parse_geom any_text (magic_of label ++ (0 ∷ label_rest)) ≡ ok (some m))
    × (m.class ≡ label)
    × (m.version ≡ from_bytes little (take 4 (drop 16 (magic_of label ++ (0 ∷ label_rest)))))
    × Keeps any_text (magic_of label ++ (0 ∷ label_rest)) m.version label m.name m.provsize
parse_geom-Keeps_example = parse_geom-Keeps any_text label label_rest (omega arith)
