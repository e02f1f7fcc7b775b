-- ===== src/Ondisk/Dnode/Runs.antt =====
-- Tests and examples of dnodes and object sets.
use zvolrescue.Prelude.{ℕ}
use zvolrescue.Prelude.{◌≡◌, refl}
use zvolrescue.Prelude.{List, [], ◌∷◌, ◌++◌, length, replicate}
use zvolrescue.Prelude.{Result, ok, err}
use zvolrescue.Ondisk.Bytes.{little, ParseError, truncated, malformed}
use zvolrescue.Ondisk.Dnode.{DnodePhys, parse_dnode, slot_bytes, datablksz, parse_objset}
use zvolrescue.Ondisk.Dnode.Parsed.{Outcome, parse_dnode_total}
use zvolrescue.Ondisk.Dnode.Objset.{ObjsetOutcome, parse_objset_total}

-- A dnode of a volume: two levels, a pointer, eight sectors a block, and a bonus of `bonuslen` bytes.
header : ℕ → List ℕ
header bonuslen = 23 ∷ 17 ∷ 2 ∷ 1 ∷ 44 ∷ 0 ∷ 0 ∷ 1 ∷ 8 ∷ 0 ∷ bonuslen ∷ 0 ∷ []

volume_dnode : ℕ → List ℕ
unfolding header
volume_dnode bonuslen = header bonuslen ++ replicate 500 0

abbrev sizes_of : Result DnodePhys ParseError → List ℕ
unfolding slot_bytes datablksz
sizes_of (ok d) = slot_bytes d ∷ datablksz d ∷ length d.blkptr ∷ length d.bonus ∷ []
sizes_of _ = []

sizes_test : sizes_of (parse_dnode (volume_dnode 168) little) ≡ 512 ∷ 4096 ∷ 1 ∷ 168 ∷ []
unfolding volume_dnode parse_dnode sizes_of
sizes_test = refl

-- A longer bonus.
fits_test : sizes_of (parse_dnode (volume_dnode 255) little) ≡ 512 ∷ 4096 ∷ 1 ∷ 255 ∷ []
unfolding volume_dnode parse_dnode sizes_of
fits_test = refl

-- Four pointers are too many.
four_test : parse_dnode (23 ∷ 17 ∷ 2 ∷ 4 ∷ replicate 508 0) little ≡ err (malformed 3)
unfolding parse_dnode
four_test = refl

-- A dnode of two slots does not fit in one.
cut_test :
    parse_dnode (23 ∷ 17 ∷ 2 ∷ 1 ∷ (replicate 8 0 ++ (1 ∷ replicate 499 0))) little
    ≡ err (truncated 1024 512)
unfolding parse_dnode
cut_test = refl

parse_dnode_total_example :
    Outcome (volume_dnode 168) little (parse_dnode (volume_dnode 168) little)
parse_dnode_total_example = parse_dnode_total (volume_dnode 168) little

parse_objset_total_example :
    ObjsetOutcome
      (volume_dnode 0 ++ replicate 512 0)
      little
      (parse_objset (volume_dnode 0 ++ replicate 512 0) little)
parse_objset_total_example = parse_objset_total (volume_dnode 0 ++ replicate 512 0) little
