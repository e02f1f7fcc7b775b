-- ===== src/Ondisk/Dnode/Objset.antt =====
-- What `ObjsetPhys::parse` accepts, and why it refuses.
use zvolrescue.Prelude.{zero, suc, ℕ, ◌+◌, ◌≤◌, ◌<◌}
use zvolrescue.Prelude.{◌≡◌, refl, sym, ap, ◌∙◌, ◌⊎◌, inl, inr, arith}
use zvolrescue.Prelude.{Option, none, some}
use zvolrescue.Prelude.{List, length, take, drop}
use zvolrescue.Prelude.{ltb, leb, Bool-cases}
use zvolrescue.Prelude.{ltb→lt, le→ltb, leb→le, length-take}
use zvolrescue.Prelude.{Result, ok, err, ◌>>=◌}
use mathlib.Core.Path.{subst}
use zvolrescue.Ondisk.Bytes.{Endian, ParseError, truncated, slice, word}
use zvolrescue.Ondisk.Bytes.Laws.{u64_at-some}
use zvolrescue.Ondisk.BlkPtr.{ptr_size}
use zvolrescue.Ondisk.BlkPtr.Parsed.{pointer_in}
use zvolrescue.Ondisk.Dnode.{
  dnode_size, DnodePhys, parse_dnode, dnode_of, dnode_at, ObjsetPhys, parse_objset, objset_type_of,
  ObjsetType, nothing, meta, zfs, zvol, other, unknown_type,
}
use zvolrescue.Ondisk.Dnode.Parsed.{pointer_at-ok, IsDnode, Refused, parse_dnode_total}

-- Where an object set has its four dnodes.
abbrev pub IsDnodeOffset : ℕ → Type 0
IsDnodeOffset o = (o ≡ 0) ⊎ ((o ≡ 1024) ⊎ ((o ≡ 1536) ⊎ (o ≡ 2048)))

-- Why an object set is refused: it is short, or one of its dnodes is refused.
pub data ObjsetRefused (buf : List ℕ) (e : Endian) : ParseError → Type 0 where
  objset_short : length buf < 1024 → ObjsetRefused buf e (truncated 1024 (length buf))
  dnode_refused :
      (o : ℕ) (x : ParseError)
      → IsDnodeOffset o
      → o + dnode_size ≤ length buf
      → Refused (take dnode_size (drop o buf)) e x
      → ObjsetRefused buf e x

-- What a raw type stands for.
pub data IsType : ℕ → ObjsetType → Type 0 where
  is_nothing : IsType 0 nothing
  is_meta : IsType 1 meta
  is_zfs : IsType 2 zfs
  is_zvol : IsType 3 zvol
  is_other : IsType 4 other
  is_unknown : (v : ℕ) → 4 < v → IsType v (unknown_type v)

-- The accounting dnode at `at`: none past the end of the buffer.
abbrev pub IsSlot : List ℕ → Endian → ℕ → Option DnodePhys → Type 0
IsSlot buf e at d =
    ((d ≡ none) × (length buf < at + dnode_size))
    ⊎ ((x : DnodePhys) × (d ≡ some x) × (parse_dnode (take dnode_size (drop at buf)) e ≡ ok x))

-- An object set has its parts where the layout puts them.
pub record IsObjset (buf : List ℕ) (e : Endian) (o : ObjsetPhys) : Type 0 where
  pub long : 1024 ≤ length buf
  pub meta_parsed : parse_dnode (take dnode_size buf) e ≡ ok o.meta_dnode
  pub meta_fits : IsDnode dnode_size o.meta_dnode
  pub claim : o.zil_claim_txg ≡ word e buf 512
  pub log : o.zil_log ≡ pointer_in e (take ptr_size (drop 528 buf))
  pub kind : IsType (word e buf 704) o.os_type
  pub flag_word : o.flags ≡ word e buf 712
  pub user : IsSlot buf e 1024 o.userused_dnode
  pub group : IsSlot buf e 1536 o.groupused_dnode
  pub project : IsSlot buf e 2048 o.projectused_dnode

abbrev pub ObjsetOutcome : List ℕ → Endian → Result ObjsetPhys ParseError → Type 0
ObjsetOutcome buf e r =
    ((o : ObjsetPhys) × (r ≡ ok o) × IsObjset buf e o)
    ⊎ ((x : ParseError) × (r ≡ err x) × ObjsetRefused buf e x)

objset_type_of-unknown : (v : ℕ) → 4 < v → objset_type_of v ≡ unknown_type v
unfolding objset_type_of
objset_type_of-unknown v big = ground arith

objset_type_of-IsType : (v : ℕ) → IsType v (objset_type_of v)
unfolding objset_type_of
objset_type_of-IsType zero = is_nothing
objset_type_of-IsType (suc zero) = is_meta
objset_type_of-IsType (suc (suc zero)) = is_zfs
objset_type_of-IsType (suc (suc (suc zero))) = is_zvol
objset_type_of-IsType (suc (suc (suc (suc zero)))) = is_other
objset_type_of-IsType (suc (suc (suc (suc (suc v))))) =
    let big : 4 < suc (suc (suc (suc (suc v)))) = omega arith in
    subst (IsType _) (sym (objset_type_of-unknown _ big)) (is_unknown _ big)

dnode_at-cases :
    (buf : List ℕ) (e : Endian) (o : ℕ)
    → IsDnodeOffset o
    → ((d : Option DnodePhys) × (dnode_at buf e o ≡ ok d) × IsSlot buf e o d)
      ⊎ ((x : ParseError) × (dnode_at buf e o ≡ err x) × ObjsetRefused buf e x)
unfolding dnode_at dnode_of slice
dnode_at-cases buf e o place = elim (Bool-cases (leb (o + dnode_size) (length buf))) [
  | inr past ↦ inl (none, rw past refl, inl (refl, ground (arith, past)))
  | inl inside ↦
      let here : dnode_at buf e o
          ≡ parse_dnode (take dnode_size (drop o buf)) e >>= (λ d. ok (some d)) =
        rw inside refl in
      elim (parse_dnode_total (take dnode_size (drop o buf)) e) [
        | inl (d, good, _) ↦
            inl (some d, here ∙ ap (λ r. r >>= (λ d. ok (some d))) good, inr (d, refl, good))
        | inr (x, bad, why) ↦ inr (
          x,
          here ∙ ap (λ r. r >>= (λ d. ok (some d))) bad,
          dnode_refused o x place (leb→le _ _ inside) why,
        )
      ]
]

meta_cases :
    (buf : List ℕ) (e : Endian)
    → 1024 ≤ length buf
    → ((d : DnodePhys) × (parse_dnode (take dnode_size buf) e ≡ ok d) × IsDnode dnode_size d)
      ⊎ ((x : ParseError) × (parse_dnode (take dnode_size buf) e ≡ err x) × ObjsetRefused buf e x)
meta_cases buf e long =
    let size : length (take dnode_size buf) ≡ dnode_size =
      length-take dnode_size buf ∙ omega (arith, long) in
    elim (parse_dnode_total (take dnode_size buf) e) [
      | inl (d, good, is) ↦ inl (d, good, subst (λ n. IsDnode n d) size is)
      | inr (x, bad, why) ↦ inr (x, bad, dnode_refused 0 x (inl refl) (omega (arith, long)) why)
    ]

objset_in :
    (buf : List ℕ) (e : Endian) → 1024 ≤ length buf → ObjsetOutcome buf e (parse_objset buf e)
unfolding parse_objset
objset_in buf e long =
    let enough = le→ltb (length buf) 1024 long in
    let claim = u64_at-some e buf 512 (omega (arith, long)) in
    let log = pointer_at-ok buf e 528 (omega (arith, long)) in
    let kind = u64_at-some e buf 704 (omega (arith, long)) in
    let flags = u64_at-some e buf 712 (omega (arith, long)) in
    elim (meta_cases buf e long) [
      | inr (x, bad, why) ↦ inr (x, rw (enough, bad) refl, why)
      | inl (m, good, is) ↦ elim (dnode_at-cases buf e 1024 (inr (inl refl))) [
        | inr (x, bad, why) ↦ inr (x, rw (enough, good, claim, log, kind, flags, bad) refl, why)
        | inl (u, user, has_user) ↦ elim (dnode_at-cases buf e 1536 (inr (inr (inl refl)))) [
          | inr (x, bad, why) ↦
              inr (x, rw (enough, good, claim, log, kind, flags, user, bad) refl, why)
          | inl (g, group, has_group) ↦ elim (dnode_at-cases buf e 2048 (inr (inr (inr refl)))) [
            | inr (x, bad, why) ↦
                inr (x, rw (enough, good, claim, log, kind, flags, user, group, bad) refl, why)
            | inl (p, project, has_project) ↦ inl (
              record {
                meta_dnode = m;
                zil_claim_txg = word e buf 512;
                zil_log = pointer_in e (take ptr_size (drop 528 buf));
                os_type = objset_type_of (word e buf 704);
                flags = word e buf 712;
                userused_dnode = u;
                groupused_dnode = g;
                projectused_dnode = p;
              },
              rw (enough, good, claim, log, kind, flags, user, group, project) refl,
              record {
                long = long;
                meta_parsed = good;
                meta_fits = is;
                claim = refl;
                log = refl;
                kind = objset_type_of-IsType (word e buf 704);
                flag_word = refl;
                user = has_user;
                group = has_group;
                project = has_project;
              },
            )
          ]
        ]
      ]
    ]

-- Every buffer parses to an object set, or is refused since it is shorter than 1024 bytes or a dnode
-- at 0, 1024, 1536 or 2048 is refused. The parts are those at their places: the meta-dnode at 0,
-- which keeps to its 512 bytes, the intent log's claim and pointer at 512 and 528, type and flags at
-- 704 and 712, and the accounting dnodes at 1024, 1536 and 2048, each unless it is past the end of
-- the buffer. It never panics.
pub parse_objset_total : (buf : List ℕ) (e : Endian) → ObjsetOutcome buf e (parse_objset buf e)
unfolding parse_objset
parse_objset_total buf e = elim (Bool-cases (ltb (length buf) 1024)) [
  | inl cut ↦ inr (truncated 1024 (length buf), rw cut refl, objset_short (ltb→lt _ _ cut))
  | inr whole ↦ objset_in buf e (ground (arith, whole))
]
