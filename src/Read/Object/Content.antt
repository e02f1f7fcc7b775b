-- ===== src/Read/Object/Content.antt =====
-- What `ObjectReader::read_range` reads: a part of the bytes that the blocks of the object hold.
use zvolrescue.Prelude.{ℕ, zero, suc, ◌+◌, ◌-◌, ◌*◌, ◌/◌, ◌%◌, ◌^◌, ◌≤◌, ◌<◌, min}
use zvolrescue.Prelude.{◌≡◌, refl, sym, ap, ◌∙◌, ◌⊎◌, inl, inr, arith}
use zvolrescue.Prelude.{true, false, Option, none, some}
use zvolrescue.Prelude.{List, [], ◌++◌, length, get_elem?, take, drop, replicate}
use zvolrescue.Prelude.{ltb, leb, ◌==◌, Bool-cases}
use zvolrescue.Prelude.{ltb→lt, leb→le, length-append, length-take}
use zvolrescue.Prelude.{
  length-replicate, get_elem?-take, get_elem?-append, get_elem?-drop, get_elem?-front,
}
use zvolrescue.Prelude.{add64}
use zvolrescue.Prelude.{Result, ok, err}
use native.Mathlib.Nat.{mod-eq_of_lt, mod-lt, div-add-mod'}
use mathlib.Core.Path.{subst}
use zvolrescue.Ondisk.Bytes.{Endian}
use zvolrescue.Ondisk.Bytes.Laws.{slice-some, length-slice}
use zvolrescue.Ondisk.BlkPtr.{BlkPtr}
use zvolrescue.Ondisk.Dnode.{datablksz}
use zvolrescue.Read.Object.{
  ReadError, BlockReader, Object, locate, resize, block_of, read_blkid_ext, read_blkid, range_loop,
  read_range,
}
use zvolrescue.Read.Object.Tree.{bind_inv}

length-resize : (size : ℕ) (bytes : List ℕ) → length (resize size bytes) ≡ size
unfolding resize
length-resize size bytes =
    let padded = length-append bytes (replicate size 0) in
    length-take size (bytes ++ replicate size 0)
    ∙ omega (arith, padded, length-replicate {A = ℕ} size 0)

length-block_of :
    (read : BlockReader) (o : Object) (found : Option BlkPtr) (r : List ℕ × Endian)
    → block_of read o found ≡ ok r
    → length r.0 ≡ datablksz o.dnode
unfolding block_of
length-block_of read o none r h =
    let same : (replicate (datablksz o.dnode) 0, o.endian) ≡ r = cc h in
    ap (λ (q : List ℕ × Endian). length q.0) (sym same) ∙ length-replicate (datablksz o.dnode) 0
length-block_of read o (some bp) r h =
    let (bytes, got, done) = bind_inv (read bp) _ r h in
    let same : (resize (datablksz o.dnode) bytes, bp.endian) ≡ r = cc done in
    ap (λ (q : List ℕ × Endian). length q.0) (sym same) ∙ length-resize (datablksz o.dnode) bytes

-- A block that is read has the size that the dnode says.
pub length-read_blkid :
    (read : BlockReader) (o : Object) (blkid : ℕ) (block : List ℕ)
    → read_blkid read o blkid ≡ ok block
    → length block ≡ datablksz o.dnode
unfolding read_blkid read_blkid_ext
length-read_blkid read o blkid block h =
    let (r, extended, last) = bind_inv (read_blkid_ext read o blkid) _ block h in
    let (found, located, whole) = bind_inv (locate read o blkid) _ r extended in
    let same : r.0 ≡ block = cc last in ap length (sym same) ∙ length-block_of read o found r whole

-- A part of a content, from an offset on.
pub record IsPart (content : ℕ → ℕ) (offset len : ℕ) (out : List ℕ) : Type 0 where
  pub size : length out ≡ len
  pub bytes : (i : ℕ) → i < len → get_elem? out i ≡ some (content (offset + i))

IsPart-append :
    (content : ℕ → ℕ) (offset m n : ℕ) (front back : List ℕ)
    → IsPart content offset m front
    → IsPart content (offset + m) n back
    → IsPart content offset (m + n) (front ++ back)
IsPart-append content offset m n front back f b = record {
  size = length-append front back ∙ omega (arith, f.size, b.size);
  bytes = λ i h. elim (Bool-cases (ltb i m)) [
    | inl low ↦
        let inside : i < m = ltb→lt _ _ low in
        get_elem?-front front back i (omega (arith, inside, f.size)) ∙ f.bytes i inside
    | inr high ↦
        let past : m ≤ i = ground (arith, high) in
        let split : i ≡ length front + (i - m) = omega (arith, past, f.size) in
        let moved : offset + m + (i - m) ≡ offset + i = omega (arith, past) in
        ap (get_elem? (front ++ back)) split
        ∙ get_elem?-append front back (i - m)
        ∙ b.bytes (i - m) (omega (arith, past, h))
        ∙ ap (λ (k : ℕ). some (content k)) moved
  ];
}

IsPart-slice :
    (content : ℕ → ℕ) (start within n : ℕ) (block : List ℕ)
    → IsPart content start (length block) block
    → within + n ≤ length block
    → IsPart content (start + within) n (take n (drop within block))
IsPart-slice content start within n block is fits = record {
  size = length-slice block within n (slice-some block within n fits);
  bytes = λ i h.
      let moved : start + (within + i) ≡ start + within + i = omega arith in
      get_elem?-take n i (drop within block) h
      ∙ get_elem?-drop within i block
      ∙ is.bytes (within + i) (omega arith)
      ∙ ap (λ (k : ℕ). some (content k)) moved;
}

module _ (read : BlockReader) (o : Object) (content : ℕ → ℕ)
    (some_size : 0 < datablksz o.dnode) where
  -- The block that holds a byte is read, and it is a part of the content; or reading it fails.
  abbrev pub BlockAt : ℕ → Type 0
  BlockAt pos =
      ((block : List ℕ) × (read_blkid read o (pos / datablksz o.dnode) ≡ ok block)
        × IsPart content (pos / datablksz o.dnode * datablksz o.dnode) (length block) block)
      ⊎ ((x : ReadError) × (read_blkid read o (pos / datablksz o.dnode) ≡ err x))

  abbrev pub RangeOutcome : ℕ → ℕ → Result (List ℕ) ReadError → Type 0
  RangeOutcome pos end r =
      ((out : List ℕ) × (r ≡ ok out) × IsPart content pos (end - pos) out)
      ⊎ ((x : ReadError) × (at : ℕ) × (pos ≤ at)
          × (at < end)
          × (read_blkid read o (at / datablksz o.dnode) ≡ err x)
          × (r ≡ err x))

  range_loop-Outcome :
      (rounds pos end : ℕ)
      → end - pos ≤ rounds
      → ((at : ℕ) → pos ≤ at → at < end → BlockAt at)
      → RangeOutcome pos end (range_loop rounds read o pos end)
  unfolding range_loop
  range_loop-Outcome zero pos end enough blocks =
      let stop : leb end pos ≡ true = ground (arith, enough) in
      rw stop (
        inl (
          [],
          refl,
          record { size = omega (arith, enough); bytes = λ i h. absurd (omega (arith, enough, h)) },
        ))
  range_loop-Outcome (suc rounds) pos end enough blocks = elim (Bool-cases (leb end pos)) [
    | inl stop ↦
        let past : end ≤ pos = leb→le _ _ stop in
        rw stop (
          inl (
            [],
            refl,
            record { size = omega (arith, past); bytes = λ i h. absurd (omega (arith, past, h)) },
          ))
    | inr goes ↦
        let before : pos < end = ground (arith, goes) in
        let bs = datablksz o.dnode in
        let within = pos % bs in
        let n = min (bs - within) (end - pos) in
        let low : within < bs = mod-lt pos some_size in
        elim (blocks pos (omega arith) before) [
          | inr (x, bad) ↦ rw (goes, bad) (inr (x, pos, omega arith, before, bad, refl))
          | inl (block, got, is) ↦
              let size : length block ≡ bs = length-read_blkid read o (pos / bs) block got in
              let fits : within + n ≤ length block = omega (arith, size, low) in
              let split : pos / bs * bs + within ≡ pos = div-add-mod' pos bs in
              let here : IsPart content pos n (take n (drop within block)) =
                subst (λ k. IsPart content k n (take n (drop within block))) split
                  (IsPart-slice content (pos / bs * bs) within n block is fits) in
              let cut = slice-some block within n fits in
              elim (range_loop-Outcome rounds (pos + n) end (omega (arith, enough, low, before))
                (λ at after. blocks at (omega (arith, after)))) [
                  | inl (rest, done, tail) ↦
                      let whole : n + (end - (pos + n)) ≡ end - pos = omega (arith, before) in
                      rw (goes, got, cut, done)
                        (inl (
                          take n (drop within block) ++ rest,
                          refl,
                          subst (λ k. IsPart content pos k (take n (drop within block) ++ rest))
                              whole
                              (IsPart-append content pos n (end - (pos + n)) _ rest here tail),
                        ))
                  | inr (x, at, after, inside, bad, done) ↦
                      rw (goes, got, cut, done)
                        (inr (x, at, omega (arith, after), inside, bad, refl))
                ]
        ]
  ]

  -- Reading a range of bytes gives just these bytes of the content that the blocks hold, however the
  -- range crosses them, or the error of a block that holds one of them: for an object whose block
  -- size is not 0 and a range that ends below 2^64. It never panics and its loop ends.
  pub read_range_content :
      (offset len : ℕ)
      → offset + len < 2 ^ 64
      → ((at : ℕ) → offset ≤ at → at < offset + len → BlockAt at)
      → RangeOutcome offset (offset + len) (read_range read o offset len)
  unfolding read_range
  read_range_content offset len low blocks =
      let used : (datablksz o.dnode == 0) ≡ false = ground (arith, some_size) in
      let end : add64 offset len ≡ offset + len = mod-eq_of_lt low in
      rw (used, end) (range_loop-Outcome len offset (offset + len) (omega arith) blocks)
