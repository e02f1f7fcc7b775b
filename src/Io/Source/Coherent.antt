-- ===== src/Io/Source/Coherent.antt =====
-- What a read returns is what the file holds, whether it was answered from memory or not.
use zvolrescue.Prelude.{ℕ, zero, suc, ◌+◌, ◌-◌, ◌≤◌, ◌<◌}
use zvolrescue.Prelude.{◌≡◌, refl, ap, ◌∙◌, inl, inr, arith}
use zvolrescue.Prelude.{◌&&◌, Option, none, some}
use zvolrescue.Prelude.{List, [], ◌∷◌, length, get_elem?, take, drop, All}
use zvolrescue.Prelude.{ltb, leb, Bool-cases, add64, true, ◌^◌, ◌≢◌}
use zvolrescue.Ondisk.Bytes.{slice}
use zvolrescue.Ondisk.Bytes.Laws.{slice-some, length-slice}
use zvolrescue.Prelude.{length-append, length-drop}
use zvolrescue.Prelude.{get_elem?-take, get_elem?-drop, All-append}
use mathlib.Core.Path.{subst}
use zvolrescue.Io.Medium.{Kind, image, device, Incident}
use zvolrescue.Io.Source.{
  Source, Window, windows_limit, window_max, State, FileAnswer, read_bytes, at_end, os_error,
  ReadResult, bytes, panicked, Hit, hit, miss, out_of_range, hit_of, served, remember, on_error,
  take_answer, ask_file, closed_by, read_unless, read_once, map_refuses, read_at,
}

-- The bytes from `offset` on, of a file that holds `content`.
abbrev pub IsContent : (ℕ → ℕ) → ℕ → List ℕ → Type 0
IsContent content offset got =
    (i : ℕ) → i < length got → get_elem? got i ≡ some (content (offset + i))

-- A file whose every answer is a part of one content, of the length asked for.
abbrev pub IsFaithful : (ℕ → ℕ) → (ℕ → ℕ → FileAnswer) → Type 0
IsFaithful content file =
    (offset len : ℕ) (got : List ℕ)
    → file offset len ≡ read_bytes got
    → (length got ≡ len) × IsContent content offset got

-- A recent read of the file, that did not reach the end of the address space.
abbrev pub IsWindow : (ℕ → ℕ) → Window → Type 0
IsWindow content w = (w.0 + length w.1 < 2 ^ 64) × IsContent content w.0 w.1

abbrev pub AreWindows : (ℕ → ℕ) → List Window → Type 0
AreWindows content ws = All (IsWindow content) ws

-- A result that is bytes has the bytes of the file; it is no panic.
abbrev pub IsRead : (ℕ → ℕ) → ℕ → ℕ → ReadResult → Type 0
IsRead content offset len r =
    ((got : List ℕ) → r ≡ bytes got → (length got ≡ len) × IsContent content offset got)
    × (r ≢ panicked)

-- What the recent reads answer are the bytes of the file, if anything.
abbrev IsHit : (ℕ → ℕ) → ℕ → ℕ → Hit → Type 0
IsHit content offset len (hit got) = (length got ≡ len) × IsContent content offset got
IsHit content offset len miss = Unit {0}
IsHit content offset len out_of_range = ⊥

inside_end :
    (start offset len size : ℕ)
    → offset + len < 2 ^ 64
    → start + size < 2 ^ 64
    → (leb start offset && leb (add64 offset len) (add64 start size)) ≡ true
    → offset + len ≤ start + size
inside_end start offset len size low short inside =
    let here : add64 offset len ≡ offset + len = omega (arith, low) in
    let there : add64 start size ≡ start + size = omega (arith, short) in
    ground (arith, inside, here, there)

part-IsHit :
    (content : ℕ → ℕ) (start offset len : ℕ) (all : List ℕ)
    → start ≤ offset
    → offset + len ≤ start + length all
    → IsContent content start all
    → IsHit content offset len (hit_of (slice all (offset - start) len))
part-IsHit content start offset len all from to is =
    let part = take len (drop (offset - start) all) in
    let found = slice-some all (offset - start) len (omega (arith, from, to)) in
    let size : length part ≡ len = length-slice all (offset - start) len found in
    rw found (
      size,
      λ i lt.
          let below : i < len = omega (arith, size, lt) in
          get_elem?-take len i (drop (offset - start) all) below
          ∙ get_elem?-drop (offset - start) i all
          ∙ is (offset - start + i) (omega (arith, from, to, below))
          ∙ ap (λ a. some (content a)) (omega (arith, from)),
    )

served-IsHit :
    (content : ℕ → ℕ) (ws : List Window) (offset len : ℕ)
    → offset + len < 2 ^ 64
    → AreWindows content ws
    → IsHit content offset len (served ws offset len)
unfolding served
served-IsHit content [] offset len low h = tt
served-IsHit content ((start, all) ∷ ws) offset len low ((short, is), hs) =
    elim (Bool-cases (leb start offset && leb (add64 offset len) (add64 start (length all)))) [
      | inr outside ↦ rw outside (served-IsHit content ws offset len low hs)
      | inl inside ↦ rw inside (
          part-IsHit content start offset len all (ground (arith, inside))
            (inside_end start offset len (length all) low short inside) is)
    ]

AreWindows-drop :
    (content : ℕ → ℕ) (n : ℕ) (ws : List Window)
    → AreWindows content ws
    → AreWindows content (drop n ws)
AreWindows-drop content zero ws h = h
AreWindows-drop content (suc n) [] h = tt
AreWindows-drop content (suc n) (w ∷ ws) (hw, h) = AreWindows-drop content n ws h

remember-AreWindows :
    (content : ℕ → ℕ) (offset : ℕ) (got : List ℕ) (ws : List Window)
    → offset + length got < 2 ^ 64
    → IsContent content offset got
    → AreWindows content ws
    → AreWindows content (remember offset got ws)
      × (length ws ≤ windows_limit → length (remember offset got ws) ≤ windows_limit)
unfolding remember
remember-AreWindows content offset got ws low new h =
    elim (Bool-cases (ltb window_max (length got))) [
      | inl large ↦ rw large (h, λ few. few)
      | inr small ↦ rw small (elim (Bool-cases (leb windows_limit (length ws))) [
        | inl full ↦ rw full (
          All-append (IsWindow content) (drop 1 ws) ((offset, got) ∷ [])
              (AreWindows-drop content 1 ws h) ((low, new), tt),
          λ few. omega (arith, length-append (drop 1 ws) ((offset, got) ∷ []), length-drop 1 ws),
        )
        | inr room ↦ rw room (
          All-append (IsWindow content) ws ((offset, got) ∷ []) h ((low, new), tt),
          λ few. ground (arith, room, length-append ws ((offset, got) ∷ [])),
        )
      ])
    ]

-- What a read does: its result, and the windows after it.
abbrev IsGood : (ℕ → ℕ) → ℕ → ℕ → ReadResult × State → Type 0
IsGood content offset len r = IsRead content offset len r.0 × AreWindows content r.1.windows

on_error-IsGood :
    (content : ℕ → ℕ) (k : Kind) (src : Source) (e offset len now : ℕ) (s : State)
    → AreWindows content s.windows
    → IsGood content offset len (on_error k src e offset len now s)
unfolding on_error
on_error-IsGood content image src e offset len now s h = ((λ got same. cc, λ e. cc e), h)
on_error-IsGood content device src e offset len now s h = ((λ got same. cc, λ e. cc e), h)

take_answer-IsGood :
    (content : ℕ → ℕ) (a : FileAnswer) (src : Source) (offset len now : ℕ) (s : State)
    → offset + len < 2 ^ 64
    → ((got : List ℕ) → a ≡ read_bytes got → (length got ≡ len) × IsContent content offset got)
    → AreWindows content s.windows
    → IsGood content offset len (take_answer src a offset len now s)
unfolding take_answer
take_answer-IsGood content (read_bytes got) src offset len now s low faithful h =
    let (size, is) = faithful got refl in
    (
      (
        λ got' same.
            let is_got : got ≡ got' = cc same in
            subst (λ g. (length g ≡ len) × IsContent content offset g) is_got (size, is),
        λ e. cc e,
      ),
      (remember-AreWindows content offset got s.windows (omega (arith, low, size)) is h).0,
    )
take_answer-IsGood content at_end src offset len now s low faithful h =
    ((λ got same. cc, λ e. cc e), h)
take_answer-IsGood content (os_error e) src offset len now s low faithful h =
    on_error-IsGood content src.kind src e offset len now s h

ask_file-IsGood :
    (content : ℕ → ℕ) (found : Hit) (src : Source) (file : ℕ → ℕ → FileAnswer) (offset len now : ℕ)
    (s : State)
    → offset + len < 2 ^ 64
    → IsFaithful content file
    → IsHit content offset len found
    → AreWindows content s.windows
    → IsGood content offset len (ask_file found src file offset len now s)
unfolding ask_file
ask_file-IsGood content (hit got) src file offset len now s low faithful hits h = (
  (
    λ got' same.
        let is_got : got ≡ got' = cc same in
        subst (λ g. (length g ≡ len) × IsContent content offset g) is_got hits,
    λ e. cc e,
  ),
  h,
)
ask_file-IsGood content out_of_range src file offset len now s low faithful hits h = absurd hits
ask_file-IsGood content miss src file offset len now s low faithful hits h =
    take_answer-IsGood content (file offset len) src offset len now _ low (faithful offset len) h

read_unless-IsGood :
    (content : ℕ → ℕ) (o : Option Incident) (src : Source) (file : ℕ → ℕ → FileAnswer)
    (offset len now : ℕ) (s : State)
    → offset + len < 2 ^ 64
    → IsFaithful content file
    → AreWindows content s.windows
    → IsGood content offset len (read_unless o src file offset len now s)
unfolding read_unless
read_unless-IsGood content (some i) src file offset len now s low faithful h =
    ((λ got same. cc, λ e. cc e), h)
read_unless-IsGood content none src file offset len now s low faithful h =
    ask_file-IsGood content (served s.windows offset len) src file offset len now s low faithful
      (served-IsHit content s.windows offset len low h) h

-- With recent reads that are the file's and end below 2^64, and a file whose answers are parts of one
-- content, a read that ends below 2^64 does not panic. The bytes that it returns are as many as were
-- asked for and those of the file, wherever they came from, and the recent reads are the file's again.
pub read_at-IsRead :
    (content : ℕ → ℕ) (src : Source) (file : ℕ → ℕ → FileAnswer) (offset len now : ℕ) (s : State)
    → offset + len < 2 ^ 64
    → IsFaithful content file
    → AreWindows content s.windows
    → IsRead content offset len (read_at src file offset len now s).0
      × AreWindows content (read_at src file offset len now s).1.windows
unfolding read_at read_once
read_at-IsRead content src file offset len now s low faithful h =
    elim (Bool-cases (map_refuses src.bad_map offset len)) [
      | inl refused_ ↦ rw refused_ ((λ got same. cc, λ e. cc e), h)
      | inr asked ↦ rw asked (
          read_unless-IsGood content (closed_by src.kind src.path s.ledger) src file offset len now
            s low faithful h)
    ]
