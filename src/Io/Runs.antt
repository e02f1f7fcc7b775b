-- ===== src/Io/Runs.antt =====
-- Tests and examples of the reading of images and devices.
use zvolrescue.Prelude.{ℕ, zero, suc, ◌+◌, ◌%◌, ◌≤◌, ◌<◌}
use zvolrescue.Prelude.{◌≡◌, refl, sym, ap, ◌∙◌, ◌⊎◌, inl, inr, arith}
use zvolrescue.Prelude.{false, none, some}
use zvolrescue.Prelude.{List, [], ◌∷◌, length, get_elem?}
use zvolrescue.Prelude.{if◌then◌else◌, Bool-cases}
use zvolrescue.Prelude.{Result, ok, err}
use zvolrescue.Io.Medium.{Kind, device, Incident, new_ledger, incident_of, add_incident, stopped_on}
use zvolrescue.Io.Medium.Limits.{count_on}
use zvolrescue.Io.Salvage.{
  filled, failed, UnexpectedEof, unexpected_eof, Reader, Progress, touches, within, salvage,
}
use zvolrescue.Io.Salvage.Sound.{IsFaithful, IsSalvaged, salvage_sound}
use zvolrescue.Io.Source.{
  Source, State, FileAnswer, read_bytes, os_error, read_at, read_once, read_unless, ask_file,
  take_answer, on_error, served, closed_by, map_refuses,
}
use zvolrescue.Io.Source.Closed.{World, asks_on, Step, by_read, here, next, Run-closed, Run-limit}
use zvolrescue.Io.Source.Coherent
use zvolrescue.Io.Source.Coherent.{IsContent, AreWindows, IsRead, read_at-IsRead}

-- A part of a content.
part : (ℕ → ℕ) → ℕ → ℕ → List ℕ
part content offset zero = []
part content offset (suc n) = content offset ∷ part content (offset + 1) n

length-part : (content : ℕ → ℕ) (offset n : ℕ) → length (part content offset n) ≡ n
unfolding part
length-part content offset zero = refl
length-part content offset (suc n) = ap suc (length-part content (offset + 1) n)

get_elem?-part :
    (content : ℕ → ℕ) (offset n i : ℕ)
    → i < n
    → get_elem? (part content offset n) i ≡ some (content (offset + i))
unfolding part
get_elem?-part content offset zero i h = absurd (omega arith)
get_elem?-part content offset (suc n) zero h = ap (λ a. some (content a)) (omega arith)
get_elem?-part content offset (suc n) (suc i) h =
    get_elem?-part content (offset + 1) n i (omega arith) ∙ ap (λ a. some (content a)) (omega arith)

abbrev bytes_mod : ℕ → ℕ
bytes_mod a = a % 256

-- An image whose imager could not read the sector at 512.
one_bad : Reader
unfolding part touches
one_bad at n = if touches ((512, 512) ∷ []) at n then failed else filled (part bytes_mod at n)

one_bad-IsFaithful : IsFaithful bytes_mod one_bad
unfolding one_bad
one_bad-IsFaithful at n got h = elim (Bool-cases (touches ((512, 512) ∷ []) at n)) [
  | inl bad ↦ cc (rw bad at h)
  | inr fine ↦
      let same : part bytes_mod at n ≡ got = cc (rw fine at h) in
      (
        ap length (sym same) ∙ length-part bytes_mod at n,
        λ i lt. ap (λ l. get_elem? l i) (sym same) ∙ get_elem?-part bytes_mod at n i lt,
      )
]

abbrev ranges_of : Result Progress UnexpectedEof → List (ℕ × ℕ)
ranges_of (ok (bad, out)) = bad
ranges_of _ = []

salvage_test : ranges_of (salvage one_bad 256 1024) ≡ (256, 512) ∷ []
unfolding salvage one_bad
salvage_test = refl

within_test : within ((512, 512) ∷ (4096, 100) ∷ []) 600 4000 ≡ (0, 424) ∷ (3496, 100) ∷ []
unfolding within
within_test = refl

salvage_sound_example :
    ((p : Progress) × (salvage one_bad 256 1024 ≡ ok p) × IsSalvaged bytes_mod one_bad 256 1024 p)
    ⊎ (salvage one_bad 256 1024 ≡ err unexpected_eof)
salvage_sound_example = salvage_sound bytes_mod one_bad 256 1024 one_bad-IsFaithful (omega arith)

-- A device that gives what it holds.
whole_file : ℕ → ℕ → FileAnswer
whole_file offset len = read_bytes (part bytes_mod offset len)

whole_file-IsFaithful : Coherent.IsFaithful bytes_mod whole_file
unfolding whole_file
whole_file-IsFaithful offset len got h =
    let same : part bytes_mod offset len ≡ got = cc h in
    let size : length got ≡ len = ap length (sym same) ∙ length-part bytes_mod offset len in
    (
      size,
      λ i lt.
          ap (λ l. get_elem? l i) (sym same)
          ∙ get_elem?-part bytes_mod offset len i (omega (arith, size)),
    )

abbrev disk : Source
disk = record { path = 3; kind = device; bad_map = none }

abbrev fresh : State
fresh = record { ledger = new_ledger false; windows = []; asked = [] }

read_at-IsRead_example :
    IsRead bytes_mod 512 16 (read_at disk whole_file 512 16 0 fresh).0
    × AreWindows bytes_mod (read_at disk whole_file 512 16 0 fresh).1.windows
read_at-IsRead_example =
    read_at-IsRead bytes_mod disk whole_file 512 16 0 fresh (omega arith) whole_file-IsFaithful tt

-- A device that gives nothing is asked once.
abbrev dead_file : ℕ → ℕ → FileAnswer
dead_file offset len = os_error 5

abbrev all_devices : ℕ → Kind
all_devices path = device

abbrev first_refusal : Incident
first_refusal = incident_of (new_ledger false) 3 512 16 5 100

abbrev empty_world : World
empty_world = record { ledger = new_ledger false; asked = [] }

abbrev after_refusal : World
after_refusal = record {
  ledger = record { may_fail = false; incidents = first_refusal ∷ [] };
  asked = record { path = 3; offset = 512; len = 16 } ∷ [];
}

first_step : Step all_devices empty_world after_refusal
unfolding read_at read_once read_unless ask_file take_answer on_error served closed_by map_refuses
    add_incident
first_step = by_read disk dead_file 512 16 100 [] refl

second_step : Step all_devices after_refusal after_refusal
unfolding read_at read_once read_unless ask_file take_answer on_error served closed_by map_refuses
    add_incident
second_step = by_read disk dead_file 1024 16 101 [] refl

closed_test : stopped_on after_refusal.ledger 3 ≡ some first_refusal
unfolding stopped_on
closed_test = refl

Run-closed_example :
    (asks_on 3 after_refusal.asked ≡ asks_on 3 after_refusal.asked)
    × (stopped_on after_refusal.ledger 3 ≡ some first_refusal)
Run-closed_example = Run-closed all_devices 3 first_refusal refl closed_test (next here second_step)

Run-limit_example : count_on 3 after_refusal.ledger.incidents ≤ 1
Run-limit_example = Run-limit all_devices false 3 (next (next here first_step) second_step)
