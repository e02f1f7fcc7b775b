-- ===== src/Io/Source/Closed.antt =====
-- A device that refused is not asked again, and asked for what it refuses a limited number of times.
use zvolrescue.Prelude.{ℕ, ◌+◌, ◌≤◌}
use zvolrescue.Prelude.{◌≡◌, refl, sym, ap, ◌∙◌, ◌⊎◌, inl, inr, arith}
use zvolrescue.Prelude.{Bool, Option, none, some}
use zvolrescue.Prelude.{List, [], ◌∷◌, ◌++◌}
use zvolrescue.Prelude.{◌==◌, if◌then◌else◌, Bool-cases}
use mathlib.Core.Path.{subst}
use zvolrescue.Io.Medium.{
  Kind, image, device, Incident, Ledger, new_ledger, may_fail_limit, incident_of, add_incident,
  stopped_on,
}
use zvolrescue.Io.Medium.Limits.{
  IsLimited, new_ledger-IsLimited, add_incident-IsLimited, count_on, count_on-limit,
  find_stopped_on-append,
}
use zvolrescue.Io.Source.{
  Source, Window, Ask, State, FileAnswer, read_bytes, at_end, os_error, on_error, take_answer, Hit,
  hit, miss, out_of_range, ask_file, served, closed_by, read_unless, read_once, map_refuses,
  read_at,
}

-- What the sources of a run share, and what the files were asked for.
pub record World : Type 0 where
  pub ledger : Ledger
  pub asked : List Ask

unfoldable pub asks_on : ℕ → List Ask → ℕ
asks_on path [] = 0
asks_on path (a ∷ asks) = (if a.path == path then 1 else 0) + asks_on path asks

asks_on-append :
    (path : ℕ) (asks : List Ask) (a : Ask)
    → asks_on path (asks ++ a ∷ []) ≡ asks_on path asks + (if a.path == path then 1 else 0)
unfolding asks_on
asks_on-append path [] a = omega arith
asks_on-append path (b ∷ asks) a = omega (arith, asks_on-append path asks a)

abbrev world_of : State → World
world_of s = record { ledger = s.ledger; asked = s.asked }

abbrev state_in : World → List Window → State
state_in w ws = record { ledger = w.ledger; windows = ws; asked = w.asked }

-- What a read does to the state: nothing, or the file was asked, and perhaps its error recorded.
abbrev ask_of : Source → ℕ → ℕ → Ask
ask_of src offset len = record { path = src.path; offset = offset; len = len }

-- The ledger after a read is the one before it, or has one incident more, of a device that is not
-- closed.
abbrev LedgerStep : Source → ℕ → ℕ → ℕ → Ledger → Ledger → Type 0
LedgerStep src offset len now l l' =
    (l' ≡ l)
    ⊎ ((e : ℕ) × (stopped_on l src.path ≡ none)
        × (l' ≡ add_incident l (incident_of l src.path offset len e now)))

-- What was asked after a read is what was asked before it, or one ask more, of a source that is not
-- closed.
abbrev AskStep : Source → Ledger → List Ask → List Ask → Type 0
AskStep src l asked asked' =
    (asked' ≡ asked)
    ⊎ ((a : Ask) × (a.path ≡ src.path)
        × (closed_by src.kind src.path l ≡ none)
        × (asked' ≡ asked ++ a ∷ []))

abbrev IsStep : Source → ℕ → ℕ → ℕ → State → State → Type 0
IsStep src offset len now s s' =
    LedgerStep src offset len now s.ledger s'.ledger × AskStep src s.ledger s.asked s'.asked

on_error-ledger :
    (k : Kind) (src : Source) (e offset len now : ℕ) (s : State)
    → closed_by k src.path s.ledger ≡ none
    → LedgerStep src offset len now s.ledger (on_error k src e offset len now s).1.ledger
      × ((on_error k src e offset len now s).1.asked ≡ s.asked)
unfolding on_error closed_by
on_error-ledger image src e offset len now s h = (inl refl, refl)
on_error-ledger device src e offset len now s h = (inr (e, h, refl), refl)

take_answer-ledger :
    (src : Source) (a : FileAnswer) (offset len now : ℕ) (s : State)
    → closed_by src.kind src.path s.ledger ≡ none
    → LedgerStep src offset len now s.ledger (take_answer src a offset len now s).1.ledger
      × ((take_answer src a offset len now s).1.asked ≡ s.asked)
unfolding take_answer
take_answer-ledger src (read_bytes got) offset len now s h = (inl refl, refl)
take_answer-ledger src at_end offset len now s h = (inl refl, refl)
take_answer-ledger src (os_error e) offset len now s h =
    on_error-ledger src.kind src e offset len now s h

ask_file-IsStep :
    (found : Hit) (src : Source) (file : ℕ → ℕ → FileAnswer) (offset len now : ℕ) (s : State)
    → closed_by src.kind src.path s.ledger ≡ none
    → IsStep src offset len now s (ask_file found src file offset len now s).1
unfolding ask_file
ask_file-IsStep (hit got) src file offset len now s h = (inl refl, inl refl)
ask_file-IsStep out_of_range src file offset len now s h = (inl refl, inl refl)
ask_file-IsStep miss src file offset len now s h =
    let asked = record s { asked = s.asked ++ ask_of src offset len ∷ [] } in
    let (ledger, same) = take_answer-ledger src (file offset len) offset len now asked h in
    (ledger, inr (ask_of src offset len, refl, h, same))

read_unless-IsStep :
    (o : Option Incident) (src : Source) (file : ℕ → ℕ → FileAnswer) (offset len now : ℕ)
    (s : State)
    → closed_by src.kind src.path s.ledger ≡ o
    → IsStep src offset len now s (read_unless o src file offset len now s).1
unfolding read_unless
read_unless-IsStep (some i) src file offset len now s h = (inl refl, inl refl)
read_unless-IsStep none src file offset len now s h =
    ask_file-IsStep (served s.windows offset len) src file offset len now s h

read_at-IsStep :
    (src : Source) (file : ℕ → ℕ → FileAnswer) (offset len now : ℕ) (s : State)
    → IsStep src offset len now s (read_at src file offset len now s).1
unfolding read_at read_once
read_at-IsStep src file offset len now s = elim (Bool-cases (map_refuses src.bad_map offset len)) [
  | inl by_map ↦ rw by_map (inl refl, inl refl)
  | inr asked ↦
      rw asked
        (read_unless-IsStep (closed_by src.kind src.path s.ledger) src file offset len now s refl)
]

LedgerStep-stopped :
    (src : Source) (offset len now : ℕ) (l l' : Ledger) (path : ℕ) (i : Incident)
    → LedgerStep src offset len now l l'
    → stopped_on l path ≡ some i
    → stopped_on l' path ≡ some i
unfolding stopped_on add_incident
LedgerStep-stopped src offset len now l l' path i (inl same) h = rw same h
LedgerStep-stopped src offset len now l l' path i (inr (e, open_, more)) h =
    rw more (find_stopped_on-append path l.incidents _ i h)

LedgerStep-IsLimited :
    (src : Source) (offset len now : ℕ) (l l' : Ledger)
    → LedgerStep src offset len now l l'
    → IsLimited l
    → IsLimited l'
LedgerStep-IsLimited src offset len now l l' (inl same) is = subst IsLimited (sym same) is
LedgerStep-IsLimited src offset len now l l' (inr (e, unclosed, more)) is =
    subst IsLimited (sym more) (add_incident-IsLimited l src.path offset len e now is unclosed)

LedgerStep-may_fail :
    (src : Source) (offset len now : ℕ) (l l' : Ledger)
    → LedgerStep src offset len now l l'
    → l'.may_fail ≡ l.may_fail
unfolding add_incident
LedgerStep-may_fail src offset len now l l' (inl same) = ap (λ (l : Ledger). l.may_fail) same
LedgerStep-may_fail src offset len now l l' (inr (e, unclosed, more)) =
    ap (λ (l : Ledger). l.may_fail) more

-- The kind of a source goes with its path. A step is a read of any source, with whatever recent
-- reads it keeps and whatever its file answers.
module _ (kind_of : ℕ → Kind) where
  pub data Step (w : World) : World → Type 0 where
    by_read :
        (src : Source) (file : ℕ → ℕ → FileAnswer) (offset len now : ℕ) (ws : List Window)
        → src.kind ≡ kind_of src.path
        → Step w (world_of (read_at src file offset len now (state_in w ws)).1)

  pub data Run (w : World) : World → Type 0 where
    here : Run w w
    next : {v u : World} → Run w v → Step v u → Run w u

  Step-ledger :
      {w v : World}
      → Step w v
      → (src : Source) × (offset len now : ℕ) × LedgerStep src offset len now w.ledger v.ledger
  Step-ledger {w} (by_read src file offset len now ws k) =
      (src, offset, len, now, (read_at-IsStep src file offset len now (state_in w ws)).0)

  Step-closed :
      (path : ℕ) (i : Incident) {w v : World}
      → kind_of path ≡ device
      → stopped_on w.ledger path ≡ some i
      → Step w v
      → asks_on path v.asked ≡ asks_on path w.asked
  unfolding closed_by
  Step-closed path i {w} is_device stopped (by_read src file offset len now ws k) =
      elim (read_at-IsStep src file offset len now (state_in w ws)).1 [
        | inl same ↦ ap (asks_on path) same
        | inr (a, of_src, unclosed, more) ↦
            ap (asks_on path) more
            ∙ asks_on-append path w.asked a
            ∙ elim (Bool-cases (a.path == path)) [
              | inr other ↦ rw other (omega arith)
              | inl same_path ↦
                  let at_path : src.path ≡ path = ground (arith, same_path, of_src) in
                  let at_device : src.kind ≡ device = k ∙ ap kind_of at_path ∙ is_device in
                  let closed : closed_by device path w.ledger ≡ none =
                    sym (ap (λ d. closed_by d path w.ledger) at_device ∙ refl)
                    ∙ ap (λ q. closed_by src.kind q w.ledger) (sym at_path)
                    ∙ unclosed in
                  absurd (cc (closed, stopped))
            ]
      ]

  -- Once a refusal of a device stopped the run, its file is not asked for anything again, in any
  -- later run of reads by any source: the refusal is what closes it, and it stays closed.
  pub Run-closed :
      (path : ℕ) (i : Incident) {w v : World}
      → kind_of path ≡ device
      → stopped_on w.ledger path ≡ some i
      → Run w v
      → (asks_on path v.asked ≡ asks_on path w.asked) × (stopped_on v.ledger path ≡ some i)
  Run-closed path i is_device stopped here = (refl, stopped)
  Run-closed path i is_device stopped (next run step) =
      let (same, still) = Run-closed path i is_device stopped run in
      let (src, offset, len, now, ledger) = Step-ledger step in
      (
        Step-closed path i is_device still step ∙ same,
        LedgerStep-stopped src offset len now _ _ path i ledger still,
      )

  Run-IsLimited :
      {w v : World}
      → IsLimited w.ledger
      → Run w v
      → IsLimited v.ledger × (v.ledger.may_fail ≡ w.ledger.may_fail)
  Run-IsLimited is here = (is, refl)
  Run-IsLimited is (next run step) =
      let (limited, same) = Run-IsLimited is run in
      let (src, offset, len, now, ledger) = Step-ledger step in
      (
        LedgerStep-IsLimited src offset len now _ _ ledger limited,
        LedgerStep-may_fail src offset len now _ _ ledger ∙ same,
      )

  -- In every run of reads from an empty ledger a device has at most eight incidents, and at most
  -- one unless the operator let it fail.
  pub Run-limit :
      (may_fail : Bool) (path : ℕ) {v : World}
      → Run (record { ledger = new_ledger may_fail; asked = [] }) v
      → count_on path v.ledger.incidents ≤ (if may_fail then may_fail_limit else 1)
  Run-limit may_fail path {v} run =
      let (limited, same) = Run-IsLimited (new_ledger-IsLimited may_fail) run in
      subst (λ b. count_on path v.ledger.incidents ≤ (if b then may_fail_limit else 1)) same
        (count_on-limit v.ledger path limited)
