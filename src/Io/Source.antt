-- ===== src/Io/Source.antt =====
-- crates/zvolrescue-io/src/lib.rs, `FileSource`: a file that is read, its recent reads, and the
-- ledger that the sources of a run share. What the file was asked for is recorded beside them.
pub mod Closed
pub mod Coherent
use zvolrescue.Prelude.{ℕ, zero, suc, ◌+◌, ◌-◌, ◌*◌, ◌/◌, ◌%◌, ◌^◌, ◌≤◌, ◌<◌, min, max}
use zvolrescue.Prelude.{◌≡◌, refl, sym, ap, ◌∙◌, ◌≢◌, ◌↔◌, ◌⊎◌, inl, inr, arith}
use zvolrescue.Prelude.{Bool, true, false, not, ◌&&◌, ◌||◌, Option, none, some}
use zvolrescue.Prelude.{
  List, [], ◌∷◌, ◌++◌, map, length, get_elem?, take, drop, replicate, set, All,
}
use zvolrescue.Prelude.{ltb, leb, ◌==◌, if◌then◌else◌, Bool-cases, Option-cases}
use zvolrescue.Prelude.{
  ltb→lt, lt→ltb, le→ltb, leb→le, ==_iff, length-append, length-take, length-drop,
}
use zvolrescue.Prelude.{
  length-replicate, length-set, get_elem?-take, get_elem?-set_self, get_elem?-set_ne, take-append,
  drop-append, get_elem?-some, get_elem?_lt, get_elem?-append, get_elem?-drop, drop-drop,
  get_elem?-front, All-append,
}
use zvolrescue.Prelude.{u64_mod, u64_max, saturating_add, checked_add, checked_mul, wrapping_mul}
use zvolrescue.Prelude.{shl64, shr64, low_bits, div_ceil, add64, sub64}
use zvolrescue.Prelude.{Result, ok, err, panic, stuck, ◌>>=◌, ok_or, expect, Returns}
use zvolrescue.Ondisk.Bytes.{slice}
use zvolrescue.Io.Medium.{
  Kind, image, device, Incident, Ledger, incident_of, add_incident, stopped_on,
}
use zvolrescue.Io.Salvage.{Ranges, Answer, filled, eof, failed, Salvaged, salvage, touches}

-- What does not change while a source is open. `bad_map` is its imager's map.
pub record Source : Type 0 where
  pub path : ℕ
  pub kind : Kind
  pub bad_map : Option Ranges

-- A recent read: where it started, and its bytes.
abbrev pub Window : Type 0
Window = ℕ × List ℕ

-- `WINDOWS` and `WINDOW_MAX`.
abbrev pub windows_limit : ℕ
windows_limit = 8

abbrev pub window_max : ℕ
window_max = 512 * 1024

-- A read that the file was asked for.
pub record Ask : Type 0 where
  pub path : ℕ
  pub offset : ℕ
  pub len : ℕ

pub record State : Type 0 where
  pub ledger : Ledger
  pub windows : List Window
  pub asked : List Ask

-- What the operating system answers: the bytes, the end of the file, or an error.
pub data FileAnswer : Type 0 where
  read_bytes : List ℕ → FileAnswer
  at_end : FileAnswer
  os_error : ℕ → FileAnswer

pub data ReadResult : Type 0 where
  bytes : List ℕ → ReadResult
  short : ReadResult
  io_error : ℕ → ReadResult
  refused : Incident → ReadResult
  by_map : ReadResult
  panicked : ReadResult

-- What the recent reads answer: the bytes, nothing, or the panic of a slice out of range.
pub data Hit : Type 0 where
  hit : List ℕ → Hit
  miss out_of_range : Hit

abbrev pub hit_of : Option (List ℕ) → Hit
hit_of none = out_of_range
hit_of (some got) = hit got

-- `served_from_windows`; the ends wrap as u64.
unfoldable pub served : List Window → ℕ → ℕ → Hit
unfolding slice
served [] offset len = miss
served ((start, got) ∷ ws) offset len =
    if leb start offset && leb (add64 offset len) (add64 start (length got))
    then hit_of (slice got (offset - start) len)
    else served ws offset len

-- `remember`: the newest window is last.
unfoldable pub remember : ℕ → List ℕ → List Window → List Window
remember offset got ws =
    if ltb window_max (length got)
    then ws
    else (if leb windows_limit (length ws) then drop 1 ws else ws) ++ (offset, got) ∷ []

-- An error of the operating system: a device's is an incident.
unfoldable pub on_error : Kind → Source → ℕ → ℕ → ℕ → ℕ → State → ReadResult × State
unfolding add_incident
on_error device src e offset len now s =
    let i = incident_of s.ledger src.path offset len e now in
    (refused i, record s { ledger = add_incident s.ledger i })
on_error image src e offset len now s = (io_error e, s)

-- The file is read: what its answer makes of the state.
unfoldable pub take_answer : Source → FileAnswer → ℕ → ℕ → ℕ → State → ReadResult × State
unfolding remember on_error
take_answer src (read_bytes got) offset len now s =
    (bytes got, record s { windows = remember offset got s.windows })
take_answer src at_end offset len now s = (short, s)
take_answer src (os_error e) offset len now s = on_error src.kind src e offset len now s

-- The answer of windows, or the file.
unfoldable pub ask_file :
    Hit → Source → (ℕ → ℕ → FileAnswer) → ℕ → ℕ → ℕ → State → ReadResult × State
unfolding take_answer
ask_file (hit got) src file offset len now s = (bytes got, s)
ask_file out_of_range src file offset len now s = (panicked, s)
ask_file miss src file offset len now s =
    take_answer src (file offset len) offset len now
      (record s { asked = s.asked ++ record { path = src.path; offset = offset; len = len } ∷ [] })

-- The incident that closed the source, if it is a device and one did.
unfoldable pub closed_by : Kind → ℕ → Ledger → Option Incident
unfolding stopped_on
closed_by device path l = stopped_on l path
closed_by image path l = none

-- `FileSource::read_once`.
unfoldable pub read_unless :
    Option Incident → Source → (ℕ → ℕ → FileAnswer) → ℕ → ℕ → ℕ → State → ReadResult × State
unfolding served ask_file
read_unless (some i) src file offset len now s = (refused i, s)
read_unless none src file offset len now s =
    ask_file (served s.windows offset len) src file offset len now s

unfoldable pub read_once : Source → (ℕ → ℕ → FileAnswer) → ℕ → ℕ → ℕ → State → ReadResult × State
unfolding closed_by read_unless
read_once src file offset len now s =
    read_unless (closed_by src.kind src.path s.ledger) src file offset len now s

-- Whether the imager's map refuses a read.
unfoldable pub map_refuses : Option Ranges → ℕ → ℕ → Bool
unfolding touches
map_refuses none offset len = false
map_refuses (some m) offset len = touches m offset len

-- `FileSource::read_at`.
unfoldable pub read_at : Source → (ℕ → ℕ → FileAnswer) → ℕ → ℕ → ℕ → State → ReadResult × State
unfolding map_refuses read_once
read_at src file offset len now s =
    if map_refuses src.bad_map offset len then (by_map, s) else read_once src file offset len now s

-- What the salvaging of an image reads with.
abbrev pub as_answer : FileAnswer → Answer
as_answer (read_bytes got) = filled got
as_answer at_end = eof
as_answer (os_error e) = failed

unfoldable pub image_reader : Source → (ℕ → ℕ → FileAnswer) → ℕ → ℕ → Answer
unfolding map_refuses
image_reader src file offset len =
    if map_refuses src.bad_map offset len then failed else as_answer (file offset len)

-- `FileSource::read_at_salvaging` of an image.
unfoldable pub salvage_image : Source → (ℕ → ℕ → FileAnswer) → ℕ → ℕ → Salvaged
unfolding image_reader salvage
salvage_image src file offset len = salvage (image_reader src file) offset len
