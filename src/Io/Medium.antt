-- ===== src/Io/Medium.antt =====
-- crates/zvolrescue-io/src/medium.rs: the incidents of a run, and the policy that stops it. A path
-- and an error text are known by a number: only whether two paths are equal matters. The time is
-- in Unix seconds, as it comes from the clock.
pub mod Limits
use zvolrescue.Prelude.{ℕ, zero, suc, ◌+◌, ◌-◌, ◌*◌, ◌/◌, ◌%◌, ◌^◌, ◌≤◌, ◌<◌, min, max}
use zvolrescue.Prelude.{◌≡◌, refl, sym, ap, ◌∙◌, ◌≢◌, ◌↔◌, ◌⊎◌, inl, inr, arith}
use zvolrescue.Prelude.{Bool, true, false, not, ◌&&◌, ◌||◌, Option, none, some}
use zvolrescue.Prelude.{
  List, [], ◌∷◌, ◌++◌, map, length, get_elem?, take, drop, replicate, set, All,
}
use zvolrescue.Prelude.{ltb, leb, ◌==◌, if◌then◌else◌, Bool-cases, Option-cases}
use zvolrescue.Prelude.{
  ltb→lt, lt→ltb, le→ltb, leb→le, ==_iff, length-append, length-take, length-drop,
}
use zvolrescue.Prelude.{
  length-replicate, length-set, get_elem?-take, get_elem?-set_self, get_elem?-set_ne, take-append,
  drop-append, get_elem?-some, get_elem?_lt, get_elem?-append, get_elem?-drop, drop-drop,
  get_elem?-front, All-append,
}
use zvolrescue.Prelude.{u64_mod, u64_max, saturating_add, checked_add, checked_mul, wrapping_mul}
use zvolrescue.Prelude.{shl64, shr64, low_bits, div_ceil, add64, sub64}
use zvolrescue.Prelude.{Result, ok, err, panic, stuck, ◌>>=◌, ok_or, expect, Returns}

pub data Kind : Type 0 where
  image device : Kind

pub record Incident : Type 0 where
  pub path : ℕ
  pub offset : ℕ
  pub len : ℕ
  pub error : ℕ
  pub at : ℕ
  pub stopped : Bool

-- `LBA_SECTOR`, `Incident::lba` and `Incident::sectors`.
abbrev pub lba_sector : ℕ
lba_sector = 512

unfoldable pub lba : Incident → ℕ
lba i = i.offset / lba_sector

unfoldable pub sectors : Incident → ℕ
sectors i = div_ceil i.len lba_sector

-- The incidents are in the order in which they happened.
pub record Ledger : Type 0 where
  pub may_fail : Bool
  pub incidents : List Incident

-- `Ledger::MAY_FAIL_LIMIT`.
abbrev pub may_fail_limit : ℕ
may_fail_limit = 8

-- `Ledger::stop_at_first` and `Ledger::may_fail`.
abbrev pub new_ledger : Bool → Ledger
new_ledger may_fail = record { may_fail = may_fail; incidents = [] }

-- Whether the next refusal stops the run.
abbrev pub stops : Ledger → Bool
stops l = not l.may_fail || leb may_fail_limit (length l.incidents + 1)

-- The incident that `Ledger::record` makes, and the ledger with it.
abbrev pub incident_of : Ledger → ℕ → ℕ → ℕ → ℕ → ℕ → Incident
incident_of l path offset len error now = record {
  path = path;
  offset = offset;
  len = len;
  error = error;
  at = now;
  stopped = stops l;
}

unfoldable pub add_incident : Ledger → Incident → Ledger
add_incident l i = record l { incidents = l.incidents ++ i ∷ [] }

-- `Ledger::stopped`.
unfoldable pub find_stopped : List Incident → Option Incident
find_stopped [] = none
find_stopped (i ∷ is) = if i.stopped then some i else find_stopped is

unfoldable pub stopped : Ledger → Option Incident
unfolding find_stopped
stopped l = find_stopped l.incidents

-- `Ledger::stopped_on`.
unfoldable pub find_stopped_on : ℕ → List Incident → Option Incident
find_stopped_on path [] = none
find_stopped_on path (i ∷ is) =
    if i.stopped && i.path == path then some i else find_stopped_on path is

unfoldable pub stopped_on : Ledger → ℕ → Option Incident
unfolding find_stopped_on
stopped_on l path = find_stopped_on path l.incidents
