-- ===== src/Io/Medium/Limits.antt =====
-- How many incidents a run can have.
use zvolrescue.Prelude.{ℕ, ◌+◌, ◌≤◌, ◌<◌}
use zvolrescue.Prelude.{◌≡◌, refl, inl, inr, arith}
use zvolrescue.Prelude.{Bool, true, false, not, ◌&&◌, none, some}
use zvolrescue.Prelude.{List, [], ◌∷◌, ◌++◌, length}
use zvolrescue.Prelude.{◌==◌, if◌then◌else◌, Bool-cases}
use zvolrescue.Prelude.{==_iff}
use zvolrescue.Io.Medium.{
  Incident, Ledger, new_ledger, may_fail_limit, incident_of, add_incident, find_stopped_on,
  stopped_on,
}

-- How many incidents are on a path, how many let the run go on, and how many on a path stopped it.
abbrev one_if : Bool → ℕ
one_if true = 1
one_if false = 0

unfoldable pub count_on : ℕ → List Incident → ℕ
count_on path [] = 0
count_on path (i ∷ is) = one_if (i.path == path) + count_on path is

unfoldable pub open_count : List Incident → ℕ
open_count [] = 0
open_count (i ∷ is) = one_if (not i.stopped) + open_count is

unfoldable pub stop_count : ℕ → List Incident → ℕ
stop_count path [] = 0
stop_count path (i ∷ is) = one_if (i.stopped && i.path == path) + stop_count path is

count_on-le :
    (path : ℕ) (is : List Incident) → count_on path is ≤ open_count is + stop_count path is
unfolding count_on open_count stop_count
count_on-le path [] = omega arith
count_on-le path (i ∷ is) = ground (arith, count_on-le path is)

open_count-le-length : (is : List Incident) → open_count is ≤ length is
unfolding open_count
open_count-le-length [] = omega arith
open_count-le-length (i ∷ is) = ground (arith, open_count-le-length is)

open_count-append :
    (is : List Incident) (i : Incident)
    → open_count (is ++ i ∷ []) ≡ open_count is + one_if (not i.stopped)
unfolding open_count
open_count-append [] i = omega arith
open_count-append (j ∷ is) i = omega (arith, open_count-append is i)

stop_count-append :
    (path : ℕ) (is : List Incident) (i : Incident)
    → stop_count path (is ++ i ∷ []) ≡ stop_count path is + one_if (i.stopped && i.path == path)
unfolding stop_count
stop_count-append path [] i = omega arith
stop_count-append path (j ∷ is) i = omega (arith, stop_count-append path is i)

stop_count-none :
    (path : ℕ) (is : List Incident) → find_stopped_on path is ≡ none → stop_count path is ≡ 0
unfolding stop_count find_stopped_on
stop_count-none path [] h = refl
stop_count-none path (i ∷ is) h = ground (arith, stop_count-none path is)

pub find_stopped_on-append :
    (path : ℕ) (is js : List Incident) (i : Incident)
    → find_stopped_on path is ≡ some i
    → find_stopped_on path (is ++ js) ≡ some i
unfolding find_stopped_on
find_stopped_on-append path [] js i h = cc
find_stopped_on-append path (j ∷ is) js i h = ground (arith, find_stopped_on-append path is js i)

-- The incidents that let the run go on are fewer than the limit, and none if the first stops it. At
-- most one on each path stopped it.
pub record IsLimited (l : Ledger) : Type 0 where
  pub few_open : open_count l.incidents < may_fail_limit
  pub none_open : l.may_fail ≡ false → open_count l.incidents ≡ 0
  pub one_stop : (path : ℕ) → stop_count path l.incidents ≤ 1

pub new_ledger-IsLimited : (may_fail : Bool) → IsLimited (new_ledger may_fail)
unfolding open_count stop_count
new_ledger-IsLimited may_fail = record {
  few_open = omega arith;
  none_open = λ h. refl;
  one_stop = λ path. omega arith;
}

-- Recording a refusal of a device that is not closed keeps to the limits.
pub add_incident-IsLimited :
    (l : Ledger) (path offset len error now : ℕ)
    → IsLimited l
    → stopped_on l path ≡ none
    → IsLimited (add_incident l (incident_of l path offset len error now))
unfolding add_incident stopped_on
add_incident-IsLimited l path offset len error now is unclosed =
    let i = incident_of l path offset len error now in
    let opened = open_count-append l.incidents i in
    record {
      few_open = ground (arith, opened, is.few_open, open_count-le-length l.incidents);
      none_open = λ h. ground (arith, opened, is.none_open h, h);
      one_stop = λ q. ground (
        arith,
        stop_count-append q l.incidents i,
        is.one_stop q,
        ==_iff path q,
        stop_count-none path l.incidents unclosed,
      );
    }

-- So a device has at most eight incidents, and at most one if the first refusal stops the run.
pub count_on-limit :
    (l : Ledger) (path : ℕ)
    → IsLimited l
    → count_on path l.incidents ≤ (if l.may_fail then may_fail_limit else 1)
count_on-limit l path is = elim (Bool-cases l.may_fail) [
  | inl allowed ↦
      rw allowed (omega (arith, count_on-le path l.incidents, is.few_open, is.one_stop path))
  | inr first ↦
      rw first (omega (arith, count_on-le path l.incidents, is.none_open first, is.one_stop path))
]
