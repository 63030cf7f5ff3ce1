-- ===== src/Framework/Status.antt =====
-- internal/framework/status.go: the lifecycle states and their wire format.
use myworktree.Prelude.{
  ◌≡◌, ◌↔◌, eq_iff, refl, Bool, true, false, Option, none, some, String, str_eq, if◌then◌else◌,
  arith,
}

pub data Status : Type 0 where
  starting running unhealthy stopping stopped failed exited : Status

-- `Status.String`; its `default` is for an int that is none of the seven constants
unfoldable pub to_string : Status → String
to_string starting = "starting"
to_string running = "running"
to_string unhealthy = "unhealthy"
to_string stopping = "stopping"
to_string stopped = "stopped"
to_string failed = "failed"
to_string exited = "exited"

-- `none` is the error of an unknown status
unfoldable pub parse_status : String → Option Status
parse_status s =
    if str_eq s "starting"
    then some starting
    else if str_eq s "running"
    then some running
    else if str_eq s "unhealthy"
    then some unhealthy
    else if str_eq s "stopping"
    then some stopping
    else if str_eq s "stopped"
    then some stopped
    else if str_eq s "failed"
    then some failed
    else if str_eq s "exited"
    then some exited
    else none

-- the states in which `setStatus` stamps `StoppedAt`, and in which the lifecycle watcher ends
unfoldable pub is_terminal : Status → Bool
is_terminal stopped = true
is_terminal failed = true
is_terminal exited = true
is_terminal _ = false

parse_status-to_string : (st : Status) → parse_status (to_string st) ≡ some st
unfolding parse_status to_string
parse_status-to_string starting = refl
parse_status-to_string _ = refl

eq_of_parse_status : (w : String) (st : Status) → parse_status w ≡ some st → w ≡ to_string st
unfolding parse_status to_string
eq_of_parse_status w st h = ground (
  arith,
  eq_iff w "starting",
  eq_iff w "running",
  eq_iff w "unhealthy",
  eq_iff w "stopping",
  eq_iff w "stopped",
  eq_iff w "failed",
  eq_iff w "exited",
)

-- A word parses to a status exactly when it is the word that the status prints as.
pub parse_status_iff : (w : String) (st : Status) → (parse_status w ≡ some st) ↔ (w ≡ to_string st)
parse_status_iff w st = (eq_of_parse_status w st, λ e. rw e (parse_status-to_string st))
