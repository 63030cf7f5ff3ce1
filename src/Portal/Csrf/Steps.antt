-- ===== src/Portal/Csrf/Steps.antt =====
-- Runs of the operations: every call the portal's handlers and its cleanup loop make, in the order
-- in which they take the lock, each at its time.
use myworktree.Prelude.{ℕ, ◌≤◌, ◌≡◌, String, List, [], ◌∷◌, insert}
use myworktree.Portal.Csrf.{
  CsrfState, verify_and_consume, allow_csrf_request, allow_auth_attempt, cleanup,
}

-- `issued` is the second critical section of `generate`.
pub data Event : Type 0 where
  issued : String → Event
  verified : String → String → Event
  csrf_request : String → Event
  auth_attempt : String → Event
  cleaned_up : Event

unfoldable pub step : ℕ → Event → CsrfState → CsrfState
step now (issued token) s = record s { pending = insert token now s.pending }
step now (verified cookie body) s = (verify_and_consume cookie body now s).1
step now (csrf_request ip) s = (allow_csrf_request ip now s).1
step now (auth_attempt ip) s = (allow_auth_attempt ip now s).1
step now cleaned_up s = cleanup now s

unfoldable pub run : List (ℕ × Event) → CsrfState → CsrfState
run [] s = s
run ((now, e) ∷ es) s = run es (step now e s)

-- every event of the run happens by the time `until`
unfoldable pub By : ℕ → List (ℕ × Event) → Type 0
By until [] = Unit
By until ((now, e) ∷ es) = (now ≤ until) × By until es

abbrev pub IsIssue : String → Event → Type 0
IsIssue token (issued other) = other ≡ token
IsIssue token (verified cookie body) = ⊥
IsIssue token (csrf_request ip) = ⊥
IsIssue token (auth_attempt ip) = ⊥
IsIssue token cleaned_up = ⊥

-- the run makes no token equal to this one: the tokens are 32 random bytes
unfoldable pub Without : String → List (ℕ × Event) → Type 0
Without token [] = Unit
Without token ((now, e) ∷ es) = (IsIssue token e → ⊥) × Without token es
