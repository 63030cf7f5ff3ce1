-- ===== src/Portal/Csrf.antt =====
-- `csrfState` of internal/portal/portal.go: one-time tokens and rate limits. Each operation takes the
-- clock's reading in nanoseconds; `cutoff := now.Add(-d)` and `time.Since(t)` are compared without a
-- subtraction.
pub mod Steps
pub mod Once
mod Since
pub mod Attempts
use myworktree.Prelude.{
  ℕ, ◌+◌, ◌*◌, Bool, true, false, Option, none, some, String, List, [], ◌∷◌, ◌++◌, Assoc, lookup,
  insert, remove, adjust, str_eq, ltb, leb, length, if◌then◌else◌,
}

abbrev pub second : ℕ
second = 1000000000

abbrev pub minute : ℕ
minute = 60 * 1000000000

pub record CsrfState : Type 0 where
  pub pending : Assoc ℕ
  pub used : Assoc ℕ
  pub rate_limits : Assoc ℕ
  pub auth_limits : Assoc (List ℕ)

abbrev pub new_csrf_state : CsrfState
new_csrf_state = record { pending = []; used = []; rate_limits = []; auth_limits = [] }

-- `token` is the fresh random token. Between the two critical sections other goroutines may change
-- the state, by `others`.
unfoldable pub generate : (CsrfState → CsrfState) → String → ℕ → CsrfState → String × CsrfState
generate others token now s =
    let s' = others s in
    if leb 10000 (length s.used)
    then ("", s)
    else (token, record s' { pending = insert token now s'.pending })

unfoldable pub verify_and_consume : String → String → ℕ → CsrfState → Bool × CsrfState
verify_and_consume cookie body now s =
    let consumed = insert cookie now s.used in
    if str_eq cookie body
    then elim (lookup cookie s.pending) [
      | some created_at ↦
          if ltb (created_at + 5 * minute) now
          then (false, record s { pending = remove cookie s.pending })
          else (true, record s { pending = remove cookie s.pending; used = consumed })
      | none ↦ elim (lookup cookie s.used) [
        | some used_time ↦
            if leb now (used_time + 5 * minute)
            then (false, s)
            else (true, record s { used = insert cookie now (remove cookie s.used) })
        | none ↦ (false, s)
      ]
    ]
    else (false, s)

-- `exists && time.Since(last) < time.Second`
abbrev pub too_soon : ℕ → Option ℕ → Bool
too_soon now none = false
too_soon now (some last) = ltb now (last + second)

unfoldable pub allow_csrf_request : String → ℕ → CsrfState → Bool × CsrfState
allow_csrf_request ip now s =
    if leb 10000 (length s.rate_limits)
    then (false, s)
    else if too_soon now (lookup ip s.rate_limits)
    then (false, s)
    else (true, record s { rate_limits = insert ip now s.rate_limits })

-- the times after `now.Add(-span)`, in their order
unfoldable pub since : ℕ → ℕ → List ℕ → List ℕ
since span now [] = []
since span now (t ∷ ts) =
    let rest = since span now ts in if ltb now (t + span) then t ∷ rest else rest

-- `v.Before(cutoff)` deletes
abbrev pub unexpired : ℕ → ℕ → Option ℕ
unexpired now t = if ltb (t + 5 * minute) now then none else some t

abbrev pub nonempty : List ℕ → Option (List ℕ)
nonempty [] = none
nonempty (t ∷ ts) = some (t ∷ ts)

unfoldable pub cleanup : ℕ → CsrfState → CsrfState
cleanup now s = record {
  pending = adjust (unexpired now) s.pending;
  used = adjust (unexpired now) s.used;
  rate_limits = adjust (unexpired now) s.rate_limits;
  auth_limits = adjust (λ times. nonempty (since (5 * minute) now times)) s.auth_limits;
}

-- `m[ip]` of a map of slices
abbrev pub or_nil : Option (List ℕ) → List ℕ
or_nil none = []
or_nil (some ts) = ts

unfoldable pub allow_auth_attempt : String → ℕ → CsrfState → Bool × CsrfState
allow_auth_attempt ip now s =
    let new_times = since minute now (or_nil (lookup ip s.auth_limits)) in
    if leb 10000 (length s.auth_limits)
    then (false, s)
    else if leb 20 (length new_times)
    then (false, s)
    else (true, record s { auth_limits = insert ip (new_times ++ (now ∷ [])) s.auth_limits })
