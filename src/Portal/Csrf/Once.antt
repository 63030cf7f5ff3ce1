-- ===== src/Portal/Csrf/Once.antt =====
-- A token is accepted once in five minutes, and an address is served once in a second.
use myworktree.Prelude.{
  ℕ, ◌+◌, ◌*◌, ◌≤◌, ◌<◌, ◌≡◌, true, false, none, some, String, List, [], ◌∷◌, lookup, remove,
  adjust, lookup-insert, lookup-remove, lookup-adjust, eq_iff, arith,
}
use myworktree.Portal.Csrf.{
  CsrfState, minute, second, unexpired, verify_and_consume, allow_csrf_request, allow_auth_attempt,
  cleanup,
}
use myworktree.Portal.Csrf.Steps.{
  Event, issued, verified, csrf_request, auth_attempt, cleaned_up, step, run, By, IsIssue, Without,
}

-- The token was consumed at the time `t`.
Consumed : String → ℕ → CsrfState → Type 0
Consumed token t s = (lookup token s.pending ≡ none) × (lookup token s.used ≡ some t)

lookup-adjust-unexpired :
    (key : String) (now t : ℕ) (m : List (String × ℕ))
    → now ≤ t + 5 * minute
    → lookup key m ≡ some t
    → lookup key (adjust (unexpired now) m) ≡ some t
lookup-adjust-unexpired key now t m le h = ground (arith, lookup-adjust key (unexpired now) m)

lookup-adjust-none :
    (key : String) (now : ℕ) (m : List (String × ℕ))
    → lookup key m ≡ none
    → lookup key (adjust (unexpired now) m) ≡ none
lookup-adjust-none key now m h = ground (arith, lookup-adjust key (unexpired now) m)

verify-Consumed :
    (token : String) (t : ℕ) (cookie body : String) (now : ℕ) (s : CsrfState)
    → now ≤ t + 5 * minute
    → Consumed token t s
    → Consumed token t (verify_and_consume cookie body now s).1
unfolding Consumed verify_and_consume
verify-Consumed token t cookie body now s le (p, u) = ground (
  arith,
  lookup-remove cookie token s.pending,
  lookup-insert cookie token now s.used,
  lookup-insert cookie token now (remove cookie s.used),
  lookup-remove cookie token s.used,
  eq_iff cookie token,
)

step-Consumed :
    (token : String) (t now : ℕ) (e : Event) (s : CsrfState)
    → now ≤ t + 5 * minute
    → (IsIssue token e → ⊥)
    → Consumed token t s
    → Consumed token t (step now e s)
unfolding Consumed step allow_csrf_request allow_auth_attempt cleanup
step-Consumed token t now (issued other) s le new (p, u) =
    ground (arith, lookup-insert other token now s.pending, eq_iff other token)
step-Consumed token t now (verified cookie body) s le new c =
    verify-Consumed token t cookie body now s le c
step-Consumed token t now (csrf_request ip) s le new (p, u) = ground arith
step-Consumed token t now (auth_attempt ip) s le new (p, u) = ground arith
step-Consumed token t now cleaned_up s le new (p, u) =
    (lookup-adjust-none token now s.pending p, lookup-adjust-unexpired token now t s.used le u)

run-Consumed :
    (token : String) (t : ℕ) (es : List (ℕ × Event)) (s : CsrfState)
    → By (t + 5 * minute) es
    → Without token es
    → Consumed token t s
    → Consumed token t (run es s)
unfolding run By Without
run-Consumed token t [] s by new c = c
run-Consumed token t ((now, e) ∷ es) s (le, by) (ne, new) c =
    run-Consumed token t es (step now e s) by new (step-Consumed token t now e s le ne c)

accepted-Consumed :
    (token body : String) (t : ℕ) (s : CsrfState)
    → (verify_and_consume token body t s).0 ≡ true
    → Consumed token t (verify_and_consume token body t s).1
unfolding Consumed verify_and_consume
accepted-Consumed token body t s h = ground (
  arith,
  lookup-remove token token s.pending,
  lookup-insert token token t s.used,
  lookup-insert token token t (remove token s.used),
  eq_iff token token,
)

Consumed-refused :
    (token body : String) (t now : ℕ) (s : CsrfState)
    → now ≤ t + 5 * minute
    → Consumed token t s
    → (verify_and_consume token body now s).0 ≡ false
unfolding Consumed verify_and_consume
Consumed-refused token body t now s le (p, u) = ground arith

-- Once a token has been accepted, it is refused again for five minutes, whatever operations run in
-- between, as long as the generator does not draw the same token anew.
pub accepted_once :
    (token body again : String) (t now : ℕ) (es : List (ℕ × Event)) (s : CsrfState)
    → (verify_and_consume token body t s).0 ≡ true
    → By (t + 5 * minute) es
    → Without token es
    → now ≤ t + 5 * minute
    → (verify_and_consume token again now (run es (verify_and_consume token body t s).1)).0 ≡ false
accepted_once token body again t now es s h by new le =
    let s' = (verify_and_consume token body t s).1 in
    Consumed-refused token again t now (run es s') le
      (run-Consumed token t es s' by new (accepted-Consumed token body t s h))

request-Served :
    (ip : String) (t : ℕ) (other : String) (now : ℕ) (s : CsrfState)
    → now < t + second
    → lookup ip s.rate_limits ≡ some t
    → lookup ip (allow_csrf_request other now s).1.rate_limits ≡ some t
unfolding allow_csrf_request
request-Served ip t other now s lt h =
    ground (arith, lookup-insert other ip now s.rate_limits, eq_iff other ip)

step-Served :
    (ip : String) (t now : ℕ) (e : Event) (s : CsrfState)
    → now < t + second
    → lookup ip s.rate_limits ≡ some t
    → lookup ip (step now e s).rate_limits ≡ some t
unfolding step verify_and_consume allow_auth_attempt cleanup
step-Served ip t now (issued token) s lt h = h
step-Served ip t now (verified cookie body) s lt h = ground arith
step-Served ip t now (csrf_request other) s lt h = request-Served ip t other now s lt h
step-Served ip t now (auth_attempt other) s lt h = ground arith
step-Served ip t now cleaned_up s lt h =
    lookup-adjust-unexpired ip now t s.rate_limits (omega arith) h

-- the last nanosecond before the next request may be served
abbrev pub last_refused : ℕ → ℕ
last_refused t = t + 999999999

run-Served :
    (ip : String) (t : ℕ) (es : List (ℕ × Event)) (s : CsrfState)
    → By (last_refused t) es
    → lookup ip s.rate_limits ≡ some t
    → lookup ip (run es s).rate_limits ≡ some t
unfolding run By
run-Served ip t [] s by h = h
run-Served ip t ((now, e) ∷ es) s (le, by) h =
    run-Served ip t es (step now e s) by (step-Served ip t now e s (omega arith) h)

served-lookup :
    (ip : String) (t : ℕ) (s : CsrfState)
    → (allow_csrf_request ip t s).0 ≡ true
    → lookup ip (allow_csrf_request ip t s).1.rate_limits ≡ some t
unfolding allow_csrf_request
served-lookup ip t s h = ground (arith, lookup-insert ip ip t s.rate_limits, eq_iff ip ip)

refused_within :
    (ip : String) (t now : ℕ) (s : CsrfState)
    → now < t + second
    → lookup ip s.rate_limits ≡ some t
    → (allow_csrf_request ip now s).0 ≡ false
unfolding allow_csrf_request
refused_within ip t now s lt h = ground arith

-- Once an address has been given a token, its requests are refused for a second, whatever operations
-- run in between.
pub served_once :
    (ip : String) (t now : ℕ) (es : List (ℕ × Event)) (s : CsrfState)
    → (allow_csrf_request ip t s).0 ≡ true
    → By (last_refused t) es
    → now < t + second
    → (allow_csrf_request ip now (run es (allow_csrf_request ip t s).1)).0 ≡ false
served_once ip t now es s h by lt =
    let s' = (allow_csrf_request ip t s).1 in
    refused_within ip t now (run es s') lt (run-Served ip t es s' by (served-lookup ip t s h))
