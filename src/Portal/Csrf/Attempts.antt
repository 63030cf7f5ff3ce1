-- ===== src/Portal/Csrf/Attempts.antt =====
-- An address gets at most twenty sign-in attempts in any minute.
use myworktree.Prelude.{
  ℕ, ◌*◌, ◌≤◌, ◌<◌, ◌≡◌, refl, sym, subst, true, false, String, List, [], ◌∷◌, ◌++◌, ◌⊎◌, lookup,
  lookup-insert, lookup-adjust, str_eq, eq_iff, arith, length, length-append, if◌then◌else◌,
  Bool-cases, Option-cases, inl, inr,
}
use myworktree.Portal.Csrf.{
  CsrfState, minute, since, or_nil, nonempty, new_csrf_state, verify_and_consume,
  allow_csrf_request, allow_auth_attempt, cleanup,
}
use myworktree.Portal.Csrf.Steps.{
  Event, issued, verified, csrf_request, auth_attempt, cleaned_up, step,
}
use myworktree.Portal.Csrf.Since.{
  since-append, since-since, length-since_later, since_self, append-cons, append-nil,
}

-- the times at which the run lets an attempt of the address through
unfoldable pub accepted : String → List (ℕ × Event) → CsrfState → List ℕ
accepted ip [] s = []
accepted ip ((now, e) ∷ es) s =
    let rest = accepted ip es (step now e s) in
    elim e [
      | auth_attempt other ↦
          if str_eq other ip
          then (if (allow_auth_attempt ip now s).0 then now ∷ rest else rest)
          else rest
      | _ ↦ rest
    ]

-- the clock does not go back from `from` on, and the run ends by `until`
unfoldable pub Ascending : ℕ → List (ℕ × Event) → ℕ → Type 0
Ascending from [] until = from ≤ until
Ascending from ((now, e) ∷ es) until = (from ≤ now) × Ascending now es until

-- the recorded times of an address
times : String → CsrfState → List ℕ
times ip s = or_nil (lookup ip s.auth_limits)

-- The record has every accepted attempt that a later minute still counts.
Records : String → ℕ → List ℕ → CsrfState → Type 0
Records ip now log s =
    ((later : ℕ) → now ≤ later → since minute later log ≡ since minute later (times ip s))
    × (length (since minute now log) ≤ 20)

Records-later :
    (ip : String) (now later : ℕ) (log : List ℕ) (s s' : CsrfState)
    → now ≤ later
    → times ip s ≡ times ip s'
    → Records ip now log s
    → Records ip later log s'
unfolding Records
Records-later ip now later log s s' le e (same, few) = (
  (λ n h. rw (same n (omega arith), e) refl),
  omega (arith, length-since_later minute now later log le),
)

or_nil-nonempty : (ts : List ℕ) → or_nil (nonempty ts) ≡ ts
or_nil-nonempty [] = refl
or_nil-nonempty (t ∷ ts) = refl

times-cleanup :
    (ip : String) (now : ℕ) (s : CsrfState)
    → times ip (cleanup now s) ≡ since (5 * minute) now (times ip s)
unfolding times cleanup since
times-cleanup ip now s = elim (Option-cases (lookup ip s.auth_limits)) [
  | inl e ↦
      ground (arith, e, lookup-adjust ip (λ ts. nonempty (since (5 * minute) now ts)) s.auth_limits)
  | inr (ts, e) ↦ ground (
    arith,
    e,
    lookup-adjust ip (λ ts. nonempty (since (5 * minute) now ts)) s.auth_limits,
    or_nil-nonempty (since (5 * minute) now ts),
  )
]

cleanup-Records :
    (ip : String) (now later : ℕ) (log : List ℕ) (s : CsrfState)
    → now ≤ later
    → Records ip now log s
    → Records ip later log (cleanup later s)
unfolding Records
cleanup-Records ip now later log s le (same, few) = (
  (λ n h. cc (
    same n (omega arith),
    times-cleanup ip later s,
    since-since minute (5 * minute) later n (times ip s) (omega arith) h,
  )),
  omega (arith, length-since_later minute now later log le),
)

times-attempt_accepted :
    (ip : String) (now : ℕ) (s : CsrfState)
    → (allow_auth_attempt ip now s).0 ≡ true
    → times ip (allow_auth_attempt ip now s).1 ≡ since minute now (times ip s) ++ (now ∷ [])
unfolding times allow_auth_attempt
times-attempt_accepted ip now s h = ground (
  arith,
  eq_iff ip ip,
  lookup-insert ip ip (since minute now (or_nil (lookup ip s.auth_limits)) ++ (now ∷ []))
      s.auth_limits,
)

accepted_few :
    (ip : String) (now : ℕ) (s : CsrfState)
    → (allow_auth_attempt ip now s).0 ≡ true
    → length (since minute now (times ip s)) < 20
unfolding times allow_auth_attempt
accepted_few ip now s h = ground arith

times-attempt_other :
    (ip other : String) (now : ℕ) (s : CsrfState)
    → (other ≡ ip → (allow_auth_attempt other now s).0 ≡ false)
    → times ip s ≡ times ip (allow_auth_attempt other now s).1
unfolding times allow_auth_attempt
times-attempt_other ip other now s h = ground (
  arith,
  eq_iff other ip,
  lookup-insert other ip (since minute now (or_nil (lookup other s.auth_limits)) ++ (now ∷ []))
      s.auth_limits,
)

accepted-Records :
    (ip : String) (now later : ℕ) (log : List ℕ) (s : CsrfState)
    → now ≤ later
    → (allow_auth_attempt ip later s).0 ≡ true
    → Records ip now log s
    → Records ip later (log ++ (later ∷ [])) (allow_auth_attempt ip later s).1
unfolding Records
accepted-Records ip now later log s le h (same, few) = (
  (λ n m. cc (
    same n (omega arith),
    times-attempt_accepted ip later s h,
    since-append minute n log (later ∷ []),
    since-append minute n (since minute later (times ip s)) (later ∷ []),
    since-since minute minute later n (times ip s) (omega arith) m,
  )),
  rw (since-append minute later log (later ∷ []), since_self later, same later le) omega
      (
        arith,
        length-append (since minute later (times ip s)) (later ∷ []),
        accepted_few ip later s h,
      ),
)

times-verified :
    (ip cookie body : String) (now : ℕ) (s : CsrfState)
    → times ip s ≡ times ip (verify_and_consume cookie body now s).1
unfolding times verify_and_consume
times-verified ip cookie body now s = ground arith

times-requested :
    (ip other : String) (now : ℕ) (s : CsrfState)
    → times ip s ≡ times ip (allow_csrf_request other now s).1
unfolding times allow_csrf_request
times-requested ip other now s = ground arith

-- an attempt in front of the rest of a run
attempt_few :
    (ip other : String) (now at until : ℕ) (es : List (ℕ × Event)) (log : List ℕ) (s : CsrfState)
    → now ≤ at
    → Records ip now log s
    → ((log' : List ℕ)
        → Records ip at log' (allow_auth_attempt other at s).1
        → length (since minute until (log' ++ accepted ip es (allow_auth_attempt other at s).1))
          ≤ 20)
    → length (since minute until (log ++ accepted ip ((at, auth_attempt other) ∷ es) s)) ≤ 20
unfolding accepted step
attempt_few ip other now at until es log s le r next =
    attempt (Bool-cases (str_eq other ip)) (Bool-cases (allow_auth_attempt ip at s).0)
  where
    s' : CsrfState
    s' = (allow_auth_attempt other at s).1

    unchanged :
        (other ≡ ip → (allow_auth_attempt other at s).0 ≡ false)
        → length (since minute until (log ++ accepted ip es s')) ≤ 20
    unchanged refused =
        next log (Records-later ip now at log s s' le (times-attempt_other ip other at s refused) r)

    same :
        (str_eq other ip ≡ true)
        → Records ip at (log ++ (at ∷ [])) (allow_auth_attempt ip at s).1
        → Records ip at (log ++ (at ∷ [])) s'
    same e q =
        subst (λ o. Records ip at (log ++ (at ∷ [])) (allow_auth_attempt o at s).1)
          (sym ((eq_iff other ip).0 e)) q

    attempt :
        (str_eq other ip ≡ true) ⊎ (str_eq other ip ≡ false)
        → ((allow_auth_attempt ip at s).0 ≡ true) ⊎ ((allow_auth_attempt ip at s).0 ≡ false)
        → length (since minute until (log ++ accepted ip ((at, auth_attempt other) ∷ es) s)) ≤ 20
    attempt (inl e) (inl a) =
        rw (e, a, sym (append-cons log (accepted ip es s') at))
          (next (log ++ (at ∷ [])) (same e (accepted-Records ip now at log s le a r)))
    attempt (inl e) (inr a) = rw (e, a) (unchanged (λ eq. rw eq a))
    attempt (inr e) _ = rw e (unchanged (λ eq. absurd (ground (arith, eq_iff other ip))))

few_accepted :
    (ip : String) (now until : ℕ) (es : List (ℕ × Event)) (log : List ℕ) (s : CsrfState)
    → Ascending now es until
    → Records ip now log s
    → length (since minute until (log ++ accepted ip es s)) ≤ 20
unfolding Ascending accepted step times Records
few_accepted ip now until [] log s h r =
    rw (append-nil log) (Records-later ip now until log s s h refl r).1
few_accepted ip now until ((at, issued token) ∷ es) log s (le, h) r =
    few_accepted ip at until es log (step at (issued token) s) h
      (Records-later ip now at log s (step at (issued token) s) le refl r)
few_accepted ip now until ((at, verified cookie body) ∷ es) log s (le, h) r =
    let s' = step at (verified cookie body) s in
    few_accepted ip at until es log s' h
      (Records-later ip now at log s s' le (times-verified ip cookie body at s) r)
few_accepted ip now until ((at, csrf_request other) ∷ es) log s (le, h) r =
    let s' = step at (csrf_request other) s in
    few_accepted ip at until es log s' h
      (Records-later ip now at log s s' le (times-requested ip other at s) r)
few_accepted ip now until ((at, cleaned_up) ∷ es) log s (le, h) r =
    few_accepted ip at until es log (cleanup at s) h (cleanup-Records ip now at log s le r)
few_accepted ip now until ((at, auth_attempt other) ∷ es) log s (le, h) r =
    attempt_few ip other now at until es log s le r
      (λ log' r'. few_accepted ip at until es log' (allow_auth_attempt other at s).1 h r')

-- However the calls of the handlers and the cleanup loop are ordered, from a fresh state, as long as
-- the clock does not go back: at the end, the minute before it holds at most twenty accepted attempts
-- of an address.
pub auth_attempts_lem :
    (ip : String) (from until : ℕ) (es : List (ℕ × Event))
    → Ascending from es until
    → length (since minute until (accepted ip es new_csrf_state)) ≤ 20
unfolding times Records since lookup
auth_attempts_lem ip from until es h =
    few_accepted ip from until es [] new_csrf_state h ((λ n le. refl), omega arith)
