-- ===== src/Portal/Auth/SignIn.antt =====
-- A sign-in takes every check, and none of its tokens serves again for five minutes.
use myworktree.Prelude.{
  ℕ, ◌+◌, ◌*◌, ◌≤◌, ◌≡◌, ◌≢◌, ◌↔◌, refl, sym, ◌∙◌, true, false, some, String, List, [], ◌∷◌, ◌++◌,
  Option-cases, inl, inr, lookup, eq_iff, arith,
}
use myworktree.Portal.Csrf.{CsrfState, minute, verify_and_consume, allow_auth_attempt}
use myworktree.Portal.Csrf.Steps.{Event, run, step, By, Without, auth_attempt}
use myworktree.Portal.Csrf.Once.{accepted_once}
use myworktree.Portal.Auth.{
  Request, granted, extract_token, check_auth, get_ip, sign_in, handle_auth,
}

-- A request is authorized exactly when the server has a token and the request carries it.
pub check_auth_iff :
    (auth_token : String) (r : Request)
    → (check_auth auth_token r ≡ true) ↔ ((auth_token ≢ "") × (extract_token r ≡ auth_token))
unfolding check_auth
check_auth_iff auth_token r =
    ground (arith, eq_iff (extract_token r) "", eq_iff (extract_token r) auth_token)

-- What a request has shown by the time that `handleAuth` lets it in.
pub record Admitted (auth_token : String) (now : ℕ) (r : Request) (s : CsrfState) : Type 0 where
  pub is_post : r.method ≡ "POST"
  pub configured : auth_token ≢ ""
  pub within_limit : (allow_auth_attempt (get_ip r) now s).0 ≡ true
  pub csrf : String
  pub body_token : r.body ≡ some (auth_token, csrf)
  pub cookie : String
  pub csrf_cookie : lookup "mw_csrf" r.cookies ≡ some cookie
  pub consumed :
      (verify_and_consume cookie csrf now (allow_auth_attempt (get_ip r) now s).1).0 ≡ true

-- the part of it that the checks behind the rate limit see, in the state that the limit leaves
record Shown (auth_token : String) (now : ℕ) (r : Request) (s : CsrfState) : Type 0 where
  csrf : String
  body_token : r.body ≡ some (auth_token, csrf)
  cookie : String
  csrf_cookie : lookup "mw_csrf" r.cookies ≡ some cookie
  consumed : (verify_and_consume cookie csrf now s).0 ≡ true

sign_in-Shown :
    (auth_token : String) (now : ℕ) (r : Request) (s : CsrfState)
    → (sign_in auth_token now r s).0 ≡ granted
    → Shown auth_token now r s
unfolding sign_in
sign_in-Shown auth_token now r s h = elim (Option-cases r.body) [
  | inl e ↦ absurd (ground arith)
  | inr ((token, csrf), e) ↦ elim (Option-cases (lookup "mw_csrf" r.cookies)) [
    | inl e' ↦ absurd (ground arith)
    | inr (cookie, e') ↦ record {
      csrf = csrf;
      body_token = ground (arith, eq_iff token auth_token);
      cookie = cookie;
      csrf_cookie = e';
      consumed = ground arith;
    }
  ]
]

-- `handleAuth` gives the cookie only to a POST within the rate limit that carries the server's
-- token, which is not empty, and a CSRF cookie that its body consumes.
pub granted-Admitted :
    (auth_token : String) (now : ℕ) (r : Request) (s : CsrfState)
    → (handle_auth auth_token now r s).0 ≡ granted
    → Admitted auth_token now r s
unfolding handle_auth
granted-Admitted auth_token now r s h = record {
  is_post = ground (arith, eq_iff r.method "POST");
  configured = ground (arith, eq_iff auth_token "");
  within_limit = ground arith;
  csrf = shown.csrf;
  body_token = shown.body_token;
  cookie = shown.cookie;
  csrf_cookie = shown.csrf_cookie;
  consumed = shown.consumed;
}
  where
    shown : Shown auth_token now r (allow_auth_attempt (get_ip r) now s).1
    shown = sign_in-Shown auth_token now r (allow_auth_attempt (get_ip r) now s).1 (ground arith)

run-snoc :
    (es : List (ℕ × Event)) (now : ℕ) (e : Event) (s : CsrfState)
    → run (es ++ ((now, e) ∷ [])) s ≡ step now e (run es s)
unfolding run
run-snoc [] now e s = refl
run-snoc ((at, d) ∷ es) now e s = run-snoc es now e (step at d s)

By-snoc :
    (until : ℕ) (es : List (ℕ × Event)) (now : ℕ) (e : Event)
    → By until es
    → now ≤ until
    → By until (es ++ ((now, e) ∷ []))
unfolding By
By-snoc until [] now e by le = (le, tt)
By-snoc until ((at, d) ∷ es) now e (h, by) le = (h, By-snoc until es now e by le)

Without-snoc :
    (token : String) (es : List (ℕ × Event)) (now : ℕ) (ip : String)
    → Without token es
    → Without token (es ++ ((now, auth_attempt ip) ∷ []))
unfolding Without
Without-snoc token [] now ip w = ((λ h. h), tt)
Without-snoc token ((at, d) ∷ es) now ip (h, w) = (h, Without-snoc token es now ip w)

sign_in-state :
    (auth_token : String) (now : ℕ) (r : Request) (s : CsrfState) (token csrf cookie : String)
    → r.body ≡ some (token, csrf)
    → lookup "mw_csrf" r.cookies ≡ some cookie
    → (sign_in auth_token now r s).1 ≡ (verify_and_consume cookie csrf now s).1
unfolding sign_in
sign_in-state auth_token now r s token csrf cookie b c = ground (arith, b, c)

granted-state :
    (auth_token : String) (now : ℕ) (r : Request) (s : CsrfState)
    → (handle_auth auth_token now r s).0 ≡ granted
    → (handle_auth auth_token now r s).1
      ≡ (sign_in auth_token now r (allow_auth_attempt (get_ip r) now s).1).1
unfolding handle_auth
granted-state auth_token now r s h = ground arith

consumed_again :
    (token body again ip : String) (t now : ℕ) (es : List (ℕ × Event)) (s : CsrfState)
    → (verify_and_consume token body t s).0 ≡ true
    → By (t + 5 * minute) es
    → Without token es
    → now ≤ t + 5 * minute
    → (verify_and_consume token again now
        (allow_auth_attempt ip now (run es (verify_and_consume token body t s).1)).1).0
      ≡ false
unfolding step
consumed_again token body again ip t now es s h by new le =
    rw (sym (run-snoc es now (auth_attempt ip) (verify_and_consume token body t s).1)) (
      accepted_once token body again t now (es ++ ((now, auth_attempt ip) ∷ [])) s h
        (By-snoc (t + 5 * minute) es now (auth_attempt ip) by le) (Without-snoc token es now ip new)
        le)

-- A sign-in with the CSRF cookie of an earlier sign-in is refused for five minutes, whatever
-- operations run in between, as long as the generator does not draw the same token anew.
pub replay-refused :
    (auth_token : String) (t now : ℕ) (r again : Request) (es : List (ℕ × Event)) (s : CsrfState)
    → (handle_auth auth_token t r s).0 ≡ granted
    → (token : String) → lookup "mw_csrf" r.cookies ≡ some token
    → lookup "mw_csrf" again.cookies ≡ some token
    → By (t + 5 * minute) es
    → Without token es
    → now ≤ t + 5 * minute
    → (handle_auth auth_token now again (run es (handle_auth auth_token t r s).1)).0 ≢ granted
replay-refused auth_token t now r again es s h token c c' by new le h' =
    let first = granted-Admitted auth_token t r s h in
    let s1 = (allow_auth_attempt (get_ip r) t s).1 in
    let second =
      granted-Admitted auth_token now again (run es (handle_auth auth_token t r s).1) h' in
    let same : first.cookie ≡ token = ground (arith, first.csrf_cookie) in
    let same' : second.cookie ≡ token = ground (arith, second.csrf_cookie) in
    let state : (handle_auth auth_token t r s).1 ≡ (verify_and_consume token first.csrf t s1).1 =
      granted-state auth_token t r s h
      ∙ sign_in-state auth_token t r s1 auth_token first.csrf token first.body_token c in
    let used : (verify_and_consume token first.csrf t s1).0 ≡ true = rw (sym same) first.consumed in
    absurd (
      ground (
        arith,
        state,
        same',
        second.consumed,
        consumed_again token first.csrf second.csrf (get_ip again) t now es s1 used by new le,
      ))
