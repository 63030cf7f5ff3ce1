-- ===== src/Portal/Auth.antt =====
-- The sign-in handlers of internal/portal/portal.go: who a request is from, which token it carries,
-- and the decisions of `handleCSRFToken`, `handleAuth`, `handleLogout` and `withAuth`.
pub mod SignIn
use myworktree.Prelude.{
  ℕ, Bool, true, false, not, Option, none, some, String, Assoc, lookup, str_eq, if◌then◌else◌,
  after_prefix, before_code, trim_space,
}
use myworktree.Portal.Csrf.{
  CsrfState, generate, verify_and_consume, allow_csrf_request, allow_auth_attempt,
}

-- What the handlers read of a request. A header that is not there reads as the empty string;
-- `remote_host` is what `net.SplitHostPort` makes of the address, and `body` the decoded JSON body,
-- with the token and the CSRF token.
pub record Request : Type 0 where
  pub method : String
  pub authorization : String
  pub forwarded_for : String
  pub query_token : String
  pub cookies : Assoc String
  pub remote_addr : String
  pub remote_host : Option String
  pub body : Option (String × String)

-- `Set-Cookie: mw_token` is set to the server's token (`granted`) or cleared (`cleared`).
pub data Reply : Type 0 where
  refused : ℕ → Reply
  csrf_issued : String → Reply
  granted : Reply
  cleared : Reply

abbrev or_default : String → Option String → String
or_default s none = s
or_default s (some t) = t

unfoldable pub extract_token : Request → String
extract_token r = elim (after_prefix "Bearer " r.authorization) [
  | some token ↦ token
  | none ↦
      if str_eq r.query_token "" then or_default "" (lookup "mw_token" r.cookies) else r.query_token
]

unfoldable pub check_auth : String → Request → Bool
check_auth auth_token r =
    let token = extract_token r in if str_eq token "" then false else str_eq token auth_token

unfoldable pub get_ip : Request → String
get_ip r =
    let xff = r.forwarded_for in
    if str_eq xff "" then or_default r.remote_addr r.remote_host else elim (before_code 44 xff) [
      | none ↦ or_default xff (before_code 32 xff)
      | some first ↦ trim_space first
    ]

-- `withAuth(next)`; the token's cookie, which an authorized reply sets again, is left out
unfoldable pub with_auth : String → (Request → Reply) → Request → Reply
with_auth auth_token next r = if check_auth auth_token r then next r else refused 401

issue : String × CsrfState → Reply × CsrfState
issue (token, s) = (if str_eq token "" then refused 503 else csrf_issued token, s)

unfoldable pub handle_csrf_token :
    (CsrfState → CsrfState) → String → ℕ → Request → CsrfState → Reply × CsrfState
unfolding issue
handle_csrf_token others fresh now r s =
    let allowed = allow_csrf_request (get_ip r) now s in
    if not (str_eq r.method "GET")
    then (refused 405, s)
    else if not allowed.0
    then (refused 429, allowed.1)
    else issue (generate others fresh now allowed.1)

-- the checks of `handleAuth` behind its rate limit
sign_in : String → ℕ → Request → CsrfState → Reply × CsrfState
sign_in auth_token now r s = elim r.body [
  | none ↦ (refused 400, s)
  | some (token, csrf) ↦ elim (lookup "mw_csrf" r.cookies) [
    | none ↦ (refused 403, s)
    | some cookie ↦
        let verified = verify_and_consume cookie csrf now s in
        if not verified.0
        then (refused 403, verified.1)
        else if not (str_eq token auth_token)
        then (refused 401, verified.1)
        else (granted, verified.1)
  ]
]

unfoldable pub handle_auth : String → ℕ → Request → CsrfState → Reply × CsrfState
unfolding sign_in
handle_auth auth_token now r s =
    let attempt = allow_auth_attempt (get_ip r) now s in
    if not (str_eq r.method "POST")
    then (refused 405, s)
    else if str_eq auth_token ""
    then (refused 400, s)
    else if not attempt.0
    then (refused 429, attempt.1)
    else sign_in auth_token now r attempt.1

unfoldable pub handle_logout : ℕ → Request → CsrfState → Reply × CsrfState
handle_logout now r s = if not (str_eq r.method "POST") then (refused 405, s) else elim r.body [
  | none ↦ (refused 400, s)
  | some (token, csrf) ↦ elim (lookup "mw_csrf" r.cookies) [
    | none ↦ (refused 403, s)
    | some cookie ↦
        let verified = verify_and_consume cookie csrf now s in
        if verified.0 then (cleared, verified.1) else (refused 403, verified.1)
  ]
]
