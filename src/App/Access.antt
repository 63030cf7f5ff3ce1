-- ===== src/App/Access.antt =====
-- Who may use the server, in internal/app/app.go: `withAuth`, `handleLogin` and what they rest on.
pub mod Entitled
pub mod Login
pub mod Guesses
mod Tests
use myworktree.Prelude.{
  ℕ, ◌+◌, ◌*◌, ◌-◌, Bool, true, false, not, ◌&&◌, ◌||◌, Option, none, some, String, List, [], ◌∷◌,
  Assoc, lookup, insert, remove, str_eq, ltb, leb, ◌==◌, if◌then◌else◌, trim_space, trim_prefix,
  split_at_code, all_codes, contains, equal_fold, length,
}
use Prim.Native.Char.{code}

-- What the handlers read of a request. A header, a query value or a form value that is not there
-- reads as the empty string. `remote_host` is what `net.SplitHostPort` makes of the address,
-- `origin_host` what `url.Parse` makes of the Origin header (`none` for an error); `form` is the
-- posted token and next, where the form can be parsed.
pub record Request : Type 0 where
  pub method : String
  pub path : String
  pub accept : String
  pub authorization : String
  pub origin : String
  pub origin_host : Option String
  pub host : String
  pub forwarded_proto : String
  pub tls : Bool
  pub query_token : String
  pub query_next : String
  pub cookies : Assoc String
  pub remote_addr : String
  pub remote_host : Option String
  pub form : Option (String × String)

-- The cookie `mw_token`; its path, age, HttpOnly and SameSite are always the same.
pub record Cookie : Type 0 where
  pub value : String
  pub secure : Bool

-- What `withAuth` does: the next handler runs, with or without a new cookie, an error is answered, or
-- a redirect to the page for signing in, which is told the path to come back to.
pub data Verdict : Type 0 where
  passed : Option Cookie → Verdict
  refused : ℕ → Verdict
  sign_in : Option String → Verdict

abbrev or_default : String → Option String → String
or_default s none = s
or_default s (some t) = t

abbrev pub client_ip : Request → String
client_ip r = or_default r.remote_addr r.remote_host

-- one field of a dotted address: one to three digits, no leading zero, at most 255
digits_value : ℕ → String → ℕ
digits_value acc String.[] = acc
digits_value acc (String.◌∷◌ c s) = digits_value (acc * 10 + (code c - 48)) s

abbrev is_digit : ℕ → Bool
is_digit c = leb 48 c && leb c 57

leads_zero : String → Bool
leads_zero String.[] = false
leads_zero (String.◌∷◌ c String.[]) = false
leads_zero (String.◌∷◌ c (String.◌∷◌ d s)) = code c == 48

octet : String → Option ℕ
unfolding digits_value leads_zero all_codes
octet s =
    if str_eq s "" || not (all_codes is_digit s) || leads_zero s || ltb 255 (digits_value 0 s)
    then none
    else some (digits_value 0 s)

-- the first field of an address of four fields
first_octet : List String → Option ℕ
first_octet (a ∷ b ∷ c ∷ d ∷ []) = elim (octet b) [
  | none ↦ none
  | some _ ↦ elim (octet c) [
    | none ↦ none
    | some _ ↦ elim (octet d) [ none ↦ none | some _ ↦ octet a ]
  ]
]
first_octet _ = none

-- `net.ParseIP(host)` is a loopback address, for a host without a colon
abbrev is_loopback_ip4 : String → Bool
is_loopback_ip4 host = elim (first_octet (split_at_code 46 host)) [
  | none ↦ false
  | some n ↦ n == 127
]

unfoldable pub is_loopback_host : String → Bool
unfolding octet first_octet split_at_code
is_loopback_host given =
    let host = trim_space given in
    if str_eq host ""
    then false
    else if equal_fold host "localhost"
    then true
    else if contains ":" host
    then false
    else is_loopback_ip4 host

abbrev pub is_loopback_request : Request → Bool
is_loopback_request r = is_loopback_host (client_ip r)

unfoldable pub same_origin_host : Request → Bool
same_origin_host r =
    if str_eq (trim_space r.origin) ""
    then true
    else elim r.origin_host [ none ↦ false | some h ↦ equal_fold h r.host ]

unfoldable pub is_api_client : Request → Bool
is_api_client r = contains "application/json" r.accept || contains "text/event-stream" r.accept

unfoldable pub extract_auth_token : Request → String
extract_auth_token r =
    let bearer = trim_space (trim_prefix "Bearer " r.authorization) in
    let query = trim_space r.query_token in
    if not (str_eq bearer "")
    then bearer
    else if not (str_eq query "")
    then query
    else elim (lookup "mw_token" r.cookies) [ none ↦ "" | some v ↦ trim_space v ]

-- `authFail` and `s.authFails`
pub record AuthFail : Type 0 where
  pub count : ℕ
  pub window_end : ℕ

abbrev pub AuthFails : Type 0
AuthFails = Assoc AuthFail

abbrev pub minute : ℕ
minute = 60 * 1000000000

-- the record with this attempt counted; a missing one is the zero value, whose window is over
unfoldable pub counted : ℕ → Option AuthFail → AuthFail
counted now none = record { count = 1; window_end = now + minute }
counted now (some v) =
    if ltb v.window_end now
    then record { count = 1; window_end = now + minute }
    else record v { count = v.count + 1 }

unfoldable pub allow_auth_attempt : String → ℕ → AuthFails → Bool × AuthFails
allow_auth_attempt ip now s = let v = counted now (lookup ip s) in (leb v.count 20, insert ip v s)

unfoldable pub reset_auth_attempts : String → AuthFails → AuthFails
reset_auth_attempts ip s = remove ip s

-- `r.TLS != nil || X-Forwarded-Proto == "https"`
abbrev pub is_secure : Request → Bool
is_secure r = r.tls || str_eq r.forwarded_proto "https"

-- the token's check, behind the cases that need none
unfoldable pub check_token : String → ℕ → Request → AuthFails → Verdict × AuthFails
check_token auth_token now r s =
    let token = extract_auth_token r in
    let tried = allow_auth_attempt (client_ip r) now s in
    if not (str_eq token auth_token)
    then (
      (if not tried.0
          then refused 429
          else if is_api_client r
          then refused 401
          else sign_in (if str_eq r.path "/" then none else some r.path)),
      tried.1,
    )
    else (
      passed (
          if str_eq r.query_token ""
          then none
          else some (record { value = token; secure = is_secure r })),
      reset_auth_attempts (client_ip r) s,
    )

-- `withAuth`; `cfg` is the token of the configuration, `none` where it cannot be loaded
unfoldable pub with_auth : Option String → ℕ → Request → AuthFails → Verdict × AuthFails
with_auth cfg now r s =
    if is_loopback_request r
    then (passed none, s)
    else if not (same_origin_host r)
    then (refused 403, s)
    else if str_eq r.path "/login" || str_eq r.path "/api/csrf-token"
    then (passed none, s)
    else elim cfg [
      | none ↦ (refused 503, s)
      | some auth_token ↦
          if str_eq (trim_space auth_token) ""
          then (passed none, s)
          else check_token auth_token now r s
    ]

unfoldable pub is_valid_redirect_path : String → Bool
unfolding contains
is_valid_redirect_path String.[] = false
is_valid_redirect_path (String.◌∷◌ c String.[]) =
    code c == 47 && not (contains "://" (String.◌∷◌ c String.[]))
is_valid_redirect_path (String.◌∷◌ c (String.◌∷◌ d s)) =
    code c == 47 && not (code d == 47) && not (contains "://" (String.◌∷◌ c (String.◌∷◌ d s)))

-- The page for signing in, with where it leads then, a redirect with or without a cookie, or an error.
pub data LoginReply : Type 0 where
  page : String → LoginReply
  redirected : String → Option Cookie → LoginReply
  failed : ℕ → LoginReply

abbrev pub next_url : String → String
next_url next = if str_eq next "" || not (is_valid_redirect_path next) then "/" else next

-- `cfg != nil && token == cfg.AuthToken`
abbrev pub matches : Option String → String → Bool
matches none token = false
matches (some auth_token) token = str_eq token auth_token

unfoldable pub handle_login : Option String → Request → LoginReply
handle_login cfg r =
    if str_eq r.method "GET"
    then (let token = extract_auth_token r in
        if not (str_eq token "") && matches cfg token
        then redirected "/" none
        else page (next_url r.query_next))
    else if str_eq r.method "POST"
    then elim r.form [
      | none ↦ failed 400
      | some (posted, next) ↦
          let token = trim_space posted in
          if not (matches cfg token)
          then failed 401
          else redirected (next_url next) (some (record { value = token; secure = is_secure r }))
    ]
    else failed 405
