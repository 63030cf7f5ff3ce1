-- ===== src/Dsh/Auth.antt =====
-- internal/instance/dsh_web/auth.go: the cookie for upstream, and `dial` of bridge.go, which uses it. Times
-- are nanoseconds; a call of `Cookie` reads the clock once.
pub mod Retried
mod Tests
use Prim.Native.Char.{code}
use myworktree.Prelude.{
  ℕ, ◌+◌, ◌*◌, Bool, true, false, not, ◌&&◌, ◌||◌, Option, none, some, String, List, [], ◌∷◌, ◌++◌,
  str_eq, ltb, leb, ◌==◌, if◌then◌else◌, starts_with, before_code,
}

abbrev pub second : ℕ
second = 1000000000

abbrev pub upstream_cookie_fresh_for : ℕ
upstream_cookie_fresh_for = 12 * 3600 * second

abbrev pub invalidate_throttle : ℕ
invalidate_throttle = 5 * second

-- `upstreamAuth`; an empty cookie has no time. `last_invalidate` is `none` for the zero time.
pub record UpstreamAuth : Type 0 where
  pub token : String
  pub cookie : String
  pub minted_at : ℕ
  pub last_invalidate : Option ℕ

-- what the exchange of the token gives: no response, or a status with its Set-Cookie headers
pub data Exchange : Type 0 where
  unreachable : Exchange
  answered : ℕ → List String → Exchange

pub data AuthError : Type 0 where
  exchange_failed : AuthError
  unexpected_status : ℕ → AuthError
  no_cookie : AuthError

abbrev pub enabled : UpstreamAuth → Bool
enabled a = not (str_eq a.token "")

abbrev or_all : String → Option String → String
or_all s none = s
or_all s (some t) = t

-- what stands after the first `=`
value_of : String → Option String
value_of String.[] = none
value_of (String.◌∷◌ c s) = let rest = value_of s in if code c == 61 then some s else rest

abbrev has_value : Option String → Bool
has_value none = false
has_value (some v) = not (str_eq v "")

-- a header's pair, if it is the session's cookie; its name stands before the `=`
unfoldable pub session_pair : String → Option String
unfolding value_of before_code
session_pair header =
    let pair = or_all header (before_code 59 header) in
    if has_value (value_of pair) && starts_with "dsh-auth-" (or_all pair (before_code 61 pair))
    then some pair
    else none

unfoldable pub first_pair : List String → Option String
first_pair [] = none
first_pair (h ∷ hs) =
    let rest = first_pair hs in elim (session_pair h) [ none ↦ rest | some p ↦ some p ]

-- a cookie (empty where none is needed), or why there is none
pub data CookieResult : Type 0 where
  cookie_ok : String → CookieResult
  cookie_err : AuthError → CookieResult

abbrev kept_pair : Option String → ℕ → UpstreamAuth → CookieResult × UpstreamAuth
kept_pair none now a = (cookie_err no_cookie, a)
kept_pair (some pair) now a = (cookie_ok pair, record a { cookie = pair; minted_at = now })

unfoldable pub mint_locked : Exchange → ℕ → UpstreamAuth → CookieResult × UpstreamAuth
mint_locked unreachable now a = (cookie_err exchange_failed, a)
mint_locked (answered status headers) now a =
    if not (status == 303)
    then (cookie_err (unexpected_status status), a)
    else kept_pair (first_pair headers) now a

unfoldable pub cached_locked : ℕ → UpstreamAuth → String
cached_locked now a =
    if str_eq a.cookie "" || leb (a.minted_at + upstream_cookie_fresh_for) now then "" else a.cookie

-- `Cookie`, where an exchange would give `e`
unfoldable pub get_cookie : Exchange → ℕ → UpstreamAuth → CookieResult × UpstreamAuth
unfolding cached_locked mint_locked
get_cookie e now a =
    let cached = cached_locked now a in
    if not (enabled a)
    then (cookie_ok "", a)
    else if not (str_eq cached "")
    then (cookie_ok cached, a)
    else mint_locked e now a

abbrev pub is_throttled : ℕ → Option ℕ → Bool
is_throttled now none = false
is_throttled now (some last) = ltb now (last + invalidate_throttle)

unfoldable pub invalidate : ℕ → UpstreamAuth → UpstreamAuth
invalidate now a =
    if not (enabled a) || is_throttled now a.last_invalidate
    then a
    else record a { cookie = ""; minted_at = 0; last_invalidate = some now }

-- how a dial of the mux ends: open, refused by a status (`DialError`), or otherwise
pub data DialOutcome : Type 0 where
  connected : DialOutcome
  refused : ℕ → DialOutcome
  broken : DialOutcome

pub data Ending : Type 0 where
  dialled : DialOutcome → Ending
  unsigned : AuthError → Ending

-- The end of `dial`, with the Cookie headers that it has sent, in order.
pub record DialRun : Type 0 where
  pub ending : Ending
  pub auth : UpstreamAuth
  pub sent : List (Option String)

-- the header for a cookie
abbrev pub header_of : UpstreamAuth → String → Option String
header_of a c = if enabled a then some c else none

-- the second dial, with its header
unfoldable pub redial :
    (Option String → DialOutcome) → List (Option String) → CookieResult × UpstreamAuth → DialRun
redial ws_dial sent (cookie_err e, a) = record { ending = unsigned e; auth = a; sent = sent }
redial ws_dial sent (cookie_ok c, a) = record {
  ending = dialled (ws_dial (header_of a c));
  auth = a;
  sent = sent ++ (header_of a c ∷ []);
}

abbrev pub is_unauthorized : DialOutcome → Bool
is_unauthorized (refused status) = status == 401
is_unauthorized _ = false

-- the first dial, and the second one if the first is refused as unauthorized
unfoldable pub first_dial :
    (Bool → Exchange)
    → (Bool → Option String → DialOutcome)
    → ℕ
    → ℕ
    → CookieResult × UpstreamAuth
    → DialRun
unfolding redial get_cookie invalidate
first_dial exchange ws_dial now' now'' (cookie_err e, a) = record {
  ending = unsigned e;
  auth = a;
  sent = [];
}
first_dial exchange ws_dial now' now'' (cookie_ok c, a) =
    let header = header_of a c in
    let outcome = ws_dial true header in
    if is_unauthorized outcome
    then redial (ws_dial false) (header ∷ [])
        (get_cookie (exchange false) now'' (invalidate now' a))
    else record { ending = dialled outcome; auth = a; sent = header ∷ [] }

-- `dial` of a bridge that has a sign-in: what the exchanges and the dials give is an argument, by whether
-- it is the first or the second time, and so are the clock's readings.
unfoldable pub dial :
    (Bool → Exchange) → (Bool → Option String → DialOutcome) → ℕ → ℕ → ℕ → UpstreamAuth → DialRun
unfolding first_dial get_cookie
dial exchange ws_dial now now' now'' a =
    first_dial exchange ws_dial now' now'' (get_cookie (exchange true) now a)
