-- ===== src/App/Access/Login.antt =====
-- Where the page for signing in leads, and to whom it gives a cookie.
use myworktree.Prelude.{
  ◌≡◌, ◌≢◌, true, false, Option, none, some, String, str_append, arith, contains, after_prefix,
  starts_with, ap,
}
use text.Mathlib.TextLemmas.{nil-append, cons-append}
use myworktree.App.Access.{Request, LoginReply, page, redirected, failed, extract_auth_token}

pub after_prefix-append : (p s : String) → after_prefix p (str_append p s) ≡ some s
unfolding after_prefix
after_prefix-append String.[] s = ap some (nil-append s)
after_prefix-append (String.◌∷◌ c p) s =
    rw (cons-append c p s) ground (arith, after_prefix-append p s)

contains_here : (sub s t : String) → after_prefix sub s ≡ some t → contains sub s ≡ true
unfolding contains
contains_here sub String.[] t h = ground (arith, h)
contains_here sub (String.◌∷◌ c s) t h = ground (arith, h)

pub contains-append : (sub a b : String) → contains sub (str_append a (str_append sub b)) ≡ true
unfolding contains
contains-append sub String.[] b =
    rw (nil-append (str_append sub b))
      (contains_here sub (str_append sub b) b (after_prefix-append sub b))
contains-append sub (String.◌∷◌ c a) b =
    rw (cons-append c a (str_append sub b)) ground (arith, contains-append sub a b)

-- A path that begins with one slash, not with two, and names no scheme. A backslash behind the slash is not
-- excluded, though browsers read it as another slash.
pub OneSlash : String → Type 0
OneSlash p =
    (starts_with "/" p ≡ true)
    × (starts_with "//" p ≡ false)
    × ((a b : String) → p ≢ str_append a (str_append "://" b))

-- The page and the redirects lead to paths with one slash, and only one who knows the server's token
-- is redirected; a cookie that goes with the redirect carries that token.
pub Safe : Option String → Request → LoginReply → Type 0
Safe cfg r (page next) = OneSlash next
Safe cfg r (redirected next none) = OneSlash next × (cfg ≡ some (extract_auth_token r))
Safe cfg r (redirected next (some k)) = OneSlash next × (cfg ≡ some k.value)
Safe cfg r (failed status) = Unit
