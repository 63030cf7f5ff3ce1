-- ===== src/Version.antt =====
-- The version gates of the instance kinds: internal/instance/dsh_web/version.go, and
-- internal/instance/opencode_web/version.go, which compares in the same way.
pub mod Ordered
mod Tests
use Prim.Native.Char.{Char, code}
use myworktree.Prelude.{
  ℕ, Bool, true, false, not, ◌&&◌, ◌||◌, Option, none, some, String, List, [], ◌∷◌, str_eq,
  str_append, leb, ◌==◌, if◌then◌else◌, ℤ, pos, negsuc, ltb_int,
}
use myworktree.Git.Text.{atoi}

abbrev is_digit : ℕ → Bool
is_digit c = leb 48 c && leb c 57

-- the digits at the beginning, and the rest
span_digits : String → String × String
span_digits String.[] = ("", "")
span_digits (String.◌∷◌ c s) =
    let rest = span_digits s in
    if is_digit (code c) then (String.◌∷◌ c rest.0, rest.1) else ("", String.◌∷◌ c s)

-- the rest behind a dot
after_dot : String → Option String
after_dot String.[] = none
after_dot (String.◌∷◌ c s) = if code c == 46 then some s else none

-- `\d+` in front of what `next` finds in the rest
digits_then : {A : Type 0} → (String → String → Option A) → String → Option A
digits_then next s =
    let parts = span_digits s in if str_eq parts.0 "" then none else next parts.0 parts.1

dotted : String → String → String
dotted a b = str_append a (str_append "." b)

dot_then : {A : Type 0} → (String → Option A) → String → Option A
dot_then next s = elim (after_dot s) [ none ↦ none | some r ↦ next r ]

-- `(\d+)\.(\d+)\.(\d+)` at the beginning of a text; the digits are never given back, since no digit is
-- a dot
match_here : String → Option String
match_here = digits_then (λ a.
    dot_then (digits_then (λ b. dot_then (digits_then (λ c rest. some (dotted a (dotted b c)))))))

-- the first match of the pattern, `none` where there is none
unfoldable pub parse_version : String → Option String
unfolding match_here digits_then dot_then dotted after_dot span_digits
parse_version String.[] = none
parse_version (String.◌∷◌ c s) =
    let later = parse_version s in
    elim (match_here (String.◌∷◌ c s)) [ none ↦ later | some v ↦ some v ]

-- `strings.SplitN(v, ".", n)` for two parts: what stands before and after the first dot
cut_dot : String → Option (String × String)
cut_dot String.[] = none
cut_dot (String.◌∷◌ c s) =
    if code c == 46
    then some ("", s)
    else elim (cut_dot s) [ none ↦ none | some (a, b) ↦ some (String.◌∷◌ c a, b) ]

pub record Core : Type 0 where
  pub major : ℤ
  pub minor : ℤ
  pub patch : ℤ

numbers : Option ℤ → Option ℤ → Option ℤ → Option Core
numbers (some a) (some b) (some c) = some (record { major = a; minor = b; patch = c })
numbers _ _ _ = none

unfoldable pub split_version : String → Option Core
unfolding cut_dot numbers
split_version v = elim (cut_dot v) [
  | none ↦ none
  | some (a, rest) ↦ elim (cut_dot rest) [
    | none ↦ none
    | some (b, c) ↦ numbers (atoi a) (atoi b) (atoi c)
  ]
]

abbrev pub eq_int : ℤ → ℤ → Bool
eq_int a b = not (ltb_int a b) && not (ltb_int b a)

-- the loop of `versionLess` over the three numbers
unfoldable pub core_less : Core → Core → Bool
core_less a b =
    if not (eq_int a.major b.major)
    then ltb_int a.major b.major
    else if not (eq_int a.minor b.minor)
    then ltb_int a.minor b.minor
    else if not (eq_int a.patch b.patch)
    then ltb_int a.patch b.patch
    else false

unfoldable pub less_of : Option Core → Option Core → Bool
unfolding core_less
less_of (some a) (some b) = core_less a b
less_of _ _ = false

unfoldable pub version_less : String → String → Bool
unfolding split_version less_of
version_less a b = less_of (split_version a) (split_version b)

abbrev pub min_version : String
min_version = "0.2.0"

abbrev pub supported_max_version : String
supported_max_version = "0.3.0"

abbrev pub min_remote_version : String
min_remote_version = "0.2.0"

-- a gate that lets an empty version and one without a core pass
gate : (String → Bool) → String → Bool
gate check v =
    if str_eq v "" then true else elim (parse_version v) [ none ↦ true | some core ↦ check core ]

-- `isSupportedVersion` of dsh_web
unfoldable pub is_supported_version : String → Bool
unfolding gate parse_version version_less
is_supported_version v =
    gate (λ core. not (version_less core min_version) && version_less core supported_max_version) v

unfoldable pub hard_version_ok : String → Bool
unfolding gate parse_version version_less
hard_version_ok v = gate (λ core. not (version_less core min_version)) v

unfoldable pub is_remote_capable : String → Bool
unfolding gate parse_version version_less
is_remote_capable v = gate (λ core. not (version_less core min_remote_version)) v

-- `isSupportedVersion` of opencode_web
unfoldable pub is_supported_opencode : String → Bool
unfolding version_less
is_supported_opencode v =
    if str_eq v "" then true else not (version_less v "1.18.0") && version_less v "1.19.0"
