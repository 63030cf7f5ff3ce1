-- ===== src/Worktree/Names.antt =====
-- Names of branches: `parseBranchSpec`, `slugify`, and the choice of a free name.
use Prim.Native.Char.{Char, code}
use Prim.Native.String.{count}
use myworktree.Prelude.{
  ℕ, zero, suc, ◌+◌, ◌-◌, ◌≡◌, subst, Bool, true, false, ◌&&◌, ◌||◌, Option, none, some, String,
  List, [], ◌∷◌, str_eq, str_append, ltb, leb, ◌==◌, if◌then◌else◌, trim_space, split_at_code,
  all_codes, show_nat, arith, Bool-cases, inl, inr,
}

-- `ContainsAny(s, " \t\n")`
has_blank : String → Bool
has_blank String.[] = false
has_blank (String.◌∷◌ c s) = code c == 32 || code c == 9 || code c == 10 || has_blank s

abbrev is_digit : ℕ → Bool
is_digit c = leb 48 c && leb c 57

abbrev is_lower : ℕ → Bool
is_lower c = leb 97 c && leb c 122

abbrev is_upper : ℕ → Bool
is_upper c = leb 65 c && leb c 90

abbrev is_alnum : ℕ → Bool
is_alnum c = is_digit c || is_lower c || is_upper c

abbrev is_token_code : ℕ → Bool
is_token_code c = is_alnum c || c == 46 || c == 95 || c == 45

-- `^[A-Za-z0-9][A-Za-z0-9._-]*$`
unfoldable pub is_branch_token : String → Bool
is_branch_token String.[] = false
is_branch_token (String.◌∷◌ c s) = is_alnum (code c) && all_codes is_token_code s

two_tokens : List String → Option (String × String)
two_tokens (p ∷ q ∷ []) =
    let g = trim_space p in
    let n = trim_space q in if is_branch_token g && is_branch_token n then some (g, n) else none
two_tokens _ = none

-- the group and the name; `none` is the answer with `ok` false, whose strings are empty
unfoldable pub parse_branch_spec : String → Option (String × String)
unfolding has_blank two_tokens
parse_branch_spec spec =
    let s = trim_space spec in
    if str_eq s "" || has_blank s then none else two_tokens (split_at_code 47 s)

-- the character at a place of a text
char_at_or : Char → ℕ → String → Char
char_at_or d n String.[] = d
char_at_or d zero (String.◌∷◌ c s) = c
char_at_or d (suc n) (String.◌∷◌ c s) = char_at_or d n s

-- `unicode.ToLower`, where the result is an ASCII letter: the capitals, and the two other characters
-- with such a lower case, U+0130 and the Kelvin sign U+212A. The rest matches `[^a-z0-9]` before and after.
lower_char : Char → Char
unfolding char_at_or
lower_char c =
    if is_upper (code c)
    then char_at_or c (code c - 65) "abcdefghijklmnopqrstuvwxyz"
    else if code c == 0x130
    then char_at_or c 0 "i"
    else if code c == 0x212a
    then char_at_or c 0 "k"
    else c

abbrev is_slug_code : ℕ → Bool
is_slug_code c = is_lower c || is_digit c

-- `ReplaceAllString(ToLower(s), "-")`: the flag tells that the run of other characters has its dash
dashed : Bool → String → String
dashed in_run String.[] = ""
dashed in_run (String.◌∷◌ c s) =
    let more = dashed true s in
    let rest = dashed false s in
    let l = lower_char c in
    if is_slug_code (code l)
    then String.◌∷◌ l rest
    else if in_run
    then more
    else str_append "-" more

-- `strings.Trim(s, "-")`
trim_left_dashes : String → String
trim_left_dashes String.[] = ""
trim_left_dashes (String.◌∷◌ c s) =
    let rest = trim_left_dashes s in if code c == 45 then rest else String.◌∷◌ c s

trim_right_dashes : String → String
trim_right_dashes String.[] = ""
trim_right_dashes (String.◌∷◌ c s) =
    let rest = String.◌∷◌ c (trim_right_dashes s) in
    if str_eq (trim_left_dashes (String.◌∷◌ c s)) "" then "" else rest

take_chars : ℕ → String → String
take_chars zero s = ""
take_chars (suc n) String.[] = ""
take_chars (suc n) (String.◌∷◌ c s) = String.◌∷◌ c (take_chars n s)

trim_dashes : String → String
trim_dashes s = trim_right_dashes (trim_left_dashes s)

unfoldable pub slugify : String → String
unfolding lower_char dashed trim_left_dashes trim_right_dashes take_chars trim_dashes
slugify s =
    let slug = trim_dashes (trim_dashes (dashed false s)) in
    if ltb 48 (count slug) then trim_dashes (take_chars 48 slug) else slug

-- `fmt.Sprintf("%s-%d", baseName, i)`
abbrev pub numbered : String → ℕ → String
numbered base i = str_append base (str_append "-" (show_nat i))

-- The loop that looks for a branch that does not exist: `name` is tried, then the numbers from `i` on.
-- `none` is the end of the fuel.
unfoldable pub free_name : (String → Bool) → String → ℕ → ℕ → String → Option String
free_name taken base zero i name = if taken name then none else some name
free_name taken base (suc fuel) i name =
    let rest = free_name taken base fuel (i + 1) (numbered base i) in
    if taken name then rest else some name

-- If one of the first numbers gives a name that is not taken, fuel for these numbers is enough, and
-- the loop returns a name that is not taken.
pub free_name-fuel :
    (taken : String → Bool) (base : String) (k i : ℕ) (name : String)
    → taken (numbered base (i + k)) ≡ false
    → (found : String) × (free_name taken base (suc k) i name ≡ some found) × (taken found ≡ false)
unfolding free_name
free_name-fuel taken base zero i name h = elim (Bool-cases (taken name)) [
  | inr e ↦ (name, ground (arith, e), e)
  | inl e ↦
      let free : taken (numbered base i) ≡ false =
        subst (λ j. taken (numbered base j) ≡ false) (omega arith) h in
      (numbered base i, ground (arith, e, free), free)
]
free_name-fuel taken base (suc k) i name h = elim (Bool-cases (taken name)) [
  | inr e ↦ (name, ground (arith, e), e)
  | inl e ↦
      let free : taken (numbered base (i + 1 + k)) ≡ false =
        subst (λ j. taken (numbered base j) ≡ false) (omega arith) h in
      let later = free_name-fuel taken base k (i + 1) (numbered base i) free in
      (later.0, rw e later.1, later.2)
]

-- A name that the loop returns is not taken.
pub free_name-free :
    (taken : String → Bool) (base : String) (fuel i : ℕ) (name found : String)
    → free_name taken base fuel i name ≡ some found
    → taken found ≡ false
unfolding free_name
free_name-free taken base zero i name found h = ground arith
free_name-free taken base (suc fuel) i name found h =
    ground (arith, free_name-free taken base fuel (i + 1) (numbered base i) found)
