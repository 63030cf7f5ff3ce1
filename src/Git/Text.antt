-- ===== src/Git/Text.antt =====
-- Texts that git writes: its answers, numbers (`strconv.ParseInt`, `Atoi`) and fields.
use Prim.Native.Char.{Char, code}
use myworktree.Prelude.{
  ℕ, ◌+◌, ◌*◌, ◌-◌, ◌^◌, Bool, true, false, ◌&&◌, Option, none, some, String, List, [], ◌∷◌, ltb,
  leb, ◌==◌, if◌then◌else◌, ℤ, pos, negsuc, is_space,
}

-- what a command prints, or the error's text
pub data Answer : Type 0 where
  out : String → Answer
  failed : String → Answer

-- The repository: `GitCommand` with these arguments, and its `Output`.
abbrev pub Git : Type 0
Git = List String → Answer

abbrev is_digit : ℕ → Bool
is_digit c = leb 48 c && leb c 57

digits : ℕ → String → Option ℕ
digits acc String.[] = some acc
digits acc (String.◌∷◌ c s) =
    let rest = digits (acc * 10 + (code c - 48)) s in if is_digit (code c) then rest else none

unsigned : String → Option ℕ
unsigned String.[] = none
unsigned (String.◌∷◌ c s) = digits 0 (String.◌∷◌ c s)

-- `strconv.ParseInt(s, 10, 64)`: the value, and whether there is no error
pub record Parsed : Type 0 where
  pub value : ℤ
  pub valid : Bool

abbrev invalid : Parsed
invalid = record { value = pos 0; valid = false }

-- Outside the range the value is the range's end.
abbrev positive : Option ℕ → Parsed
positive none = invalid
positive (some n) =
    if ltb n (2 ^ 63)
    then record { value = pos n; valid = true }
    else record { value = pos (2 ^ 63 - 1); valid = false }

abbrev negative : Option ℕ → Parsed
negative none = invalid
negative (some n) =
    if n == 0
    then record { value = pos 0; valid = true }
    else if leb n (2 ^ 63)
    then record { value = negsuc (n - 1); valid = true }
    else record { value = negsuc (2 ^ 63 - 1); valid = false }

unfoldable pub parse_int : String → Parsed
unfolding digits unsigned
parse_int String.[] = invalid
parse_int (String.◌∷◌ c s) =
    if code c == 45
    then negative (unsigned s)
    else if code c == 43
    then positive (unsigned s)
    else positive (unsigned (String.◌∷◌ c s))

abbrev value_of : Parsed → Option ℤ
value_of p = if p.valid then some p.value else none

-- `strconv.Atoi`
abbrev pub atoi : String → Option ℤ
atoi s = value_of (parse_int s)

-- a character in front of the fields of the text behind it, whose first field it joins or not
joined : Char → Bool → List String → List String
joined c true (f ∷ fs) = String.◌∷◌ c f ∷ fs
joined c _ fs = String.◌∷◌ c String.[] ∷ fs

-- whether a text begins inside a field, and its fields
fields_from : String → Bool × List String
unfolding joined
fields_from String.[] = (false, [])
fields_from (String.◌∷◌ c s) =
    let rest = fields_from s in
    if is_space (code c) then (false, rest.1) else (true, joined c rest.0 rest.1)

-- `strings.Fields`
unfoldable pub fields : String → List String
unfolding fields_from joined
fields s = (fields_from s).1
