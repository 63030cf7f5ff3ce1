-- ===== src/Prelude/Text.antt =====
-- Go's `strings` functions over texts of code points, and `%d`.
use Prim.Native.Nat.{ℕ, zero, suc, ◌+◌, ◌/◌, ◌%◌}
use Prim.Native.Char.{Char, code}
use Prim.Native.String.{String, ◌++◌ as str_append}
use mathlib.Core.List.{List, [], ◌∷◌}
use myworktree.Prelude.Lists.{get_elem?}
use mathlib.Core.Option
use mathlib.Core.Option.{Option, none, some}
use mathlib.Core.Bool.{Bool, ◌||◌, ◌&&◌}
use myworktree.Prelude.Tests.{leb, ltb, ◌==◌, if◌then◌else◌}

-- `unicode.IsSpace`
abbrev pub is_space : ℕ → Bool
is_space c =
    leb 9 c && leb c 13
    || c == 32
    || c == 0x85
    || c == 0xa0
    || c == 0x1680
    || leb 0x2000 c && leb c 0x200a
    || c == 0x2028
    || c == 0x2029
    || c == 0x202f
    || c == 0x205f
    || c == 0x3000

trim_left : String → String
trim_left String.[] = String.[]
trim_left (String.◌∷◌ c s) =
    let rest = trim_left s in if is_space (code c) then rest else String.◌∷◌ c s

is_blank : String → Bool
is_blank s = elim (trim_left s) [ String.[] ↦ Bool.true | String.◌∷◌ c r ↦ Bool.false ]

-- drops the longest run of white space at the end
trim_right : String → String
trim_right String.[] = String.[]
trim_right (String.◌∷◌ c s) =
    let rest = String.◌∷◌ c (trim_right s) in if is_blank (String.◌∷◌ c s) then String.[] else rest

unfoldable pub trim_space : String → String
unfolding trim_left trim_right is_blank
trim_space s = trim_right (trim_left s)

-- `strings.HasPrefix`, and what follows the prefix
unfoldable pub after_prefix : String → String → Option String
after_prefix String.[] s = some s
after_prefix (String.◌∷◌ c p) String.[] = none
after_prefix (String.◌∷◌ c p) (String.◌∷◌ d s) =
    let rest = after_prefix p s in if code c == code d then rest else none

-- what stands before the first character of this code, if there is one
unfoldable pub before_code : ℕ → String → Option String
before_code k String.[] = none
before_code k (String.◌∷◌ c s) =
    let rest = before_code k s in
    if code c == k then some String.[] else Option.map (String.◌∷◌ c) rest

-- `strings.Split` at a separator of one character
cons_head : Char → List String → List String
cons_head c [] = String.◌∷◌ c String.[] ∷ []
cons_head c (s ∷ ss) = String.◌∷◌ c s ∷ ss

unfoldable pub split_at_code : ℕ → String → List String
unfolding cons_head
split_at_code k String.[] = String.[] ∷ []
split_at_code k (String.◌∷◌ c s) =
    let rest = split_at_code k s in if code c == k then String.[] ∷ rest else cons_head c rest

-- `strings.TrimPrefix`
unfoldable pub trim_prefix : String → String → String
trim_prefix p s = elim (after_prefix p s) [ none ↦ s | some rest ↦ rest ]

-- whether every character passes the test
unfoldable pub all_codes : (ℕ → Bool) → String → Bool
all_codes p String.[] = Bool.true
all_codes p (String.◌∷◌ c s) = p (code c) && all_codes p s

digit : ℕ → String
digit n =
    elim (get_elem? {A = String} ("0" ∷ "1" ∷ "2" ∷ "3" ∷ "4" ∷ "5" ∷ "6" ∷ "7" ∷ "8" ∷ "9" ∷ [])
      n) [ none ↦ "0" | some d ↦ d ]

decimal_from : ℕ → ℕ → String
decimal_from zero n = digit (n % 10)
decimal_from (suc fuel) n =
    let front = decimal_from fuel (n / 10) in
    if ltb n 10 then digit n else str_append front (digit (n % 10))

-- `%d`
unfoldable pub show_nat : ℕ → String
unfolding digit decimal_from
show_nat n = decimal_from n n

abbrev pub starts_with : String → String → Bool
starts_with p s = elim (after_prefix p s) [ none ↦ Bool.false | some rest ↦ Bool.true ]

-- `strings.Contains(s, sub)`
unfoldable pub contains : String → String → Bool
contains sub String.[] = starts_with sub String.[]
contains sub (String.◌∷◌ c s) = starts_with sub (String.◌∷◌ c s) || contains sub s

-- an ASCII letter as the small one; U+212A and U+017F fold to k and s
abbrev fold : ℕ → ℕ
fold c =
    if leb 65 c && leb c 90
    then c + 32
    else if c == 0x212a
    then 107
    else if c == 0x17f
    then 115
    else c

-- `strings.EqualFold` where one of the texts is ASCII
unfoldable pub equal_fold : String → String → Bool
equal_fold String.[] String.[] = Bool.true
equal_fold String.[] (String.◌∷◌ d t) = Bool.false
equal_fold (String.◌∷◌ c s) String.[] = Bool.false
equal_fold (String.◌∷◌ c s) (String.◌∷◌ d t) = fold (code c) == fold (code d) && equal_fold s t
