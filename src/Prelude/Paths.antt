-- ===== src/Prelude/Paths.antt =====
-- Go's filepath on Unix: `Clean`, `Base`, `Dir`, `Join` and `IsAbs`.
use Prim.Native.String.{String, ◌++◌ as str_append}
use mathlib.Core.Bool.{Bool, true, false, ◌||◌}
use mathlib.Core.List.{List, [], ◌∷◌}
use mathlib.Core.Option.{none, some}
use mathlib.Core.Path.{◌≡◌, refl}
use text.Mathlib.Text.{◌==◌ as str_eq}
use myworktree.Prelude.Tests.{if◌then◌else◌}
use myworktree.Prelude.Text.{split_at_code, after_prefix}

unfoldable pub is_abs : String → Bool
is_abs s = elim (after_prefix "/" s) [ none ↦ false | some rest ↦ true ]

-- `..` at the end of the kept segments, the last of them first
up : Bool → List String → List String
up rooted [] = if rooted then [] else ".." ∷ []
up rooted (s ∷ ss) = if str_eq s ".." then ".." ∷ s ∷ ss else ss

-- the segments that `Clean` keeps, the last of them first
kept : Bool → List String → List String → List String
kept rooted acc [] = acc
kept rooted acc (s ∷ ss) =
    kept rooted
      (if str_eq s "" || str_eq s "."
        then acc
        else if str_eq s ".."
        then up rooted acc
        else s ∷ acc)
      ss

-- the reversed segments before a text that follows a slash
join_reversed : List String → String → String
join_reversed [] tail = tail
join_reversed (s ∷ ss) tail = join_reversed ss (str_append s (str_append "/" tail))

joined : List String → String
joined [] = ""
joined (s ∷ ss) = join_reversed ss s

unfoldable pub clean : String → String
unfolding up kept join_reversed joined
clean s =
    let rooted = is_abs s in
    let body = joined (kept rooted [] (split_at_code 47 s)) in
    if rooted then str_append "/" body else if str_eq body "" then "." else body

-- the last segment that is not empty
last_segment : List String → String → String
last_segment [] found = found
last_segment (s ∷ ss) found = last_segment ss (if str_eq s "" then found else s)

unfoldable pub base : String → String
unfolding last_segment
base s = if str_eq s "" then "." else last_segment (split_at_code 47 s) "/"

-- the text up to and with its last slash
up_to_slash : List String → String
up_to_slash [] = ""
up_to_slash (s ∷ []) = ""
up_to_slash (s ∷ t ∷ ss) = str_append s (str_append "/" (up_to_slash (t ∷ ss)))

unfoldable pub dir : String → String
unfolding up_to_slash
dir s = clean (up_to_slash (split_at_code 47 s))

-- `Join` of two elements
unfoldable pub join : String → String → String
join a b =
    if str_eq a ""
    then (if str_eq b "" then "" else clean b)
    else if str_eq b ""
    then clean a
    else clean (str_append a (str_append "/" b))

cleaned : clean "/a//b/../c/./" ≡ "/a/c"
unfolding clean is_abs after_prefix split_at_code
cleaned = refl

parent : dir "/a/b/" ≡ "/a/b"
unfolding dir clean is_abs after_prefix split_at_code
parent = refl
