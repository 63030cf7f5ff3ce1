-- ===== src/App/Preview.antt =====
-- The previews of files in internal/app/app.go: `handleWorktreeFileContent` and `handleWorktreeFileDiff`,
-- with what guards them. Paths are texts, and the content of files is bytes.
pub mod Added
pub mod Handlers
mod Tests
use myworktree.Prelude.{
  ℕ, ◌+◌, ◌*◌, Bool, true, false, not, ◌&&◌, ◌||◌, Option, none, some, String, str_append, List, [],
  ◌∷◌, ◌++◌, map, ltb, leb, ◌==◌, length, str_eq, starts_with, contains, clean, base, join, is_abs,
  if◌then◌else◌, take,
}
use Prim.Native.Char.{code}
use myworktree.Worktree.Porcelain.{Bytes, split_lines, decimal}

has_zero : Bytes → Bool
has_zero [] = false
has_zero (b ∷ bs) = b == 0 || has_zero bs

unfoldable pub is_binary_data : Bytes → Bool
unfolding has_zero
is_binary_data bs = has_zero (take 8192 bs)

-- `filepath.Abs` with the working directory
abbrev abs : String → String → String
abs cwd s = if is_abs s then clean s else join cwd s

unfoldable pub is_path_within : String → String → String → Bool
is_path_within cwd root path =
    let abs_root = abs cwd root in
    let abs_path = abs cwd (join root path) in
    starts_with (str_append abs_root "/") abs_path || str_eq abs_path abs_root

-- `strings.ToLower` of a character, as far as it matters to a comparison with an ASCII text
abbrev lower : ℕ → ℕ
lower c =
    if leb 65 c && leb c 90
    then c + 32
    else if c == 0x212a
    then 107
    else if c == 0x130
    then 105
    else c

-- whether a text begins with another when it is in lower case, whether it is the other, and whether it
-- contains it
lower_starts : String → String → Bool
lower_starts String.[] s = true
lower_starts (String.◌∷◌ c p) String.[] = false
lower_starts (String.◌∷◌ c p) (String.◌∷◌ d s) = (code c == lower (code d)) && lower_starts p s

lower_is : String → String → Bool
lower_is String.[] String.[] = true
lower_is String.[] (String.◌∷◌ d s) = false
lower_is (String.◌∷◌ c p) String.[] = false
lower_is (String.◌∷◌ c p) (String.◌∷◌ d s) = (code c == lower (code d)) && lower_is p s

lower_contains : String → String → Bool
lower_contains p String.[] = lower_starts p String.[]
lower_contains p (String.◌∷◌ c s) = lower_starts p (String.◌∷◌ c s) || lower_contains p s

ext_of : String → Option String
ext_of String.[] = none
ext_of (String.◌∷◌ c s) = elim (ext_of s) [
  | some e ↦ some e
  | none ↦ if (code c == 46) && not (contains "/" s) then some (String.◌∷◌ c s) else none
]

-- `filepath.Ext`
unfoldable pub ext : String → String
unfolding ext_of
ext s = elim (ext_of s) [ none ↦ "" | some e ↦ e ]

is_among : List String → String → Bool
is_among [] s = false
is_among (k ∷ ks) s = lower_is k s || is_among ks s

contains_one : List String → String → Bool
contains_one [] s = false
contains_one (k ∷ ks) s = lower_contains k s || contains_one ks s

unfoldable pub is_sensitive_file : String → Bool
unfolding lower_starts lower_is lower_contains is_among contains_one
is_sensitive_file path =
    let name = base path in
    if is_among (".env" ∷ ".pem" ∷ ".key" ∷ ".pfx" ∷ ".p12" ∷ []) (ext name)
    then true
    else if is_among ("id_rsa" ∷ "id_ed25519" ∷ "id_ecdsa" ∷ "id_dsa" ∷ []) name
    then true
    else if is_among ("id_rsa.pub" ∷ "id_ed25519.pub" ∷ "id_ecdsa.pub" ∷ "id_dsa.pub" ∷ []) name
    then false
    else if lower_is ".env" name || lower_starts ".env." name
    then true
    else contains_one ("secret" ∷ "token" ∷ "credential" ∷ "password" ∷ "private" ∷ []) path

unfoldable pub detect_file_type : String → String
unfolding lower_is is_among
detect_file_type path =
    if is_among (".md" ∷ ".markdown" ∷ []) (ext path)
    then "text/markdown"
    else if is_among
        (".go" ∷ ".js" ∷ ".ts" ∷ ".tsx" ∷ ".jsx" ∷ ".py" ∷ ".rs" ∷ ".java" ∷ ".c" ∷ ".cpp" ∷ ".h"
          ∷ ".hpp" ∷ ".html" ∷ ".css" ∷ ".scss" ∷ ".less" ∷ ".sass" ∷ ".json" ∷ ".yaml" ∷ ".yml"
          ∷ ".toml" ∷ ".sh" ∷ ".bash" ∷ ".zsh" ∷ ".vue" ∷ ".svelte" ∷ ".xml" ∷ ".svg" ∷ ".sql"
          ∷ ".dockerfile" ∷ [])
        (ext path)
    then "text/x-code"
    else "text/plain"

-- lines behind each other, each with a plus and a line break
unfoldable pub plus_lines : List Bytes → Bytes
plus_lines [] = []
plus_lines (l ∷ ls) = 43 ∷ (l ++ (10 ∷ plus_lines ls))

-- without the empty line that stands last
unfoldable pub whole_lines : List Bytes → List Bytes
whole_lines [] = []
whole_lines ([] ∷ []) = []
whole_lines ((b ∷ l) ∷ []) = (b ∷ l) ∷ []
whole_lines (l ∷ m ∷ ls) = l ∷ whole_lines (m ∷ ls)

-- "\ No newline at end of file"
abbrev pub no_newline : Bytes
no_newline =
    92 ∷ 32 ∷ 78 ∷ 111 ∷ 32 ∷ 110 ∷ 101 ∷ 119 ∷ 108 ∷ 105 ∷ 110 ∷ 101 ∷ 32 ∷ 97 ∷ 116 ∷ 32 ∷ 101
    ∷ 110 ∷ 100 ∷ 32 ∷ 111 ∷ 102 ∷ 32 ∷ 102 ∷ 105 ∷ 108 ∷ 101 ∷ 10 ∷ []

-- whether the last byte is something else than a line break
unfoldable pub ends_bare : Bytes → Bool
ends_bare [] = false
ends_bare (b ∷ []) = not (b == 10)
ends_bare (b ∷ c ∷ bs) = ends_bare (c ∷ bs)

-- what follows the header when a file is shown as added
unfoldable pub added_lines : Bytes → Bytes
added_lines bs =
    plus_lines (whole_lines (split_lines bs)) ++ (if ends_bare bs then no_newline else [])
