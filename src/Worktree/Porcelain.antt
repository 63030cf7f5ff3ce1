-- ===== src/Worktree/Porcelain.antt =====
-- The summary of `git status --porcelain` that refuses the deletion of a dirty worktree. The output
-- is a list of bytes; `strings.TrimSpace` is read on ASCII white space.
pub mod Summary
pub mod Summed
pub mod Digits
use myworktree.Prelude.{
  ℕ, zero, suc, ◌+◌, ◌-◌, ◌/◌, ◌%◌, Bool, true, false, not, ◌&&◌, ◌||◌, List, [], ◌∷◌, ◌++◌, ltb,
  leb, ◌==◌, if◌then◌else◌, length, take, drop,
}

abbrev pub Bytes : Type 0
Bytes = List ℕ

pub record DirtyWorktreeError : Type 0 where
  pub entries : ℕ
  pub deleted : ℕ
  pub modified : ℕ
  pub added : ℕ
  pub renamed : ℕ
  pub untracked : ℕ
  pub ignored : ℕ
  pub first_paths : List Bytes
  pub porcelain : Bytes

abbrev pub max_dirty_first_paths : ℕ
max_dirty_first_paths = 5

abbrev pub max_dirty_porcelain_lines : ℕ
max_dirty_porcelain_lines = 200

-- the first line and the others of a text after the byte `b`
cons_head : ℕ → List Bytes → List Bytes
cons_head b [] = (b ∷ []) ∷ []
cons_head b (l ∷ ls) = (b ∷ l) ∷ ls

-- `strings.Split(s, "\n")`
unfoldable pub split_lines : Bytes → List Bytes
unfolding cons_head
split_lines [] = [] ∷ []
split_lines (b ∷ bs) = let ls = split_lines bs in if b == 10 then [] ∷ ls else cons_head b ls

-- `strings.Join(ls, "\n")`
unfoldable pub join_lines : List Bytes → Bytes
join_lines [] = []
join_lines (l ∷ []) = l
join_lines (l ∷ m ∷ ls) = l ++ (10 ∷ join_lines (m ∷ ls))

abbrev is_space : ℕ → Bool
is_space b = leb 9 b && leb b 13 || b == 32

trim_left : Bytes → Bytes
trim_left [] = []
trim_left (b ∷ bs) = let rest = trim_left bs in if is_space b then rest else b ∷ bs

abbrev pub is_empty : Bytes → Bool
is_empty [] = true
is_empty (b ∷ bs) = false

trim_right : Bytes → Bytes
trim_right [] = []
trim_right (b ∷ bs) =
    let rest = b ∷ trim_right bs in if is_empty (trim_left (b ∷ bs)) then [] else rest

unfoldable pub trim_space : Bytes → Bytes
unfolding trim_left trim_right
trim_space bs = trim_right (trim_left bs)

-- `strings.ContainsAny(xy, c)` for one byte
unfoldable pub contains_byte : ℕ → Bytes → Bool
contains_byte c [] = false
contains_byte c (b ∷ bs) = b == c || contains_byte c bs

-- a prefix of two equal bytes, `"!!"` or `"??"`
unfoldable pub has_double : ℕ → Bytes → Bool
has_double c (a ∷ b ∷ bs) = a == c && b == c
has_double c _ = false

-- `xy` and `path` of a line
abbrev pub status_field : Bytes → Bytes
status_field line = if leb 3 (length line) then take 2 line else line

abbrev pub path_field : Bytes → Bytes
path_field line = if leb 3 (length line) then trim_space (drop 3 line) else []

-- `"??"` as a whole
abbrev is_untracked : Bytes → Bool
is_untracked xy = has_double 63 xy && length xy == 2

abbrev pub add_bucket : Bytes → DirtyWorktreeError → DirtyWorktreeError
add_bucket xy e =
    if is_untracked xy
    then record e { untracked = e.untracked + 1 }
    else if contains_byte 68 xy
    then record e { deleted = e.deleted + 1 }
    else if contains_byte 82 xy || contains_byte 67 xy
    then record e { renamed = e.renamed + 1 }
    else if contains_byte 65 xy
    then record e { added = e.added + 1 }
    else record e { modified = e.modified + 1 }

abbrev pub add_path : Bytes → DirtyWorktreeError → DirtyWorktreeError
add_path path e =
    if not (is_empty path) && ltb (length e.first_paths) max_dirty_first_paths
    then record e { first_paths = e.first_paths ++ (path ∷ []) }
    else e

-- the body of the loop of `summarizePorcelain`
unfoldable pub add_line : Bytes → DirtyWorktreeError → DirtyWorktreeError
add_line line e =
    if is_empty (trim_space line)
    then e
    else if has_double 33 line
    then e
    else add_path (path_field line)
        (add_bucket (status_field line) (record e { entries = e.entries + 1 }))

pub add_lines : List Bytes → DirtyWorktreeError → DirtyWorktreeError
add_lines [] e = e
add_lines (l ∷ ls) e = add_lines ls (add_line l e)

unfoldable pub summarize_porcelain : Bytes → DirtyWorktreeError → DirtyWorktreeError
unfolding add_lines
summarize_porcelain out e = add_lines (split_lines out) e

pub count_ignored : List Bytes → ℕ
count_ignored [] = 0
count_ignored (l ∷ ls) = let rest = count_ignored ls in if has_double 33 l then rest + 1 else rest

unfoldable pub count_ignored_porcelain : Bytes → ℕ
unfolding count_ignored
count_ignored_porcelain out = count_ignored (split_lines out)

-- `%d`: the digits of a number, with as much fuel as the number
pub decimal_from : ℕ → ℕ → Bytes
decimal_from zero n = (48 + n % 10) ∷ []
decimal_from (suc fuel) n =
    let front = decimal_from fuel (n / 10) in
    if ltb n 10 then (48 + n) ∷ [] else front ++ ((48 + n % 10) ∷ [])

unfoldable pub decimal : ℕ → Bytes
unfolding decimal_from
decimal n = decimal_from n n

-- "\n… (" as UTF-8, and the rest of the message
abbrev truncation : ℕ → Bytes
truncation rest =
    (10 ∷ 226 ∷ 128 ∷ 166 ∷ 32 ∷ 40 ∷ [])
    ++ decimal rest
    ++ (32 ∷ 109 ∷ 111 ∷ 114 ∷ 101 ∷ 32 ∷ [])
    ++ (if rest == 1 then 108 ∷ 105 ∷ 110 ∷ 101 ∷ [] else 108 ∷ 105 ∷ 110 ∷ 101 ∷ 115 ∷ [])
    ++ (32 ∷ 116 ∷ 114 ∷ 117 ∷ 110 ∷ 99 ∷ 97 ∷ 116 ∷ 101 ∷ 100 ∷ 41 ∷ [])

unfoldable pub cap_dirty_porcelain : Bytes → Bytes
unfolding split_lines join_lines
cap_dirty_porcelain out =
    let lines = split_lines out in
    let rest = length lines - max_dirty_porcelain_lines in
    if leb (length lines) max_dirty_porcelain_lines
    then out
    else join_lines (take max_dirty_porcelain_lines lines) ++ truncation rest
