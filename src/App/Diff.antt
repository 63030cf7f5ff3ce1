-- ===== src/App/Diff.antt =====
-- What internal/app/app.go reads of git's diffs, on bytes: `unquoteGitPath` and
-- `parseGitDiffNumStat`. An int is its two's complement pattern.
pub mod Quoting
pub mod Totals
mod Tests
use myworktree.Prelude.{
  ℕ, zero, suc, ◌+◌, ◌*◌, ◌-◌, ◌%◌, ◌^◌, Bool, true, false, not, ◌&&◌, ◌||◌, Option, none, some,
  List, [], ◌∷◌, ◌++◌, ltb, leb, ◌==◌, if◌then◌else◌, length, take, drop, get_elem?,
}
use myworktree.Worktree.Porcelain.{Bytes, split_lines, trim_space, is_empty}

-- Where the loop of `unquoteGitPath` stands: at a byte, behind a backslash, or in an octal escape
-- with the value read and the digits that may still follow.
pub data Mode : Type 0 where
  plain : Mode
  escaped : Mode
  octal : ℕ → ℕ → Mode

abbrev is_octal : ℕ → Bool
is_octal c = leb 48 c && leb c 55

abbrev from_plain : ℕ → Mode × Bytes
from_plain c = if c == 92 then (escaped, []) else (plain, c ∷ [])

abbrev from_escaped : ℕ → Mode × Bytes
from_escaped c =
    if c == 92
    then (plain, 92 ∷ [])
    else if c == 34
    then (plain, 34 ∷ [])
    else if c == 116
    then (plain, 9 ∷ [])
    else if c == 110
    then (plain, 10 ∷ [])
    else if is_octal c
    then (octal (c - 48) 2, [])
    else (plain, 92 ∷ c ∷ [])

-- `b.WriteByte(byte(val))`, then the next byte
abbrev written : ℕ → Mode × Bytes → Mode × Bytes
written val (m, out) = (m, (val % 256) ∷ out)

-- the next mode, and what one byte writes
unfoldable pub step : Mode → ℕ → Mode × Bytes
step plain c = from_plain c
step escaped c = from_escaped c
step (octal val zero) c = written val (from_plain c)
step (octal val (suc more)) c =
    if is_octal c then (octal (val * 8 + (c - 48)) more, []) else written val (from_plain c)

-- what the end of the text writes
abbrev pub flush : Mode → Bytes
flush plain = []
flush escaped = 92 ∷ []
flush (octal val more) = (val % 256) ∷ []

unfoldable pub unescape : Mode → Bytes → Bytes
unescape m [] = flush m
unescape m (c ∷ s) = let next = step m c in next.1 ++ unescape next.0 s

-- `p[1 : len(p)-1]` where `p[0]` and `p[len(p)-1]` are quotes
unfoldable pub inner : Bytes → Option Bytes
inner [] = none
inner (c ∷ s) =
    if leb 2 (length (c ∷ s)) && c == 34
    then elim (get_elem? s (length s - 1)) [
      | none ↦ none
      | some d ↦ if d == 34 then some (take (length s - 1) s) else none
    ]
    else none

unfoldable pub unquote_git_path : Bytes → Bytes
unquote_git_path p = elim (inner p) [ none ↦ p | some s ↦ unescape plain s ]

-- `strconv.Atoi`
digits : ℕ → Bytes → Option ℕ
digits acc [] = some acc
digits acc (c ∷ s) =
    let rest = digits (acc * 10 + (c - 48)) s in if leb 48 c && leb c 57 then rest else none

unsigned : Bytes → Option ℕ
unfolding digits
unsigned s = if is_empty s then none else digits 0 s

abbrev positive : Option ℕ → Option ℕ
positive none = none
positive (some n) = if ltb n (2 ^ 63) then some n else none

abbrev negative : Option ℕ → Option ℕ
negative none = none
negative (some n) = if leb n (2 ^ 63) then some ((2 ^ 64 - n) % 2 ^ 64) else none

unfoldable pub atoi : Bytes → Option ℕ
unfolding unsigned digits
atoi [] = none
atoi (c ∷ s) =
    if c == 45 then negative (unsigned s) else positive (unsigned (if c == 43 then s else c ∷ s))

-- what stands before and after the first tab
unfoldable pub cut_tab : Bytes → Option (Bytes × Bytes)
cut_tab [] = none
cut_tab (c ∷ s) =
    if c == 9
    then some ([], s)
    else elim (cut_tab s) [ none ↦ none | some (a, b) ↦ some (c ∷ a, b) ]

pub record Change : Type 0 where
  pub path : Bytes
  pub additions : ℕ
  pub deletions : ℕ

-- a count, where "-" stands for a binary file
abbrev is_dash : Bytes → Bool
is_dash (c ∷ []) = c == 45
is_dash _ = false

abbrev count_of : Bytes → Option ℕ
count_of s = if is_dash s then some 0 else atoi s

abbrev counted_path : Option ℕ → Option ℕ → Bytes → Option Change
counted_path (some adds) (some dels) path =
    if is_empty path
    then none
    else some (record { path = path; additions = adds; deletions = dels })
counted_path _ _ path = none

-- the body of the loop of `parseGitDiffNumStat`: what a line says, `none` where it is skipped
unfoldable pub change_of : Bytes → Option Change
unfolding cut_tab atoi unquote_git_path
change_of given =
    let line = trim_space given in
    if is_empty line then none else elim (cut_tab line) [
      | none ↦ none
      | some (a, more) ↦ elim (cut_tab more) [
        | none ↦ none
        | some (d, p) ↦ counted_path (count_of a) (count_of d) (unquote_git_path (trim_space p))
      ]
    ]

pub record Parsed : Type 0 where
  pub changes : List Change
  pub additions : ℕ
  pub deletions : ℕ

unfoldable pub add_change : Option Change → Parsed → Parsed
add_change none r = r
add_change (some c) r = record {
  changes = r.changes ++ (c ∷ []);
  additions = (r.additions + c.additions) % 2 ^ 64;
  deletions = (r.deletions + c.deletions) % 2 ^ 64;
}

unfoldable pub add_changes : List Bytes → Parsed → Parsed
add_changes [] r = r
add_changes (l ∷ ls) r = add_changes ls (add_change (change_of l) r)

unfoldable pub parse_git_diff_num_stat : Bytes → Parsed
unfolding add_changes
parse_git_diff_num_stat output =
    add_changes (split_lines output) (record { changes = []; additions = 0; deletions = 0 })
