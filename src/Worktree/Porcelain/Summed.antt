-- ===== src/Worktree/Porcelain/Summed.antt =====
-- What the refusal of a dirty worktree counts, against the lines that git has printed.
use myworktree.Prelude.{
  ℕ, ◌+◌, ◌≤◌, ◌≡◌, refl, ◌∙◌, Option, none, some, List, [], ◌∷◌, arith, length, if◌then◌else◌,
  take, ◌||◌,
}
use myworktree.Worktree.Porcelain.{
  Bytes, DirtyWorktreeError, add_line, add_lines, summarize_porcelain, split_lines,
  count_ignored_porcelain, count_ignored, is_empty, has_double, trim_space, contains_byte,
  cap_dirty_porcelain, max_dirty_porcelain_lines,
}
use myworktree.Worktree.Porcelain.Summary.{
  counted, buckets, empty_error, add_lines-Consistent, entries-add_lines,
}

-- how many lines begin with a mark twice, such as "??" or "!!"
pub doubled : ℕ → List Bytes → ℕ
doubled c [] = 0
doubled c (l ∷ ls) = let rest = doubled c ls in if has_double c l then rest + 1 else rest

-- how many of the other lines have a "D" in their two marks
pub deletions : List Bytes → ℕ
deletions [] = 0
deletions (l ∷ ls) =
    let rest = deletions ls in
    if is_empty (trim_space l) || has_double 33 l || has_double 63 l
    then rest
    else if contains_byte 68 (take 2 l)
    then rest + 1
    else rest

untracked-add_line :
    (l : Bytes) (e : DirtyWorktreeError)
    → (add_line l e).untracked ≡ (if has_double 63 l then e.untracked + 1 else e.untracked)
unfolding add_line has_double contains_byte trim_space
untracked-add_line [] e = ground arith
untracked-add_line (a ∷ []) e = ground arith
untracked-add_line (a ∷ b ∷ []) e = ground arith
untracked-add_line (a ∷ b ∷ c ∷ l) e = ground arith

deleted-add_line :
    (l : Bytes) (e : DirtyWorktreeError)
    → (add_line l e).deleted ≡ (
        if is_empty (trim_space l) || has_double 33 l || has_double 63 l
        then e.deleted
        else if contains_byte 68 (take 2 l)
        then e.deleted + 1
        else e.deleted)
unfolding add_line has_double
deleted-add_line [] e = ground arith
deleted-add_line (a ∷ []) e = ground arith
deleted-add_line (a ∷ b ∷ []) e = ground arith
deleted-add_line (a ∷ b ∷ c ∷ l) e = ground arith

porcelain-add_line : (l : Bytes) (e : DirtyWorktreeError) → (add_line l e).porcelain ≡ e.porcelain
unfolding add_line
porcelain-add_line l e = ground arith

untracked-add_lines :
    (ls : List Bytes) (e : DirtyWorktreeError)
    → (add_lines ls e).untracked ≡ e.untracked + doubled 63 ls
unfolding add_lines doubled
untracked-add_lines [] e = omega arith
untracked-add_lines (l ∷ ls) e =
    ground (arith, untracked-add_lines ls (add_line l e), untracked-add_line l e)

deleted-add_lines :
    (ls : List Bytes) (e : DirtyWorktreeError) → (add_lines ls e).deleted ≡ e.deleted + deletions ls
unfolding add_lines deletions
deleted-add_lines [] e = omega arith
deleted-add_lines (l ∷ ls) e =
    ground (arith, deleted-add_lines ls (add_line l e), deleted-add_line l e)

porcelain-add_lines :
    (ls : List Bytes) (e : DirtyWorktreeError) → (add_lines ls e).porcelain ≡ e.porcelain
unfolding add_lines
porcelain-add_lines [] e = refl
porcelain-add_lines (l ∷ ls) e = porcelain-add_lines ls (add_line l e) ∙ porcelain-add_line l e

count_ignored-doubled : (ls : List Bytes) → count_ignored ls ≡ doubled 33 ls
unfolding count_ignored doubled
count_ignored-doubled [] = refl
count_ignored-doubled (l ∷ ls) = ground (arith, count_ignored-doubled ls)

-- how many ignored files git lists, none where it fails
unfoldable pub ignored_in : Option Bytes → ℕ
ignored_in none = 0
ignored_in (some out) = doubled 33 (split_lines out)

-- The numbers of a refusal are those of git's output: an entry for each line that is neither blank nor of
-- an ignored file, the untracked ones, the deleted ones, and the others in three more buckets; and a short
-- output is kept as it is.
pub record Summed (out : Bytes) (ignored_out : Option Bytes) (e : DirtyWorktreeError) : Type 0 where
  pub entries : e.entries ≡ counted (split_lines out)
  pub untracked : e.untracked ≡ doubled 63 (split_lines out)
  pub deleted : e.deleted ≡ deletions (split_lines out)
  pub sum : buckets e ≡ e.entries
  pub ignored : e.ignored ≡ ignored_in ignored_out
  pub kept : length (split_lines out) ≤ max_dirty_porcelain_lines → e.porcelain ≡ out

cap_dirty_porcelain-short :
    (out : Bytes)
    → length (split_lines out) ≤ max_dirty_porcelain_lines
    → cap_dirty_porcelain out ≡ out
unfolding cap_dirty_porcelain
cap_dirty_porcelain-short out h = ground (arith, h)

pub summarize_porcelain-Summed :
    (out : Bytes) (ignored_out : Option Bytes) (n : ℕ)
    → n ≡ ignored_in ignored_out
    → Summed out ignored_out
        (record (summarize_porcelain out (empty_error (cap_dirty_porcelain out))) { ignored = n })
unfolding summarize_porcelain
summarize_porcelain-Summed out ignored_out n h =
    let none_yet = empty_error (cap_dirty_porcelain out) in
    let all = entries-add_lines (split_lines out) none_yet in
    record {
      entries = omega (arith, all);
      untracked = omega (arith, untracked-add_lines (split_lines out) none_yet);
      deleted = omega (arith, deleted-add_lines (split_lines out) none_yet);
      sum =
          (add_lines-Consistent (split_lines out) none_yet
            (record { sum = refl; few = omega arith; named = omega arith })).sum;
      ignored = h;
      kept = λ short.
          porcelain-add_lines (split_lines out) none_yet ∙ cap_dirty_porcelain-short out short;
    }

pub ignored_in-count : (o : Bytes) → count_ignored_porcelain o ≡ ignored_in (some o)
unfolding count_ignored_porcelain ignored_in
ignored_in-count o = count_ignored-doubled (split_lines o)
