-- ===== src/Worktree/Porcelain/Summary.antt =====
-- What the summary of a dirty worktree counts.
use myworktree.Prelude.{
  ℕ, ◌+◌, ◌≤◌, ◌≡◌, refl, true, false, List, [], ◌∷◌, arith, length, length-append, Bool-cases, inl,
  inr, if◌then◌else◌,
}
use myworktree.Worktree.Porcelain.{
  Bytes, DirtyWorktreeError, max_dirty_first_paths, add_line, add_lines, summarize_porcelain,
  split_lines, add_path, add_bucket, path_field, status_field, count_ignored_porcelain,
  count_ignored, is_empty, has_double, trim_space,
}

abbrev pub empty_error : Bytes → DirtyWorktreeError
empty_error porcelain = record {
  entries = 0;
  deleted = 0;
  modified = 0;
  added = 0;
  renamed = 0;
  untracked = 0;
  ignored = 0;
  first_paths = [];
  porcelain = porcelain;
}

abbrev pub buckets : DirtyWorktreeError → ℕ
buckets e = e.deleted + e.modified + e.added + e.renamed + e.untracked

-- The buckets sum to the entries, and few paths are named, no more than there are entries.
pub record Consistent (e : DirtyWorktreeError) : Type 0 where
  pub sum : buckets e ≡ e.entries
  pub few : length e.first_paths ≤ max_dirty_first_paths
  pub named : length e.first_paths ≤ e.entries

add_path-Consistent :
    (path : Bytes) (e : DirtyWorktreeError)
    → buckets e ≡ e.entries
    → length e.first_paths ≤ max_dirty_first_paths
    → length e.first_paths + 1 ≤ e.entries
    → Consistent (add_path path e)
add_path-Consistent path e sum few named = record {
  sum = ground arith;
  few = ground (arith, length-append e.first_paths (path ∷ []));
  named = ground (arith, length-append e.first_paths (path ∷ []));
}

add_line-Consistent :
    (line : Bytes) (e : DirtyWorktreeError) → Consistent e → Consistent (add_line line e)
unfolding add_line
add_line-Consistent line e c = elim (Bool-cases (is_empty (trim_space line))) [
  | inl b ↦ rw b c
  | inr b ↦ elim (Bool-cases (has_double 33 line)) [
    | inl d ↦ rw (b, d) c
    | inr d ↦
        rw (b, d)
          (add_path-Consistent (path_field line)
            (add_bucket (status_field line) (record e { entries = e.entries + 1 }))
            (ground (arith, c.sum)) (ground (arith, c.few)) (ground (arith, c.named)))
  ]
]

pub add_lines-Consistent :
    (ls : List Bytes) (e : DirtyWorktreeError) → Consistent e → Consistent (add_lines ls e)
unfolding add_lines
add_lines-Consistent [] e c = c
add_lines-Consistent (l ∷ ls) e c =
    add_lines-Consistent ls (add_line l e) (add_line-Consistent l e c)

-- Every line that the summary counts is in exactly one bucket, so the buckets sum to the entries, and
-- it names at most five paths, for any output of git.
pub summarize_porcelain-Consistent :
    (out : Bytes) → Consistent (summarize_porcelain out (empty_error out))
unfolding summarize_porcelain
summarize_porcelain-Consistent out =
    add_lines-Consistent (split_lines out) (empty_error out)
      (record { sum = refl; few = omega arith; named = omega arith })

-- the lines that the summary counts: neither blank nor of an ignored file
pub counted : List Bytes → ℕ
counted [] = 0
counted (l ∷ ls) =
    let rest = counted ls in
    if is_empty (trim_space l) then rest else if has_double 33 l then rest else rest + 1

entries-add_line :
    (line : Bytes) (e : DirtyWorktreeError)
    → (add_line line e).entries ≡ (
        if is_empty (trim_space line)
        then e.entries
        else if has_double 33 line
        then e.entries
        else e.entries + 1)
unfolding add_line
entries-add_line line e = ground arith

pub entries-add_lines :
    (ls : List Bytes) (e : DirtyWorktreeError) → (add_lines ls e).entries ≡ e.entries + counted ls
unfolding add_lines counted
entries-add_lines [] e = omega arith
entries-add_lines (l ∷ ls) e =
    ground (arith, entries-add_lines ls (add_line l e), entries-add_line l e)

double-nonblank : (l : Bytes) → has_double 33 l ≡ true → is_empty (trim_space l) ≡ false
unfolding trim_space has_double
double-nonblank [] h = ground arith
double-nonblank (a ∷ []) h = ground arith
double-nonblank (a ∷ b ∷ l) h = ground arith

unfoldable pub nonblank : List Bytes → ℕ
nonblank [] = 0
nonblank (l ∷ ls) = let rest = nonblank ls in if is_empty (trim_space l) then rest else rest + 1

counted-ignored : (ls : List Bytes) → counted ls + count_ignored ls ≡ nonblank ls
unfolding counted count_ignored nonblank
counted-ignored [] = refl
counted-ignored (l ∷ ls) = ground (arith, counted-ignored ls, double-nonblank l)

-- The summary and the count of ignored files share out the lines of one output that are not blank:
-- each such line is an entry or an ignored file, and none is both.
pub entries-ignored :
    (out : Bytes)
    → (summarize_porcelain out (empty_error out)).entries + count_ignored_porcelain out
      ≡ nonblank (split_lines out)
unfolding summarize_porcelain count_ignored_porcelain
entries-ignored out = omega (
  arith,
  entries-add_lines (split_lines out) (empty_error out),
  counted-ignored (split_lines out),
)
