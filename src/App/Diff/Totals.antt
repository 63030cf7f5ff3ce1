-- ===== src/App/Diff/Totals.antt =====
-- The totals of `parseGitDiffNumStat` are those of the changes that it returns.
use myworktree.Prelude.{
  ℕ, ◌+◌, ◌%◌, ◌^◌, ◌≡◌, refl, false, some, List, [], ◌∷◌, ◌++◌, arith, Option-cases, inl, inr,
}
use myworktree.Worktree.Porcelain.{Bytes, split_lines, is_empty}
use myworktree.App.Diff.{
  Change, Parsed, change_of, add_change, add_changes, parse_git_diff_num_stat,
}

pub sum_of : (Change → ℕ) → List Change → ℕ
sum_of f [] = 0
sum_of f (c ∷ cs) = f c + sum_of f cs

pub AllNamed : List Change → Type 0
AllNamed [] = Unit
AllNamed (c ∷ cs) = (is_empty c.path ≡ false) × AllNamed cs

-- Modulo 2 ^ 64 the totals are the sums over the changes, and every change has a path.
unfoldable pub Totalled : Parsed → Type 0
Totalled r =
    (r.additions ≡ sum_of (λ c. c.additions) r.changes % 2 ^ 64)
    × (r.deletions ≡ sum_of (λ c. c.deletions) r.changes % 2 ^ 64)
    × AllNamed r.changes

sum_of-append :
    (f : Change → ℕ) (cs : List Change) (c : Change) → sum_of f (cs ++ (c ∷ [])) ≡ sum_of f cs + f c
unfolding sum_of
sum_of-append f [] c = omega arith
sum_of-append f (d ∷ cs) c = omega (arith, sum_of-append f cs c)

AllNamed-append :
    (cs : List Change) (c : Change)
    → AllNamed cs
    → is_empty c.path ≡ false
    → AllNamed (cs ++ (c ∷ []))
unfolding AllNamed
AllNamed-append [] c a h = (h, tt)
AllNamed-append (d ∷ cs) c (n, a) h = (n, AllNamed-append cs c a h)

change_of-named : (l : Bytes) (c : Change) → change_of l ≡ some c → is_empty c.path ≡ false
unfolding change_of
change_of-named l c h = ground (arith, h)

add_change-Totalled : (l : Bytes) (r : Parsed) → Totalled r → Totalled (add_change (change_of l) r)
unfolding Totalled add_change
add_change-Totalled l r (a, d, n) = elim (Option-cases (change_of l)) [
  | inl e ↦ rw e (a, d, n)
  | inr (c, e) ↦ rw e (
    rw (sum_of-append (λ c. c.additions) r.changes c) omega (arith, a),
    rw (sum_of-append (λ c. c.deletions) r.changes c) omega (arith, d),
    AllNamed-append r.changes c n (change_of-named l c e),
  )
]

add_changes-Totalled : (ls : List Bytes) (r : Parsed) → Totalled r → Totalled (add_changes ls r)
unfolding add_changes
add_changes-Totalled [] r t = t
add_changes-Totalled (l ∷ ls) r t =
    add_changes-Totalled ls (add_change (change_of l) r) (add_change-Totalled l r t)

-- Whatever git writes, the totals are the sums over the returned changes, as 64-bit integers, and every
-- returned change has a path that is not empty.
pub parse_git_diff_num_stat-Totalled : (output : Bytes) → Totalled (parse_git_diff_num_stat output)
unfolding parse_git_diff_num_stat Totalled sum_of AllNamed
parse_git_diff_num_stat-Totalled output =
    add_changes-Totalled (split_lines output) _ (refl, refl, tt)
