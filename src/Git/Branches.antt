-- ===== src/Git/Branches.antt =====
-- internal/gitx/branches.go and remotes.go: branches and remotes.
pub mod Listing
use Prim.Native.Char.{Char, code}
use myworktree.Prelude.{
  ℕ, ◌+◌, ◌≤◌, ◌≡◌, refl, ap, Bool, true, false, not, ◌&&◌, ◌||◌, Option, none, some, String, List,
  [], ◌∷◌, ◌++◌, leb, ltb, ◌==◌, length, take, if◌then◌else◌, ℤ, pos, negsuc, pos_part, is_neg,
  leb_int, str_append, str_eq, trim_space, trim_prefix, split_at_code, arith, Option-cases, inl,
  inr, Bool-cases,
}
use myworktree.Git.Text.{Answer, out, failed, Git, parse_int}

-- `Branch`
pub record Branch : Type 0 where
  pub name : String
  pub commit_unix : ℤ

-- `cmd.Run() == nil`
abbrev ran : Answer → Bool
ran (out s) = true
ran (failed e) = false

unfoldable pub branch_exists : Git → String → Bool
branch_exists g name =
    if str_eq (trim_space name) ""
    then false
    else ran (g ("show-ref" ∷ "--verify" ∷ "--quiet" ∷ str_append "refs/heads/" name ∷ []))

-- the name in an answer of git, unless the answer is an error or names nothing
abbrev short_of : Answer → String
short_of (out s) = trim_prefix "origin/" (trim_space s)
short_of (failed e) = ""

abbrev named_of : Answer → String
named_of (out s) = trim_space s
named_of (failed e) = ""

abbrev is_name : String → Bool
is_name s = not (str_eq s "") && not (str_eq s "HEAD")

unfoldable pub default_branch : Git → String
default_branch g =
    let origin = short_of (g ("symbolic-ref" ∷ "--short" ∷ "refs/remotes/origin/HEAD" ∷ [])) in
    let parsed = short_of (g ("rev-parse" ∷ "--abbrev-ref" ∷ "origin/HEAD" ∷ [])) in
    let current = named_of (g ("rev-parse" ∷ "--abbrev-ref" ∷ "HEAD" ∷ [])) in
    if not (str_eq origin "")
    then origin
    else if is_name parsed
    then parsed
    else if branch_exists g "main"
    then "main"
    else if branch_exists g "master"
    then "master"
    else if is_name current
    then current
    else ""

unfoldable pub current_branch : Git → Answer
current_branch g = elim (g ("rev-parse" ∷ "--abbrev-ref" ∷ "HEAD" ∷ [])) [
  | failed e ↦ failed (str_append "git rev-parse failed: " e)
  | out s ↦
      if is_name (trim_space s)
      then out (trim_space s)
      else failed "git HEAD is detached or malformed"
]

-- `strings.SplitN(line, "\t", 2)`: what stands before the first tab, and after it if there is one
cut_tab : String → String × Option String
cut_tab String.[] = ("", none)
cut_tab (String.◌∷◌ c s) =
    let rest = cut_tab s in if code c == 9 then ("", some s) else (String.◌∷◌ c rest.0, rest.1)

abbrev time_of : Option String → ℤ
time_of none = pos 0
time_of (some s) = (parse_int (trim_space s)).value

-- what a line of `for-each-ref` says, `none` where it is skipped
unfoldable pub branch_of : String → Option Branch
unfolding cut_tab
branch_of line =
    let parts = cut_tab line in
    let name = trim_space parts.0 in
    if str_eq (trim_space line) "" || str_eq name ""
    then none
    else some (record { name = name; commit_unix = time_of parts.1 })

-- `limit > 0 && len(items) >= limit`
abbrev is_full : ℤ → ℕ → Bool
is_full limit n = not (leb_int limit 0) && leb_int limit n

-- the loop, with the number of the items that it has
unfoldable pub gathered : ℤ → ℕ → List String → List Branch
gathered limit n [] = []
gathered limit n (l ∷ ls) = elim (branch_of l) [
  | none ↦ gathered limit n ls
  | some b ↦
      let more = gathered limit (n + 1) ls in b ∷ (if is_full limit (n + 1) then [] else more)
]

pub data Branches : Type 0 where
  listed : List Branch → Branches
  unlisted : String → Branches

unfoldable pub list_local_branches_by_commit_time : Git → ℤ → Branches
unfolding gathered
list_local_branches_by_commit_time g limit =
    elim (g (
      "for-each-ref" ∷ "--sort=-committerdate" ∷ "--format=%(refname:short)\t%(committerdate:unix)"
      ∷ "refs/heads/" ∷ [])) [
        | failed e ↦ unlisted e
        | out s ↦ listed (gathered limit 0 (split_at_code 10 s))
      ]

-- the texts that are not empty when trimmed
unfoldable pub trimmed_names : List String → List String
trimmed_names [] = []
trimmed_names (l ∷ ls) =
    let rest = trimmed_names ls in if str_eq (trim_space l) "" then rest else trim_space l ∷ rest

unfoldable pub list_remotes : Git → List String
unfolding trimmed_names
list_remotes g = elim (g ("remote" ∷ [])) [
  | failed e ↦ []
  | out s ↦ trimmed_names (split_at_code 10 (trim_space s))
]
