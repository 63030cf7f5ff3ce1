-- ===== src/Git/Branches/Listing.antt =====
-- The loop of `ListLocalBranchesByCommitTime` keeps the first branches that git lists.
use myworktree.Prelude.{
  ℕ, zero, suc, ◌+◌, ◌-◌, ◌<◌, ◌≡◌, refl, sym, ap, true, none, some, String, List, [], ◌∷◌, leb,
  take, if◌then◌else◌, ℤ, pos, negsuc, pos_part, leb_int, split_at_code, arith, Option-cases,
  Bool-cases, inl, inr,
}
use myworktree.Git.Text.{out, Git}
use myworktree.Git.Branches.{
  Branch, listed, branch_of, gathered, list_local_branches_by_commit_time,
}

-- the branches that the lines name
pub branches_of : List String → List Branch
branches_of [] = []
branches_of (l ∷ ls) = elim (branch_of l) [ none ↦ branches_of ls | some b ↦ b ∷ branches_of ls ]

-- as many as the limit allows, all of them if it is not positive
unfoldable pub limited : ℤ → List Branch → List Branch
limited limit bs = if leb_int limit 0 then bs else take (pos_part limit) bs

gathered-unlimited :
    (limit : ℤ) (n : ℕ) (ls : List String)
    → leb_int limit 0 ≡ true
    → gathered limit n ls ≡ branches_of ls
unfolding gathered branches_of
gathered-unlimited limit n [] h = refl
gathered-unlimited limit n (l ∷ ls) h = elim (Option-cases (branch_of l)) [
  | inl e ↦ ground (arith, e, gathered-unlimited limit n ls h)
  | inr (b, e) ↦ ground (arith, e, h, gathered-unlimited limit (n + 1) ls h)
]

take-nil : (n : ℕ) → take {A = Branch} n [] ≡ []
take-nil zero = refl
take-nil (suc n) = refl

take-cons : (n : ℕ) (b : Branch) (bs : List Branch) → 0 < n → take n (b ∷ bs) ≡ b ∷ take (n - 1) bs
take-cons zero b bs h = absurd (omega arith)
take-cons (suc n) b bs h = ap (λ m. b ∷ take m bs) (omega arith)

gathered-limited :
    (limit n : ℕ) (ls : List String)
    → n < limit
    → gathered (pos limit) n ls ≡ take (limit - n) (branches_of ls)
unfolding gathered branches_of
gathered-limited limit n [] h = sym (take-nil (limit - n))
gathered-limited limit n (l ∷ ls) h = elim (Option-cases (branch_of l)) [
  | inl e ↦ ground (arith, e, gathered-limited limit n ls h)
  | inr (b, e) ↦ elim (Bool-cases (leb limit (n + 1))) [
    | inl f ↦
        let none_left : limit - n - 1 ≡ 0 = ground (arith, f) in
        ground (arith, e, f, none_left, take-cons (limit - n) b (branches_of ls) (omega arith))
    | inr f ↦
        let fewer : limit - n - 1 ≡ limit - (n + 1) = omega arith in
        ground (
          arith,
          e,
          f,
          fewer,
          take-cons (limit - n) b (branches_of ls) (omega arith),
          gathered-limited limit (n + 1) ls (ground (arith, f)),
        )
  ]
]

gathered_lem : (limit : ℤ) (ls : List String) → gathered limit 0 ls ≡ limited limit (branches_of ls)
unfolding limited
gathered_lem (negsuc m) ls = gathered-unlimited (negsuc m) 0 ls refl
gathered_lem (pos zero) ls = gathered-unlimited (pos zero) 0 ls refl
gathered_lem (pos (suc m)) ls = ground (arith, gathered-limited (suc m) 0 ls (omega arith))

-- If git answers, the result is the branches that its lines name, in its order, cut off at a limit that is
-- positive.
pub list_local_branches_by_commit_time_lem :
    (g : Git) (limit : ℤ) (s : String)
    → g (
        "for-each-ref" ∷ "--sort=-committerdate"
        ∷ "--format=%(refname:short)\t%(committerdate:unix)" ∷ "refs/heads/" ∷ [])
      ≡ out s
    → list_local_branches_by_commit_time g limit
      ≡ listed (limited limit (branches_of (split_at_code 10 s)))
unfolding list_local_branches_by_commit_time
list_local_branches_by_commit_time_lem g limit s h =
    ground (arith, h, gathered_lem limit (split_at_code 10 s))
