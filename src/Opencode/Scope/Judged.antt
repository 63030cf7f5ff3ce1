-- ===== src/Opencode/Scope/Judged.antt =====
-- The scope of a request, against a description of it.
use myworktree.Prelude.{
  ◌≡◌, ◌≢◌, ◌↔◌, Bool, true, false, Option, String, str_eq, eq_iff, if◌then◌else◌, arith,
  Bool-cases, inl, inr, clean, ◌||◌,
}
use myworktree.Opencode.Scope.{
  Scope, no_scope, in_scope, out_of_scope, cross_project, trim_slashes, resolved, normalize_dir,
  classify,
}

slashed : (t : String) → (if str_eq t "" then "/" else t) ≢ ""
slashed t e = elim (Bool-cases (str_eq t "")) [
  | inl q ↦ absurd (ground (arith, e, q, eq_iff "/" ""))
  | inr q ↦ absurd (ground (arith, e, q, eq_iff t ""))
]

-- the comparison, on directories that are normalized
abbrev judge : String → String → Bool → Scope
judge nw nd crosses =
    if crosses
    then cross_project
    else if str_eq nw "" || str_eq nd ""
    then in_scope
    else if str_eq nd nw
    then in_scope
    else out_of_scope

cross-judge :
    (nw nd : String) (crosses : Bool) → (judge nw nd crosses ≡ cross_project) ↔ (crosses ≡ true)
cross-judge nw nd crosses = (λ e. ground (arith, e), λ e. ground (arith, e))

out-judge :
    (nw nd : String) (crosses : Bool)
    → judge nw nd crosses ≡ out_of_scope
    → (crosses ≡ false) × (nw ≢ "") × (nd ≢ "") × (nd ≢ nw)
out-judge nw nd crosses e = (
  ground (arith, e),
  λ q. ground (arith, e, q, eq_iff nw ""),
  λ q. ground (arith, e, q, eq_iff nd ""),
  λ q. ground (arith, e, q, eq_iff nd nw),
)

judge-out :
    (nw nd : String) (crosses : Bool)
    → crosses ≡ false
    → nw ≢ ""
    → nd ≢ ""
    → nd ≢ nw
    → judge nw nd crosses ≡ out_of_scope
judge-out nw nd crosses c w d n =
    ground (arith, c, w, d, n, eq_iff nw "", eq_iff nd "", eq_iff nd nw)

judge-known : (nw nd : String) (crosses : Bool) → judge nw nd crosses ≢ no_scope
judge-known nw nd crosses e = ground (arith, e)

module _ (eval_symlinks : String → Option String) where
  normalize_dir-empty : (d : String) → d ≢ "" → normalize_dir eval_symlinks d ≢ ""
  unfolding normalize_dir
  normalize_dir-empty d ne e = elim (Bool-cases (str_eq d "")) [
    | inl q ↦ ne ((eq_iff d "").0 q)
    | inr q ↦ slashed (trim_slashes (resolved eval_symlinks (clean d))) (ground (arith, e, q))
  ]

  normalize_dir-nil : (d : String) → d ≡ "" → normalize_dir eval_symlinks d ≡ ""
  unfolding normalize_dir
  normalize_dir-nil d e = ground (arith, e, eq_iff d "")

  -- The scope that a request is to have: cross-project exactly if it asks for the whole project; out of scope
  -- exactly if it does not, and both directories are known and differ when they are normalized; and never
  -- without a value.
  pub record Judged (worktree dir : String) (crosses : Bool) (s : Scope) : Type 0 where
    pub cross : (s ≡ cross_project) ↔ (crosses ≡ true)
    pub out : (s ≡ out_of_scope) ↔ (
        (crosses ≡ false)
        × (worktree ≢ "")
        × (dir ≢ "")
        × (normalize_dir eval_symlinks dir ≢ normalize_dir eval_symlinks worktree))
    pub known : s ≢ no_scope

  pub classify-Judged :
      (worktree dir : String) (crosses : Bool)
      → Judged worktree dir crosses (classify eval_symlinks worktree dir crosses)
  unfolding classify
  classify-Judged worktree dir crosses =
      let nw = normalize_dir eval_symlinks worktree in
      let nd = normalize_dir eval_symlinks dir in
      record {
        cross = cross-judge nw nd crosses;
        out = (
          λ e.
              let (c, w, d, n) = out-judge nw nd crosses e in
              (c, λ q. w (normalize_dir-nil worktree q), λ q. d (normalize_dir-nil dir q), n),
          λ (c, w, d, n).
              judge-out nw nd crosses c (normalize_dir-empty worktree w) (normalize_dir-empty dir d)
                n,
        );
        known = judge-known nw nd crosses;
      }
