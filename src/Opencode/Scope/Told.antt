-- ===== src/Opencode/Scope/Told.antt =====
-- What the frontend is told of an instance, by what its proxy has seen.
use myworktree.Prelude.{
  true, subst, ℕ, ◌≡◌, refl, sym, ap, subst, ◌∙◌, Bool, false, ◌||◌, Option, none, some, String,
  List, [], ◌∷◌, lookup, insert, lookup-insert, str_eq, eq_iff, if◌then◌else◌, arith, Bool-cases,
  inl, inr,
}
use myworktree.Opencode.Scope.Judged.{Judged, classify-Judged}
use myworktree.Opencode.Scope.{
  Scope, in_scope, ScopeState, Request, Tracker, parse_directory, classify, record_scope, monitor,
  named_dir, crosses_project, has_dir, observed, state_or_zero, given_scope, flagged,
  set_csp_anchor_missing, state_or_in_scope, handle_instance_opencode_scope,
}

-- A request that the proxy gets for an instance, with its worktree and the time, or a page that it passes on,
-- which lacks the anchor or not.
pub data Event : Type 0 where
  requested : String → String → Request → ℕ → Event
  passed_on : String → Bool → Event

unfoldable pub bears : Request → Bool
bears r = has_dir (parse_directory r) || crosses_project r

-- the last request of the instance with a directory or for the whole project
unfoldable pub latest : String → List Event → Option (String × Request)
latest id [] = none
latest id (requested i worktree r now ∷ es) =
    let rest = latest id es in
    if str_eq i id then (if bears r then some (worktree, r) else rest) else rest
latest id (passed_on i missing ∷ es) = latest id es

-- whether the last page of the instance lacks the anchor, if no such request came after it
unfoldable pub lacks_anchor : String → List Event → Bool
lacks_anchor id [] = false
lacks_anchor id (requested i worktree r now ∷ es) =
    let rest = lacks_anchor id es in if str_eq i id then (if bears r then false else rest) else rest
lacks_anchor id (passed_on i missing ∷ es) =
    let rest = lacks_anchor id es in if str_eq i id then missing else rest

-- whether the last page of the instance lacks the anchor, if there was a page
unfoldable pub last_page : String → List Event → Option Bool
last_page id [] = none
last_page id (requested i worktree r now ∷ es) = last_page id es
last_page id (passed_on i missing ∷ es) =
    let rest = last_page id es in if str_eq i id then some missing else rest

lacks_anchor-last_page :
    (id : String) (es : List Event) → lacks_anchor id es ≡ true → last_page id es ≡ some true
unfolding lacks_anchor last_page
lacks_anchor-last_page id [] h = absurd (ground (arith, h))
lacks_anchor-last_page id (requested i worktree r now ∷ es) h =
    lacks_anchor-last_page id es (ground (arith, h))
lacks_anchor-last_page id (passed_on i missing ∷ es) h =
    ground (arith, h, lacks_anchor-last_page id es)

Told : ScopeState → Scope × String → Bool → Type 0
Told st s lacks = (st.scope ≡ s.0) × (st.directory ≡ s.1) × (st.csp_anchor_missing ≡ lacks)

module _ (eval_symlinks : String → Option String) where
  unfoldable pub handled : Event → Tracker → Tracker
  handled (requested id worktree r now) t = monitor eval_symlinks id worktree r now t
  handled (passed_on id missing) t = set_csp_anchor_missing id missing t

  -- the events with the last one first
  unfoldable pub after : List Event → Tracker
  after [] = []
  after (e ∷ es) = handled e (after es)

  unfoldable pub scope_of : Option (String × Request) → Scope × String
  scope_of none = (in_scope, "")
  scope_of (some (worktree, r)) = (
    classify eval_symlinks worktree (named_dir (parse_directory r)) (crosses_project r),
    named_dir (parse_directory r),
  )

  -- a scope that is told is never the zero value
  given-scope_of : (o : Option (String × Request)) → given_scope (scope_of o).0 ≡ (scope_of o).0
  unfolding scope_of classify
  given-scope_of none = refl
  given-scope_of (some (worktree, r)) = ground arith

  flagged-Told :
      (o : Option ScopeState) (s : Scope × String) (lacks missing : Bool)
      → given_scope s.0 ≡ s.0
      → Told (state_or_in_scope o) s lacks
      → Told (flagged missing (state_or_zero o)) s missing
  unfolding Told
  flagged-Told none s lacks missing g (a, d, l) = (a, d, refl)
  flagged-Told (some st) s lacks missing g (a, d, l) = (ap given_scope a ∙ g, d, refl)

  -- what is told after a state has been stored
  told-insert :
      (i id : String) (st : ScopeState) (t : Tracker)
      → handle_instance_opencode_scope id (insert i st t)
        ≡ (if str_eq i id then st else handle_instance_opencode_scope id t)
  unfolding handle_instance_opencode_scope
  told-insert i id st t = elim (Bool-cases (str_eq i id)) [
    | inl q ↦ rw (lookup-insert i id st t, q) refl
    | inr q ↦ rw (lookup-insert i id st t, q) refl
  ]

  passed_on-Told :
      (i id : String) (missing : Bool) (t : Tracker) (s : Scope × String) (lacks : Bool)
      → given_scope s.0 ≡ s.0
      → Told (handle_instance_opencode_scope id t) s lacks
      → Told
          (handle_instance_opencode_scope id (set_csp_anchor_missing i missing t))
          s
          (if str_eq i id then missing else lacks)
  unfolding set_csp_anchor_missing handle_instance_opencode_scope
  passed_on-Told i id missing t s lacks g told = elim (Bool-cases (str_eq i id)) [
    | inl q ↦
        rw (told-insert i id (flagged missing (state_or_zero (lookup i t))) t, q)
          (here ((eq_iff i id).0 q))
    | inr q ↦ rw (told-insert i id (flagged missing (state_or_zero (lookup i t))) t, q) told
  ]
    where
      there : Told (flagged missing (state_or_zero (lookup id t))) s missing
      there = flagged-Told (lookup id t) s lacks missing g told

      here : i ≡ id → Told (flagged missing (state_or_zero (lookup i t))) s missing
      here e =
          subst (λ k. Told (flagged missing (state_or_zero (lookup k t))) s missing) (sym e) there

  recorded-Told :
      (worktree : String) (r : Request) (now : ℕ)
      → Told
          (record (observed eval_symlinks worktree r) { at = now })
          (scope_of (some (worktree, r)))
          false
  unfolding Told scope_of
  recorded-Told worktree r now = (refl, refl, refl)

  requested-Told :
      (i id worktree : String) (r : Request) (now : ℕ) (t : Tracker) (o : Option (String × Request))
      (lacks : Bool)
      → Told (handle_instance_opencode_scope id t) (scope_of o) lacks
      → Told
          (handle_instance_opencode_scope id (monitor eval_symlinks i worktree r now t))
          (scope_of (if str_eq i id then (if bears r then some (worktree, r) else o) else o))
          (if str_eq i id then (if bears r then false else lacks) else lacks)
  unfolding monitor record_scope bears
  requested-Told i id worktree r now t o lacks told =
      elim (Bool-cases (has_dir (parse_directory r) || crosses_project r)) [
        | inr b ↦ elim (Bool-cases (str_eq i id)) [
          | inl q ↦ rw (b, q) told
          | inr q ↦ rw (b, q) told
        ]
        | inl b ↦ elim (Bool-cases (str_eq i id)) [
          | inl q ↦
              rw
                (b, told-insert i id (record (observed eval_symlinks worktree r) { at = now }) t, q)
                (recorded-Told worktree r now)
          | inr q ↦
              rw
                (b, told-insert i id (record (observed eval_symlinks worktree r) { at = now }) t, q)
                told
        ]
      ]

  -- in the code's own terms
  handle_instance_opencode_scope_tracked :
      (id : String) (es : List Event)
      → Told
          (handle_instance_opencode_scope id (after es))
          (scope_of (latest id es))
          (lacks_anchor id es)
  unfolding Told handle_instance_opencode_scope after handled latest lacks_anchor scope_of lookup
  handle_instance_opencode_scope_tracked id [] = (refl, refl, refl)
  handle_instance_opencode_scope_tracked id (requested i worktree r now ∷ es) =
      requested-Told i id worktree r now (after es) (latest id es) (lacks_anchor id es)
        (handle_instance_opencode_scope_tracked id es)
  handle_instance_opencode_scope_tracked id (passed_on i missing ∷ es) =
      passed_on-Told i id missing (after es) (scope_of (latest id es)) (lacks_anchor id es)
        (given-scope_of (latest id es)) (handle_instance_opencode_scope_tracked id es)

  -- what is told after this last request with a directory or for the whole project
  pub Observed : Option (String × Request) → ScopeState → Type 0
  Observed none st = (st.scope ≡ in_scope) × (st.directory ≡ "")
  Observed (some (worktree, r)) st =
      Judged eval_symlinks worktree (named_dir (parse_directory r)) (crosses_project r) st.scope
      × (st.directory ≡ named_dir (parse_directory r))

  tracked-Observed :
      (o : Option (String × Request)) (st : ScopeState) (lacks : Bool)
      → Told st (scope_of o) lacks
      → Observed o st
  unfolding Told scope_of Observed
  tracked-Observed none st lacks (a, d, l) = (a, d)
  tracked-Observed (some (worktree, r)) st lacks (a, d, l) = (
    subst (Judged eval_symlinks worktree (named_dir (parse_directory r)) (crosses_project r))
        (sym a)
        (classify-Judged eval_symlinks worktree (named_dir (parse_directory r))
          (crosses_project r)),
    d,
  )

  -- After any events, an instance's answer has the scope and the directory of its last request that had a
  -- directory or was for the whole project, or is in scope if there was none, whatever pages and other
  -- requests came after it and what the other instances did; and it says that the anchor is missing only if
  -- the instance's last page lacked it.
  pub handle_instance_opencode_scope-Observed :
      (id : String) (es : List Event)
      → Observed (latest id es) (handle_instance_opencode_scope id (after es))
        × ((handle_instance_opencode_scope id (after es)).csp_anchor_missing ≡ true
            → last_page id es ≡ some true)
  unfolding Told
  handle_instance_opencode_scope-Observed id es =
      let told = handle_instance_opencode_scope_tracked id es in
      (
        tracked-Observed (latest id es) (handle_instance_opencode_scope id (after es))
            (lacks_anchor id es) told,
        λ e. lacks_anchor-last_page id es (sym told.2 ∙ e),
      )
