-- ===== src/Git/Diverged/Best.antt =====
-- Which head `effectiveHead` takes where origin does not have the branch.
use myworktree.Prelude.{
  ◌≡◌, ◌≢◌, refl, sym, ap, ◌∙◌, true, false, ◌||◌, Option, none, some, String, List, [], ◌∷◌,
  str_eq, arith, Bool-cases, inl, inr, ◌⊎◌, eq_iff, ℤ, pos, negsuc, ltb_int,
}
use myworktree.Git.Text.{Git}
use myworktree.Git.Branches.{list_remotes}
use myworktree.Git.Diverged.{
  branch_head, remote_head, ahead_of, better, furthest, effective_head, or_local,
}

le_trans : (a b c : ℤ) → ltb_int b a ≡ false → ltb_int c b ≡ false → ltb_int c a ≡ false
le_trans (pos a) (pos b) (pos c) h k = ground (arith, h, k)
le_trans (pos a) (negsuc b) c h k = absurd (ground (arith, h))
le_trans (pos a) (pos b) (negsuc c) h k = absurd (ground (arith, k))
le_trans (negsuc a) (pos b) (negsuc c) h k = absurd (ground (arith, k))
le_trans (negsuc a) b (pos c) h k = refl
le_trans (negsuc a) (negsuc b) (negsuc c) h k = ground (arith, h, k)

le_refl : (a : ℤ) → ltb_int a a ≡ false
le_refl (pos a) = ground arith
le_refl (negsuc a) = ground arith

lt_asym : (a b : ℤ) → ltb_int a b ≡ true → ltb_int b a ≡ false
lt_asym (pos a) (pos b) h = ground (arith, h)
lt_asym (pos a) (negsuc b) h = absurd (ground (arith, h))
lt_asym (negsuc a) (pos b) h = refl
lt_asym (negsuc a) (negsuc b) h = ground (arith, h)

module _ (g : Git) (branch local : String) where
  -- One of the remotes is ahead of the local head, with this count and this head.
  pub Offered : List String → ℤ × String → Type 0
  Offered [] x = ⊥
  Offered (r ∷ rs) x = (ahead_of g branch local r ≡ some x) ⊎ Offered rs x

  -- No remote is further ahead than this count.
  pub Bounded : List String → ℤ → Type 0
  Bounded [] n = Unit
  Bounded (r ∷ rs) n =
      ((x : ℤ × String) → ahead_of g branch local r ≡ some x → ltb_int n x.0 ≡ false) × Bounded rs n

  Kept : Option (ℤ × String) → ℤ × String → ℤ × String → Type 0
  Kept o best next =
      (ltb_int next.0 best.0 ≡ false)
      × ((x : ℤ × String) → o ≡ some x → ltb_int next.0 x.0 ≡ false)
      × ((next ≡ best) ⊎ (o ≡ some next))

  better-Kept : (o : Option (ℤ × String)) (best : ℤ × String) → Kept o best (better o best)
  unfolding Kept
  better-Kept none best = (le_refl best.0, (λ x e. absurd (ground (arith, e))), inl refl)
  better-Kept (some (a, h)) best = elim (Bool-cases (ltb_int a best.0)) [
    | inl e ↦ rw e (le_refl best.0, (λ x q. ground (arith, q, lt_asym a best.0 e)), inl refl)
    | inr e ↦ rw e (e, (λ x q. ground (arith, q, le_refl a)), inr refl)
  ]

  furthest-Best :
      (rs : List String) (best : ℤ × String)
      → (ltb_int (furthest g branch local rs best).0 best.0 ≡ false)
        × Bounded rs (furthest g branch local rs best).0
        × ((furthest g branch local rs best ≡ best) ⊎ Offered rs (furthest g branch local rs best))
  unfolding furthest Bounded Offered Kept
  furthest-Best [] best = (le_refl best.0, tt, inl refl)
  furthest-Best (r ∷ rs) best =
      let (least, within, from) = furthest-Best rs (better (ahead_of g branch local r) best) in
      let (kept, above, chosen) = better-Kept (ahead_of g branch local r) best in
      let n = (furthest g branch local (r ∷ rs) best).0 in
      let mid = (better (ahead_of g branch local r) best).0 in
      (
        le_trans best.0 mid n kept least,
        (λ x e. le_trans x.0 mid n (above x e) least, within),
        elim from [
          | inr later ↦ inr (inr later)
          | inl here ↦ elim chosen [
            | inl old ↦ inl (here ∙ old)
            | inr new ↦ inr (inl (new ∙ ap some (sym here)))
          ]
        ],
      )

  ahead_of-named :
      (r : String) (x : ℤ × String) → ahead_of g branch local r ≡ some x → str_eq x.1 "" ≡ false
  unfolding ahead_of
  ahead_of-named r x e =
      elim (Bool-cases (str_eq r "origin" || str_eq (remote_head g r branch) "")) [
        | inl p ↦ absurd (ground (arith, e, p))
        | inr p ↦ ground (arith, e, p)
      ]

  Offered-named : (rs : List String) (x : ℤ × String) → Offered rs x → str_eq x.1 "" ≡ false
  unfolding Offered
  Offered-named [] x o = absurd o
  Offered-named (r ∷ rs) x (inl e) = ahead_of-named r x e
  Offered-named (r ∷ rs) x (inr o) = Offered-named rs x o

effective_head-remotes :
    (g : Git) (branch : String)
    → branch_head g branch ≢ ""
    → remote_head g "origin" branch ≡ ""
    → effective_head g branch ≡ (
      or_local
          (branch_head g branch)
          (furthest g branch (branch_head g branch) (list_remotes g) (pos 0, "")).1,
      none,
    )
unfolding effective_head
effective_head-remotes g branch has lacks =
    let found : str_eq (branch_head g branch) "" ≡ false =
      ground (arith, has, eq_iff (branch_head g branch) "") in
    rw (found, lacks) refl

-- Where the branch has a local head and origin does not have the branch: no other remote is ahead of the
-- local head by more than a count `n`, and the result is the head of a remote with just that count, or
-- else the local head, and then `n` is 0.
pub effective_head-Best :
    (g : Git) (branch : String)
    → branch_head g branch ≢ ""
    → remote_head g "origin" branch ≡ ""
    → (n : ℤ) × Bounded g branch (branch_head g branch) (list_remotes g) n
      × ((effective_head g branch ≡ (branch_head g branch, none)) × (n ≡ pos 0)
          ⊎ Offered g branch
              (branch_head g branch)
              (list_remotes g)
              (n, (effective_head g branch).0))
effective_head-Best g branch has lacks =
    let local = branch_head g branch in
    let best = furthest g branch local (list_remotes g) (pos 0, "") in
    let (least, within, from) = furthest-Best g branch local (list_remotes g) (pos 0, "") in
    let taken = effective_head-remotes g branch has lacks in
    (
      best.0,
      within,
      elim from [
        | inl none_ahead ↦ inl (rw (taken, none_ahead) refl, ap (λ p. p.0) none_ahead)
        | inr o ↦ inr (rw (taken, Offered-named g branch local (list_remotes g) best o) o)
      ],
    )
