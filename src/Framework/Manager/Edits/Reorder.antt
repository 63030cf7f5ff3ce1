-- ===== src/Framework/Manager/Edits/Reorder.antt =====
-- `ReorderInstances` moves records about and loses none, provided no id is named or stored twice.
use mathlib.Core.List.{Perm, map-append}
use mathlib.Core.List.Perm
use myworktree.Prelude.{
  true, false, none, some, String, List, [], ◌∷◌, ◌++◌, str_eq, ◌≡◌, ◌≢◌, refl, arith, eq_iff,
  Option-cases, ◌∙◌, subst, Bool-cases, inl, inr,
}
use myworktree.Store.{State, ManagedInstance, ok}
use myworktree.Framework.Manager.Edits.{
  Instances, find_instance, remove_first, missing, belongs, all_belong, find_last, pick, or_zero,
  outside, reorder,
}
use myworktree.Framework.Manager.Edits.Laws.{ids}

abbrev pub Fresh : String → List String → Type 0
Fresh id [] = Unit
Fresh id (x ∷ xs) = (x ≢ id) × Fresh id xs

abbrev pub Distinct : List String → Type 0
Distinct [] = Unit
Distinct (x ∷ xs) = Fresh x xs × Distinct xs

module _ (id : String) where
  find_last-Fresh : (xs : Instances) → Fresh id (ids xs) → find_last id xs ≡ none
  unfolding find_last
  find_last-Fresh [] f = refl
  find_last-Fresh (x ∷ xs) f = ground (arith, eq_iff x.id id, find_last-Fresh xs f.1)

  find_last-eq-find_instance :
      (xs : Instances) → Distinct (ids xs) → find_last id xs ≡ find_instance id xs
  unfolding find_last find_instance
  find_last-eq-find_instance [] d = refl
  find_last-eq-find_instance (x ∷ xs) d = elim (Bool-cases (str_eq x.id id)) [
    | inl e ↦
        let same : x.id ≡ id = (eq_iff x.id id).0 e in
        ground (arith, e, find_last-Fresh xs (subst (λ i. Fresh i (ids xs)) same d.0))
    | inr ne ↦ ground (arith, ne, find_last-eq-find_instance xs d.1)
  ]

  Fresh-remove_first :
      (j : String) (xs : Instances) → Fresh j (ids xs) → Fresh j (ids (remove_first id xs))
  unfolding remove_first
  Fresh-remove_first j [] f = tt
  Fresh-remove_first j (x ∷ xs) f = elim (Bool-cases (str_eq x.id id)) [
    | inl e ↦ rw e f.1
    | inr ne ↦ rw ne (f.0, Fresh-remove_first j xs f.1)
  ]

  Distinct-remove_first : (xs : Instances) → Distinct (ids xs) → Distinct (ids (remove_first id xs))
  unfolding remove_first
  Distinct-remove_first [] d = tt
  Distinct-remove_first (x ∷ xs) d = elim (Bool-cases (str_eq x.id id)) [
    | inl e ↦ rw e d.1
    | inr ne ↦ rw ne (Fresh-remove_first x.id xs d.0, Distinct-remove_first xs d.1)
  ]

  remove_first-perm :
      (xs : Instances) (x : ManagedInstance)
      → find_instance id xs ≡ some x
      → Perm (x ∷ remove_first id xs) xs
  unfolding find_instance remove_first
  remove_first-perm [] x h = cc
  remove_first-perm (y ∷ xs) x h = elim (Bool-cases (str_eq y.id id)) [
    | inl e ↦ let same : y ≡ x = ground (arith, e, h) in rw (e, same) (Perm.refl (x ∷ xs))
    | inr ne ↦
        let found : find_instance id xs ≡ some x = ground (arith, ne, h) in
        rw ne (
          Perm.trans (Perm.swap y x (remove_first id xs))
            (Perm.cons y (remove_first-perm xs x found)))
  ]

  find_last-remove_first :
      (j : String) (xs : Instances) → j ≢ id → find_last j (remove_first id xs) ≡ find_last j xs
  unfolding find_last remove_first
  find_last-remove_first j [] ne = refl
  find_last-remove_first j (x ∷ xs) ne =
      ground (arith, eq_iff x.id id, eq_iff x.id j, find_last-remove_first j xs ne)

  belongs-remove_first :
      (j wid : String) (xs : Instances)
      → j ≢ id
      → belongs j wid (remove_first id xs) ≡ belongs j wid xs
  unfolding belongs remove_first
  belongs-remove_first j wid [] ne = refl
  belongs-remove_first j wid (x ∷ xs) ne =
      ground (arith, eq_iff x.id id, eq_iff x.id j, belongs-remove_first j wid xs ne)

  belongs-Fresh : (wid : String) (xs : Instances) → Fresh id (ids xs) → belongs id wid xs ≡ false
  unfolding belongs
  belongs-Fresh wid [] f = refl
  belongs-Fresh wid (x ∷ xs) f = ground (arith, eq_iff x.id id, belongs-Fresh wid xs f.1)

  outside-remove_first :
      (wid : String) (xs : Instances)
      → Distinct (ids xs)
      → belongs id wid xs ≡ true
      → outside wid (remove_first id xs) ≡ outside wid xs
  unfolding belongs outside remove_first
  outside-remove_first wid [] d b = refl
  outside-remove_first wid (x ∷ xs) d b = elim (Bool-cases (str_eq x.id id)) [
    | inl e ↦
        let same : x.id ≡ id = (eq_iff x.id id).0 e in
        ground (arith, e, belongs-Fresh wid xs (subst (λ i. Fresh i (ids xs)) same d.0))
    | inr ne ↦ ground (arith, ne, outside-remove_first wid xs d.1)
  ]

  missing-Fresh :
      (order : List String) (wid : String) (xs : Instances)
      → Fresh id (ids xs)
      → missing (id ∷ order) wid xs ≡ false
      → missing order wid xs ≡ false
  unfolding missing
  missing-Fresh order wid [] f m = refl
  missing-Fresh order wid (x ∷ xs) f m =
      ground (arith, eq_iff id x.id, missing-Fresh order wid xs f.1)

  missing-remove_first :
      (order : List String) (wid : String) (xs : Instances)
      → Distinct (ids xs)
      → missing (id ∷ order) wid xs ≡ false
      → missing order wid (remove_first id xs) ≡ false
  unfolding missing remove_first
  missing-remove_first order wid [] d m = refl
  missing-remove_first order wid (x ∷ xs) d m = elim (Bool-cases (str_eq x.id id)) [
    | inl e ↦
        let same : x.id ≡ id = (eq_iff x.id id).0 e in
        ground (arith, e, missing-Fresh order wid xs (subst (λ i. Fresh i (ids xs)) same d.0))
    | inr ne ↦
        ground (arith, ne, eq_iff id x.id, eq_iff x.id id, missing-remove_first order wid xs d.1)
  ]

  pick-remove_first :
      (order : List String) (xs : Instances)
      → Fresh id order
      → pick order (remove_first id xs) ≡ pick order xs
  unfolding pick
  pick-remove_first [] xs f = refl
  pick-remove_first (j ∷ order) xs f =
      ground (arith, find_last-remove_first j xs f.0, pick-remove_first order xs f.1)

  all_belong-remove_first :
      (order : List String) (wid : String) (xs : Instances)
      → Fresh id order
      → all_belong order wid (remove_first id xs) ≡ all_belong order wid xs
  unfolding all_belong
  all_belong-remove_first [] wid xs f = refl
  all_belong-remove_first (j ∷ order) wid xs f =
      ground (arith, belongs-remove_first j wid xs f.0, all_belong-remove_first order wid xs f.1)

  find-belongs :
      (wid : String) (xs : Instances)
      → belongs id wid xs ≡ true
      → (x : ManagedInstance) × (find_instance id xs ≡ some x)
  unfolding belongs find_instance
  find-belongs wid [] b = cc
  find-belongs wid (x ∷ xs) b = elim (Bool-cases (str_eq x.id id)) [
    | inl e ↦ (x, ground (arith, e))
    | inr ne ↦
        let (y, h) = find-belongs wid xs (ground (arith, ne, b)) in (y, ground (arith, ne, h))
  ]

outside_all : (wid : String) (xs : Instances) → missing [] wid xs ≡ false → outside wid xs ≡ xs
unfolding missing outside
outside_all wid [] m = refl
outside_all wid (x ∷ xs) m = ground (arith, outside_all wid xs)

pick_perm :
    (wid : String) (order : List String) (xs : Instances)
    → Distinct order
    → Distinct (ids xs)
    → all_belong order wid xs ≡ true
    → missing order wid xs ≡ false
    → Perm (pick order xs ++ outside wid xs) xs
unfolding pick all_belong or_zero
pick_perm wid [] xs d dx b m = rw (outside_all wid xs m) (Perm.refl xs)
pick_perm wid (id ∷ order) xs d dx b m =
    let here : belongs id wid xs ≡ true = ground (arith, b) in
    let (x, found) = find-belongs id wid xs here in
    let last : find_last id xs ≡ some x = find_last-eq-find_instance id xs dx ∙ found in
    let rest =
      pick_perm wid order (remove_first id xs) d.1 (Distinct-remove_first id xs dx)
        (ground (arith, all_belong-remove_first id order wid xs d.0))
        (missing-remove_first id order wid xs dx m) in
    rw last (
      Perm.trans
        (Perm.cons x
          (rw (pick-remove_first id order xs d.0, outside-remove_first id wid xs dx here) at rest))
        (remove_first-perm id xs x found))

-- If the order list names no id twice, and no two stored records have the same id, a reorder that is
-- accepted permutes the records: none is lost, duplicated or changed.
pub reorder-Perm :
    (wid : String) (order : List String) (st : State) {st' : State}
    → Distinct order
    → Distinct (ids st.instances)
    → reorder wid order st ≡ ok (st', tt)
    → Perm st'.instances st.instances
unfolding reorder
reorder-Perm wid order st {st'} d dx h =
    let m : missing order wid st.instances ≡ false = ground (arith, h) in
    let b : all_belong order wid st.instances ≡ true = ground (arith, h, m) in
    let out : st'.instances ≡ pick order st.instances ++ outside wid st.instances =
      ground (arith, h, m, b) in
    rw out (pick_perm wid order st.instances d dx b m)

find-id :
    (id : String) (xs : Instances) (x : ManagedInstance) → find_last id xs ≡ some x → x.id ≡ id
unfolding find_last
find-id id [] x h = cc
find-id id (y ∷ xs) x h = ground (arith, eq_iff y.id id, find-id id xs x)

find_last-belongs :
    (id wid : String) (xs : Instances)
    → belongs id wid xs ≡ true
    → (x : ManagedInstance) × (find_last id xs ≡ some x)
unfolding belongs find_last
find_last-belongs id wid [] b = cc
find_last-belongs id wid (y ∷ xs) b = elim (Option-cases (find_last id xs)) [
  | inl e ↦ (y, ground (arith, e, b, find_last-belongs id wid xs))
  | inr (x, e) ↦ (x, ground (arith, e))
]

ids-pick :
    (wid : String) (order : List String) (xs : Instances)
    → all_belong order wid xs ≡ true
    → ids (pick order xs) ≡ order
unfolding pick all_belong or_zero
ids-pick wid [] xs b = refl
ids-pick wid (id ∷ order) xs b =
    let (x, e) = find_last-belongs id wid xs (ground (arith, b)) in
    ground (arith, e, find-id id xs x e, ids-pick wid order xs)

-- An accepted reorder puts the worktree's records first, one for each entry of the order list, and
-- keeps the records of other worktrees behind them in their old order.
pub reorder-ids :
    (wid : String) (order : List String) (st : State) {st' : State}
    → reorder wid order st ≡ ok (st', tt)
    → ids st'.instances ≡ order ++ ids (outside wid st.instances)
unfolding reorder
reorder-ids wid order st {st'} h =
    let m : missing order wid st.instances ≡ false = ground (arith, h) in
    let b : all_belong order wid st.instances ≡ true = ground (arith, h, m) in
    let out : st'.instances ≡ pick order st.instances ++ outside wid st.instances =
      ground (arith, h, m, b) in
    rw (out, map-append, ids-pick wid order st.instances b)
