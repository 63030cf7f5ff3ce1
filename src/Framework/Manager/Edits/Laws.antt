-- ===== src/Framework/Manager/Edits/Laws.antt =====
-- What the edits do to the record that they are about, and that they leave the others alone.
use mathlib.Core.Option
use myworktree.Prelude.{
  some, String, List, [], ◌∷◌, str_eq, if◌then◌else◌, ◌≡◌, ◌≢◌, refl, arith, eq_iff, map,
}
use myworktree.Store.{State, ManagedInstance, ok}
use myworktree.Framework.Manager.Edits.{Instances, find_instance, update_first, edit_instance}

abbrev pub ids : Instances → List String
ids = map (λ x. x.id)

-- the closure changes no record's id
abbrev pub KeepsId : (ManagedInstance → ManagedInstance) → Type 0
KeepsId fn = (x : ManagedInstance) → (fn x).id ≡ x.id

find-update_first :
    (id j : String) (fn : ManagedInstance → ManagedInstance) (xs : Instances)
    → KeepsId fn
    → find_instance j (update_first id fn xs)
      ≡ (if str_eq id j then Option.map fn (find_instance j xs) else find_instance j xs)
unfolding find_instance update_first
find-update_first id j fn [] keeps = ground arith
find-update_first id j fn (x ∷ xs) keeps = ground (
  arith,
  keeps x,
  eq_iff id j,
  eq_iff x.id id,
  eq_iff x.id j,
  eq_iff (fn x).id j,
  find-update_first id j fn xs keeps,
)

ids-update_first :
    (id : String) (fn : ManagedInstance → ManagedInstance) (xs : Instances)
    → KeepsId fn
    → ids (update_first id fn xs) ≡ ids xs
unfolding update_first
ids-update_first id fn [] keeps = refl
ids-update_first id fn (x ∷ xs) keeps = ground (arith, keeps x, ids-update_first id fn xs keeps)

-- An edit of a record that exists applies the closure to it and returns it; the ids and their
-- order, every other record, the worktrees, the tab order and the version stay as they are.
pub edit_instance_lem :
    (id : String) (fn : ManagedInstance → ManagedInstance) (st : State) {st' : State}
    {x' : ManagedInstance}
    → KeepsId fn
    → edit_instance id fn st ≡ ok (st', x')
    → (Option.map fn (find_instance id st.instances) ≡ some x')
      × (find_instance id st'.instances ≡ some x')
      × ((j : String) → j ≢ id → find_instance j st'.instances ≡ find_instance j st.instances)
      × (ids st'.instances ≡ ids st.instances)
      × (st'.worktrees ≡ st.worktrees)
      × (st'.tab_order ≡ st.tab_order)
      × (st'.version ≡ st.version)
unfolding edit_instance
edit_instance_lem id fn st {st'} {x'} keeps h =
    let same = ids-update_first id fn st.instances keeps in
    let self = find-update_first id id fn st.instances keeps in
    (
      ground arith,
      ground (arith, self, eq_iff id id),
      λ j ne. ground (arith, find-update_first id j fn st.instances keeps, eq_iff id j),
      ground (arith, same),
      ground arith,
      ground arith,
      ground arith,
    )
