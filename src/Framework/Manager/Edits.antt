-- ===== src/Framework/Manager/Edits.antt =====
-- The edits of the persisted state that the manager's operations make: `updateStore` with its
-- callers, `persistNewInstance`, and the bodies of `Delete`, `ReorderInstances` and `Restart`.
pub mod Laws
pub mod Reorder
use myworktree.Prelude.{
  ℕ, zero, suc, ◌+◌, Bool, true, false, not, ◌&&◌, ◌||◌, Option, none, some, String, List, [], ◌∷◌,
  ◌++◌, Assoc, lookup, insert, str_eq, if◌then◌else◌, ℤ, pos, trim_space,
}
use myworktree.Store.{
  State, ManagedInstance, Result, ok, err, Error, version_conflict, not_found, failure,
}
use myworktree.Framework.Status.{Status, to_string, starting, running, stopped, failed, exited}
use myworktree.Framework.Commit.{Edit}

abbrev pub Instances : Type 0
Instances = List ManagedInstance

-- The first record of the id, which the loops of the code look for.
unfoldable pub find_instance : String → Instances → Option ManagedInstance
find_instance id [] = none
find_instance id (x ∷ xs) = if str_eq x.id id then some x else find_instance id xs

-- the loop of `updateStore`: the first record of the id is changed in place
unfoldable pub update_first : String → (ManagedInstance → ManagedInstance) → Instances → Instances
update_first id fn [] = []
update_first id fn (x ∷ xs) = if str_eq x.id id then fn x ∷ xs else x ∷ update_first id fn xs

-- `append(xs[:i], xs[i+1:]...)` at the first record of the id
unfoldable pub remove_first : String → Instances → Instances
remove_first id [] = []
remove_first id (x ∷ xs) = if str_eq x.id id then xs else x ∷ remove_first id xs

-- The closures that callers hand to `updateStore` never fail. The record that `fn` has made comes
-- back too (`UpdateName` returns it).
unfoldable pub edit_instance : String → (ManagedInstance → ManagedInstance) → Edit ManagedInstance
edit_instance id fn st = elim (find_instance id st.instances) [
  | none ↦ err not_found
  | some x ↦ ok (record st { instances = update_first id fn st.instances }, fn x)
]

or_empty : Option (List String) → List String
or_empty none = []
or_empty (some l) = l

-- `persistNewInstance`
unfoldable pub append_instance : ManagedInstance → Edit (Unit {0})
unfolding or_empty
append_instance inst st =
    let order = or_empty (lookup inst.worktree_id st.tab_order) ++ (inst.id ∷ []) in
    ok (
      record st {
        instances = st.instances ++ (inst ∷ []);
        tab_order = insert inst.worktree_id order st.tab_order;
      },
      tt,
    )

abbrev is_stamped : String → Bool
is_stamped status = str_eq status "stopped" || str_eq status "failed" || str_eq status "exited"

-- the closure of `setStatus`; `now` is the time of the call
unfoldable pub with_status : String → Status → String → ManagedInstance → ManagedInstance
unfolding to_string
with_status now status last_error inst = record inst {
  status = to_string status;
  last_error = if str_eq last_error "" then inst.last_error else last_error;
  stopped_at = if is_stamped (to_string status) then now else inst.stopped_at;
}

-- the closure of `MarkExited`
unfoldable pub with_exit : String → ℤ → ManagedInstance → ManagedInstance
unfolding to_string
with_exit now code inst = record inst {
  status = to_string exited;
  exit_code = code;
  stopped_at = now;
}

-- the closures of `SetInstancePID`, `UpdateKindBlob` and `UpdateName`
unfoldable pub with_pid : ℕ → ManagedInstance → ManagedInstance
with_pid pid inst = record inst { pid = pid }

unfoldable pub with_kind_blob : List ℕ → ManagedInstance → ManagedInstance
with_kind_blob blob inst = record inst { kind_blob = blob }

unfoldable pub with_name : String → ManagedInstance → ManagedInstance
with_name name inst = record inst { name = name }

-- The body of `Delete` in the store, with the kind of the record that it removed; `none` where
-- there is none, and the code returns with no save.
unfoldable pub delete_instance : String → State → Option (State × String)
delete_instance id st = elim (find_instance id st.instances) [
  | none ↦ none
  | some x ↦ some (record st { instances = remove_first id st.instances }, x.kind)
]

abbrev contains : List String → String → Bool
contains [] id = false
contains (x ∷ xs) id = str_eq x id || contains xs id

-- the first instance of the worktree that the order list leaves out
missing : List String → String → Instances → Bool
missing order wid [] = false
missing order wid (x ∷ xs) =
    str_eq x.worktree_id wid && not (contains order x.id) || missing order wid xs

belongs : String → String → Instances → Bool
belongs id wid [] = false
belongs id wid (x ∷ xs) = str_eq x.id id && str_eq x.worktree_id wid || belongs id wid xs

all_belong : List String → String → Instances → Bool
all_belong [] wid xs = true
all_belong (id ∷ ids) wid xs = belongs id wid xs && all_belong ids wid xs

-- `idToInst[id]`: the map keeps the last record of an id
find_last : String → Instances → Option ManagedInstance
find_last id [] = none
find_last id (x ∷ xs) = elim (find_last id xs) [
  | some y ↦ some y
  | none ↦ if str_eq x.id id then some x else none
]

-- Go's zero value, which a map gives for a missing key
abbrev zero_instance : ManagedInstance
zero_instance = record {
  id = "";
  worktree_id = "";
  worktree_name = "";
  tag_id = "";
  name = "";
  command = "";
  cwd = "";
  env = [];
  kind = "";
  extra = [];
  kind_blob = [];
  pid = 0;
  status = "";
  last_error = "";
  exit_code = pos 0;
  restarted_from = "";
  restarted_to = "";
  created_at = "";
  stopped_at = "";
}

or_zero : Option ManagedInstance → ManagedInstance
or_zero none = zero_instance
or_zero (some x) = x

pick : List String → Instances → Instances
pick [] xs = []
pick (id ∷ ids) xs = or_zero (find_last id xs) ∷ pick ids xs

pub outside : String → Instances → Instances
outside wid [] = []
outside wid (x ∷ xs) =
    let rest = outside wid xs in if str_eq x.worktree_id wid then rest else x ∷ rest

-- `ReorderInstances` between its load and its save
unfoldable pub reorder : String → List String → Edit (Unit {0})
unfolding missing all_belong pick or_zero outside belongs find_last
reorder wid order st =
    if missing order wid st.instances
    then err (failure "order list is missing an instance")
    else if not (all_belong order wid st.instances)
    then err (failure "instance does not belong to worktree")
    else ok (
      record st {
        instances = pick order st.instances ++ outside wid st.instances;
        tab_order = insert wid order st.tab_order;
      },
      tt,
    )
