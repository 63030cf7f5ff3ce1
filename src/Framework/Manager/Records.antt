-- ===== src/Framework/Manager/Records.antt =====
-- internal/framework/manager.go and methods.go: the operations on the records of the instances, as the
-- callers make them: `Get`, `List`, `UpdateName`, `Delete`, `Restart` and `ReconcileRunningOnStartup`.
pub mod Deleted
pub mod Reconciled
use myworktree.Prelude.{
  ℕ, ◌+◌, ◌==◌, Bool, true, false, not, ◌&&◌, ◌||◌, Option, none, some, String, List, [], ◌∷◌,
  lookup, insert, remove, str_eq, ℤ, pos, if◌then◌else◌, trim_space,
}
use myworktree.Store.{
  State, ManagedInstance, Result, ok, err, Error, version_conflict, not_found, failure,
}
use myworktree.Framework.Commit.{Edit}
use myworktree.Framework.Status.{Status, to_string, starting, running, stopped}
use myworktree.Framework.Kind.{Handle, Kind, get_kind}
use myworktree.Framework.Manager.{Manager}
use myworktree.Framework.Manager.Config.{Config, load_state, update_state}
use myworktree.Framework.Manager.Edits.{
  Instances, find_instance, update_first, remove_first, edit_instance, with_name, delete_instance,
}
use myworktree.Framework.Manager.Start.{start}
use myworktree.Framework.Manager.Prepare.{StartParams}
use myworktree.Framework.Manager.Lifecycle.{forget, register_reattached}

-- `Restart` takes the record of the old id out, and marks the new one, if it stands
unfoldable pub relink : String → String → Edit (Unit {0})
relink old new st =
    let rest = remove_first old st.instances in
    elim (find_instance new rest) [
      | none ↦ err not_found
      | some x ↦ ok (
        record st { instances = update_first new (λ i. record i { restarted_from = old }) rest },
        tt,
      )
    ]

abbrev pub is_live : String → Bool
is_live status = str_eq status "running" || str_eq status "starting"

-- a record whose process is taken to be dead
abbrev pub marked_stopped : String → ManagedInstance → ManagedInstance
marked_stopped now x = record x {
  status = "stopped";
  stopped_at = if str_eq (trim_space x.stopped_at) "" then now else x.stopped_at;
}

abbrev pub kind_or_pty : String → String
kind_or_pty kind = if str_eq kind "" then "pty" else kind

-- `MainWorktreeID` is a constant of the package
abbrev pub main_worktree_id : String
main_worktree_id = "__main__"

module _ {W : Type 0} (c : Config W) where
  -- the value of a loaded state, with the manager
  abbrev loaded_then : {A : Type 0} → (State → Result A) → Manager W → Result A × Manager W
  loaded_then f m = let r = load_state c m in (elim r.0 [ err e ↦ err e | ok st ↦ f st ], r.1)

  found : Option ManagedInstance → Result ManagedInstance
  found none = err not_found
  found (some x) = ok x

  unfoldable pub get : String → Manager W → Result ManagedInstance × Manager W
  unfolding found
  get id m = loaded_then (λ st. found (find_instance id st.instances)) m

  unfoldable pub list : Manager W → Result Instances × Manager W
  list m = loaded_then (λ st. ok st.instances) m

  unfoldable pub update_name : String → String → Manager W → Result ManagedInstance × Manager W
  update_name id name m =
      if str_eq (trim_space id) ""
      then (err (failure "id is required"), m)
      else if str_eq (trim_space name) ""
      then (err (failure "name cannot be empty"), m)
      else update_state c (edit_instance (trim_space id) (with_name (trim_space name))) m

  -- `cleanupKind`: a kind that cleans up is called; its error is logged
  unfoldable pub cleanup_kind : String → String → Manager W → Manager W
  cleanup_kind kind id m = elim (get_kind kind c.registry) [
    | none ↦ m
    | some k ↦ elim k.cleanup [ none ↦ m | some f ↦ record m { world = (f id m.world).1 } ]
  ]

  cleaned_up : String → String → Manager W → Manager W
  cleaned_up kind id m = if str_eq kind "" then m else cleanup_kind kind id m

  -- after the save of `Delete`
  pub removed : String → String → Result (Unit {0}) × W → Manager W → Result (Unit {0}) × Manager W
  unfolding cleaned_up
  removed id kind (err e, w) m = (err e, record m { world = w })
  removed id kind (ok _, w) m = (ok tt, cleaned_up kind id (record m { world = w }))

  -- `Delete` from its load on; a record that is not there is no error
  pub delete_loaded : String → Result State × Manager W → Result (Unit {0}) × Manager W
  unfolding removed
  delete_loaded id (err e, m) = (err e, m)
  delete_loaded id (ok st, m) = elim (delete_instance id st) [
    | none ↦ (ok tt, m)
    | some (st', kind) ↦
        removed id kind
          (c.store.save_with_version st' (pos st.version) (c.others.before_save 0 m.world)) m
  ]

  unfoldable pub delete : String → Manager W → Result (Unit {0}) × Manager W
  unfolding delete_loaded
  delete id m =
      let i = trim_space id in
      if str_eq i "" then (err (failure "id is required"), m) else elim (lookup i m.running) [
        | some ri ↦ (err (failure "instance is running"), m)
        | none ↦ delete_loaded i (load_state c (forget i m))
      ]

  abbrev pub restart_params : String → ManagedInstance → StartParams
  restart_params root old = record {
    worktree_id = old.worktree_id;
    root = if str_eq old.worktree_id main_worktree_id then root else "";
    tag_id = old.tag_id;
    command = "";
    name = old.name;
    kind = old.kind;
    extra_env = [];
  }

  -- the end of `Restart`, with the answer of `Start`
  pub restarted :
      ManagedInstance
      → String
      → Result (ManagedInstance × Handle) × Manager W
      → Result (ManagedInstance × Handle) × Manager W
  unfolding cleaned_up
  restarted old id (err e, m) = (err e, m)
  restarted old id (ok (inst, h), m) =
      (ok (inst, h), (update_state c (relink id inst.id) (cleaned_up old.kind id m)).1)

  pub restart_loaded :
      String
      → Option String
      → String
      → Result State × Manager W
      → Result (ManagedInstance × Handle) × Manager W
  unfolding restarted
  restart_loaded id new now (err e, m) = (err e, m)
  restart_loaded id new now (ok st, m) = elim (find_instance id st.instances) [
    | none ↦ (err not_found, m)
    | some old ↦
        if is_live old.status
        then (err (failure "instance is running"), m)
        else restarted old id (start c (restart_params c.root old) new now m)
  ]

  -- `new` is what `newID` answers to `Start`
  unfoldable pub restart :
      String → Option String → String → Manager W → Result (ManagedInstance × Handle) × Manager W
  unfolding restart_loaded
  restart id new now m =
      if str_eq (trim_space id) ""
      then (err (failure "id is required"), m)
      else restart_loaded (trim_space id) new now (load_state c m)

  -- a kind that survives restarts is asked for its handle
  pub reattach : ManagedInstance → Manager W → Option Handle × Manager W
  reattach x m = elim (get_kind (kind_or_pty x.kind) c.registry) [
    | none ↦ (none, m)
    | some k ↦ elim k.reattach [
      | none ↦ (none, m)
      | some f ↦
          let r = f x.id m.world in
          elim r.0 [
            | err e ↦ (none, record m { world = r.1 })
            | ok h ↦ (some h, register_reattached x.id h (record m { world = r.1 }))
          ]
    ]
  ]

  -- the record as `ReconcileRunningOnStartup` leaves it, with the count of what changed
  pub reconcile_one : String → ManagedInstance → Manager W → (ManagedInstance × ℕ) × Manager W
  unfolding reattach
  reconcile_one now x m =
      let r = reattach x m in
      if not (is_live x.status)
      then ((x, 0), m)
      else elim r.0 [ some h ↦ ((x, 0), r.1) | none ↦ ((marked_stopped now x, 1), r.1) ]

  unfoldable pub reconcile_all : String → Instances → Manager W → (Instances × ℕ) × Manager W
  unfolding reconcile_one
  reconcile_all now [] m = (([], 0), m)
  reconcile_all now (x ∷ xs) m =
      let first = reconcile_one now x m in
      let rest = reconcile_all now xs first.1 in
      ((first.0.0 ∷ rest.0.0, first.0.1 + rest.0.1), rest.1)

  pub reconcile_loaded : String → Result State × Manager W → (ℕ × Option Error) × Manager W
  unfolding reconcile_all
  reconcile_loaded now (err e, m) = ((0, some e), m)
  reconcile_loaded now (ok st, m) =
      let ((xs, changed), m') = reconcile_all now st.instances m in
      let saved =
        c.store.save_with_version (record st { instances = xs }) (pos st.version)
          (c.others.before_save 0 m'.world) in
      if changed == 0 then ((0, none), m') else elim saved.0 [
        | ok _ ↦ ((changed, none), record m' { world = saved.1 })
        | err e ↦ ((changed, some e), record m' { world = saved.1 })
      ]

  -- the count of the changed records, which comes also with an error
  unfoldable pub reconcile_running_on_startup : String → Manager W → (ℕ × Option Error) × Manager W
  unfolding reconcile_loaded
  reconcile_running_on_startup now m = reconcile_loaded now (load_state c m)
