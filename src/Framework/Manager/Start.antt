-- ===== src/Framework/Manager/Start.antt =====
-- `Manager.Start`: after what `Prepare` settles the record, the buffer and the process, in the order in
-- which the code makes them.
pub mod Outcome
pub mod Started
use myworktree.Prelude.{
  ℕ, ◌+◌, Bool, true, false, not, ◌&&◌, ◌||◌, Option, none, some, String, List, [], ◌∷◌, Assoc,
  lookup, insert, str_eq, ℤ, pos, if◌then◌else◌, trim_space, base, join,
}
use myworktree.Store.{
  State, ManagedWorktree, ManagedInstance, Result, ok, err, Error, version_conflict, not_found,
  failure,
}
use myworktree.Tag.{Tag}
use myworktree.Framework.Status.{to_string, starting, failed}
use myworktree.Framework.Sizing.{CapResult, granted, exceeded, resolve_cap}
use myworktree.Framework.Kind.{Handle, Kind, SpawnParams, get_kind}
use myworktree.Framework.Manager.{Manager, RunningInstance}
use myworktree.Framework.Manager.Buffers.{allocate_buffer, drop_buffer}
use myworktree.Framework.Manager.Config.{Config, load_tags, load_state, update_state}
use myworktree.Framework.Manager.Edits.{append_instance, edit_instance, with_status}
use myworktree.Framework.Manager.Prepare.{StartParams, Prepared, prepare}

-- `err.Error()`
abbrev pub error_text : Error → String
error_text version_conflict = "version conflict"
error_text not_found = "unknown instance id"
error_text (failure text) = text

module _ {W : Type 0} (c : Config W) where
  abbrev pub instance_of : StartParams → Prepared → String → String → ManagedInstance
  instance_of p r id now = record {
    id = id;
    worktree_id = p.worktree_id;
    worktree_name = r.worktree_name;
    tag_id = r.launch.effective_tag_id;
    name = if str_eq (trim_space p.name) "" then r.launch.effective_tag_id else trim_space p.name;
    command = r.launch.command;
    cwd = r.path;
    env = r.launch.env;
    kind = r.kind_name;
    extra = [];
    kind_blob = [];
    pid = 0;
    status = to_string starting;
    last_error = "";
    exit_code = pos 0;
    restarted_from = "";
    restarted_to = "";
    created_at = now;
    stopped_at = "";
  }

  -- `BufferConsumer`: a kind that does not say so captures output
  abbrev pub is_buffered : Kind W → Bool
  is_buffered k = elim k.needs_output_buffer [ none ↦ true | some b ↦ b ]

  abbrev pub spawn_params : StartParams → Prepared → ManagedInstance → Bool → SpawnParams
  spawn_params p r inst buffered = record {
    worktree_id = p.worktree_id;
    worktree_path = r.path;
    worktree_name = r.worktree_name;
    tag_id = r.launch.tag_id;
    name = inst.name;
    auth_token = c.auth_token;
    extra_env = r.launch.env;
    command = r.launch.command;
    pre_start = r.launch.pre_start;
    instance_id = inst.id;
    buffered = buffered;
  }

  -- the end of `Start`; the watcher is made with the handle
  pub spawned :
      String
      → ManagedInstance
      → Result Handle × W
      → Manager W
      → Result (ManagedInstance × Handle) × Manager W
  spawned now inst (ok h, w) m = (
    ok (inst, h),
    record m { world = w; running = insert inst.id (record { handle = h }) m.running },
  )
  spawned now inst (err e, w) m =
      let dropped = drop_buffer inst.id (record m { world = w }) in
      (
        err e,
        (update_state c (edit_instance inst.id (with_status now failed (error_text e))) dropped).1,
      )

  -- the buffer, if the kind wants one
  pub allotted : Kind W → String → ℕ → Manager W → Manager W
  allotted k id cap m = if is_buffered k then (allocate_buffer id cap m).0 else m

  pub launch :
      Kind W
      → StartParams
      → Prepared
      → String
      → ManagedInstance
      → Manager W
      → Result (ManagedInstance × Handle) × Manager W
  unfolding spawned allotted
  launch k p r now inst m =
      let m' = allotted k inst.id r.cap_bytes m in
      spawned now inst (k.spawn (spawn_params p r inst (is_buffered k)) m'.world) m'

  pub persisted_then :
      Kind W
      → StartParams
      → Prepared
      → String
      → ManagedInstance
      → Result (Unit {0}) × Manager W
      → Result (ManagedInstance × Handle) × Manager W
  unfolding launch
  persisted_then k p r now inst (err e, m) = (err e, m)
  persisted_then k p r now inst (ok _, m) = launch k p r now inst m

  -- `id` is the answer of `newID`, `none` if the random source fails
  pub recorded :
      StartParams
      → Option String
      → String
      → Result Prepared × Manager W
      → Result (ManagedInstance × Handle) × Manager W
  unfolding persisted_then
  recorded p id now (err e, m) = (err e, m)
  recorded p none now (ok r, m) = (err (failure "newID"), m)
  recorded p (some id) now (ok r, m) = elim (get_kind r.kind_name c.registry) [
    | none ↦ (err (failure "kind not registered"), m)
    | some k ↦
        let inst = instance_of p r id now in
        persisted_then k p r now inst (update_state c (append_instance inst) m)
  ]

  unfoldable pub start :
      StartParams
      → Option String
      → String
      → Manager W
      → Result (ManagedInstance × Handle) × Manager W
  unfolding recorded
  start p id now m = recorded p id now (prepare c p m)
