-- ===== src/Framework/Manager/Prepare.antt =====
-- What `Manager.Start` settles before it makes the record: the tag, the worktree and the size of the
-- buffer, in the order in which the code does.
pub mod Memory
use myworktree.Prelude.{
  ℕ, ◌+◌, Bool, true, false, not, ◌&&◌, ◌||◌, Option, none, some, String, List, [], ◌∷◌, Assoc,
  lookup, insert, str_eq, ℤ, pos, if◌then◌else◌, trim_space, base, join,
}
use myworktree.Store.{
  State, ManagedWorktree, ManagedInstance, Result, ok, err, Error, version_conflict, not_found,
  failure,
}
use myworktree.Tag.{Tag}
use myworktree.Framework.Status.{to_string, starting, failed}
use myworktree.Framework.Sizing.{CapResult, granted, exceeded, resolve_cap}
use myworktree.Framework.Kind.{Handle, Kind, SpawnParams, get_kind}
use myworktree.Framework.Manager.{Manager, RunningInstance}
use myworktree.Framework.Manager.Buffers.{allocate_buffer, drop_buffer}
use myworktree.Framework.Manager.Config.{Config, load_tags, load_state, update_state}
use myworktree.Framework.Manager.Edits.{append_instance, edit_instance, with_status}

pub record StartParams : Type 0 where
  pub worktree_id : String
  pub root : String
  pub tag_id : String
  pub command : String
  pub name : String
  pub kind : String
  pub extra_env : Assoc String

-- what the tag, or its absence, makes of the call
pub record Launch : Type 0 where
  pub effective_tag_id : String
  pub tag_id : String
  pub command : String
  pub cwd_rel : String
  pub pre_start : String
  pub env : Assoc String

abbrev kind_name_of : String → String
kind_name_of kind = if str_eq (trim_space kind) "" then "pty" else trim_space kind

-- the sentinels of the record mean no tag
abbrev tag_id_of : String → String
tag_id_of tag_id =
    let t = trim_space tag_id in if str_eq t "adhoc" || str_eq t "idle" then "" else t

untagged : String → Launch
untagged command = record {
  effective_tag_id = if str_eq (trim_space command) "" then "idle" else "adhoc";
  tag_id = "";
  command = trim_space command;
  cwd_rel = "";
  pre_start = "";
  env = [];
}

tagged : String → Option (Assoc Tag) → Result Launch
tagged tag_id none = err (failure "tags")
tagged tag_id (some tags) = elim (lookup tag_id tags) [
  | none ↦ err (failure "unknown tag id")
  | some t ↦ ok (record {
    effective_tag_id = tag_id;
    tag_id = tag_id;
    command = t.command;
    cwd_rel = t.cwd;
    pre_start = t.pre_start;
    env = t.env;
  })
]

-- the path and the name of the worktree with the id
find_worktree : String → List ManagedWorktree → Result (String × String)
find_worktree id [] = err (failure "unknown worktree id")
find_worktree id (x ∷ xs) = if str_eq x.id id then ok (x.path, x.name) else find_worktree id xs

abbrev joined_path : String → String → String
joined_path path rel = if str_eq (trim_space rel) "" || str_eq rel "." then path else join path rel

-- what `Start` has settled before it makes the record
pub record Prepared : Type 0 where
  pub kind_name : String
  pub launch : Launch
  pub path : String
  pub worktree_name : String
  pub cap_bytes : ℕ

module _ {W : Type 0} (c : Config W) where
  launched : StartParams → Manager W → Result Launch × Manager W
  unfolding tagged untagged
  launched p m =
      let files = c.tag_files m.world in
      let loaded = load_tags c m.world in
      if str_eq (tag_id_of p.tag_id) ""
      then (ok (untagged p.command), m)
      else if str_eq files.global_path "" && str_eq files.project_path ""
      then (err (failure "tag support is not configured"), m)
      else (tagged (tag_id_of p.tag_id) loaded.0, record m { world = loaded.1 })

  found_worktree : String → Result State × Manager W → Result (String × String) × Manager W
  unfolding find_worktree
  found_worktree id (err e, m) = (err e, m)
  found_worktree id (ok st, m) = (find_worktree id st.worktrees, m)

  unfoldable pub resolve_worktree : StartParams → Manager W → Result (String × String) × Manager W
  unfolding found_worktree
  resolve_worktree p m =
      if not (str_eq p.root "")
      then (ok (p.root, base p.root), m)
      else found_worktree p.worktree_id (load_state c m)

  sized : StartParams → Launch → Result (String × String) × Manager W → Result Prepared × Manager W
  sized p l (err e, m) = (err e, m)
  sized p l (ok (path, name), m) =
      elim (resolve_cap c.float64 c.log_buffer_bytes (c.sampler m.world) m.total_buf_bytes) [
        | exceeded e ↦ (err (failure "log buffer budget"), m)
        | granted cap ↦ (
          ok (record {
            kind_name = kind_name_of p.kind;
            launch = l;
            path = joined_path path l.cwd_rel;
            worktree_name = name;
            cap_bytes = cap;
          }),
          m,
        )
      ]

  located : StartParams → Result Launch × Manager W → Result Prepared × Manager W
  unfolding sized
  located p (err e, m) = (err e, m)
  located p (ok l, m) = sized p l (resolve_worktree p m)

  -- `Start` up to the size of the buffer
  unfoldable pub prepare : StartParams → Manager W → Result Prepared × Manager W
  unfolding located launched
  prepare p m =
      if str_eq (trim_space p.worktree_id) ""
      then (err (failure "worktree_id is required"), m)
      else elim (get_kind (kind_name_of p.kind) c.registry) [
        | none ↦ (err (failure "kind not registered"), m)
        | some k ↦ located p (launched p m)
      ]
