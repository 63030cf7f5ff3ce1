-- ===== src/Framework/Tests/Instances.antt =====
-- Starts, restarts and deletions of instances, over a store in memory and kinds without processes.
use mathlib.Core.Option.{some-injective}
use myworktree.Prelude.{
  ◌≡◌, ◌≢◌, refl, true, false, Option, none, some, String, List, [], ◌∷◌, lookup, insert, pos,
}
use myworktree.Store.{State, ManagedInstance, zero_state, ok, err, failure}
use myworktree.Tag.{missing}
use myworktree.Framework.Status.{exited}
use myworktree.Framework.Kind.{Handle, Kind, get_kind}
use myworktree.Framework.Manager.{Manager}
use myworktree.Framework.Manager.Config.{Config}
use myworktree.Framework.Manager.Edits.{find_instance}
use myworktree.Framework.Manager.Start.{start}
use myworktree.Framework.Manager.Prepare.{StartParams}
use myworktree.Framework.Manager.Start.Outcome.{start-refused}
use myworktree.Framework.Manager.Prepare.Memory.{SameMemory}
use myworktree.Framework.Manager.Start.Started.{Started, start-Started}
use myworktree.Framework.Manager.Logs.Cursors.{TailContract}
use myworktree.Framework.Manager.Records.{is_live, restart, reconcile_running_on_startup}
use myworktree.Framework.Manager.Records.Deleted.{Deleted, restart-Started}
use myworktree.Framework.Manager.Records.Reconciled.{AllSettled, reconcile_running_on_startup_lem}
use mathlib.Core.Bool.{false≢true}
use myworktree.Prelude.{
  arith, ap, sym, ◌∙◌, ◌==◌, ◌+◌, trim_space, base, split_at_code, str_eq, Bool-cases, inl, inr,
  subst,
}
use myworktree.Framework.Sizing.{resolve_cap, adaptive_cap}
use myworktree.Framework.Status.{to_string}
use myworktree.Framework.Commit.{attempts, update}
use myworktree.Framework.Manager.Config.{load_state, update_state}
use myworktree.Framework.Manager.Edits.{append_instance}
use myworktree.Framework.Manager.Prepare.{prepare, resolve_worktree}
use myworktree.Framework.Manager.Records.{reconcile_all}
use myworktree.Framework.Manager.Lifecycle.{register_reattached}
use myworktree.Framework.Tests.Records.{memory, memory_save, idle, instance_of}

-- a kind whose processes end at once, with three bytes of log
abbrev pub web : Kind State
web = record {
  name = "web";
  needs_output_buffer = some false;
  spawn = λ p w. (ok (record { kind_name = "web"; inner = 7 }), w);
  stop = λ h grace w. (ok tt, w);
  status = λ h w. (exited, "");
  read_logs = λ h from size w. record { body = []; offset = pos 3; log_error = none };
  reattach = none;
  cleanup = none;
  resize = none;
  send_input = none;
}

-- a kind that cannot be spawned, and one that takes its instances back
abbrev broken : Kind State
broken = record web {
  name = "pty";
  needs_output_buffer = none;
  spawn = λ p w. (err (failure "no shell"), w);
}

abbrev surviving : Kind State
surviving = record web {
  name = "serve";
  reattach = some (λ id w. (ok (record { kind_name = "serve"; inner = 9 }), w));
}

abbrev pub config : Config State
config = record {
  registry = ("web", web) ∷ ("pty", broken) ∷ ("serve", surviving) ∷ [];
  store = memory;
  others = record { before_save = λ n w. w; before_retry = λ n w. w };
  tag_files = λ w. record {
    global_path = "";
    project_path = "";
    global_file = missing;
    project_file = missing;
    write_fails = false;
  };
  set_tag_files = λ f w. w;
  root = "/repo";
  auth_token = "";
  log_buffer_bytes = pos 0;
  sampler = λ w. none;
  float64 = λ n. n;
  stop_grace_seconds = 5;
}

abbrev pub params : StartParams
params = record {
  worktree_id = "__main__";
  root = "/repo";
  tag_id = "";
  command = "make";
  name = "";
  kind = "web";
  extra_env = [];
}

-- the record that a start of them makes
abbrev pub made : ManagedInstance
made = record (instance_of "n1" "__main__") {
  worktree_name = "repo";
  tag_id = "adhoc";
  name = "adhoc";
  command = "make";
  cwd = "/repo";
  kind = "web";
  created_at = "t1";
}

abbrev pub web_handle : Handle
web_handle = record { kind_name = "web"; inner = 7 }

pub started_web : (start config params (some "n1") "t1" idle).0 ≡ ok (made, web_handle)
unfolding start prepare resolve_worktree load_state update_state append_instance trim_space base
    split_at_code resolve_cap adaptive_cap lookup insert get_kind memory_save attempts update
    to_string
started_web = refl

start-Started_example :
    Started config "n1" idle (start config params (some "n1") "t1" idle).1 made web_handle
start-Started_example = start-Started config params "n1" "t1" idle made web_handle started_web

-- the kind's buffer has been made by the time it fails
abbrev no_shell : StartParams
no_shell = record params { kind = "" }

refused_pty : (start config no_shell (some "n2") "t1" idle).0 ≡ err (failure "no shell")
unfolding start prepare resolve_worktree load_state update_state append_instance trim_space base
    split_at_code resolve_cap adaptive_cap lookup insert get_kind memory_save attempts update
    to_string
refused_pty = refl

start-refused_example : SameMemory idle (start config no_shell (some "n2") "t1" idle).1
unfolding lookup
start-refused_example =
    start-refused config no_shell "n2" "t1" idle (failure "no shell") refl refused_pty

-- a server that comes up again: a record whose process is gone, one that has ended, one taken back
abbrev old_records : State
old_records = record zero_state {
  instances =
      record (instance_of "a" "w") { kind = "web"; status = "running" }
      ∷ record (instance_of "b" "w") { status = "exited"; tag_id = "adhoc"; command = "make" }
      ∷ record (instance_of "c" "w") { kind = "serve"; status = "running" }
      ∷ [];
  version = 4;
}

abbrev came_up : Manager State
came_up = record idle { world = old_records }

reconciled : (reconcile_running_on_startup config "t2" came_up).0 ≡ (1, none)
unfolding reconcile_running_on_startup load_state reconcile_all register_reattached trim_space
    lookup insert get_kind memory_save
reconciled = refl

reconcile_running_on_startup_lem_example :
    let r = (reconcile_running_on_startup config "t2" came_up).1 in
    (st : State) × (ys : List ManagedInstance) × (◌≡◌ {A = Option State}
      (some came_up.world)
      (some st))
    × (◌≡◌ {A = Option State}
        (some r.world)
        (some (record st { instances = ys; version = st.version + 1 })))
    × AllSettled "t2" r.running st.instances ys
reconcile_running_on_startup_lem_example =
    reconcile_running_on_startup_lem config "t2" came_up 1 (λ e. false≢true (ap (λ n. n == 0) e))
      reconciled

-- the old record of "a" is stopped; it is started again as "n3"
abbrev stopped_a : Manager State
stopped_a = record idle {
  world = record zero_state {
    instances =
        record (instance_of "a" "__main__") {
          kind = "web";
          status = "stopped";
          tag_id = "adhoc";
          command = "make";
        }
        ∷ [];
  };
}

abbrev restarted_a : ManagedInstance
restarted_a = record made { id = "n3"; tag_id = "idle"; name = "idle"; command = "" }

restarted_web : (restart config "a" (some "n3") "t1" stopped_a).0 ≡ ok (restarted_a, web_handle)
unfolding restart start prepare resolve_worktree load_state update_state append_instance trim_space
    base split_at_code resolve_cap adaptive_cap lookup insert get_kind memory_save attempts update
    to_string find_instance
restarted_web = refl

restart-Started_example :
    Started config "n3" stopped_a
      (restart config "a" (some "n3") "t1" stopped_a).1
      restarted_a
      web_handle
    × ((st : State) × (old : ManagedInstance) × (◌≡◌ {A = Option State}
          (some stopped_a.world)
          (some st))
        × (find_instance (trim_space "a") st.instances ≡ some old)
        × (is_live old.status ≡ false))
restart-Started_example =
    restart-Started config "a" "n3" "t1" stopped_a restarted_a web_handle restarted_web

TailContract-web : TailContract web
TailContract-web = record {
  same_cursor = λ h n w. refl;
  same_error = λ h n w. refl;
  reaches = λ h n w. omega arith;
}

abbrev only_web : Config State
only_web = record config { registry = ("web", web) ∷ [] }

nothing : {k : Kind State} → ◌≢◌ {A = Option (Kind State)} none (some k)
nothing e =
    absurd
      (false≢true (ap (λ (o : Option (Kind State)). elim o [ none ↦ false | some x ↦ true ]) e))

keeps_contract :
    (name : String) (k : Kind State) → get_kind name only_web.registry ≡ some k → TailContract k
unfolding get_kind lookup
keeps_contract name k h = elim (Bool-cases (str_eq "web" name)) [
  | inl e ↦
      let is_web : get_kind name only_web.registry ≡ some web = rw e refl in
      subst TailContract (some-injective web k (sym is_web ∙ h)) TailContract-web
  | inr e ↦
      let no_kind : get_kind name only_web.registry ≡ none = rw e refl in
      absurd (nothing (sym no_kind ∙ h))
]

abbrev pub running_web : Manager State
running_web = record idle { running = ("n1", record { handle = web_handle }) ∷ [] }
