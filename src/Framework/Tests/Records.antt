-- ===== src/Framework/Tests/Records.antt =====
-- The manager's records and accounts at concrete inputs, over a store in memory.
use mathlib.Core.List.{Perm}
use myworktree.Prelude.{
  ℕ, ◌+◌, ◌≡◌, ◌≢◌, refl, Bool, false, Option, some, String, [], ◌∷◌, ℤ, pos, negsuc, arith, inl,
  inr, not, ◌==◌, ==_iff, Bool-cases, if◌then◌else◌, lookup, insert,
}
use mathlib.Core.Bool.{false≢true}
use myworktree.Prelude.{eq_iff}
use myworktree.Store.{State, ManagedInstance, zero_state, Result, ok, err, Error, version_conflict}
use myworktree.Store.Interface.{InstanceStore, Agrees}
use myworktree.Framework.Commit.{Others, update}
use myworktree.Framework.Commit.Atomic.{Outcome, update_atomic, Disciplined}
use myworktree.Framework.Manager.{Manager}
use myworktree.Framework.Manager.Edits.{edit_instance, with_pid, reorder, find_instance}
use myworktree.Framework.Manager.Edits.Reorder.{reorder-Perm}
use myworktree.Framework.Manager.Buffers.{allocate_buffer}
use myworktree.Framework.Manager.Buffers.Accounts.{IsAccounted, allocate_buffer-IsAccounted}

abbrev pub refuses : ℤ → ℕ → Bool
refuses (pos v) n = not (n == v)
refuses (negsuc v) n = false

-- A store in memory, as the repository's own tests have.
unfoldable pub memory_save : State → ℤ → State → Result (Unit {0}) × State
memory_save st v w =
    if refuses v w.version
    then (err version_conflict, w)
    else (ok tt, record st { version = w.version + 1 })

pub memory_checks :
    (st : State) (v : ℤ) (w : State)
    → (memory_save st v w).0 ≡ ok tt
    → (cur : State) × (◌≡◌ {A = Option State} (some w) (some cur))
      × Agrees v cur.version
      × (◌≡◌ {A = Option State}
          (some (memory_save st v w).1)
          (some (record st { version = cur.version + 1 })))
unfolding memory_save
memory_checks st (pos v) w h = elim (Bool-cases (w.version == v)) [
  | inl e ↦ (w, refl, (==_iff w.version v).0 e, rw e)
  | inr ne ↦ ground (arith, ne)
]
memory_checks st (negsuc v) w h = (w, refl, tt, refl)

pub memory_refused :
    (st : State) (v : ℤ) (w : State) (e : Error)
    → (memory_save st v w).0 ≡ err e
    → ◌≡◌ {A = Option State} (some (memory_save st v w).1) (some w)
unfolding memory_save
memory_refused st v w e h = ground arith

pub memory_current :
    (w st : State)
    → ◌≡◌ {A = Result State} (ok w) (ok st)
    → ◌≡◌ {A = Option State} (some w) (some st)
memory_current w st h = cc

abbrev pub memory : InstanceStore State
memory = record {
  load = λ w. (ok w, w);
  save_with_version = memory_save;
  persisted = λ w. some w;
  load_current = memory_current;
  load_keeps = λ w. refl;
  save_checks = memory_checks;
  save_refused = memory_refused;
}

abbrev pub instance_of : String → String → ManagedInstance
instance_of id wid = record {
  id = id;
  worktree_id = wid;
  worktree_name = "main";
  tag_id = "idle";
  name = "idle";
  command = "";
  cwd = "/repo";
  env = [];
  kind = "pty";
  extra = [];
  kind_blob = [];
  pid = 0;
  status = "starting";
  last_error = "";
  exit_code = pos 0;
  restarted_from = "";
  restarted_to = "";
  created_at = "t0";
  stopped_at = "";
}

abbrev two : State
two = record zero_state { instances = instance_of "a" "w" ∷ instance_of "b" "w" ∷ []; version = 4 }

-- another writer that counts the version up once, before the first save of three
abbrev busy : Others State
busy = record {
  before_save = λ n w. if n == 2 then record w { version = w.version + 1 } else w;
  before_retry = λ n w. w;
}

busy-Disciplined : (n : ℕ) → Disciplined memory (busy.before_save n)
busy-Disciplined n w st h = ground arith

-- the first attempt is refused, the second succeeds
update_retries : (update memory busy (edit_instance "b" (with_pid 77)) two).1.version ≡ 6
unfolding update edit_instance memory_save with_pid find_instance
update_retries = refl

update_atomic_example :
    Outcome memory busy
      (edit_instance "b" (with_pid 77))
      two
      (update memory busy (edit_instance "b" (with_pid 77)) two)
update_atomic_example =
    update_atomic memory busy (edit_instance "b" (with_pid 77)) two busy-Disciplined

abbrev edited : State
edited = record two {
  instances = instance_of "a" "w" ∷ (record (instance_of "b" "w") { pid = 77 }) ∷ [];
}

a-ne-b : ◌≢◌ {A = String} "a" "b"
a-ne-b p = false≢true ((eq_iff "a" "b").1 p)

b-ne-a : ◌≢◌ {A = String} "b" "a"
b-ne-a p = false≢true ((eq_iff "b" "a").1 p)

abbrev reordered : State
reordered = record two {
  instances = instance_of "b" "w" ∷ instance_of "a" "w" ∷ [];
  tab_order = ("w", "b" ∷ "a" ∷ []) ∷ [];
}

reorder-Perm_example : Perm reordered.instances two.instances
unfolding reorder find_instance insert
reorder-Perm_example =
    reorder-Perm "w" ("b" ∷ "a" ∷ []) two ((a-ne-b, tt), (tt, tt)) ((b-ne-a, tt), (tt, tt)) refl

-- an order list that names an id twice, and the state that it makes
abbrev doubled : State
doubled = record two {
  instances = instance_of "a" "w" ∷ instance_of "b" "w" ∷ instance_of "a" "w" ∷ [];
  tab_order = ("w", "a" ∷ "b" ∷ "a" ∷ []) ∷ [];
}

abbrev pub idle : Manager State
idle = record { world = zero_state; running = []; buffers = []; total_buf_bytes = 0; conns = [] }

pub idle-IsAccounted : IsAccounted idle
idle-IsAccounted = record { keyed = tt; balanced = refl }

one-IsAccounted : IsAccounted (allocate_buffer "a" 8 idle).0
unfolding lookup
one-IsAccounted = allocate_buffer-IsAccounted "a" 8 idle refl idle-IsAccounted
