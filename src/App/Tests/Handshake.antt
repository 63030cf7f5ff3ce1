-- ===== src/App/Tests/Handshake.antt =====
-- A client that reconnects to a terminal while the instance goes on writing.
use myworktree.Prelude.{
  ℕ, zero, suc, ◌+◌, ◌≤◌, ◌≡◌, ◌≢◌, refl, none, some, List, [], ◌∷◌, ◌++◌, lookup, pos, true, false,
  arith, if◌then◌else◌,
}
use myworktree.Store.{Result, ok, err, Error, not_found}
use myworktree.Store.Interface.{InstanceStore}
use myworktree.Tag.{missing}
use myworktree.Framework.RingBuffer.{
  RingBuffer, Bytes, cap_bytes, new_ring_buffer, write, tail, read_since, copy_round, copy_range,
}
use myworktree.Framework.RingBuffer.Holds.{Holds}
use myworktree.Framework.RingBuffer.Stream.{write_all, write_all_from_new}
use myworktree.Framework.Status.{running}
use myworktree.Framework.Kind.{Kind, get_kind}
use myworktree.Framework.Manager.{Manager, RunningInstance}
use myworktree.Framework.Manager.Config.{Config}
use myworktree.Framework.Manager.Logs.{tail_log, read_log_since}
use myworktree.Pty.{read_logs}
use myworktree.App.Handshake.{
  Frame, start_sync, binary, sync, done, complete_handshake, manager_log, turn, replay,
}
use myworktree.App.Handshake.Turns.{complete_handshake-ends}
use myworktree.App.Handshake.Wire.{Faithful, slice}
use myworktree.App.Handshake.Contiguous.Resumed.{Resumed, complete_handshake-Resumed}
use myworktree.App.Handshake.Rings.{Ringed, Ringed-Faithful}

not_ok : {A : Type 0} {e : Error} {a : A} → ◌≢◌ {A = Result A} (err e) (ok a)
not_ok h = absurd (ground (arith, h))

-- a state file that cannot be read
abbrev no_store : InstanceStore RingBuffer
no_store = record {
  load = λ w. (err not_found, w);
  save_with_version = λ st v w. (err not_found, w);
  persisted = λ w. none;
  load_current = λ w st h. absurd (not_ok h);
  load_keeps = λ w. refl;
  save_checks = λ st v w h. absurd (not_ok h);
  save_refused = λ st v w e h. refl;
}

abbrev shell : Kind RingBuffer
shell = record {
  name = "pty";
  needs_output_buffer = none;
  spawn = λ p w. (err not_found, w);
  stop = λ h grace w. (ok tt, w);
  status = λ h w. (running, "");
  read_logs = λ h from size w. read_logs (some w) from size;
  reattach = none;
  cleanup = none;
  resize = none;
  send_input = none;
}

abbrev config : Config RingBuffer
config = record {
  registry = ("pty", shell) ∷ [];
  store = no_store;
  others = record { before_save = λ n w. w; before_retry = λ n w. w };
  tag_files = λ w. record {
    global_path = "";
    project_path = "";
    global_file = missing;
    project_file = missing;
    write_fails = false;
  };
  set_tag_files = λ f w. w;
  root = "/repo";
  auth_token = "";
  log_buffer_bytes = pos 0;
  sampler = λ w. none;
  float64 = λ n. n;
  stop_grace_seconds = 5;
}

-- the instance puts out "abcdefgh", and "ij" after the first read
abbrev out : ℕ → ℕ
out n = 97 + n

abbrev head : ℕ → ℕ
head zero = 8
head (suc n) = 10

abbrev ring : ℕ → RingBuffer
ring zero = write_all (new_ring_buffer (pos 16)) (slice out 0 8 ∷ [])
ring (suc n) = write_all (new_ring_buffer (pos 16)) (slice out 0 8 ∷ slice out 8 2 ∷ [])

abbrev shell_handle : RunningInstance
shell_handle = record { handle = record { kind_name = "pty"; inner = 0 } }

abbrev states : ℕ → Manager RingBuffer
states n = record {
  world = ring n;
  running = ("i", shell_handle) ∷ [];
  buffers = [];
  total_buf_bytes = 0;
  conns = [];
}

rings_hold : (n : ℕ) → Holds (ring n) (slice out 0 (head n))
rings_hold zero = write_all_from_new 16 (slice out 0 8 ∷ []) (omega arith)
rings_hold (suc n) = write_all_from_new 16 (slice out 0 8 ∷ slice out 8 2 ∷ []) (omega arith)

head_grows : (n : ℕ) → head n ≤ head (suc n)
head_grows zero = omega arith
head_grows (suc n) = omega arith

ring_cap : (n : ℕ) → cap_bytes (ring n) ≡ 16
unfolding write_all write new_ring_buffer
ring_cap zero = refl
ring_cap (suc n) = refl

head_kept : (n : ℕ) → head n ≤ 3 + cap_bytes (ring n)
head_kept zero = omega (arith, ring_cap 0)
head_kept (suc n) = omega (arith, ring_cap (suc n))

states-Ringed : Ringed config "i" states ring out head 3
unfolding lookup get_kind
states-Ringed = record {
  handle = shell_handle;
  kind = shell;
  running = λ n. refl;
  registered = refl;
  reads = λ n from size. refl;
  holds = rings_hold;
  grows = head_grows;
  kept = head_kept;
}

log_faithful : Faithful (manager_log config "i" states) out head 3
log_faithful = Ringed-Faithful config "i" states ring out head 3 states-Ringed

Ringed-Faithful_example : Faithful (manager_log config "i" states) out head 3
Ringed-Faithful_example = Ringed-Faithful config "i" states ring out head 3 states-Ringed

abbrev echoed : Bytes → Bytes → List Frame
echoed a b = start_sync (pos 3) ∷ binary a ∷ binary b ∷ sync (pos 10) ∷ []

ran :
    complete_handshake true (manager_log config "i" states) (pos 3) 10 none
    ≡ (echoed (slice out 3 5) (slice out 8 2), some (done (pos 10)))
unfolding complete_handshake turn replay read_log_since tail_log lookup get_kind read_logs tail
    read_since write_all write new_ring_buffer copy_round copy_range
ran = refl

complete_handshake-ends_example :
    (complete_handshake true (manager_log config "i" states) (pos 99) 0 none).1 ≢ none
complete_handshake-ends_example =
    complete_handshake-ends true (manager_log config "i" states) (pos 99) 0 none

complete_handshake-Resumed_example :
    (before : List Frame) × (echoed (slice out 3 5) (slice out 8 2)
      ≡ before ++ (if true then sync (pos 10) ∷ [] else []))
    × Resumed true (manager_log config "i" states) out head 3 log_faithful before (pos 10)
complete_handshake-Resumed_example =
    complete_handshake-Resumed true (manager_log config "i" states) out head 3 log_faithful 10 none
      (echoed (slice out 3 5) (slice out 8 2)) (pos 10) (omega arith) ran
