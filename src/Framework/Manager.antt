-- ===== src/Framework/Manager.antt =====
-- internal/framework/manager.go and methods.go: the manager of instances. The world `W` holds the
-- state file, behind the interface of the store.
pub mod Edits
pub mod Buffers
pub mod Config
pub mod Prepare
pub mod Start
pub mod Records
pub mod Lifecycle
pub mod Logs
use myworktree.Prelude.{ℕ, Assoc, String}
use myworktree.Framework.RingBuffer.{RingBuffer}
use myworktree.Framework.Kind.{Handle}

-- `runningInstance`, with its handle. Its ready signal, its `cancel` and its wait group connect it to
-- its watcher, which has them in `Lifecycle`.
pub record RunningInstance : Type 0 where
  pub handle : Handle

-- The maps of `Manager`. A buffer's pointer is set when its entry is made, and cleared together
-- with it under one lock, so an entry has a buffer. `conns` has the transport of an instance.
pub record Manager (W : Type 0) : Type 0 where
  pub world : W
  pub running : Assoc RunningInstance
  pub buffers : Assoc RingBuffer
  pub total_buf_bytes : ℕ
  pub conns : Assoc String
