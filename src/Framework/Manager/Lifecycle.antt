-- ===== src/Framework/Manager/Lifecycle.antt =====
-- The goroutines of the running instances: `runLifecycle`, `Stop`, the publishers of the kinds, and the
-- calls of `Start` and `Delete` between them, as steps of one system. `Start` is one step, and so is
-- `Delete`; `Stop` is two, since it waits for the watcher.
pub mod Sound
pub mod Moves
pub mod Reached
pub mod Collected
use myworktree.Prelude.{
  ◌⊎◌, ℕ, ◌≡◌, ◌≢◌, refl, Bool, true, false, not, ◌&&◌, ◌||◌, Option, none, some, String, List, [],
  ◌∷◌, Assoc, lookup, insert, remove, str_eq, if◌then◌else◌,
}
use myworktree.Store.{ManagedInstance, Result, ok, err}
use myworktree.Framework.RingBuffer.{RingBuffer, write, Bytes}
use myworktree.Framework.Status.{Status, to_string, is_terminal, running, stopped, failed}
use myworktree.Framework.Kind.{Handle, Kind, get_kind}
use myworktree.Framework.Manager.{Manager, RunningInstance}
use myworktree.Framework.Manager.Buffers.{drop_buffer}
use myworktree.Framework.Manager.Config.{Config, update_state}
use myworktree.Framework.Manager.Edits.{
  edit_instance, with_status, with_pid, with_kind_blob, with_exit,
}
use myworktree.Framework.Manager.Start.{start}
use myworktree.Framework.Manager.Prepare.{StartParams}

-- Where a watcher stands: in its first `select`, in its loop, before it takes the handle out of the
-- map, or before its deferred `dropBuffer`.
pub data Phase : Type 0 where
  waiting polling closing returning : Phase

-- `cancelled` tells whether `ri.cancel` was called.
pub record Watcher : Type 0 where
  pub kind : String
  pub handle : Handle
  pub phase : Phase
  pub cancelled : Bool

-- `stops` has the id of each `Stop` that waits for its watcher.
pub record System (W : Type 0) : Type 0 where
  pub manager : Manager W
  pub watchers : Assoc Watcher
  pub stops : List String

abbrev pub is_stopping : String → List String → Bool
is_stopping id [] = false
is_stopping id (x ∷ xs) = str_eq x id || is_stopping id xs

-- one `Stop` of the id returns
unfoldable pub end_stop : String → List String → List String
end_stop id [] = []
end_stop id (x ∷ xs) = if str_eq x id then xs else x ∷ end_stop id xs

-- `setStatus`, whose error no caller of it here looks at
unfoldable pub set_status :
    {W : Type 0} → Config W → String → String → Status → String → Manager W → Manager W
set_status c now id st text m = (update_state c (edit_instance id (with_status now st text)) m).1

-- the watcher of the id is at another place
unfoldable pub moved : String → Watcher → Phase → Assoc Watcher → Assoc Watcher
moved id w phase ws = insert id (record w { phase = phase }) ws

abbrev pub cancel : Watcher → Watcher
cancel w = record w { cancelled = true }

unfoldable pub cancel_watcher : String → Assoc Watcher → Assoc Watcher
cancel_watcher id ws = elim (lookup id ws) [ none ↦ ws | some w ↦ insert id (cancel w) ws ]

abbrev pub watcher_of : ManagedInstance → Handle → Watcher
watcher_of inst h = record { kind = inst.kind; handle = h; phase = waiting; cancelled = false }

-- the ids that `StopAllKind` calls `Stop` for, one after another
unfoldable pub ids_of_kind : String → Assoc RunningInstance → List String
ids_of_kind kind [] = []
ids_of_kind kind ((id, ri) ∷ rest) =
    let others = ids_of_kind kind rest in
    if str_eq ri.handle.kind_name kind then id ∷ others else others

module _ {W : Type 0} where
  unfoldable pub take_out : String → Manager W → Manager W
  take_out id m = record m { running = remove id m.running }

  -- `k.Stop`, if the kind is registered; its error is logged
  unfoldable pub kind_stop : Config W → Handle → Manager W → Manager W
  kind_stop c h m = elim (get_kind h.kind_name c.registry) [
    | none ↦ m
    | some k ↦ record m { world = (k.stop h c.stop_grace_seconds m.world).1 }
  ]

  -- a kind writes to the buffer that it was handed, if it still stands under the id
  unfoldable pub put_output : String → Bytes → Manager W → Manager W
  put_output id bs m = elim (lookup id m.buffers) [
    | none ↦ m
    | some rb ↦ record m { buffers = insert id (write rb bs).0 m.buffers }
  ]

  -- `m.Delete(id)` in memory; the record goes in the same way as in `Records`
  unfoldable pub forget : String → Manager W → Manager W
  forget id m = let d = drop_buffer id m in record d { conns = remove id d.conns }

  -- `registerReattached`, without the watcher
  unfoldable pub register_reattached : String → Handle → Manager W → Manager W
  register_reattached id h m = record m { running = insert id (record { handle = h }) m.running }

  -- the kind's status of the watcher's handle
  unfoldable pub polled : Config W → Watcher → Manager W → Option (Status × String)
  polled c w m = elim (get_kind w.kind c.registry) [
    | none ↦ none
    | some k ↦ some (k.status w.handle m.world)
  ]

  module _ (c : Config W) where
    -- One step; the id of a new instance is in no map of the manager.
    pub data Step (s : System W) : System W → Type 0 where
      started :
          (p : StartParams) (id now : String) (inst : ManagedInstance) (h : Handle)
          → lookup id s.manager.buffers ≡ none
          → lookup id s.manager.running ≡ none
          → lookup id s.watchers ≡ none
          → is_stopping id s.stops ≡ false
          → (start c p (some id) now s.manager).0 ≡ ok (inst, h)
          → Step s (record s {
            manager = (start c p (some id) now s.manager).1;
            watchers = insert id (watcher_of inst h) s.watchers;
          })
      reattached :
          (id : String) (inst : ManagedInstance) (h : Handle)
          → lookup id s.watchers ≡ none
          → is_stopping id s.stops ≡ false
          → Step s (record s {
            manager = register_reattached id h s.manager;
            watchers = insert id (watcher_of inst h) s.watchers;
          })
      became_ready :
          (id now : String) (w : Watcher)
          → lookup id s.watchers ≡ some w
          → w.phase ≡ waiting
          → Step s (record s {
            manager = set_status c now id running "" s.manager;
            watchers = moved id w polling s.watchers;
          })
      timed_out :
          (id now : String) (w : Watcher)
          → lookup id s.watchers ≡ some w
          → w.phase ≡ waiting
          → Step s (record s {
            manager =
                set_status c now id failed "instance did not become ready within 60s" s.manager;
            watchers = moved id w closing s.watchers;
          })
      ticked :
          (id now : String) (w : Watcher) (st : Status) (text : String)
          → lookup id s.watchers ≡ some w
          → w.phase ≡ polling
          → polled c w s.manager ≡ some (st, text)
          → is_terminal st ≡ true
          → Step s (record s {
            manager = set_status c now id st text s.manager;
            watchers = moved id w closing s.watchers;
          })
      closed :
          (id : String) (w : Watcher)
          → lookup id s.watchers ≡ some w
          → w.phase ≡ closing
          → Step s (record s {
            manager = take_out id s.manager;
            watchers = moved id w returning s.watchers;
          })
      gave_up :
          (id : String) (w : Watcher)
          → lookup id s.watchers ≡ some w
          → w.cancelled ≡ true
          → (w.phase ≡ waiting) ⊎ (w.phase ≡ polling)
          → Step s (record s { watchers = moved id w returning s.watchers })
      returned :
          (id : String) (w : Watcher)
          → lookup id s.watchers ≡ some w
          → w.phase ≡ returning
          → Step s
              (record s { manager = drop_buffer id s.manager; watchers = remove id s.watchers })
      stop_begun :
          (id : String) (ri : RunningInstance)
          → lookup id s.manager.running ≡ some ri
          → Step s (record {
            manager = kind_stop c ri.handle s.manager;
            watchers = cancel_watcher id s.watchers;
            stops = id ∷ s.stops;
          })
      stop_ended :
          (id now : String)
          → is_stopping id s.stops ≡ true
          → lookup id s.watchers ≡ none
          → Step s (record s {
            manager = take_out id (set_status c now id stopped "" s.manager);
            stops = end_stop id s.stops;
          })
      published :
          (id : String) (fn : ManagedInstance → ManagedInstance)
          → Step s (record s { manager = (update_state c (edit_instance id fn) s.manager).1 })
      printed :
          (id : String) (bs : Bytes) → Step s (record s { manager = put_output id bs s.manager })
      deleted :
          (id : String)
          → lookup id s.manager.running ≡ none
          → Step s (record s { manager = forget id s.manager })
      elsewhere : (w : W) → Step s (record s { manager = record s.manager { world = w } })

    pub data Steps (s : System W) : System W → Type 0 where
      here : Steps s s
      next : {t u : System W} → Steps s t → Step t u → Steps s u

abbrev pub initial : {W : Type 0} → W → System W
initial w = record {
  manager = record { world = w; running = []; buffers = []; total_buf_bytes = 0; conns = [] };
  watchers = [];
  stops = [];
}
