-- ===== src/Framework/Manager/Records/Deleted.antt =====
-- What `Delete` and `Restart` leave in memory.
use myworktree.Prelude.{
  ◌≡◌, ◌≢◌, ◌⊎◌, sym, refl, ap, ◌∙◌, none, some, String, lookup, str_eq, trim_space, ℤ, arith, inl,
  inr, Option-cases, Bool-cases, false,
}
use myworktree.Store.{State, ManagedInstance, Result, ok, err, Error}
use myworktree.Framework.Kind.{Handle}
use myworktree.Framework.Manager.{Manager, RunningInstance}
use myworktree.Framework.Manager.Buffers.Accounts.{IsAccounted}
use myworktree.Framework.Manager.Config.{Config, load_state, update_state}
use myworktree.Framework.Manager.Edits.{find_instance}
use myworktree.Framework.Manager.Start.{start}
use myworktree.Framework.Manager.Prepare.Memory.{SameMemory, load_state-same}
use myworktree.Framework.Manager.Start.Started.{Started, Started-around, start-Started}
use myworktree.Framework.Manager.Lifecycle.{forget}
use myworktree.Framework.Manager.Records.{
  is_live, cleanup_kind, cleaned_up, delete, restart_params, restarted, restart_loaded, restart,
}

-- No buffer and no transport of the id are left, the account of the buffers is still balanced, and no
-- handle and no buffer of another id has changed.
pub record Forgotten {W : Type 0} (id : String) (m m' : Manager W) : Type 0 where
  pub buffer : lookup id m'.buffers ≡ none
  pub conn : lookup id m'.conns ≡ none
  pub accounted : IsAccounted m'
  pub handles : m'.running ≡ m.running
  pub others : (j : String) → str_eq id j ≡ false → lookup j m'.buffers ≡ lookup j m.buffers

module _ {W : Type 0} (c : Config W) where
  cleaned_up-same : (kind id : String) (m : Manager W) → SameMemory m (cleaned_up c kind id m)
  unfolding cleaned_up cleanup_kind
  cleaned_up-same kind id m = ground arith

  -- A load of the state file, or a save to it, has failed.
  pub data StoreFailed (m : Manager W) : Type 0 where
    load_failed : (e : Error) → (load_state c m).0 ≡ err e → StoreFailed m
    save_failed :
        (st : State) (v : ℤ) (w : W) (e : Error)
        → (c.store.save_with_version st v w).0 ≡ err e
        → StoreFailed m

  -- What `Delete` does: an id that is not blank and has no handle is forgotten, whatever the answer, and the
  -- answer is an error only if the state file could not be loaded or saved; a blank id, and one that has a handle, is answered with an error, and nothing changes.
  pub record Deleted (id : String) (m : Manager W) : Type 0 where
    pub forgotten :
        trim_space id ≢ ""
        → lookup (trim_space id) m.running ≡ none
        → Forgotten (trim_space id) m (delete c id m).1
          × (((delete c id m).0 ≡ ok tt) ⊎ StoreFailed (forget (trim_space id) m))
    pub blank : trim_space id ≡ "" → ((delete c id m).0 ≢ ok tt) × ((delete c id m).1 ≡ m)
    pub handled :
        (ri : RunningInstance)
        → lookup (trim_space id) m.running ≡ some ri
        → ((delete c id m).0 ≢ ok tt) × ((delete c id m).1 ≡ m)

  restarted-same :
      (old : ManagedInstance) (id : String) (r : Result (ManagedInstance × Handle) × Manager W)
      → SameMemory r.1 (restarted c old id r).1 × ((restarted c old id r).0 ≡ r.0)
  unfolding restarted update_state
  restarted-same old id (err e, m) = ground arith
  restarted-same old id (ok (inst, h), m) = ground (arith, cleaned_up-same old.kind id m)

  restart_stopped :
      (id new now : String) (n : Manager W) (st : State) (old : ManagedInstance)
      → find_instance id st.instances ≡ some old
      → is_live old.status ≡ false
      → restart_loaded c id (some new) now (ok st, n)
        ≡ restarted c old id (start c (restart_params c c.root old) (some new) now n)
  unfolding restart_loaded
  restart_stopped id new now n st old x dead = ground (arith, x, dead)

  restart_loaded-Started :
      (id new now : String) (m : Manager W) (r : Result State × Manager W) (inst : ManagedInstance)
      (h : Handle)
      → SameMemory m r.1
      → (restart_loaded c id (some new) now r).0 ≡ ok (inst, h)
      → Started c new m (restart_loaded c id (some new) now r).1 inst h
        × ((st : State) × (old : ManagedInstance) × (r.0 ≡ ok st)
            × (find_instance id st.instances ≡ some old)
            × (is_live old.status ≡ false))
  unfolding restart_loaded
  restart_loaded-Started id new now m (err e, n) inst h s q = absurd (ground arith)
  restart_loaded-Started id new now m (ok st, n) inst h s q =
      elim (Option-cases (find_instance id st.instances)) [
        | inl x ↦ absurd (ground (arith, x, q))
        | inr (old, x) ↦ elim (Bool-cases (is_live old.status)) [
          | inl live ↦ absurd (ground (arith, x, live, q))
          | inr dead ↦
              let begun = start c (restart_params c c.root old) (some new) now n in
              let all = restart_stopped id new now n st old x dead in
              let (after, answer) = restarted-same old id begun in
              let st_ = start-Started c (restart_params c c.root old) new now n inst h (
                sym answer
                ∙ ap (λ (z : Result (ManagedInstance × Handle) × Manager W). z.0) (sym all)
                ∙ q) in
              (rw all (Started-around s st_ after), (st, old, refl, x, dead))
        ]
      ]

  loaded_state :
      (m : Manager W) (st : State) → (load_state c m).0 ≡ ok st → (c.store.load m.world).0 ≡ ok st
  unfolding load_state
  loaded_state m st l = l

  -- A `Restart` that succeeds did so for a record that was neither running nor starting, and leaves in
  -- memory what a `Start` of the new id does.
  pub restart-Started :
      (id new now : String) (m : Manager W) (inst : ManagedInstance) (h : Handle)
      → (restart c id (some new) now m).0 ≡ ok (inst, h)
      → Started c new m (restart c id (some new) now m).1 inst h
        × ((st : State) × (old : ManagedInstance) × (c.store.persisted m.world ≡ some st)
            × (find_instance (trim_space id) st.instances ≡ some old)
            × (is_live old.status ≡ false))
  unfolding restart
  restart-Started id new now m inst h q = elim (Bool-cases (str_eq (trim_space id) "")) [
    | inl e ↦ absurd (ground (arith, e, q))
    | inr e ↦
        let all : restart c id (some new) now m
            ≡ restart_loaded c (trim_space id) (some new) now (load_state c m) =
          ground (arith, e) in
        let (begun, (st, old, l, f, d)) =
          restart_loaded-Started (trim_space id) new now m (load_state c m) inst h
            (load_state-same c m)
            (ap (λ (z : Result (ManagedInstance × Handle) × Manager W). z.0) (sym all) ∙ q) in
        (rw all begun, (st, old, c.store.load_current m.world st (loaded_state m st l), f, d))
  ]
