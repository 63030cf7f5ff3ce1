-- ===== src/Framework/Manager/Records/Reconciled.antt =====
-- What `ReconcileRunningOnStartup` leaves in the state file and in memory.
use mathlib.Core.Bool.{false≢true}
use myworktree.Prelude.{
  ℕ, ◌+◌, ◌≡◌, ◌≢◌, ◌⊎◌, subst, refl, sym, ap, ◌∙◌, true, false, Option, none, some, String, [],
  ◌∷◌, Assoc, lookup, insert, lookup-insert, eq_iff, pos, arith, inl, inr, Bool-cases, Option-cases,
}
use myworktree.Store.{State, ManagedInstance, Result, ok, err, Error}
use myworktree.Framework.Kind.{Handle, get_kind}
use myworktree.Framework.Manager.{Manager, RunningInstance}
use myworktree.Framework.Manager.Config.{Config, load_state}
use myworktree.Framework.Manager.Edits.{Instances}
use myworktree.Framework.Manager.Lifecycle.{register_reattached}
use myworktree.Framework.Manager.Records.{
  is_live, kind_or_pty, marked_stopped, reattach, reconcile_one, reconcile_all, reconcile_loaded,
  reconcile_running_on_startup,
}

-- Each record stands as it did, or was live and is marked stopped; one that is still live has a handle.
pub record Settled (now : String) (run : Assoc RunningInstance) (x y : ManagedInstance)
    : Type 0 where
  pub handled : is_live y.status ≡ true → lookup y.id run ≢ none
  pub change : (y ≡ x) ⊎ ((is_live x.status ≡ true) × (y ≡ marked_stopped now x))

pub data AllSettled (now : String) (run : Assoc RunningInstance)
    : Instances → Instances → Type 0 where
  nil : AllSettled now run [] []
  cons :
      {x y : ManagedInstance} {xs ys : Instances}
      → Settled now run x y
      → AllSettled now run xs ys
      → AllSettled now run (x ∷ xs) (y ∷ ys)

Result-cases : {A : Type 0} (r : Result A) → ((a : A) × (r ≡ ok a)) ⊎ ((e : Error) × (r ≡ err e))
Result-cases (ok a) = inl (a, refl)
Result-cases (err e) = inr (e, refl)

module _ {W : Type 0} (c : Config W) (now : String) where
  Reattached : ManagedInstance → Manager W → Option Handle × Manager W → Type 0
  Reattached x m r =
      ((r.0 ≡ none) × (r.1.running ≡ m.running))
      ⊎ ((h : Handle) × (r.0 ≡ some h)
          × (r.1.running ≡ insert x.id (record { handle = h }) m.running))

  reattach-Reattached : (x : ManagedInstance) (m : Manager W) → Reattached x m (reattach c x m)
  unfolding reattach register_reattached Reattached
  reattach-Reattached x m = elim (Option-cases (get_kind (kind_or_pty x.kind) c.registry)) [
    | inl n ↦ inl (ground (arith, n), ground (arith, n))
    | inr (k, e) ↦ elim (Option-cases k.reattach) [
      | inl n ↦ inl (ground (arith, e, n), ground (arith, e, n))
      | inr (f, g) ↦ elim (Result-cases (f x.id m.world).0) [
        | inl (h, r) ↦ inr (h, ground (arith, e, g, r), ground (arith, e, g, r))
        | inr (x_, r) ↦ inl (ground (arith, e, g, r), ground (arith, e, g, r))
      ]
    ]
  ]

  reconcile_one-keeps :
      (x : ManagedInstance) (m : Manager W) (id : String)
      → lookup id m.running ≢ none
      → lookup id (reconcile_one c now x m).1.running ≢ none
  unfolding reconcile_one Reattached
  reconcile_one-keeps x m id h = elim (reattach-Reattached x m) [
    | inl (n, e) ↦ ground (arith, n, e, h)
    | inr (hd, n, e) ↦
        ground
          (arith, n, e, h, lookup-insert x.id id (record { handle = hd }) m.running, eq_iff x.id id)
  ]

  reconcile_all-keeps :
      (xs : Instances) (m : Manager W) (id : String)
      → lookup id m.running ≢ none
      → lookup id (reconcile_all c now xs m).1.running ≢ none
  unfolding reconcile_all
  reconcile_all-keeps [] m id h = h
  reconcile_all-keeps (x ∷ xs) m id h =
      reconcile_all-keeps xs (reconcile_one c now x m).1 id (reconcile_one-keeps x m id h)

  -- a record that is not live, one whose process is gone, and one that the kind has taken back
  left :
      (x : ManagedInstance) (m : Manager W)
      → is_live x.status ≡ false
      → reconcile_one c now x m ≡ ((x, 0), m)
  unfolding reconcile_one
  left x m e = ground (arith, e)

  marked :
      (x : ManagedInstance) (m : Manager W)
      → is_live x.status ≡ true
      → (reattach c x m).0 ≡ none
      → reconcile_one c now x m ≡ ((marked_stopped now x, 1), (reattach c x m).1)
  unfolding reconcile_one
  marked x m e n = ground (arith, e, n)

  taken_back :
      (x : ManagedInstance) (m : Manager W) (h : Handle)
      → is_live x.status ≡ true
      → (reattach c x m).0 ≡ some h
      → reconcile_one c now x m ≡ ((x, 0), (reattach c x m).1)
  unfolding reconcile_one
  taken_back x m h e n = ground (arith, e, n)

  reconcile_one-Settled :
      (x : ManagedInstance) (m : Manager W)
      → let r = reconcile_one c now x m in Settled now r.1.running x r.0.0
  unfolding Reattached
  reconcile_one-Settled x m = elim (Bool-cases (is_live x.status)) [
    | inr dead ↦
        rw (left x m dead)
          (record { handled = λ l. absurd (false≢true (sym dead ∙ l)); change = inl refl })
    | inl live ↦ elim (reattach-Reattached x m) [
      | inl (n, e) ↦
          rw (marked x m live n)
            (record { handled = λ l. absurd (false≢true l); change = inr (live, refl) })
      | inr (h, n, e) ↦ rw (taken_back x m h live n) (record {
        handled = λ l.
            ground (
              arith,
              e,
              lookup-insert x.id x.id (record { handle = h }) m.running,
              eq_iff x.id x.id,
            );
        change = inl refl;
      })
    ]
  ]

  Settled-mono :
      {x y : ManagedInstance} (run run' : Assoc RunningInstance)
      → ((id : String) → lookup id run ≢ none → lookup id run' ≢ none)
      → Settled now run x y
      → Settled now run' x y
  Settled-mono {y} run run' keeps s = record {
    handled = λ l. keeps y.id (s.handled l);
    change = s.change;
  }

  reconcile_all-Settled :
      (xs : Instances) (m : Manager W)
      → let r = reconcile_all c now xs m in AllSettled now r.1.running xs r.0.0
  unfolding reconcile_all
  reconcile_all-Settled [] m = nil
  reconcile_all-Settled (x ∷ xs) m =
      let first = reconcile_one c now x m in
      cons
        (Settled-mono first.1.running (reconcile_all c now xs first.1).1.running
          (λ id h. reconcile_all-keeps xs first.1 id h) (reconcile_one-Settled x m))
        (reconcile_all-Settled xs first.1)

  reconcile_saves :
      (st : State) (m : Manager W) (n : ℕ)
      → n ≢ 0
      → (reconcile_loaded c now (ok st, m)).0 ≡ (n, none)
      → let all = reconcile_all c now st.instances m in
        let saved =
          c.store.save_with_version
            (record st { instances = all.0.0 })
            (pos st.version)
            (c.others.before_save 0 all.1.world) in
        (saved.0 ≡ ok tt)
        × ((reconcile_loaded c now (ok st, m)).1.world ≡ saved.1)
        × ((reconcile_loaded c now (ok st, m)).1.running ≡ all.1.running)
  unfolding reconcile_loaded
  reconcile_saves st m n h q = ground (arith, h, q)

  reconcile_loaded-Settled :
      (r : Result State × Manager W) (n : ℕ)
      → n ≢ 0
      → (reconcile_loaded c now r).0 ≡ (n, none)
      → (st : State) × (cur : State) × (r.0 ≡ ok st)
        × (c.store.persisted (reconcile_loaded c now r).1.world
            ≡ some (record st {
              instances = (reconcile_all c now st.instances r.1).0.0;
              version = cur.version + 1;
            }))
        × (cur.version ≡ st.version)
        × ((reconcile_loaded c now r).1.running ≡ (reconcile_all c now st.instances r.1).1.running)
  unfolding reconcile_loaded
  reconcile_loaded-Settled (err e, m) n h q = absurd (ground (arith, h, q))
  reconcile_loaded-Settled (ok st, m) n h q =
      let all = reconcile_all c now st.instances m in
      let made = record st { instances = all.0.0 } in
      let before = c.others.before_save 0 all.1.world in
      let ends = reconcile_saves st m n h q in
      let (cur, was, agrees, now_) = c.store.save_checks made (pos st.version) before ends.0 in
      (st, cur, refl, ap c.store.persisted ends.1 ∙ now_, agrees, ends.2)

  -- A reconciliation that has changed records and returns no error leaves in the state file the records
  -- that it loaded, each as it stood or, if it was live, marked stopped; one that is live there has a handle
  -- in memory.
  pub reconcile_running_on_startup_lem :
      (m : Manager W) (n : ℕ)
      → n ≢ 0
      → (reconcile_running_on_startup c now m).0 ≡ (n, none)
      → let r = (reconcile_running_on_startup c now m).1 in
        (st : State) × (ys : Instances) × (c.store.persisted m.world ≡ some st)
        × (c.store.persisted r.world
            ≡ some (record st { instances = ys; version = st.version + 1 }))
        × AllSettled now r.running st.instances ys
  unfolding reconcile_running_on_startup load_state
  reconcile_running_on_startup_lem m n h q =
      let loaded = load_state c m in
      let (st, cur, l, saved, same, run) = reconcile_loaded-Settled loaded n h q in
      let all = reconcile_all c now st.instances loaded.1 in
      (
        st,
        all.0.0,
        c.store.load_current m.world st l,
        saved ∙ ap (λ (v : ℕ). some (record st { instances = all.0.0; version = v + 1 })) same,
        subst (λ r. AllSettled now r st.instances all.0.0) (sym run)
            (reconcile_all-Settled st.instances loaded.1),
      )
