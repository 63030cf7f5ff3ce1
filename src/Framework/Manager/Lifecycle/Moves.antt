-- ===== src/Framework/Manager/Lifecycle/Moves.antt =====
-- Each step of the watchers, of `Stop`, `Start` and `Delete` on a sound system.
use myworktree.Prelude.{
  ◌≡◌, true, false, none, some, String, ◌∷◌, lookup, insert, remove, lookup-insert, lookup-remove,
  eq_iff, arith, Option-cases, inl, inr,
}
use myworktree.Store.{ManagedInstance}
use myworktree.Framework.RingBuffer.{write, Bytes}
use myworktree.Framework.Kind.{Handle}
use myworktree.Framework.Manager.{Manager}
use myworktree.Framework.Manager.Buffers.{drop_buffer}
use myworktree.Framework.Manager.Buffers.Accounts.{drop_buffer-IsAccounted}
use myworktree.Framework.Manager.Prepare.Memory.{SameMemory}
use myworktree.Framework.Manager.Buffers.Accounts.{replaced-IsAccounted}
use myworktree.Framework.Manager.Start.Started.{Allotted}
use myworktree.Framework.Manager.Lifecycle.{
  Phase, returning, Watcher, System, is_stopping, end_stop, take_out, moved, cancel_watcher,
  put_output, forget, watcher_of,
}
use myworktree.Framework.Manager.Lifecycle.Sound.{
  Sound, lookup-drop, running-drop, lookup-cancel, is_stopping-end, cap-write, Allotted-IsAccounted,
  Allotted-other,
}

module _ {W : Type 0} (s : System W) (sound : Sound s) where
  -- the manager's memory stays, only the world changes
  pub memory-Sound : (m : Manager W) → SameMemory s.manager m → Sound (record s { manager = m })
  memory-Sound m same = record {
    accounted = record {
      keyed = rw same.buffers sound.accounted.keyed;
      balanced = ground (arith, same, sound.accounted.balanced);
    };
    owned = λ id n. ground (arith, same, sound.owned id);
    watched = λ id n q. ground (arith, same, sound.watched id);
    cancelled_by = sound.cancelled_by;
    let_go = λ id w e p q. ground (arith, same, sound.let_go id w);
  }

  -- a watcher goes on; to its end only without a handle, or under a `Stop`
  pub moved-Sound :
      (id : String) (w : Watcher) (phase : Phase)
      → lookup id s.watchers ≡ some w
      → (phase ≡ returning → is_stopping id s.stops ≡ false → lookup id s.manager.running ≡ none)
      → Sound (record s { watchers = moved id w phase s.watchers })
  unfolding moved
  moved-Sound id w phase at end = record {
    accounted = sound.accounted;
    owned = λ j n. ground (
      arith,
      sound.owned j,
      eq_iff id j,
      lookup-insert id j (record w { phase = phase }) s.watchers,
    );
    watched = λ j n q. ground (
      arith,
      sound.watched j,
      eq_iff id j,
      lookup-insert id j (record w { phase = phase }) s.watchers,
    );
    cancelled_by = λ j v e p. ground (
      arith,
      sound.cancelled_by j v,
      sound.cancelled_by id w,
      eq_iff id j,
      lookup-insert id j (record w { phase = phase }) s.watchers,
    );
    let_go = λ j v e p q. ground (
      arith,
      sound.let_go j v,
      end,
      eq_iff id j,
      lookup-insert id j (record w { phase = phase }) s.watchers,
    );
  }

  pub taken-Sound : (id : String) → Sound (record s { manager = take_out id s.manager })
  unfolding take_out
  taken-Sound id = record {
    accounted = record { keyed = sound.accounted.keyed; balanced = sound.accounted.balanced };
    owned = sound.owned;
    watched = λ j n q. ground (arith, sound.watched j, lookup-remove id j s.manager.running);
    cancelled_by = sound.cancelled_by;
    let_go = λ j w e p q. ground (arith, sound.let_go j w, lookup-remove id j s.manager.running);
  }

  -- a watcher returns, and takes its buffer along
  pub returned-Sound :
      (id : String) (w : Watcher)
      → lookup id s.watchers ≡ some w
      → w.phase ≡ returning
      → Sound (record s { manager = drop_buffer id s.manager; watchers = remove id s.watchers })
  returned-Sound id w at gone = record {
    accounted = (drop_buffer-IsAccounted id s.manager sound.accounted).0;
    owned = λ j n. ground (
      arith,
      lookup-drop id j s.manager,
      sound.owned j,
      lookup-remove id j s.watchers,
      eq_iff id j,
    );
    watched = λ j n q. ground (
      arith,
      running-drop id s.manager,
      sound.watched j,
      sound.let_go id w,
      lookup-remove id j s.watchers,
      eq_iff id j,
    );
    cancelled_by = λ j v e p.
        ground (arith, sound.cancelled_by j v, lookup-remove id j s.watchers, eq_iff id j);
    let_go = λ j v e p q. ground (
      arith,
      running-drop id s.manager,
      sound.let_go j v,
      lookup-remove id j s.watchers,
      eq_iff id j,
    );
  }

  pub deleted-Sound : (id : String) → Sound (record s { manager = forget id s.manager })
  unfolding forget
  deleted-Sound id =
      let kept = (drop_buffer-IsAccounted id s.manager sound.accounted).0 in
      record {
        accounted = record { keyed = kept.keyed; balanced = kept.balanced };
        owned = λ j n. ground (arith, lookup-drop id j s.manager, sound.owned j);
        watched = λ j n q. ground (arith, running-drop id s.manager, sound.watched j);
        cancelled_by = sound.cancelled_by;
        let_go = λ j v e p q. ground (arith, running-drop id s.manager, sound.let_go j v);
      }

  stop_begun-cancelled :
      (id j : String) (v : Watcher)
      → lookup j (cancel_watcher id s.watchers) ≡ some v
      → v.cancelled ≡ true
      → is_stopping j (id ∷ s.stops) ≡ true
  stop_begun-cancelled id j v e p =
      ground (arith, lookup-cancel id j s.watchers, sound.cancelled_by j v, eq_iff id j)

  stop_begun-gone :
      (id j : String) (v : Watcher)
      → lookup j (cancel_watcher id s.watchers) ≡ some v
      → v.phase ≡ returning
      → is_stopping j (id ∷ s.stops) ≡ false
      → lookup j s.manager.running ≡ none
  stop_begun-gone id j v e p q =
      ground (arith, lookup-cancel id j s.watchers, sound.let_go j v, eq_iff id j)

  pub stop_begun-Sound :
      (id : String)
      → Sound (record s { watchers = cancel_watcher id s.watchers; stops = id ∷ s.stops })
  stop_begun-Sound id = record {
    accounted = sound.accounted;
    owned = λ j n. ground (arith, lookup-cancel id j s.watchers, sound.owned j);
    watched = λ j n q. ground (arith, lookup-cancel id j s.watchers, sound.watched j);
    cancelled_by = λ j v e p. stop_begun-cancelled id j v e p;
    let_go = λ j v e p q. stop_begun-gone id j v e p q;
  }

  pub stop_ended-Sound :
      (id : String)
      → lookup id s.watchers ≡ none
      → Sound (record s { manager = take_out id s.manager; stops = end_stop id s.stops })
  unfolding take_out
  stop_ended-Sound id n = record {
    accounted = record { keyed = sound.accounted.keyed; balanced = sound.accounted.balanced };
    owned = sound.owned;
    watched = λ j e q. ground (
      arith,
      sound.watched j,
      is_stopping-end id j s.stops,
      eq_iff id j,
      lookup-remove id j s.manager.running,
    );
    cancelled_by = λ j v e p.
        ground (arith, sound.cancelled_by j v, is_stopping-end id j s.stops, eq_iff id j);
    let_go = λ j v e p q. ground (
      arith,
      sound.let_go j v,
      is_stopping-end id j s.stops,
      eq_iff id j,
      lookup-remove id j s.manager.running,
    );
  }

  pub printed-Sound :
      (id : String) (bs : Bytes) → Sound (record s { manager = put_output id bs s.manager })
  unfolding put_output
  printed-Sound id bs = elim (Option-cases (lookup id s.manager.buffers)) [
    | inl e ↦ rw (e, put_output) sound
    | inr (rb, e) ↦
        rw (e, put_output)
          (record {
            accounted =
                replaced-IsAccounted id rb (write rb bs).0 s.manager e (cap-write rb bs)
                  sound.accounted;
            owned = λ j n. ground (
              arith,
              e,
              lookup-insert id j (write rb bs).0 s.manager.buffers,
              eq_iff id j,
              sound.owned j,
            );
            watched = sound.watched;
            cancelled_by = sound.cancelled_by;
            let_go = sound.let_go;
          })
  ]

  -- a new instance with its watcher
  pub started-Sound :
      (id : String) (m : Manager W) (inst : ManagedInstance) (h : Handle)
      → lookup id s.manager.buffers ≡ none
      → is_stopping id s.stops ≡ false
      → Allotted id s.manager m
      → m.running ≡ insert id (record { handle = h }) s.manager.running
      → Sound (record s { manager = m; watchers = insert id (watcher_of inst h) s.watchers })
  started-Sound id m inst h fresh idle al run = record {
    accounted = Allotted-IsAccounted id s.manager m fresh al sound.accounted;
    owned = λ j n. ground (
      arith,
      lookup-insert id j (watcher_of inst h) s.watchers,
      eq_iff id j,
      sound.owned j,
      Allotted-other id j s.manager m al,
    );
    watched = λ j n q. ground (
      arith,
      lookup-insert id j (watcher_of inst h) s.watchers,
      eq_iff id j,
      sound.watched j,
      run,
      lookup-insert id j (record { handle = h }) s.manager.running,
    );
    cancelled_by = λ j v e p. ground (
      arith,
      lookup-insert id j (watcher_of inst h) s.watchers,
      eq_iff id j,
      sound.cancelled_by j v,
    );
    let_go = λ j v e p q. ground (
      arith,
      lookup-insert id j (watcher_of inst h) s.watchers,
      eq_iff id j,
      sound.let_go j v,
      run,
      lookup-insert id j (record { handle = h }) s.manager.running,
    );
  }
