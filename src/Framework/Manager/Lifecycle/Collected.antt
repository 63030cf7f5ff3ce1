-- ===== src/Framework/Manager/Lifecycle/Collected.antt =====
-- What can always still happen: a `Stop` can end, and the watcher of a process that has ended can
-- collect it.
use myworktree.Prelude.{
  ◌≡◌, ◌⊎◌, ◌∙◌, Assoc, refl, ap, true, false, none, some, String, List, ◌∷◌, lookup, lookup-insert,
  lookup-remove, eq_iff, arith, Option-cases, inl, inr,
}
use myworktree.Framework.Status.{is_terminal, running, stopped}
use myworktree.Framework.Kind.{Kind, get_kind}
use myworktree.Framework.Manager.{RunningInstance}
use myworktree.Framework.Manager.Config.{Config}
use myworktree.Framework.Manager.Lifecycle.{
  Phase, waiting, polling, closing, returning, Watcher, System, is_stopping, end_stop, set_status,
  take_out, moved, cancel, cancel_watcher, kind_stop, polled, Steps, initial, here, next,
  became_ready, ticked, closed, gave_up, returned, stop_begun, stop_ended,
}
use myworktree.Framework.Manager.Lifecycle.Sound.{lookup-cancel}
use myworktree.Framework.Manager.Lifecycle.Reached.{reached-Sound, taken-free}

lookup-moved :
    (id : String) (w : Watcher) (phase : Phase) (ws : Assoc Watcher)
    → lookup id (moved id w phase ws) ≡ some (record w { phase = phase })
unfolding moved
lookup-moved id w phase ws =
    ground (arith, lookup-insert id id (record w { phase = phase }) ws, eq_iff id id)

end_stop-own : (id : String) (xs : List String) → end_stop id (id ∷ xs) ≡ xs
unfolding end_stop
end_stop-own id xs = ground (arith, eq_iff id id)

-- a phase is one of the first two, or one of the last two
Phase-cases : (p : Phase) → ((p ≡ waiting) ⊎ (p ≡ polling)) ⊎ ((p ≡ closing) ⊎ (p ≡ returning))
Phase-cases waiting = inl (inl refl)
Phase-cases polling = inl (inr refl)
Phase-cases closing = inr (inl refl)
Phase-cases returning = inr (inr refl)

module _ {W : Type 0} (c : Config W) where
  Steps-trans : {s t u : System W} → Steps c s t → Steps c t u → Steps c s u
  Steps-trans r here = r
  Steps-trans r (next q st) = next (Steps-trans r q) st

  -- the watcher of the id has returned, with the buffer, and no `Stop` has come or gone
  record Returned (s t : System W) (id : String) : Type 0 where
    steps : Steps c s t
    unwatched : lookup id t.watchers ≡ none
    stops : t.stops ≡ s.stops

  preceded :
      {s t u : System W} (id : String)
      → Steps c s t
      → t.stops ≡ s.stops
      → Returned t u id
      → Returned s u id
  preceded id st e r = record {
    steps = Steps-trans st r.steps;
    unwatched = r.unwatched;
    stops = r.stops ∙ e;
  }

  from_returning :
      (s : System W) (id : String) (w : Watcher)
      → lookup id s.watchers ≡ some w
      → w.phase ≡ returning
      → (t : System W) × Returned s t id
  from_returning s id w e p = (
    _,
    record {
      steps = next here (returned id w e p);
      unwatched = ground (arith, lookup-remove id id s.watchers, eq_iff id id);
      stops = refl;
    },
  )

  from_closing :
      (s : System W) (id : String) (w : Watcher)
      → lookup id s.watchers ≡ some w
      → w.phase ≡ closing
      → (t : System W) × Returned s t id
  from_closing s id w e p =
      let after =
        from_returning
          (record s { manager = take_out id s.manager; watchers = moved id w returning s.watchers })
          id (record w { phase = returning }) (lookup-moved id w returning s.watchers) refl in
      (after.0, preceded id (next here (closed id w e p)) refl after.1)

  from_cancelled :
      (s : System W) (id : String) (w : Watcher)
      → lookup id s.watchers ≡ some w
      → w.cancelled ≡ true
      → (t : System W) × Returned s t id
  from_cancelled s id w e p = elim (Phase-cases w.phase) [
    | inl q ↦
        let after =
          from_returning (record s { watchers = moved id w returning s.watchers }) id
            (record w { phase = returning }) (lookup-moved id w returning s.watchers) refl in
        (after.0, preceded id (next here (gave_up id w e p q)) refl after.1)
    | inr (inl q) ↦ from_closing s id w e q
    | inr (inr q) ↦ from_returning s id w e q
  ]

  -- the process of the watcher's handle has ended, and its kind says so
  module _ (k : Kind W) (id : String) (w : Watcher) (known : get_kind w.kind c.registry ≡ some k)
      (ends : (x : W) → is_terminal (k.status w.handle x).0 ≡ true) where
    from_polling :
        (s : System W)
        → lookup id s.watchers ≡ some (record w { phase = polling })
        → (t : System W) × Returned s t id
    unfolding polled
    from_polling s e =
        let (st, text) = k.status w.handle s.manager.world in
        let after =
          from_closing
            (record s {
              manager = set_status c "" id st text s.manager;
              watchers = moved id (record w { phase = polling }) closing s.watchers;
            })
            id (record w { phase = closing })
            (lookup-moved id (record w { phase = polling }) closing s.watchers) refl in
        (
          after.0,
          preceded id
              (next here (
                ticked id "" (record w { phase = polling }) st text e refl (rw (known, polled) refl)
                  (ends s.manager.world)))
              refl after.1,
        )

    from_waiting :
        (s : System W)
        → lookup id s.watchers ≡ some (record w { phase = waiting })
        → (t : System W) × Returned s t id
    from_waiting s e =
        let ready : System W = record s {
          manager = set_status c "" id running "" s.manager;
          watchers = moved id (record w { phase = waiting }) polling s.watchers;
        } in
        let after =
          from_polling ready (lookup-moved id (record w { phase = waiting }) polling s.watchers) in
        (
          after.0,
          preceded id (next here (became_ready id "" (record w { phase = waiting }) e refl)) refl
              after.1,
        )

    from_any :
        (s : System W) (p : Phase)
        → lookup id s.watchers ≡ some (record w { phase = p })
        → (t : System W) × Returned s t id
    from_any s waiting e = from_waiting s e
    from_any s polling e = from_polling s e
    from_any s closing e = from_closing s id (record w { phase = closing }) e refl
    from_any s returning e = from_returning s id (record w { phase = returning }) e refl

  -- the id has no handle, no buffer and no watcher
  pub record Gone (s : System W) (id : String) : Type 0 where
    pub handle : lookup id s.manager.running ≡ none
    pub buffer : lookup id s.manager.buffers ≡ none
    pub watcher : lookup id s.watchers ≡ none

  -- In every state that the steps reach, a watcher whose process has ended, as its kind tells from now on,
  -- can still collect it: steps follow after which the id has no handle, no buffer and no watcher, given that
  -- no `Stop` of the id is under way.
  pub collected :
      (x : W) (s : System W) (id : String) (w : Watcher) (k : Kind W)
      → Steps c (initial x) s
      → lookup id s.watchers ≡ some w
      → is_stopping id s.stops ≡ false
      → get_kind w.kind c.registry ≡ some k
      → ((y : W) → is_terminal (k.status w.handle y).0 ≡ true)
      → (t : System W) × Steps c s t × Gone t id
  collected x s id w k reach e idle known ends =
      let (t, r) = from_any k id w known ends s w.phase e in
      let sound = reached-Sound c x (Steps-trans reach r.steps) in
      (
        t,
        r.steps,
        record {
          handle = sound.watched id r.unwatched (ap (is_stopping id) r.stops ∙ idle);
          buffer = sound.owned id r.unwatched;
          watcher = r.unwatched;
        },
      )

  begun : (s : System W) (id : String) (ri : RunningInstance) → System W
  begun s id ri = record {
    manager = kind_stop c ri.handle s.manager;
    watchers = cancel_watcher id s.watchers;
    stops = id ∷ s.stops;
  }

  stop_returns :
      (s : System W) (id : String) (ri : RunningInstance)
      → (t : System W) × Returned (begun s id ri) t id
  unfolding begun
  stop_returns s id ri = elim (Option-cases (lookup id s.watchers)) [
    | inl n ↦ (
      begun s id ri,
      record {
        steps = here;
        unwatched = ground (arith, n, lookup-cancel id id s.watchers);
        stops = refl;
      },
    )
    | inr (w, e) ↦
        from_cancelled (begun s id ri) id (cancel w)
          (ground (arith, e, lookup-cancel id id s.watchers, eq_iff id id)) refl
  ]

  -- In every state that the steps reach, a `Stop` of an instance that has a handle can begin and end,
  -- whatever the kind answers: steps follow after which the id has no handle, no buffer and no watcher, and
  -- as many calls of `Stop` wait as before.
  pub stop_ends :
      (x : W) (s : System W) (id : String) (ri : RunningInstance)
      → Steps c (initial x) s
      → lookup id s.manager.running ≡ some ri
      → (t : System W) × Steps c s t × Gone t id × (t.stops ≡ s.stops)
  unfolding begun
  stop_ends x s id ri reach e =
      let (m, r) = stop_returns s id ri in
      let waits : is_stopping id m.stops ≡ true = ground (arith, r.stops, eq_iff id id) in
      let end : System W = record m {
        manager = take_out id (set_status c "" id stopped "" m.manager);
        stops = end_stop id m.stops;
      } in
      let path =
        next (Steps-trans (next here (stop_begun id ri e)) r.steps)
          (stop_ended id "" waits r.unwatched) in
      let sound = reached-Sound c x (Steps-trans reach path) in
      (
        end,
        path,
        record {
          handle = taken-free id (set_status c "" id stopped "" m.manager);
          buffer = sound.owned id r.unwatched;
          watcher = r.unwatched;
        },
        ap (end_stop id) r.stops ∙ end_stop-own id s.stops,
      )
