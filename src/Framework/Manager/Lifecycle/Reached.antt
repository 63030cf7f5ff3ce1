-- ===== src/Framework/Manager/Lifecycle/Reached.antt =====
-- The steps one after another, from a manager that has just been made.
use myworktree.Prelude.{◌≡◌, refl, none, some, String, lookup, lookup-remove, eq_iff, arith}
use myworktree.Framework.Status.{Status, running, stopped, failed}
use myworktree.Framework.Kind.{Handle}
use myworktree.Framework.Manager.{Manager}
use myworktree.Framework.Manager.Config.{Config, update_state}
use myworktree.Framework.Manager.Prepare.Memory.{SameMemory}
use myworktree.Framework.Manager.Start.{start}
use myworktree.Framework.Manager.Start.Started.{start-Started, unbuffered, AllottedFor-Allotted}
use myworktree.Framework.Manager.Lifecycle.{
  started, became_ready, reattached, register_reattached, timed_out, ticked, closed, gave_up,
  returned, stop_begun, stop_ended, published, printed, deleted, elsewhere, polling, closing,
  returning, System, set_status, take_out, kind_stop, Step, Steps, initial, here, next,
}
use myworktree.Framework.Manager.Lifecycle.Sound.{Sound}
use myworktree.Framework.Manager.Lifecycle.Moves.{
  memory-Sound, moved-Sound, taken-Sound, returned-Sound, deleted-Sound, stop_begun-Sound,
  stop_ended-Sound, printed-Sound, started-Sound,
}

kind_stop-same :
    {W : Type 0} (c : Config W) (h : Handle) (m : Manager W) → SameMemory m (kind_stop c h m)
unfolding kind_stop
kind_stop-same c h m = ground arith

set_status-same :
    {W : Type 0} (c : Config W) (now id : String) (st : Status) (text : String) (m : Manager W)
    → SameMemory m (set_status c now id st text m)
unfolding set_status update_state
set_status-same c now id st text m = ground arith

pub taken-free :
    {W : Type 0} (id : String) (m : Manager W) → lookup id (take_out id m).running ≡ none
unfolding take_out
taken-free id m = ground (arith, lookup-remove id id m.running, eq_iff id id)

module _ {W : Type 0} (c : Config W) where
  told-Sound :
      (now id : String) (st : Status) (text : String) (s : System W)
      → Sound s
      → Sound (record s { manager = set_status c now id st text s.manager })
  told-Sound now id st text s sound =
      memory-Sound s sound (set_status c now id st text s.manager)
        (set_status-same c now id st text s.manager)

  pub Step-Sound : {s t : System W} → Step c s t → Sound s → Sound t
  unfolding update_state register_reattached
  Step-Sound {s} (started p id now inst h fresh free unwatched idle ok_) sound =
      let st = start-Started c p id now s.manager inst h ok_ in
      started-Sound s sound id (start c p (some id) now s.manager).1 inst h fresh idle
        (AllottedFor-Allotted st.kind id s.manager (start c p (some id) now s.manager).1
          st.allotted)
        st.running
  Step-Sound {s} (reattached id inst h free idle) sound =
      started-Sound s sound id (register_reattached id h s.manager) inst h (sound.owned id free)
        idle (unbuffered refl refl) refl
  Step-Sound {s} (became_ready id now w e p) sound =
      let t = record s { manager = set_status c now id running "" s.manager } in
      moved-Sound t (told-Sound now id running "" s sound) id w polling e
        (λ q. absurd (ground arith))
  Step-Sound {s} (timed_out id now w e p) sound =
      let text : String = "instance did not become ready within 60s" in
      let t = record s { manager = set_status c now id failed text s.manager } in
      moved-Sound t (told-Sound now id failed text s sound) id w closing e
        (λ q. absurd (ground arith))
  Step-Sound {s} (ticked id now w st text e p q r) sound =
      let t = record s { manager = set_status c now id st text s.manager } in
      moved-Sound t (told-Sound now id st text s sound) id w closing e (λ q. absurd (ground arith))
  Step-Sound {s} (closed id w e p) sound =
      let t = record s { manager = take_out id s.manager } in
      moved-Sound t (taken-Sound s sound id) id w returning e (λ _ _. taken-free id s.manager)
  Step-Sound {s} (gave_up id w e p q) sound =
      moved-Sound s sound id w returning e (λ _ n. absurd (ground (arith, sound.cancelled_by id w)))
  Step-Sound {s} (returned id w e p) sound = returned-Sound s sound id w e p
  Step-Sound {s} (stop_begun id ri e) sound =
      let t = record s { manager = kind_stop c ri.handle s.manager } in
      stop_begun-Sound t
        (memory-Sound s sound (kind_stop c ri.handle s.manager)
          (kind_stop-same c ri.handle s.manager))
        id
  Step-Sound {s} (stop_ended id now q n) sound =
      let t = record s { manager = set_status c now id stopped "" s.manager } in
      stop_ended-Sound t (told-Sound now id stopped "" s sound) id n
  Step-Sound {s} (published id fn) sound = memory-Sound s sound _ (ground arith)
  Step-Sound {s} (printed id bs) sound = printed-Sound s sound id bs
  Step-Sound {s} (deleted id n) sound = deleted-Sound s sound id
  Step-Sound {s} (elsewhere w) sound = memory-Sound s sound _ (ground arith)

  pub initial-Sound : (w : W) → Sound (initial w)
  unfolding lookup
  initial-Sound w = record {
    accounted = record { keyed = tt; balanced = refl };
    owned = λ id n. refl;
    watched = λ id n q. refl;
    cancelled_by = λ id w e p. ground arith;
    let_go = λ id w e p q. refl;
  }

  pub Steps-Sound : {s t : System W} → Steps c s t → Sound s → Sound t
  Steps-Sound here sound = sound
  Steps-Sound (next r st) sound = Step-Sound st (Steps-Sound r sound)

  -- In every state that the steps reach from a new manager, the account of the buffers is balanced,
  -- each buffer belongs to a watcher, and each handle has a watcher or a `Stop` that takes it out.
  pub reached-Sound : (w : W) {t : System W} → Steps c (initial w) t → Sound t
  reached-Sound w r = Steps-Sound r (initial-Sound w)
