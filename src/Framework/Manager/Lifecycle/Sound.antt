-- ===== src/Framework/Manager/Lifecycle/Sound.antt =====
-- What holds in every state of the system that the steps reach, and what a step's edits do to the maps.
use mathlib.Core.Option
use myworktree.Prelude.{
  ◌≡◌, refl, true, false, none, some, String, List, [], ◌∷◌, Assoc, lookup, lookup-insert,
  lookup-remove, str_eq, eq_iff, if◌then◌else◌, arith, Option-cases, inl, inr, pos,
}
use myworktree.Framework.RingBuffer.{RingBuffer, write, Bytes, cap_bytes, new_ring_buffer}
use myworktree.Framework.Manager.{Manager}
use myworktree.Framework.Manager.Buffers.{drop_buffer}
use myworktree.Framework.Manager.Buffers.Accounts.{IsAccounted, allocate_buffer-IsAccounted}
use myworktree.Framework.Manager.Buffers.{allocate_buffer}
use myworktree.Framework.Manager.Start.Started.{Allotted, unbuffered, buffered}
use myworktree.Framework.Manager.Lifecycle.{
  returning, Watcher, System, is_stopping, end_stop, cancel, cancel_watcher,
}

-- Every buffer belongs to a watcher, so none outlives its instance. A handle without a watcher is one
-- that a `Stop` is about to take out. Only a `Stop` cancels.
pub record Sound {W : Type 0} (s : System W) : Type 0 where
  pub accounted : IsAccounted s.manager
  pub owned : (id : String) → lookup id s.watchers ≡ none → lookup id s.manager.buffers ≡ none
  pub watched :
      (id : String)
      → lookup id s.watchers ≡ none
      → is_stopping id s.stops ≡ false
      → lookup id s.manager.running ≡ none
  pub cancelled_by :
      (id : String) (w : Watcher)
      → lookup id s.watchers ≡ some w
      → w.cancelled ≡ true
      → is_stopping id s.stops ≡ true
  pub let_go :
      (id : String) (w : Watcher)
      → lookup id s.watchers ≡ some w
      → w.phase ≡ returning
      → is_stopping id s.stops ≡ false
      → lookup id s.manager.running ≡ none

pub lookup-drop :
    {W : Type 0} (id j : String) (m : Manager W)
    → lookup j (drop_buffer id m).buffers ≡ (if str_eq id j then none else lookup j m.buffers)
unfolding drop_buffer
lookup-drop id j m = ground (arith, lookup-remove id j m.buffers, eq_iff id j)

pub running-drop :
    {W : Type 0} (id : String) (m : Manager W) → (drop_buffer id m).running ≡ m.running
unfolding drop_buffer
running-drop id m = ground arith

pub lookup-cancel :
    (id j : String) (ws : Assoc Watcher)
    → lookup j (cancel_watcher id ws)
      ≡ (if str_eq id j then Option.map cancel (lookup j ws) else lookup j ws)
unfolding cancel_watcher
lookup-cancel id j ws = elim (Option-cases (lookup id ws)) [
  | inl e ↦ ground (arith, e, eq_iff id j)
  | inr (w, e) ↦ ground (arith, e, lookup-insert id j (cancel w) ws, eq_iff id j)
]

pub is_stopping-end :
    (id j : String) (xs : List String)
    → str_eq id j ≡ false
    → is_stopping j (end_stop id xs) ≡ is_stopping j xs
unfolding end_stop
is_stopping-end id j [] h = refl
is_stopping-end id j (x ∷ xs) h =
    ground (arith, eq_iff x id, eq_iff x j, eq_iff id j, is_stopping-end id j xs)

pub cap-write : (rb : RingBuffer) (bs : Bytes) → cap_bytes (write rb bs).0 ≡ cap_bytes rb
unfolding write
cap-write rb [] = refl
cap-write rb (b ∷ bs) = ground arith

pub Allotted-IsAccounted :
    {W : Type 0} (id : String) (m m' : Manager W)
    → lookup id m.buffers ≡ none
    → Allotted id m m'
    → IsAccounted m
    → IsAccounted m'
unfolding allocate_buffer
Allotted-IsAccounted id m m' fresh (unbuffered b t) a = record {
  keyed = rw b a.keyed;
  balanced = ground (arith, b, t, a.balanced);
}
Allotted-IsAccounted id m m' fresh (buffered cap b t) a =
    let one = allocate_buffer-IsAccounted id cap m fresh a in
    record { keyed = rw b one.keyed; balanced = ground (arith, b, t, one.balanced) }

pub Allotted-other :
    {W : Type 0} (id j : String) (m m' : Manager W)
    → Allotted id m m'
    → str_eq id j ≡ false
    → lookup j m'.buffers ≡ lookup j m.buffers
Allotted-other id j m m' (unbuffered b t) ne = ground (arith, b)
Allotted-other id j m m' (buffered cap b t) ne =
    ground (arith, b, lookup-insert id j (new_ring_buffer (pos cap)) m.buffers, eq_iff id j)
