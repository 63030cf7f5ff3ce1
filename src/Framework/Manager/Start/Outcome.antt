-- ===== src/Framework/Manager/Start/Outcome.antt =====
-- What `Start` leaves behind: with an error nothing in memory, else one handle and at most one buffer.
use myworktree.Prelude.{
  ℕ, ◌≡◌, ap, ◌∙◌, none, some, String, [], ◌∷◌, Assoc, lookup, insert, remove, lookup-insert,
  eq_iff, arith, Bool-cases, Option-cases, inl, inr, pos,
}
use myworktree.Store.{ManagedInstance, Result, ok, err, Error}
use myworktree.Framework.RingBuffer.{RingBuffer, new_ring_buffer}
use myworktree.Framework.Kind.{Handle, Kind, get_kind}
use myworktree.Framework.Manager.{Manager}
use myworktree.Framework.Manager.Buffers.{allocate_buffer, drop_buffer}
use myworktree.Framework.Manager.Config.{Config, update_state}
use myworktree.Framework.Manager.Edits.{append_instance}
use myworktree.Framework.Manager.Start.{
  spawned, launch, allotted, persisted_then, recorded, instance_of, is_buffered, spawn_params,
  start,
}
use myworktree.Framework.Manager.Prepare.{StartParams, Prepared, prepare}
use myworktree.Framework.Manager.Prepare.Memory.{SameMemory, same, prepare-same}

remove-insert_fresh :
    (id : String) (rb : RingBuffer) (m : Assoc RingBuffer)
    → lookup id m ≡ none
    → remove id (insert id rb m) ≡ m
unfolding lookup insert remove
remove-insert_fresh id rb [] h = ground (arith, eq_iff id id)
remove-insert_fresh id rb ((name, x) ∷ rest) h =
    ground (arith, eq_iff name id, remove-insert_fresh id rb rest)

module _ {W : Type 0} (c : Config W) where
  spawned-refused :
      (now : String) (inst : ManagedInstance) (r : Result Handle × W) (m : Manager W) (e : Error)
      → (spawned c now inst r m).0 ≡ err e
      → SameMemory (drop_buffer inst.id m) (spawned c now inst r m).1
  unfolding spawned drop_buffer update_state
  spawned-refused now inst (ok h, w) m e q = ground arith
  spawned-refused now inst (err x, w) m e q = ground arith

  drop-allocate :
      (id : String) (cap : ℕ) (m : Manager W)
      → lookup id m.buffers ≡ none
      → SameMemory m (drop_buffer id (allocate_buffer id cap m).0)
  unfolding drop_buffer allocate_buffer new_ring_buffer
  drop-allocate id cap m fresh = ground (
    arith,
    eq_iff id id,
    lookup-insert id id (new_ring_buffer (pos cap)) m.buffers,
    remove-insert_fresh id (new_ring_buffer (pos cap)) m.buffers fresh,
  )

  drop-absent : (id : String) (m : Manager W) → lookup id m.buffers ≡ none → drop_buffer id m ≡ m
  unfolding drop_buffer
  drop-absent id m fresh = rw (fresh, drop_buffer)

  drop-allotted :
      (k : Kind W) (id : String) (cap : ℕ) (m : Manager W)
      → lookup id m.buffers ≡ none
      → SameMemory m (drop_buffer id (allotted c k id cap m))
  unfolding allotted
  drop-allotted k id cap m fresh = elim (Bool-cases (is_buffered c k)) [
    | inl b ↦ rw (b, allotted) (drop-allocate id cap m fresh)
    | inr b ↦ rw (b, allotted, drop-absent id m fresh) (same c m)
  ]

  launch-refused :
      (k : Kind W) (p : StartParams) (r : Prepared) (now : String) (inst : ManagedInstance)
      (m : Manager W) (e : Error)
      → lookup inst.id m.buffers ≡ none
      → (launch c k p r now inst m).0 ≡ err e
      → SameMemory m (launch c k p r now inst m).1
  unfolding launch
  launch-refused k p r now inst m e fresh q =
      let m' = allotted c k inst.id r.cap_bytes m in
      let made = k.spawn (spawn_params c p r inst (is_buffered c k)) m'.world in
      ground
        (arith, drop-allotted k inst.id r.cap_bytes m fresh, spawned-refused now inst made m' e q)

  persisted_then-refused :
      (k : Kind W) (p : StartParams) (r : Prepared) (now : String) (inst : ManagedInstance)
      (s : Result (Unit {0}) × Manager W) (e : Error)
      → lookup inst.id s.1.buffers ≡ none
      → (persisted_then c k p r now inst s).0 ≡ err e
      → SameMemory s.1 (persisted_then c k p r now inst s).1
  unfolding persisted_then
  persisted_then-refused k p r now inst (err x, m) e fresh q = same c m
  persisted_then-refused k p r now inst (ok _, m) e fresh q =
      launch-refused k p r now inst m e fresh q

  recorded-refused :
      (p : StartParams) (id now : String) (s : Result Prepared × Manager W) (e : Error)
      → lookup id s.1.buffers ≡ none
      → (recorded c p (some id) now s).0 ≡ err e
      → SameMemory s.1 (recorded c p (some id) now s).1
  unfolding recorded update_state
  recorded-refused p id now (err x, m) e fresh q = same c m
  recorded-refused p id now (ok r, m) e fresh q =
      elim (Option-cases (get_kind r.kind_name c.registry)) [
        | inl n ↦ rw (n, recorded) (same c m)
        | inr (k, n) ↦
            let inst = instance_of c p r id now in
            let after = update_state c (append_instance inst) m in
            rw (n, recorded)
              (ground
                (arith, persisted_then-refused k p r now inst after e fresh (ground (arith, n))))
      ]

  -- A `Start` that fails, at whatever step, leaves no handle, no buffer and no bytes on the counter
  -- behind, given that no buffer stood under the new id.
  pub start-refused :
      (p : StartParams) (id now : String) (m : Manager W) (e : Error)
      → lookup id m.buffers ≡ none
      → (start c p (some id) now m).0 ≡ err e
      → SameMemory m (start c p (some id) now m).1
  unfolding start
  start-refused p id now m e fresh q =
      let s = prepare-same c p m in
      ground
        (arith, s, recorded-refused p id now (prepare c p m) e (ap (lookup id) s.buffers ∙ fresh) q)
