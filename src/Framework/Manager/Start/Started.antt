-- ===== src/Framework/Manager/Start/Started.antt =====
-- What a `Start` that succeeds leaves behind: its handle and, at most, its buffer.
use myworktree.Prelude.{
  ℕ, ◌+◌, ◌≡◌, ◌≢◌, sym, ap, ◌∙◌, Bool, true, false, Option, none, some, String, insert, arith,
  Bool-cases, Option-cases, inl, inr, pos,
}
use myworktree.Store.{ManagedInstance, Result, ok, err}
use myworktree.Framework.RingBuffer.{new_ring_buffer}
use myworktree.Framework.Status.{to_string, starting}
use myworktree.Framework.Kind.{Handle, Kind, get_kind}
use myworktree.Framework.Manager.{Manager}
use myworktree.Framework.Manager.Buffers.{allocate_buffer}
use myworktree.Framework.Manager.Config.{Config, update_state}
use myworktree.Framework.Manager.Edits.{append_instance}
use myworktree.Framework.Manager.Start.{
  spawned, launch, allotted, persisted_then, recorded, instance_of, is_buffered, spawn_params,
  start,
}
use myworktree.Framework.Manager.Prepare.{StartParams, Prepared, prepare}
use myworktree.Framework.Manager.Prepare.Memory.{SameMemory, prepare-same}

-- The buffers are the same, or have one more, of the size that the counter has grown by.
pub data Allotted {W : Type 0} (id : String) (m m' : Manager W) : Type 0 where
  unbuffered : m'.buffers ≡ m.buffers → m'.total_buf_bytes ≡ m.total_buf_bytes → Allotted id m m'
  buffered :
      (cap : ℕ)
      → m'.buffers ≡ insert id (new_ring_buffer (pos cap)) m.buffers
      → m'.total_buf_bytes ≡ m.total_buf_bytes + cap
      → Allotted id m m'

-- The buffers as a kind wants them: none for a kind that says that it needs none, one for any other.
pub data AllottedFor {W : Type 0} (k : Kind W) (id : String) (m m' : Manager W) : Type 0 where
  kept :
      k.needs_output_buffer ≡ some false
      → m'.buffers ≡ m.buffers
      → m'.total_buf_bytes ≡ m.total_buf_bytes
      → AllottedFor k id m m'
  grown :
      k.needs_output_buffer ≢ some false
      → (cap : ℕ) → m'.buffers ≡ insert id (new_ring_buffer (pos cap)) m.buffers
      → m'.total_buf_bytes ≡ m.total_buf_bytes + cap
      → AllottedFor k id m m'

pub AllottedFor-Allotted :
    {W : Type 0} (k : Kind W) (id : String) (m m' : Manager W)
    → AllottedFor k id m m'
    → Allotted id m m'
AllottedFor-Allotted k id m m' (kept n b t) = unbuffered b t
AllottedFor-Allotted k id m m' (grown n cap b t) = buffered cap b t

-- The record's kind is registered, and its buffer is made as this kind wants it.
pub record Started {W : Type 0} (c : Config W) (id : String) (m m' : Manager W)
    (inst : ManagedInstance) (h : Handle) : Type 0 where
  pub its_id : inst.id ≡ id
  pub its_status : inst.status ≡ to_string starting
  pub running : m'.running ≡ insert id (record { handle = h }) m.running
  pub kind : Kind W
  pub its_kind : get_kind inst.kind c.registry ≡ some kind
  pub allotted : AllottedFor kind id m m'
  pub conns : m'.conns ≡ m.conns

Allotted-trans :
    {W : Type 0} (k : Kind W) (id : String) (m n m' n' : Manager W)
    → SameMemory m n
    → AllottedFor k id n n'
    → n'.buffers ≡ m'.buffers
    → n'.total_buf_bytes ≡ m'.total_buf_bytes
    → AllottedFor k id m m'
Allotted-trans k id m n m' n' s (kept w b t) e f =
    kept w (sym e ∙ b ∙ s.buffers) (sym f ∙ t ∙ s.total)
Allotted-trans k id m n m' n' s (grown w cap b t) e f =
    grown w cap (sym e ∙ b ∙ ap (insert id (new_ring_buffer (pos cap))) s.buffers)
      (ground (arith, e, f, t, s.total))

-- a start between changes of the world alone
pub Started-around :
    {W : Type 0} {c : Config W} {id : String} {m n o p : Manager W} {inst : ManagedInstance}
    {h : Handle}
    → SameMemory m n
    → Started c id n o inst h
    → SameMemory o p
    → Started c id m p inst h
Started-around {id} {m} {n} {o} {p} {h} s st t = record {
  its_id = st.its_id;
  its_status = st.its_status;
  running = t.running ∙ st.running ∙ ap (insert id (record { handle = h })) s.running;
  kind = st.kind;
  its_kind = st.its_kind;
  allotted = Allotted-trans st.kind id m n p o s st.allotted (sym t.buffers) (sym t.total);
  conns = t.conns ∙ st.conns ∙ s.conns;
}

module _ {W : Type 0} (c : Config W) where
  wants_none : (o : Option Bool) → elim o [ none ↦ true | some b ↦ b ] ≡ false → o ≡ some false
  wants_none none e = absurd (ground (arith, e))
  wants_none (some b) e = ap some e

  allotted-Allotted :
      (k : Kind W) (id : String) (cap : ℕ) (m : Manager W)
      → AllottedFor k id m (allotted c k id cap m)
  unfolding allotted allocate_buffer
  allotted-Allotted k id cap m = elim (Bool-cases (is_buffered c k)) [
    | inl b ↦ grown (λ e. ground (arith, b, e)) cap (ground (arith, b)) (ground (arith, b))
    | inr b ↦ kept (wants_none k.needs_output_buffer b) (ground (arith, b)) (ground (arith, b))
  ]

  spawned-Started :
      (now : String) (inst : ManagedInstance) (r : Result Handle × W) (m : Manager W)
      (made : ManagedInstance) (h : Handle)
      → (spawned c now inst r m).0 ≡ ok (made, h)
      → (made ≡ inst)
        × ((spawned c now inst r m).1.running ≡ insert inst.id (record { handle = h }) m.running)
        × ((spawned c now inst r m).1.buffers ≡ m.buffers)
        × ((spawned c now inst r m).1.total_buf_bytes ≡ m.total_buf_bytes)
        × ((spawned c now inst r m).1.conns ≡ m.conns)
  unfolding spawned
  spawned-Started now inst (ok g, w) m made h q = ground arith
  spawned-Started now inst (err e, w) m made h q = ground arith

  allotted-rest :
      (k : Kind W) (id : String) (cap : ℕ) (m : Manager W)
      → ((allotted c k id cap m).running ≡ m.running) × ((allotted c k id cap m).conns ≡ m.conns)
  unfolding allotted allocate_buffer
  allotted-rest k id cap m = ground arith

  persisted_then-Started :
      (k : Kind W) (p : StartParams) (r : Prepared) (id now : String) (m : Manager W)
      (s : Result (Unit {0}) × Manager W) (made : ManagedInstance) (h : Handle)
      → SameMemory m s.1
      → get_kind r.kind_name c.registry ≡ some k
      → (persisted_then c k p r now (instance_of c p r id now) s).0 ≡ ok (made, h)
      → Started c id m (persisted_then c k p r now (instance_of c p r id now) s).1 made h
  unfolding persisted_then launch
  persisted_then-Started k p r id now m (err e, n) made h same x q = absurd (ground arith)
  persisted_then-Started k p r id now m (ok _, n) made h same x q =
      let inst = instance_of c p r id now in
      let n' = allotted c k id r.cap_bytes n in
      let end = k.spawn (spawn_params c p r inst (is_buffered c k)) n'.world in
      let (e, run, bufs, total, con) = spawned-Started now inst end n' made h q in
      let (run', con') = allotted-rest k id r.cap_bytes n in
      record {
        its_id = ap (λ (i : ManagedInstance). i.id) e;
        its_status = ap (λ (i : ManagedInstance). i.status) e;
        running = run ∙ ap (insert id (record { handle = h })) (run' ∙ same.running);
        kind = k;
        its_kind = ap (λ (i : ManagedInstance). get_kind i.kind c.registry) e ∙ x;
        allotted =
            Allotted-trans k id m n (spawned c now inst end n').1 n' same
              (allotted-Allotted k id r.cap_bytes n) (sym bufs) (sym total);
        conns = con ∙ con' ∙ same.conns;
      }

  recorded-Started :
      (p : StartParams) (id now : String) (m : Manager W) (s : Result Prepared × Manager W)
      (made : ManagedInstance) (h : Handle)
      → SameMemory m s.1
      → (recorded c p (some id) now s).0 ≡ ok (made, h)
      → Started c id m (recorded c p (some id) now s).1 made h
  unfolding recorded update_state
  recorded-Started p id now m (err e, n) made h same q = absurd (ground arith)
  recorded-Started p id now m (ok r, n) made h same q =
      elim (Option-cases (get_kind r.kind_name c.registry)) [
        | inl x ↦ absurd (ground (arith, x))
        | inr (k, x) ↦
            let after = update_state c (append_instance (instance_of c p r id now)) n in
            rw (x, recorded)
              (persisted_then-Started k p r id now m after made h (ground (arith, same)) x
                (ground (arith, x)))
      ]

  -- A `Start` that succeeds returns a record that is starting, under the new id, and adds its handle
  -- and, unless the record's kind needs none, its buffer; the other entries stay as they are.
  pub start-Started :
      (p : StartParams) (id now : String) (m : Manager W) (made : ManagedInstance) (h : Handle)
      → (start c p (some id) now m).0 ≡ ok (made, h)
      → Started c id m (start c p (some id) now m).1 made h
  unfolding start
  start-Started p id now m made h q =
      recorded-Started p id now m (prepare c p m) made h (prepare-same c p m) q
