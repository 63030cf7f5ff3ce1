-- ===== src/Framework/Manager/Buffers/Accounts.antt =====
-- The counter is the sum of the capacities of the live buffers, however they come and go.
use myworktree.Prelude.{
  ℕ, ◌+◌, ◌≤◌, ◌≡◌, ◌≢◌, refl, false, none, some, String, [], ◌∷◌, Assoc, lookup, insert, remove,
  str_eq, pos, arith, eq_iff, lookup-insert, lookup-remove, Bool-cases, Option-cases, subst, sym,
  inl, inr,
}
use myworktree.Framework.RingBuffer.{RingBuffer, new_ring_buffer, cap_bytes}
use myworktree.Framework.Manager.{Manager}
use myworktree.Framework.Manager.Buffers.{
  allocate_buffer, drop_buffer, register_sse_connection, sse_cleanup, set_connection_type,
  connection_type,
}

abbrev pub sum_caps : Assoc RingBuffer → ℕ
sum_caps [] = 0
sum_caps ((id, rb) ∷ m) = cap_bytes rb + sum_caps m

-- no key stands twice, so that `remove` takes one entry
abbrev pub Keyed : Assoc RingBuffer → Type 0
Keyed [] = Unit
Keyed ((id, rb) ∷ m) = (lookup id m ≡ none) × Keyed m

pub record IsAccounted {W : Type 0} (m : Manager W) : Type 0 where
  pub keyed : Keyed m.buffers
  pub balanced : m.total_buf_bytes ≡ sum_caps m.buffers

Keyed-insert :
    (id : String) (rb : RingBuffer) (m : Assoc RingBuffer) → Keyed m → Keyed (insert id rb m)
unfolding insert lookup
Keyed-insert id rb [] k = (refl, tt)
Keyed-insert id rb ((j, r) ∷ m) k = elim (Bool-cases (str_eq j id)) [
  | inl e ↦
      let same : j ≡ id = (eq_iff j id).0 e in rw e (subst (λ i. lookup i m ≡ none) same k.0, k.1)
  | inr ne ↦ rw ne (
    ground (arith, eq_iff j id, eq_iff id j, lookup-insert id j rb m, k.0),
    Keyed-insert id rb m k.1,
  )
]

Keyed-remove : (id : String) (m : Assoc RingBuffer) → Keyed m → Keyed (remove id m)
unfolding remove
Keyed-remove id [] k = tt
Keyed-remove id ((j, r) ∷ m) k = elim (Bool-cases (str_eq j id)) [
  | inl e ↦ rw e (Keyed-remove id m k.1)
  | inr ne ↦ rw ne (ground (arith, lookup-remove id j m, k.0), Keyed-remove id m k.1)
]

sum_caps-insert :
    (id : String) (rb : RingBuffer) (m : Assoc RingBuffer)
    → lookup id m ≡ none
    → sum_caps (insert id rb m) ≡ sum_caps m + cap_bytes rb
unfolding insert lookup
sum_caps-insert id rb [] h = omega arith
sum_caps-insert id rb ((j, r) ∷ m) h = ground (arith, sum_caps-insert id rb m)

remove-absent : (id : String) (m : Assoc RingBuffer) → lookup id m ≡ none → remove id m ≡ m
unfolding remove lookup
remove-absent id [] h = refl
remove-absent id ((j, r) ∷ m) h = ground (arith, remove-absent id m)

sum_caps-remove :
    (id : String) (m : Assoc RingBuffer) (rb : RingBuffer)
    → Keyed m
    → lookup id m ≡ some rb
    → sum_caps (remove id m) + cap_bytes rb ≡ sum_caps m
unfolding remove lookup
sum_caps-remove id [] rb k h = cc
sum_caps-remove id ((j, r) ∷ m) rb k h =
    ground (arith, eq_iff j id, remove-absent id m, k.0, sum_caps-remove id m rb k.1)

-- A buffer allocated under an id that has none adds its size to the counter.
pub allocate_buffer-IsAccounted :
    {W : Type 0} (id : String) (cap : ℕ) (m : Manager W)
    → lookup id m.buffers ≡ none
    → IsAccounted m
    → IsAccounted (allocate_buffer id cap m).0
unfolding allocate_buffer new_ring_buffer
allocate_buffer-IsAccounted id cap m fresh h = record {
  keyed = Keyed-insert id (new_ring_buffer (pos cap)) m.buffers h.keyed;
  balanced =
      ground (arith, h.balanced, sum_caps-insert id (new_ring_buffer (pos cap)) m.buffers fresh);
}

-- Dropping a buffer, whether there is one or not, takes its size off the counter, which never
-- falls below 0; and no buffer is left under the id.
pub drop_buffer-IsAccounted :
    {W : Type 0} (id : String) (m : Manager W)
    → IsAccounted m
    → IsAccounted (drop_buffer id m)
      × (lookup id (drop_buffer id m).buffers ≡ none)
      × ((drop_buffer id m).total_buf_bytes ≤ m.total_buf_bytes)
unfolding drop_buffer
drop_buffer-IsAccounted id m h = elim (Option-cases (lookup id m.buffers)) [
  | inl e ↦ rw (e, drop_buffer) (h, e, omega arith)
  | inr (rb, e) ↦
      rw (e, drop_buffer)
        (
          record {
            keyed = Keyed-remove id m.buffers h.keyed;
            balanced = omega (arith, h.balanced, sum_caps-remove id m.buffers rb h.keyed e);
          },
          ground (arith, lookup-remove id id m.buffers, eq_iff id id),
          omega arith,
        )
]

module _ {W : Type 0} (id : String) where
  connection-set :
      (transport : String) (m : Manager W)
      → connection_type id (set_connection_type id transport m) ≡ transport
  unfolding connection_type set_connection_type
  connection-set transport m = elim (Bool-cases (str_eq transport "")) [
    | inl e ↦
        rw (e, connection_type, lookup-remove, (eq_iff id id).1 refl)
          (sym ((eq_iff transport "").0 e))
    | inr ne ↦ rw (ne, connection_type, lookup-insert, (eq_iff id id).1 refl)
  ]

  connection-remove :
      (m : Manager W) → connection_type id (record m { conns = remove id m.conns }) ≡ ""
  unfolding connection_type
  connection-remove m = rw (connection_type, lookup-remove, (eq_iff id id).1 refl)

  sse_cleanup_of_sse :
      (m : Manager W) → connection_type id m ≡ "sse" → connection_type id (sse_cleanup id m) ≡ ""
  unfolding sse_cleanup
  sse_cleanup_of_sse m e = rw (e, sse_cleanup) (connection-remove m)

  sse_cleanup_of_other :
      (m : Manager W) → str_eq (connection_type id m) "sse" ≡ false → sse_cleanup id m ≡ m
  unfolding sse_cleanup
  sse_cleanup_of_other m e = rw (e, sse_cleanup)

  -- The cleanup of an SSE connection removes the record that it made, and leaves one that another
  -- transport has made in the meantime.
  pub sse_cleanup_lem :
      (transport : String) (m : Manager W)
      → (connection_type id (sse_cleanup id (register_sse_connection id m)) ≡ "")
        × (transport ≢ "sse"
            → connection_type id (sse_cleanup id (set_connection_type id transport m)) ≡ transport)
  unfolding register_sse_connection
  sse_cleanup_lem transport m = (
    sse_cleanup_of_sse (set_connection_type id "sse" m) (connection-set "sse" m),
    λ ne.
        rw
          (sse_cleanup_of_other (set_connection_type id transport m)
            (rw connection-set (ground (arith, eq_iff transport "sse"))))
          (connection-set transport m),
  )

sum_caps-replace :
    (id : String) (rb rb' : RingBuffer) (m : Assoc RingBuffer)
    → lookup id m ≡ some rb
    → cap_bytes rb' ≡ cap_bytes rb
    → sum_caps (insert id rb' m) ≡ sum_caps m
unfolding insert lookup
sum_caps-replace id rb rb' [] h e = cc
sum_caps-replace id rb rb' ((j, r) ∷ m) h e = ground (arith, sum_caps-replace id rb rb' m)

-- Another buffer of the same size takes the place of one.
pub replaced-IsAccounted :
    {W : Type 0} (id : String) (rb rb' : RingBuffer) (m : Manager W)
    → lookup id m.buffers ≡ some rb
    → cap_bytes rb' ≡ cap_bytes rb
    → IsAccounted m
    → IsAccounted (record m { buffers = insert id rb' m.buffers })
replaced-IsAccounted id rb rb' m h e a = record {
  keyed = Keyed-insert id rb' m.buffers a.keyed;
  balanced = omega (arith, a.balanced, sum_caps-replace id rb rb' m.buffers h e);
}
