-- ===== src/Framework/Manager/Buffers.antt =====
-- The bookkeeping of the ring buffers in internal/framework/methods.go: the global counter of
-- `AllocateBuffer` and `dropBuffer`, and the transport that each instance is connected by.
pub mod Accounts
use myworktree.Prelude.{
  ℕ, ◌+◌, ◌-◌, Bool, true, false, Option, none, some, String, List, [], ◌∷◌, Assoc, lookup, insert,
  remove, str_eq, if◌then◌else◌, pos, ltb,
}
use myworktree.Framework.RingBuffer.{RingBuffer, new_ring_buffer, cap_bytes, close}
use myworktree.Framework.Manager.{Manager}

module _ {W : Type 0} where
  -- the new buffer is both in the map and in the caller's hands
  unfoldable pub allocate_buffer : String → ℕ → Manager W → Manager W × RingBuffer
  allocate_buffer id cap m =
      let buf = new_ring_buffer (pos cap) in
      (
        record m { buffers = insert id buf m.buffers; total_buf_bytes = m.total_buf_bytes + cap },
        buf,
      )

  -- The kind still holds the buffer, which is closed here. A capacity of 0 or less is not
  -- subtracted.
  unfoldable pub drop_buffer : String → Manager W → Manager W
  drop_buffer id m = elim (lookup id m.buffers) [
    | none ↦ m
    | some rb ↦ record m {
      buffers = remove id m.buffers;
      total_buf_bytes = m.total_buf_bytes - cap_bytes rb;
    }
  ]

  unfoldable pub buffer_cap_bytes_for : String → Manager W → ℕ
  buffer_cap_bytes_for id m = elim (lookup id m.buffers) [ none ↦ 0 | some rb ↦ cap_bytes rb ]

  unfoldable pub buffer_used_bytes_for : String → Manager W → ℕ
  buffer_used_bytes_for id m = elim (lookup id m.buffers) [ none ↦ 0 | some rb ↦ rb.used ]

  unfoldable pub set_connection_type : String → String → Manager W → Manager W
  set_connection_type id conn_type m =
      if str_eq conn_type ""
      then record m { conns = remove id m.conns }
      else record m { conns = insert id conn_type m.conns }

  -- a missing key reads as ""
  unfoldable pub connection_type : String → Manager W → String
  connection_type id m = elim (lookup id m.conns) [ none ↦ "" | some t ↦ t ]

  unfoldable pub register_sse_connection : String → Manager W → Manager W
  unfolding set_connection_type
  register_sse_connection id m = set_connection_type id "sse" m

  -- the function that `RegisterSSEConnection` returns
  unfoldable pub sse_cleanup : String → Manager W → Manager W
  unfolding connection_type
  sse_cleanup id m =
      if str_eq (connection_type id m) "sse" then record m { conns = remove id m.conns } else m
