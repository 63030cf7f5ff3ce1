-- ===== src/Ws/Conn.antt =====
-- `ReadMessage`: frames put together to messages. The state is that of `Conn`.
use myworktree.Prelude.{
  ℕ, zero, suc, Bool, not, ◌||◌, List, [], ◌∷◌, ◌++◌, ltb, ◌==◌, if◌then◌else◌, length,
}
use myworktree.Ws.{
  Bytes, Frame, Result, ok, err, fragmented, no_open_message, message_too_large, before_final,
  unexpected_end, op_close, op_ping, op_pong, max_message_bytes, read_frame,
}

-- A server connection never fragments. `frag_op` is 0 where no message is open.
pub record Conn : Type 0 where
  pub client : Bool
  pub frag_op : ℕ
  pub frag_buf : Bytes

abbrev pub Message : Type 0
Message = ℕ × Bytes

-- What one frame does to the loop of `ReadMessage`: go on with the next frame, or return.
pub data Turn : Type 0 where
  again : Turn
  done : Result Message → Turn

abbrev pub is_control : ℕ → Bool
is_control op = op == op_close || op == op_ping || op == op_pong

continuation : Conn → Frame → Conn × Turn
continuation c f =
    let buf = c.frag_buf ++ f.payload in
    let c' = record c { frag_buf = buf } in
    if c.frag_op == 0
    then (c, done (err no_open_message))
    else if ltb max_message_bytes (length buf)
    then (c', done (err message_too_large))
    else if not f.fin
    then (c', again)
    else (record c { frag_op = 0; frag_buf = [] }, done (ok (c.frag_op, buf)))

data_frame : Conn → Frame → Conn × Turn
data_frame c f =
    if not (c.frag_op == 0)
    then (c, done (err before_final))
    else if f.fin
    then (c, done (ok (f.opcode, f.payload)))
    else (record c { frag_op = f.opcode; frag_buf = c.frag_buf ++ f.payload }, again)

unfoldable pub on_frame : Conn → Frame → Conn × Turn
unfolding continuation data_frame
on_frame c f =
    if not c.client
    then (if not f.fin then (c, done (err fragmented)) else (c, done (ok (f.opcode, f.payload))))
    else if is_control f.opcode
    then (c, done (ok (f.opcode, f.payload)))
    else if f.opcode == 0
    then continuation c f
    else data_frame c f

-- `ReadMessage` over the input that is left. Each frame takes two bytes at least, so fuel above the
-- length of the input is enough.
unfoldable pub read_message : ℕ → Conn → Bytes → Result (Message × Bytes) × Conn
read_message zero c input = (err unexpected_end, c)
read_message (suc fuel) c input = elim (read_frame c.client input) [
  | err e ↦ (err e, c)
  | ok (f, rest) ↦ elim ((on_frame c f).1) [
    | again ↦ read_message fuel (on_frame c f).0 rest
    | done r ↦ elim r [
      | err e ↦ (err e, (on_frame c f).0)
      | ok m ↦ (ok (m, rest), (on_frame c f).0)
    ]
  ]
]

-- The messages and errors that a run of frames gives, in order.
unfoldable pub on_frames : Conn → List Frame → List (Result Message)
on_frames c [] = []
on_frames c (f ∷ fs) =
    let rest = on_frames (on_frame c f).0 fs in
    elim ((on_frame c f).1) [ again ↦ rest | done r ↦ r ∷ rest ]
