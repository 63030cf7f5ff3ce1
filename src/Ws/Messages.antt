-- ===== src/Ws/Messages.antt =====
-- A fragmented message arrives whole, with control frames in between.
use mathlib.Core.List.{append_assoc}
use myworktree.Prelude.{
  ℕ, zero, suc, ◌+◌, ◌<◌, ◌≤◌, ◌≡◌, ◌≢◌, refl, true, false, List, [], ◌∷◌, ◌++◌, arith, length,
  length-append,
}
use myworktree.Ws.{read_frame, Bytes, Frame, Result, ok, err, max_message_bytes}
use myworktree.Ws.Frames.{read_frame-shorter}
use myworktree.Ws.Conn.{read_message, Conn, Message, is_control, on_frame, on_frames}

-- What may follow the first frame of a message, before its last: a control frame, or a part.
pub data Piece : Type 0 where
  control : ℕ → Bytes → Piece
  part : Bytes → Piece

abbrev pub frames_of : List Piece → Bytes → List Frame → List Frame
frames_of [] last more = record { fin = true; opcode = 0; payload = last } ∷ more
frames_of (control op p ∷ ps) last more =
    record { fin = true; opcode = op; payload = p } ∷ frames_of ps last more
frames_of (part p ∷ ps) last more =
    record { fin = false; opcode = 0; payload = p } ∷ frames_of ps last more

abbrev pub content : List Piece → Bytes → Bytes
content [] last = last
content (control op p ∷ ps) last = content ps last
content (part p ∷ ps) last = p ++ content ps last

abbrev pub controls : List Piece → List (Result Message) → List (Result Message)
controls [] after = after
controls (control op p ∷ ps) after = ok (op, p) ∷ controls ps after
controls (part p ∷ ps) after = controls ps after

abbrev pub AreControl : List Piece → Type 0
AreControl [] = Unit
AreControl (control op p ∷ ps) = (is_control op ≡ true) × AreControl ps
AreControl (part p ∷ ps) = AreControl ps

abbrev pub client_at : ℕ → Bytes → Conn
client_at op buf = record { client = true; frag_op = op; frag_buf = buf }

module _ (op : ℕ) (is_data : op ≢ 0) (last : Bytes) (more : List Frame) where
  open_message :
      (ps : List Piece) (buf : Bytes)
      → AreControl ps
      → length buf + length (content ps last) ≤ max_message_bytes
      → on_frames (client_at op buf) (frames_of ps last more)
        ≡ controls ps (ok (op, buf ++ content ps last) ∷ on_frames (client_at 0 []) more)
  unfolding on_frames on_frame
  open_message [] buf h le = ground (arith, length-append buf last)
  open_message (control c p ∷ ps) buf h le = ground (arith, open_message ps buf h.1 le)
  open_message (part p ∷ ps) buf h le = ground (
    arith,
    length-append buf p,
    length-append p (content ps last),
    append_assoc buf p (content ps last),
    open_message ps (buf ++ p) h,
  )

  -- A client that has no message open gets a fragmented message of at most the maximal size as one
  -- message, with the opcode of its first frame and the payloads in order. Each control frame in
  -- between is delivered at once, and the frames after the message are read as from the start.
  pub fragments_lem :
      (ps : List Piece) (first : Bytes)
      → is_control op ≡ false
      → AreControl ps
      → length first + length (content ps last) ≤ max_message_bytes
      → on_frames
          (client_at 0 [])
          (record { fin = false; opcode = op; payload = first } ∷ frames_of ps last more)
        ≡ controls ps (ok (op, first ++ content ps last) ∷ on_frames (client_at 0 []) more)
  unfolding on_frames on_frame
  fragments_lem ps first c h le = ground (arith, open_message ps first h le)

-- More fuel than bytes of input is always enough: the result does not depend on it.
pub read_message-fuel :
    (fuel more : ℕ) (c : Conn) (input : Bytes)
    → length input < fuel
    → fuel ≤ more
    → read_message fuel c input ≡ read_message more c input
unfolding read_message
read_message-fuel zero more c input lt le = absurd (omega arith)
read_message-fuel (suc fuel) zero c input lt le = absurd (omega arith)
read_message-fuel (suc fuel) (suc more) c input lt le =
    go (read_frame c.client input) refl
      (λ c' rest short. read_message-fuel fuel more c' rest short (omega arith))
  where
    go :
        (r : Result (Frame × Bytes))
        → read_frame c.client input ≡ r
        → ((c' : Conn) (rest : Bytes)
            → length rest < fuel
            → read_message fuel c' rest ≡ read_message more c' rest)
        → read_message (suc fuel) c input ≡ read_message (suc more) c input
    go (err e) q ih = rw (q, read_message)
    go (ok (f, rest)) q ih =
        let same =
          ih (on_frame c f).0 rest (omega (arith, read_frame-shorter c.client input rest f q)) in
        rw (q, read_message) (ground (arith, same))
