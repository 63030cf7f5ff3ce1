-- ===== src/Ws/Tests.antt =====
-- Frames and messages at concrete inputs.
use myworktree.Prelude.{◌≡◌, refl, true, false, List, [], ◌∷◌, ◌++◌, arith}
use myworktree.Ws.{ok, err, read_frame, write_frame, apply_mask, read_payload, unmasked}
use myworktree.Ws.Conn.{on_frames}
use myworktree.Ws.Frames.{read-write_frame}
use myworktree.Ws.Messages.{
  Piece, control, part, frames_of, content, controls, client_at, fragments_lem,
}

-- RFC 6455, section 5.7: a masked "Hello"
hello_masked :
    write_frame true (0x37 ∷ 0xfa ∷ 0x21 ∷ 0x3d ∷ []) 1 (0x48 ∷ 0x65 ∷ 0x6c ∷ 0x6c ∷ 0x6f ∷ [])
    ≡ 0x81 ∷ 0x85 ∷ 0x37 ∷ 0xfa ∷ 0x21 ∷ 0x3d ∷ 0x7f ∷ 0x9f ∷ 0x4d ∷ 0x51 ∷ 0x58 ∷ []
unfolding write_frame apply_mask
hello_masked = refl

-- a server refuses the same message unmasked
hello_unmasked :
    read_frame false (0x81 ∷ 0x05 ∷ 0x48 ∷ 0x65 ∷ 0x6c ∷ 0x6c ∷ 0x6f ∷ []) ≡ err unmasked
unfolding read_frame read_payload
hello_unmasked = refl

read-write_frame_example :
    read_frame false (write_frame true (1 ∷ 2 ∷ 3 ∷ 4 ∷ []) 2 (72 ∷ 105 ∷ []) ++ (7 ∷ []))
    ≡ ok (record { fin = true; opcode = 2; payload = 72 ∷ 105 ∷ [] }, 7 ∷ [])
read-write_frame_example =
    read-write_frame true 1 2 3 4 2 (72 ∷ 105 ∷ []) (7 ∷ []) (omega arith) (omega arith)
      (omega arith) (omega arith)

abbrev pieces : List Piece
pieces = control 9 (1 ∷ []) ∷ part (98 ∷ []) ∷ []

fragments_lem_example :
    on_frames
      (client_at 0 [])
      (record { fin = false; opcode = 1; payload = 97 ∷ [] } ∷ frames_of pieces (99 ∷ []) [])
    ≡ controls pieces
        (ok (1, (97 ∷ []) ++ content pieces (99 ∷ [])) ∷ on_frames (client_at 0 []) [])
fragments_lem_example =
    fragments_lem 1 (omega arith) (99 ∷ []) [] pieces (97 ∷ []) refl (refl, tt) (omega arith)
