-- ===== src/Ws/Frames.antt =====
-- What `writeFrame` writes, the peer's `readFrame` reads back.
use mathlib.Core.List.{append_assoc}
use myworktree.Prelude.{
  ℕ, zero, suc, ◌+◌, ◌/◌, ◌%◌, ◌<◌, ◌≤◌, ◌≡◌, ◌⊎◌, refl, sym, Bool, true, false, not, [], ◌∷◌, ◌++◌,
  ◌==◌, leb, arith, length, Option, none, some, inl, inr,
}
use myworktree.Ws.{
  Bytes, Frame, ok, read_full, big_endian, after_16, after_64, apply_mask, read_payload, read_frame,
  length_bytes, write_frame, max_message_bytes, after_header,
}
use myworktree.Ws.Bits.{AreBytes, apply_mask_twice, length-apply_mask}

read_full-append : (xs ys : Bytes) → read_full (length xs) (xs ++ ys) ≡ some (xs, ys)
unfolding read_full
read_full-append [] ys = refl
read_full-append (x ∷ xs) ys = rw (read_full-append xs ys)

-- the header: whatever the length, the reader is at the mask with that length
header_round_trip :
    (client : Bool) (h0 n mask_bit : ℕ) (rest : Bytes)
    → (mask_bit ≡ 0) ⊎ (mask_bit ≡ 128)
    → n ≤ max_message_bytes
    → read_frame client (h0 ∷ (length_bytes mask_bit n ++ rest))
      ≡ read_payload client h0 (mask_bit == 128) n rest
unfolding read_frame length_bytes read_full big_endian
header_round_trip client h0 n mask_bit rest m small = ground arith

read_full_mask :
    (m0 m1 m2 m3 : ℕ) (rest : Bytes)
    → read_full 4 (m0 ∷ m1 ∷ m2 ∷ m3 ∷ rest) ≡ some (m0 ∷ m1 ∷ m2 ∷ m3 ∷ [], rest)
unfolding read_full
read_full_mask m0 m1 m2 m3 rest = refl

payload_masked :
    (client : Bool) (h0 m0 m1 m2 m3 : ℕ) (p rest : Bytes)
    → let mask = m0 ∷ m1 ∷ m2 ∷ m3 ∷ [] in
      AreBytes mask
      → AreBytes p
      → read_payload client h0 true (length p) (mask ++ (apply_mask mask 0 p ++ rest))
        ≡ ok (record { fin = leb 1 (h0 / 128 % 2); opcode = h0 % 16; payload = p }, rest)
unfolding read_payload
payload_masked client h0 m0 m1 m2 m3 p rest hm hp =
    let mask : Bytes = m0 ∷ m1 ∷ m2 ∷ m3 ∷ [] in
    let hidden : Bytes = apply_mask mask 0 p in
    let size : length p ≡ length hidden = sym (length-apply_mask mask 0 p) in
    rw (
      read_full_mask m0 m1 m2 m3 (hidden ++ rest),
      size,
      read_full-append hidden rest,
      apply_mask_twice mask 0 p hm hp,
    )

payload_plain :
    (h0 : ℕ) (p rest : Bytes)
    → read_payload true h0 false (length p) (p ++ rest)
      ≡ ok (record { fin = leb 1 (h0 / 128 % 2); opcode = h0 % 16; payload = p }, rest)
unfolding read_payload
payload_plain h0 p rest = rw (read_full-append p rest)

-- A frame that a client has written is read by the server as a final frame of the same opcode and
-- payload, and what follows it in the stream is left; and a server's frame likewise by the client.
pub read-write_frame :
    (client : Bool) (m0 m1 m2 m3 op : ℕ) (p rest : Bytes)
    → let mask = m0 ∷ m1 ∷ m2 ∷ m3 ∷ [] in
      AreBytes mask
      → AreBytes p
      → op < 16
      → length p ≤ max_message_bytes
      → read_frame (not client) (write_frame client mask op p ++ rest)
        ≡ ok (record { fin = true; opcode = op; payload = p }, rest)
unfolding write_frame
read-write_frame true m0 m1 m2 m3 op p rest hm hp hop hl =
    let mask : Bytes = m0 ∷ m1 ∷ m2 ∷ m3 ∷ [] in
    rw
      (
        append_assoc (length_bytes 128 (length p)) (mask ++ apply_mask mask 0 p) rest,
        header_round_trip false (128 + op % 128) (length p) 128
            ((mask ++ apply_mask mask 0 p) ++ rest) (inr refl) hl,
      )
      (ground (arith, payload_masked false (128 + op % 128) m0 m1 m2 m3 p rest hm hp))
read-write_frame false m0 m1 m2 m3 op p rest hm hp hop hl =
    rw
      (
        append_assoc (length_bytes 0 (length p)) p rest,
        header_round_trip true (128 + op % 128) (length p) 0 (p ++ rest) (inl refl) hl,
      )
      (ground (arith, payload_plain (128 + op % 128) p rest))

abbrev rest_of : Option (Bytes × Bytes) → Bytes
rest_of none = []
rest_of (some (x, r)) = r

rest_of-read_full : (n : ℕ) (bs : Bytes) → length (rest_of (read_full n bs)) ≤ length bs
unfolding read_full
rest_of-read_full zero bs = omega arith
rest_of-read_full (suc n) [] = omega arith
rest_of-read_full (suc n) (b ∷ bs) = ground (arith, rest_of-read_full n bs)

module _ (client : Bool) (h0 : ℕ) where
  read_payload-shorter :
      (masked : Bool) (n : ℕ) (bs rest : Bytes) (f : Frame)
      → read_payload client h0 masked n bs ≡ ok (f, rest)
      → length rest ≤ length bs
  unfolding read_payload
  read_payload-shorter true n bs rest f h =
      ground (arith, rest_of-read_full 4 bs, rest_of-read_full n (rest_of (read_full 4 bs)))
  read_payload-shorter false n bs rest f h = ground (arith, rest_of-read_full n bs)

  after_16-shorter :
      (masked : Bool) (o : Option (Bytes × Bytes)) (rest : Bytes) (f : Frame)
      → after_16 client h0 masked o ≡ ok (f, rest)
      → length rest ≤ length (rest_of o)
  unfolding after_16
  after_16-shorter masked none rest f h = cc
  after_16-shorter masked (some (ext, r)) rest f h =
      read_payload-shorter masked (big_endian 0 ext) r rest f h

  after_64-shorter :
      (masked : Bool) (o : Option (Bytes × Bytes)) (rest : Bytes) (f : Frame)
      → after_64 client h0 masked o ≡ ok (f, rest)
      → length rest ≤ length (rest_of o)
  unfolding after_64
  after_64-shorter masked none rest f h = cc
  after_64-shorter masked (some (ext, r)) rest f h =
      ground (arith, h, read_payload-shorter masked (big_endian 0 ext) r rest f)

  after_header-shorter :
      (h1 : ℕ) (bs rest : Bytes) (f : Frame)
      → after_header client h0 h1 bs ≡ ok (f, rest)
      → length rest ≤ length bs
  unfolding after_header
  after_header-shorter h1 bs rest f h =
      let masked = leb 1 (h1 / 128 % 2) in
      ground (
        arith,
        rest_of-read_full 2 bs,
        rest_of-read_full 8 bs,
        read_payload-shorter masked (h1 % 128) bs rest f,
        after_16-shorter masked (read_full 2 bs) rest f,
        after_64-shorter masked (read_full 8 bs) rest f,
      )

pub read_frame-shorter :
    (client : Bool) (bs rest : Bytes) (f : Frame)
    → read_frame client bs ≡ ok (f, rest)
    → length rest < length bs
unfolding read_frame
read_frame-shorter client [] rest f h = cc
read_frame-shorter client (h0 ∷ []) rest f h = cc
read_frame-shorter client (h0 ∷ h1 ∷ bs) rest f h =
    omega (arith, after_header-shorter client h0 h1 bs rest f h)
