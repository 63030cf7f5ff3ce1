-- ===== src/Ws.antt =====
-- internal/ws/ws.go: the frames of the WebSocket connections, and the messages that they make up.
pub mod Bits
pub mod Frames
pub mod Conn
pub mod Messages
mod Tests
use Prim.Native.Nat.{bit_xor}
use myworktree.Prelude.{
  ℕ, zero, suc, ◌+◌, ◌-◌, ◌*◌, ◌/◌, ◌%◌, Bool, true, false, not, ◌&&◌, ◌||◌, Option, none, some,
  List, [], ◌∷◌, ◌++◌, ltb, leb, ◌==◌, if◌then◌else◌, length, take, drop,
}

abbrev pub Bytes : Type 0
Bytes = List ℕ

abbrev pub op_text : ℕ
op_text = 0x1

abbrev pub op_binary : ℕ
op_binary = 0x2

abbrev pub op_close : ℕ
op_close = 0x8

abbrev pub op_ping : ℕ
op_ping = 0x9

abbrev pub op_pong : ℕ
op_pong = 0xA

-- 10 MB
abbrev pub max_message_bytes : ℕ
max_message_bytes = 10485760

pub record Frame : Type 0 where
  pub fin : Bool
  pub opcode : ℕ
  pub payload : Bytes

-- Why a read fails: the input ends, or one of the messages of the code.
pub data ReadError : Type 0 where
  unexpected_end frame_too_large unmasked fragmented no_open_message message_too_large
        before_final :
      ReadError

pub data Result {ℓ} (A : Type ℓ) : Type ℓ where
  ok : A → Result A
  err : ReadError → Result A

-- `io.ReadFull` of `n` bytes: those bytes and the rest of the input, `none` if it is too short
unfoldable pub read_full : ℕ → Bytes → Option (Bytes × Bytes)
read_full zero bs = some ([], bs)
read_full (suc n) [] = none
read_full (suc n) (b ∷ bs) = elim (read_full n bs) [ none ↦ none | some (x, r) ↦ some (b ∷ x, r) ]

-- `binary.BigEndian`
unfoldable pub big_endian : ℕ → Bytes → ℕ
big_endian acc [] = acc
big_endian acc (b ∷ bs) = big_endian (acc * 256 + b) bs

-- `mask[i%4]`
abbrev pub mask_byte : Bytes → ℕ → ℕ
mask_byte [] i = 0
mask_byte (m ∷ ms) zero = m
mask_byte (m ∷ ms) (suc i) = mask_byte ms i

-- `payload[i] ^= mask[i%4]`, from index `i` on
unfoldable pub apply_mask : Bytes → ℕ → Bytes → Bytes
apply_mask mask i [] = []
apply_mask mask i (b ∷ bs) = bit_xor b (mask_byte mask (i % 4)) ∷ apply_mask mask (i + 1) bs

finish_payload : ℕ → ℕ → Option Bytes → Option (Bytes × Bytes) → Result (Frame × Bytes)
finish_payload h0 length mask none = err unexpected_end
finish_payload h0 length none (some (payload, rest)) =
    ok (record { fin = leb 1 (h0 / 128 % 2); opcode = h0 % 16; payload = payload }, rest)
finish_payload h0 length (some m) (some (payload, rest)) = ok (
  record { fin = leb 1 (h0 / 128 % 2); opcode = h0 % 16; payload = apply_mask m 0 payload },
  rest,
)

after_mask : ℕ → ℕ → Option (Bytes × Bytes) → Result (Frame × Bytes)
unfolding finish_payload
after_mask h0 length none = err unexpected_end
after_mask h0 length (some (mask, rest)) =
    finish_payload h0 length (some mask) (read_full length rest)

-- the mask and the payload, once the length is known
unfoldable pub read_payload : Bool → ℕ → Bool → ℕ → Bytes → Result (Frame × Bytes)
unfolding after_mask finish_payload
read_payload client h0 masked length rest =
    if masked
    then after_mask h0 length (read_full 4 rest)
    else if client
    then finish_payload h0 length none (read_full length rest)
    else err unmasked

-- the extended length of 2 bytes
after_16 : Bool → ℕ → Bool → Option (Bytes × Bytes) → Result (Frame × Bytes)
after_16 client h0 masked none = err unexpected_end
after_16 client h0 masked (some (ext, rest)) = read_payload client h0 masked (big_endian 0 ext) rest

-- the extended length of 8 bytes
after_64 : Bool → ℕ → Bool → Option (Bytes × Bytes) → Result (Frame × Bytes)
after_64 client h0 masked none = err unexpected_end
after_64 client h0 masked (some (ext, rest)) =
    if ltb max_message_bytes (big_endian 0 ext)
    then err frame_too_large
    else read_payload client h0 masked (big_endian 0 ext) rest

-- the second byte: the mask bit and the 7-bit length
after_header : Bool → ℕ → ℕ → Bytes → Result (Frame × Bytes)
after_header client h0 h1 rest =
    let masked = leb 1 (h1 / 128 % 2) in
    if h1 % 128 == 126
    then after_16 client h0 masked (read_full 2 rest)
    else if h1 % 128 == 127
    then after_64 client h0 masked (read_full 8 rest)
    else read_payload client h0 masked (h1 % 128) rest

-- `readFrame`; a byte is a number below 256
unfoldable pub read_frame : Bool → Bytes → Result (Frame × Bytes)
unfolding after_header after_16 after_64
read_frame client [] = err unexpected_end
read_frame client (h0 ∷ []) = err unexpected_end
read_frame client (h0 ∷ h1 ∷ rest) = after_header client h0 h1 rest

-- the length as `writeFrame` writes it; `n >> 24` and the like are cut to a byte
unfoldable pub length_bytes : ℕ → ℕ → Bytes
length_bytes mask_bit n =
    if leb n 125
    then (mask_bit + n) ∷ []
    else if leb n 65535
    then (mask_bit + 126) ∷ (n / 256 % 256) ∷ (n % 256) ∷ []
    else (mask_bit + 127)
      ∷ 0
      ∷ 0
      ∷ 0
      ∷ 0
      ∷ (n / 16777216 % 256)
      ∷ (n / 65536 % 256)
      ∷ (n / 256 % 256)
      ∷ (n % 256)
      ∷ []

-- What `writeFrame` writes. The mask is four random bytes; a server writes none.
unfoldable pub write_frame : Bool → Bytes → ℕ → Bytes → Bytes
unfolding length_bytes
write_frame client mask op p =
    let mask_bit = if client then 128 else 0 in
    (128 + op % 128)
    ∷ (length_bytes mask_bit (length p) ++ (if client then mask ++ apply_mask mask 0 p else p))
