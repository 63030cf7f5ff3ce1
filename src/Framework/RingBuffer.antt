-- ===== src/Framework/RingBuffer.antt =====
-- internal/framework/ringbuffer.go: the bounded buffer of a process's output.
-- A method that changes the buffer returns the new one. `data` is `none` for Go's nil slice.
-- The int64 counters `head` and `used` are natural numbers: `head` counts the bytes ever written,
-- and stays below 2^63 as long as a process writes less than 8 EiB.
pub mod Holds
pub mod Read
pub mod Stream
use mathlib.Core.Option
use myworktree.Prelude.{
  ℕ, ◌+◌, ◌-◌, ◌%◌, Bool, true, false, Option, none, some, List, [], ◌∷◌, ◌++◌, ◌||◌, ℤ, pos,
  negsuc, pos_part, ltb, leb, ◌==◌, if◌then◌else◌, length, take, drop, copy_at, min, replicate,
}

abbrev pub Bytes : Type 0
Bytes = List ℕ

pub record RingBuffer : Type 0 where
  pub cap : ℤ
  pub data_ : Option Bytes
  pub head : ℕ
  pub used : ℕ
  pub closed : Bool

-- `r.cap` as a size; 0 where the code's test `r.cap > 0` fails
abbrev pub cap_bytes : RingBuffer → ℕ
cap_bytes r = pos_part r.cap

unfoldable pub new_ring_buffer : ℤ → RingBuffer
new_ring_buffer cap = record {
  cap = cap;
  data_ = if ltb 0 (pos_part cap) then some (replicate (pos_part cap) 0) else none;
  head = 0;
  used = 0;
  closed = false;
}

-- the two copies of `write`: `w` into `buf` from `pos`, and what did not fit from index 0
unfoldable pub copy_round : Bytes → ℕ → Bytes → Bytes
copy_round buf at w =
    let n = min (length buf - at) (length w) in
    let buf' = copy_at at buf w in if ltb n (length w) then copy_at 0 buf' (drop n w) else buf'

-- `Write(p)` calls `write(p, "")` and `WriteString(s)` calls `write(nil, s)`; both branches of
-- `write` copy alike, so `src` is the one argument that is given.
unfoldable pub write : RingBuffer → Bytes → RingBuffer × ℕ
write r [] = (r, 0)
write r (b ∷ bs) =
    let src = b ∷ bs in
    let len = length src in
    let cap = cap_bytes r in
    let start = if ltb cap len then len - cap else 0 in
    let stored =
      Option.map (λ buf. copy_round buf ((r.head + start) % cap) (drop start src)) r.data_ in
    if r.closed then (r, 0) else (
      record r {
        data_ = if ltb 0 cap then stored else r.data_;
        head = r.head + len;
        used = if ltb 0 cap then (if ltb cap (r.used + len) then cap else r.used + len) else r.used;
      },
      len,
    )

-- `copyRangeLocked(start, n)`, for the sizes `n ≥ 0` that its callers compute
unfoldable pub copy_range : RingBuffer → ℕ → ℕ → Bytes
copy_range r start n = elim r.data_ [
  | none ↦ []
  | some buf ↦
      let at = start % cap_bytes r in
      let first = take n (drop at buf) in
      if ltb (length first) n then first ++ take (n - length first) buf else first
]

-- the text and the end offset
unfoldable pub tail : RingBuffer → ℤ → Bytes × ℕ
tail r n =
    let want = min (pos_part n) r.used in
    if pos_part n == 0 || r.used == 0
    then ([], r.head)
    else (copy_range r (r.head - want) want, r.head)

-- the text and the next cursor; `none` is the error of a negative `maxBytes`
unfoldable pub read_since : RingBuffer → ℤ → ℤ → Option (Bytes × ℕ)
read_since r since (negsuc m) = none
read_since r since (pos max_bytes) =
    let at = pos_part since in
    let start = if ltb at (r.head - r.used) then r.head - r.used else at in
    let avail = if ltb max_bytes (r.head - start) then max_bytes else r.head - start in
    some (
      if leb r.head at
      then ([], at)
      else if max_bytes == 0
      then ([], at)
      else (copy_range r start avail, start + avail))

unfoldable pub close : RingBuffer → RingBuffer
close r = record r { closed = true; data_ = none; used = 0 }
