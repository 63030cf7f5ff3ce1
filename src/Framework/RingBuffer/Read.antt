-- ===== src/Framework/RingBuffer/Read.antt =====
-- What `Tail` and `ReadSince` return of the bytes that were written.
use native.Mathlib.Nat.{mod-lt}
use myworktree.Prelude.{
  ℕ, ◌+◌, ◌-◌, ◌%◌, ◌≤◌, ◌<◌, ◌≡◌, refl, some, [], ◌++◌, ltb, ◌==◌, if◌then◌else◌, length,
  get_elem?, take, drop, min, max, arith, ℤ, pos, pos_part, length-drop, length-take, length-append,
  get_elem?-drop, get_elem?-take, get_elem?-append, eq_of_get_elem?, take_all, drop_all, zero, suc,
}
use myworktree.Framework.RingBuffer.{Bytes, RingBuffer, cap_bytes, copy_range, tail, read_since}
use myworktree.Framework.RingBuffer.Holds.{Holds, round, mod-round}

-- the two reads of `copyRangeLocked`, round the end of the storage
abbrev gathered : Bytes → ℕ → ℕ → Bytes
gathered buf at n =
    let first = take n (drop at buf) in
    if ltb (length first) n then first ++ take (n - length first) buf else first

length-gathered :
    (buf : Bytes) (at n : ℕ) → at < length buf → n ≤ length buf → length (gathered buf at n) ≡ n
length-gathered buf at n h k =
    let first = take n (drop at buf) in
    ground (
      arith,
      length-take n (drop at buf),
      length-drop at buf,
      length-take (n - length first) buf,
      length-append first (take (n - length first) buf),
    )

get_elem?-gathered :
    (buf : Bytes) (at n i : ℕ)
    → at < length buf
    → n ≤ length buf
    → i < n
    → get_elem? (gathered buf at n) i ≡ get_elem? buf (round (length buf) at i)
get_elem?-gathered buf at n i h k lt =
    let first = take n (drop at buf) in
    ground (
      arith,
      length-take n (drop at buf),
      length-drop at buf,
      get_elem?-append first (take (n - length first) buf) i,
      get_elem?-take n (drop at buf) i,
      get_elem?-drop at buf i,
      get_elem?-take (n - length first) buf (i - length first),
    )

-- A range of offsets that the buffer still covers reads as those bytes of the stream.
copy_range_lem :
    {r : RingBuffer} {s : Bytes} (start n : ℕ)
    → Holds r s
    → start + n ≤ r.head
    → r.head ≤ start + r.used
    → copy_range r start n ≡ take n (drop start s)
unfolding copy_range
copy_range_lem {r} {s} start n h hi lo =
    let at = start % cap_bytes r in
    rw (h.stored) (
      eq_of_get_elem? (gathered h.buf at n) (take n (drop start s))
        (ground (
          arith,
          h.head_total,
          h.used_last,
          h.sized,
          mod-lt start h.cap_pos,
          length-gathered h.buf at n,
          length-take n (drop start s),
          length-drop start s,
        ))
        λ i lt. ground (
          arith,
          h.head_total,
          h.used_last,
          h.sized,
          h.cap_pos,
          mod-lt start h.cap_pos,
          length-gathered h.buf at n,
          get_elem?-gathered h.buf at n i,
          mod-round (cap_bytes r) start i,
          h.bytes (start + i),
          get_elem?-take n (drop start s) i,
          get_elem?-drop start s i,
        ))

take-min : (m : ℕ) (xs : Bytes) → take (min m (length xs)) xs ≡ take m xs
take-min m xs = ground (arith, take_all m xs, take_all (length xs) xs)

take-nil : (m : ℕ) → take {A = ℕ} m [] ≡ []
take-nil zero = refl
take-nil (suc m) = refl

-- the offset of the oldest byte that a buffer of `cap` bytes keeps of the stream
abbrev pub oldest : RingBuffer → Bytes → ℕ
oldest r s = length s - cap_bytes r

-- `Tail(n)` returns the last `n` bytes of the stream, or all that is kept, for any signed `n`,
-- and the end offset.
pub tail_lem :
    {r : RingBuffer} {s : Bytes} (n : ℤ)
    → Holds r s
    → tail r n ≡ (drop (max (length s - pos_part n) (oldest r s)) s, length s)
unfolding tail
tail_lem {r} {s} n h =
    let want = min (pos_part n) r.used in
    ground (
      arith,
      h.head_total,
      h.used_last,
      copy_range_lem (r.head - want) want h,
      take_all want (drop (r.head - want) s),
      length-drop (r.head - want) s,
      drop_all (max (length s - pos_part n) (oldest r s)) s,
    )

-- `ReadSince(since, maxBytes)` for `maxBytes ≥ 0` returns the bytes of the stream from the cursor,
-- or from the oldest byte kept if that is later, as many as asked for or as there are; a negative
-- cursor is read as 0, and the next cursor stands behind the bytes returned, or where it stood if
-- there are none.
pub read_since_lem :
    {r : RingBuffer} {s : Bytes} (since : ℤ) (m : ℕ)
    → Holds r s
    → let start = max (pos_part since) (oldest r s) in
      let text = take m (drop start s) in
      read_since r since (pos m)
      ≡ some (text, if length text == 0 then pos_part since else start + length text)
unfolding read_since
read_since_lem {r} {s} since m h =
    let start = max (pos_part since) (oldest r s) in
    let avail = min m (r.head - start) in
    ground (
      arith,
      h.head_total,
      h.used_last,
      h.cap_pos,
      copy_range_lem start avail h,
      take-min m (drop start s),
      length-take m (drop start s),
      length-drop start s,
      drop_all start s,
      take-nil m,
    )
