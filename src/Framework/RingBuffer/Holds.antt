-- ===== src/Framework/RingBuffer/Holds.antt =====
-- What a ring buffer holds: the last `cap` bytes of all that was written to it.
use myworktree.Prelude.{
  ℕ, ◌+◌, ◌-◌, ◌%◌, ◌≤◌, ◌<◌, ◌⊎◌, ◌≡◌, refl, false, some, [], ◌∷◌, ◌++◌, ltb, if◌then◌else◌,
  length, get_elem?, drop, copy_at, min, arith, get_elem?-copy_at, get_elem?-drop, get_elem?-append,
  length-copy_at, length-drop, length-append,
}
use mathlib.Core.List.{append-nil}
use native.Mathlib.Nat.{mod-add-mod, mod-lt, mod-eq_of_lt, mod-eq-sub-mod}
use myworktree.Framework.RingBuffer.{Bytes, RingBuffer, cap_bytes, copy_round, write}

-- the index `i` places on from `at`, going round at `cap`
abbrev pub round : ℕ → ℕ → ℕ → ℕ
round cap at i = if ltb (at + i) cap then at + i else at + i - cap

length-copy_round : (buf : Bytes) (at : ℕ) (w : Bytes) → length (copy_round buf at w) ≡ length buf
unfolding copy_round
length-copy_round buf at w = ground (
  arith,
  length-copy_at at buf w,
  length-copy_at 0 (copy_at at buf w) (drop (min (length buf - at) (length w)) w),
)

-- After the two copies the place `i` on from `at` has byte `i` of `w`, and past `w` what it had.
get_elem?-copy_round :
    (buf : Bytes) (at : ℕ) (w : Bytes) (i : ℕ)
    → at < length buf
    → length w ≤ length buf
    → i < length buf
    → get_elem? (copy_round buf at w) (round (length buf) at i)
      ≡ (if ltb i (length w) then get_elem? w i else get_elem? buf (round (length buf) at i))
unfolding copy_round
get_elem?-copy_round buf at w i h k l =
    let n = min (length buf - at) (length w) in
    let j = round (length buf) at i in
    ground (
      arith,
      length-copy_at at buf w,
      length-drop n w,
      get_elem?-copy_at at buf w j,
      get_elem?-copy_at 0 (copy_at at buf w) (drop n w) j,
      get_elem?-drop n w j,
    )

pub mod-round : (cap q i : ℕ) → 0 < cap → i < cap → (q + i) % cap ≡ round cap (q % cap) i
mod-round cap q i h k = ground (
  arith,
  mod-add-mod q cap i,
  mod-lt q h,
  mod-eq_of_lt {n = q % cap + i} {m = cap},
  mod-eq-sub-mod {n = q % cap + i} {m = cap},
  mod-eq_of_lt {n = q % cap + i - cap} {m = cap},
)

-- The buffer is open, and for the bytes `s` written so far it has the last `cap` of them, each at
-- its offset modulo `cap`.
pub record Holds (r : RingBuffer) (s : Bytes) : Type 0 where
  pub buf : Bytes
  pub stored : r.data_ ≡ some buf
  pub is_open : r.closed ≡ false
  pub cap_pos : 0 < cap_bytes r
  pub sized : length buf ≡ cap_bytes r
  pub head_total : r.head ≡ length s
  pub used_last : r.used ≡ min (cap_bytes r) (length s)
  pub bytes :
      (k : ℕ) → k < r.head → r.head ≤ k + r.used → get_elem? buf (k % cap_bytes r) ≡ get_elem? s k

-- `src` written at the offset `head` of a buffer that holds `s`, of which the code keeps what
-- stands from `start` on.
module _ (buf s src : Bytes) (head start : ℕ) (total : head ≡ length s)
    (fits : length src ≤ start + length buf) (part : start ≤ length src) where
  abbrev written : Bytes
  written = copy_round buf ((head + start) % length buf) (drop start src)

  new_byte :
      (i : ℕ)
      → i + start < length src
      → get_elem? written ((head + start + i) % length buf)
        ≡ get_elem? (s ++ src) (head + start + i)
  new_byte i lt = ground (
    arith,
    total,
    fits,
    mod-round (length buf) (head + start) i,
    mod-lt (head + start) {m = length buf},
    length-drop start src,
    get_elem?-copy_round buf ((head + start) % length buf) (drop start src) i,
    get_elem?-drop start src i,
    get_elem?-append s src (head + start + i),
  )

  old_byte :
      (k : ℕ)
      → k < head + start
      → head + length src ≤ k + length buf
      → get_elem? written (k % length buf) ≡ get_elem? buf (k % length buf)
  old_byte k lt le =
      let i = k + length buf - (head + start) in
      ground (
        arith,
        total,
        fits,
        part,
        mod-round (length buf) (head + start) i,
        mod-lt (head + start) {m = length buf},
        mod-eq-sub-mod {n = k + length buf} {m = length buf},
        length-drop start src,
        get_elem?-copy_round buf ((head + start) % length buf) (drop start src) i,
      )

  -- every offset that the buffer still covers after the write
  covered :
      (k : ℕ)
      → k < head + length src
      → head + length src ≤ k + length buf
      → (start ≡ 0) ⊎ (length src ≡ start + length buf)
      → (k < head → get_elem? buf (k % length buf) ≡ get_elem? s k)
      → get_elem? written (k % length buf) ≡ get_elem? (s ++ src) k
  covered k lt le exact old = ground (
    arith,
    total,
    fits,
    part,
    new_byte (k - (head + start)),
    old_byte k,
    get_elem?-append s src k,
  )

-- A write to a buffer that holds `s` returns the number of bytes written, and leaves it holding
-- `s` followed by them.
pub write-Holds :
    {r : RingBuffer} {s : Bytes} (src : Bytes)
    → Holds r s
    → Holds (write r src).0 (s ++ src) × ((write r src).1 ≡ length src)
unfolding write
write-Holds {r} {s} [] h = (rw append-nil h, refl)
write-Holds {r} {s} (b ∷ bs) h =
    let src : Bytes = b ∷ bs in
    let cap = cap_bytes r in
    let start = if ltb cap (length src) then length src - cap else 0 in
    let at = (r.head + start) % cap in
    (
      record {
        buf = copy_round h.buf at (drop start src);
        stored = ground (arith, h.stored, h.is_open, h.cap_pos);
        is_open = ground (arith, h.is_open);
        cap_pos = ground (arith, h.is_open, h.cap_pos);
        sized = ground (arith, h.is_open, h.sized, length-copy_round h.buf at (drop start src));
        head_total = ground (arith, h.is_open, h.head_total, length-append s src);
        used_last = ground (arith, h.is_open, h.cap_pos, h.used_last, length-append s src);
        bytes = λ k. ground (
          arith,
          h.is_open,
          h.sized,
          h.head_total,
          h.used_last,
          h.cap_pos,
          h.bytes k,
          covered h.buf s src r.head start h.head_total (ground (arith, h.sized)) (ground arith) k,
        );
      },
      ground (arith, h.is_open),
    )
