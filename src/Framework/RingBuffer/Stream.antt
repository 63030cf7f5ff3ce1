-- ===== src/Framework/RingBuffer/Stream.antt =====
-- A buffer over its life: created, written to, polled by a reader, closed.
use mathlib.Core.Option
use mathlib.Core.List.{append_assoc, append-nil}
use myworktree.Prelude.{
  ℕ, zero, suc, ◌+◌, ◌≤◌, ◌<◌, ◌≡◌, refl, some, List, [], ◌∷◌, ◌++◌, length, take, drop, arith, ℤ,
  pos, replicate, length-replicate, ap, sym,
}
use native.Mathlib.Nat.{zero-add, suc-add}
use myworktree.Framework.RingBuffer.{
  Bytes, RingBuffer, new_ring_buffer, tail, read_since, write, close, copy_range,
}
use myworktree.Framework.RingBuffer.Holds.{Holds, write-Holds}
use myworktree.Framework.RingBuffer.Read.{oldest, read_since_lem}

new_ring_buffer-Holds : (cap : ℕ) → 0 < cap → Holds (new_ring_buffer (pos cap)) []
unfolding new_ring_buffer
new_ring_buffer-Holds cap h = record {
  buf = replicate cap 0;
  stored = ground arith;
  is_open = refl;
  cap_pos = h;
  sized = length-replicate cap 0;
  head_total = refl;
  used_last = omega arith;
  bytes = λ k lt le. absurd (omega arith);
}

-- the calls of `Write` in order
unfoldable pub write_all : RingBuffer → List Bytes → RingBuffer
write_all r [] = r
write_all r (p ∷ ps) = write_all (write r p).0 ps

abbrev pub concat : List Bytes → Bytes
concat [] = []
concat (p ∷ ps) = p ++ concat ps

write_all-Holds :
    (ps : List Bytes) {r : RingBuffer} {s : Bytes}
    → Holds r s
    → Holds (write_all r ps) (s ++ concat ps)
unfolding write_all
write_all-Holds [] h = rw append-nil h
write_all-Holds (p ∷ ps) {r} {s} h = rw (← append_assoc) (write_all-Holds ps (write-Holds p h).0)

-- A new buffer of positive size, after any writes, holds the concatenation of what was written.
pub write_all_from_new :
    (cap : ℕ) (ps : List Bytes)
    → 0 < cap
    → Holds (write_all (new_ring_buffer (pos cap)) ps) (concat ps)
write_all_from_new cap ps h = write_all-Holds ps (new_ring_buffer-Holds cap h)

take-length-take : (n : ℕ) (u : Bytes) → take (length (take n u)) u ≡ take n u
take-length-take zero u = refl
take-length-take (suc n) [] = refl
take-length-take (suc n) (x ∷ u) = ap (λ l. x ∷ l) (take-length-take n u)

drop-append_le : (c : ℕ) (s t : Bytes) → c ≤ length s → drop c (s ++ t) ≡ drop c s ++ t
drop-append_le zero s t h = refl
drop-append_le (suc c) [] t h = absurd (omega arith)
drop-append_le (suc c) (x ∷ s) t h = drop-append_le c s t (omega arith)

drop-drop : (c n : ℕ) (u : Bytes) → drop (c + n) u ≡ drop n (drop c u)
drop-drop zero n u = ap (λ k. drop k u) (omega arith)
drop-drop (suc c) zero [] = rw suc-add
drop-drop (suc c) (suc n) [] = rw suc-add
drop-drop (suc c) n (x ∷ u) = rw suc-add (drop-drop c n u)

take-take_rest :
    (m k : ℕ) (a t : Bytes)
    → let x = take m a in
      let y = take k (drop (length x) (a ++ t)) in x ++ y ≡ take (length x + length y) (a ++ t)
take-take_rest zero k a t = rw zero-add (sym (take-length-take k (a ++ t)))
take-take_rest (suc m) k [] t = rw zero-add (sym (take-length-take k t))
take-take_rest (suc m) k (b ∷ a) t = rw suc-add (ap (λ l. b ∷ l) (take-take_rest m k a t))

-- A reader polls twice, and other writes `t` come in between. If no poll comes after its cursor has
-- been overwritten, the two texts make up the stream from the first cursor on, with no byte lost or
-- repeated, and the last cursor stands behind them.
pub poll_contiguous :
    {r r' : RingBuffer} {s : Bytes} (t : Bytes) {x y : Bytes} {c c' c'' : ℕ} (m m' : ℕ)
    → Holds r s
    → Holds r' (s ++ t)
    → oldest r s ≤ c
    → c ≤ length s
    → read_since r (pos c) (pos m) ≡ some (x, c')
    → oldest r' (s ++ t) ≤ c'
    → read_since r' (pos c') (pos m') ≡ some (y, c'')
    → (x ++ y ≡ take (length x + length y) (drop c (s ++ t))) × (c'' ≡ c + length x + length y)
poll_contiguous {r} {r'} {s} t {x} {y} {c} {c'} m m' h h' lo hi e lo' e' = ground (
  arith,
  read_since_lem (pos c) m h,
  read_since_lem (pos c') m' h',
  drop-append_le c s t,
  drop-drop c (length x) (s ++ t),
  take-take_rest m m' (drop c s) t,
)

-- After `Close`, writes are dropped and report 0 bytes, reads return no text, the offset stays the
-- last head, and a second `Close` changes nothing.
pub close_lem :
    (r : RingBuffer) (p : Bytes) (n since : ℤ) (m : ℕ)
    → (write (close r) p ≡ (close r, 0))
      × (tail (close r) n ≡ ([], r.head))
      × (Option.map (λ a. a.0) (read_since (close r) since (pos m)) ≡ some [])
      × (close (close r) ≡ close r)
unfolding write close tail read_since copy_range
close_lem r [] n since m = (refl, ground arith, ground arith, refl)
close_lem r (b ∷ bs) n since m = (refl, ground arith, ground arith, refl)
