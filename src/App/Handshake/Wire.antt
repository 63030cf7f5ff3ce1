-- ===== src/App/Handshake/Wire.antt =====
-- What the frames of a handshake carry, and what it relies on of the reads of the log.
use mathlib.Core.List.{append_assoc}
use myworktree.Prelude.{
  ℕ, zero, suc, ◌+◌, ◌-◌, ◌≤◌, ◌≡◌, refl, sym, ap, ap₂, ◌∙◌, none, List, [], ◌∷◌, ◌++◌, ℤ, pos,
  arith, length, min,
}
use myworktree.Framework.RingBuffer.{Bytes}
use myworktree.App.Handshake.{Log, Frame, start_sync, binary, sync, close_1013, chunk_bytes}

-- `count` bytes of the output from the offset `from` on
abbrev pub slice : (ℕ → ℕ) → ℕ → ℕ → Bytes
slice out from zero = []
slice out from (suc count) = out from ∷ slice out (suc from) count

-- the bytes of the log on the wire
abbrev pub payload : List Frame → Bytes
payload [] = []
payload (binary b ∷ fs) = b ++ payload fs
payload (f ∷ fs) = payload fs

-- the start offsets on the wire
abbrev pub starts : List Frame → List ℤ
starts [] = []
starts (start_sync z ∷ fs) = z ∷ starts fs
starts (f ∷ fs) = starts fs

pub length-slice : (out : ℕ → ℕ) (from count : ℕ) → length (slice out from count) ≡ count
length-slice out from zero = refl
length-slice out from (suc count) = ap suc (length-slice out (suc from) count)

pub slice-append :
    (out : ℕ → ℕ) (from a b : ℕ)
    → slice out from a ++ slice out (from + a) b ≡ slice out from (a + b)
slice-append out from zero b = ap₂ (slice out) (omega arith) (omega arith)
slice-append out from (suc a) b =
    let at : from + suc a ≡ suc from + a = omega arith in
    let all : suc (a + b) ≡ suc a + b = omega arith in
    ap (λ x. out from ∷ slice out (suc from) a ++ slice out x b) at
    ∙ ap (λ l. out from ∷ l) (slice-append out (suc from) a b)
    ∙ ap (slice out from) all

pub payload-append : (fs gs : List Frame) → payload (fs ++ gs) ≡ payload fs ++ payload gs
payload-append [] gs = refl
payload-append (binary b ∷ fs) gs =
    ap (λ x. b ++ x) (payload-append fs gs) ∙ sym (append_assoc b (payload fs) (payload gs))
payload-append (start_sync z ∷ fs) gs = payload-append fs gs
payload-append (sync z ∷ fs) gs = payload-append fs gs
payload-append (close_1013 e ∷ fs) gs = payload-append fs gs

pub starts-append : (fs gs : List Frame) → starts (fs ++ gs) ≡ starts fs ++ starts gs
starts-append [] gs = refl
starts-append (binary b ∷ fs) gs = starts-append fs gs
starts-append (start_sync z ∷ fs) gs = ap (λ x. z ∷ x) (starts-append fs gs)
starts-append (sync z ∷ fs) gs = starts-append fs gs
starts-append (close_1013 e ∷ fs) gs = starts-append fs gs

-- The reads of a log that puts out the bytes `out`, of which `head n` stand at read `n`, and which keeps
-- those from `since` on: each read gives the bytes at the cursor, as many as it may or as there are.
pub record Faithful (log : Log) (out head : ℕ → ℕ) (since : ℕ) : Type 0 where
  pub grows : (n : ℕ) → head n ≤ head (suc n)
  pub reads :
      (n cursor : ℕ)
      → since ≤ cursor
      → log.read_at n (pos cursor) (pos chunk_bytes) ≡ record {
        body = slice out cursor (min chunk_bytes (head n - cursor));
        offset = pos (cursor + min chunk_bytes (head n - cursor));
        log_error = none;
      }
  pub tails :
      (n : ℕ)
      → ((log.tail_at n (pos chunk_bytes)).offset ≡ pos (head n))
        × ((log.tail_at n (pos chunk_bytes)).log_error ≡ none)
