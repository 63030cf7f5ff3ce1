-- ===== src/App/Handshake/Rings.antt =====
-- The log of a terminal instance is faithful, as long as its ring buffer has not overwritten the cursor.
use myworktree.Prelude.{
  ℕ, zero, suc, ◌+◌, ◌-◌, ◌≤◌, ◌≡◌, refl, ap, ap₂, ◌∙◌, Option, none, some, String, ◌∷◌, ℤ, pos,
  negsuc, arith, if◌then◌else◌, length, take, drop, min, max, lookup, ◌==◌,
}
use myworktree.Framework.RingBuffer.{RingBuffer, Bytes, cap_bytes}
use myworktree.Framework.RingBuffer.Holds.{Holds}
use myworktree.Framework.RingBuffer.Read.{tail_lem, read_since_lem, oldest}
use myworktree.Framework.Kind.{Kind, get_kind}
use myworktree.Framework.Manager.{Manager, RunningInstance}
use myworktree.Framework.Manager.Config.{Config}
use myworktree.Framework.Manager.Logs.{tail_log, read_log_since, clamp}
use myworktree.Pty.{read_logs}
use myworktree.App.Handshake.{manager_log, chunk_bytes}
use myworktree.App.Handshake.Wire.{slice, length-slice, Faithful}
use myworktree.Prelude.{length-drop}

drop-slice :
    (out : ℕ → ℕ) (n from count : ℕ)
    → drop n (slice out from count) ≡ slice out (from + n) (count - n)
drop-slice out zero from count =
    let start : from ≡ from + 0 = omega arith in
    let all : count ≡ count - 0 = omega arith in ap₂ (slice out) start all
drop-slice out (suc n) from zero =
    let nothing : 0 ≡ 0 - suc n = omega arith in ap (slice out (from + suc n)) nothing
drop-slice out (suc n) from (suc count) =
    let start : suc from + n ≡ from + suc n = omega arith in
    let rest : count - n ≡ suc count - suc n = omega arith in
    drop-slice out n (suc from) count ∙ ap₂ (slice out) start rest

take-slice :
    (out : ℕ → ℕ) (n from count : ℕ) → take n (slice out from count) ≡ slice out from (min n count)
take-slice out zero from count =
    let nothing : 0 ≡ min 0 count = omega arith in ap (slice out from) nothing
take-slice out (suc n) from zero =
    let nothing : 0 ≡ min (suc n) 0 = omega arith in ap (slice out from) nothing
take-slice out (suc n) from (suc count) =
    let least : suc (min n count) ≡ min (suc n) (suc count) = omega arith in
    ap (λ l. out from ∷ l) (take-slice out n (suc from) count) ∙ ap (slice out from) least

-- A running instance of a kind that reads the ring buffer of its handle, at each read of the handshake.
pub record Ringed {W : Type 0} (c : Config W) (id : String) (states : ℕ → Manager W)
    (ring : ℕ → RingBuffer) (out head : ℕ → ℕ) (since : ℕ) : Type 0 where
  pub handle : RunningInstance
  pub kind : Kind W
  pub running : (n : ℕ) → lookup id (states n).running ≡ some handle
  pub registered : get_kind handle.handle.kind_name c.registry ≡ some kind
  pub reads :
      (n : ℕ) (from size : ℤ)
      → kind.read_logs handle.handle from size (states n).world
        ≡ read_logs (some (ring n)) from size
  pub holds : (n : ℕ) → Holds (ring n) (slice out 0 (head n))
  pub grows : (n : ℕ) → head n ≤ head (suc n)
  pub kept : (n : ℕ) → head n ≤ since + cap_bytes (ring n)

counted :
    {t u : Bytes} {start cursor count : ℕ}
    → t ≡ u
    → length u ≡ count
    → start ≡ cursor
    → ◌≡◌ {A = Option (Bytes × ℕ)}
        (some (t, if length t == 0 then cursor else start + length t))
        (some (u, cursor + count))
counted e l f = ground (arith, e, l, f)

ring_read :
    {r : RingBuffer} (out : ℕ → ℕ) (head cursor : ℕ)
    → Holds r (slice out 0 head)
    → head ≤ cursor + cap_bytes r
    → read_logs (some r) (pos cursor) (pos chunk_bytes) ≡ record {
      body = slice out cursor (min chunk_bytes (head - cursor));
      offset = pos (cursor + min chunk_bytes (head - cursor));
      log_error = none;
    }
unfolding read_logs
ring_read {r} out head cursor h k =
    let s = slice out 0 head in
    let size : length s ≡ head = length-slice out 0 head in
    let from : max cursor (oldest r s) ≡ cursor = omega (arith, size, k) in
    let at : 0 + cursor ≡ cursor = omega arith in
    let text : take chunk_bytes (drop cursor s)
        ≡ slice out cursor (min chunk_bytes (head - cursor)) =
      ap (take chunk_bytes)
        (drop-slice out cursor 0 head ∙ ap (λ x. slice out x (head - cursor)) at)
      ∙ take-slice out chunk_bytes cursor (head - cursor) in
    let whole : take chunk_bytes (drop (max cursor (oldest r s)) s)
        ≡ slice out cursor (min chunk_bytes (head - cursor)) =
      ap (λ x. take chunk_bytes (drop x s)) from ∙ text in
    let got =
      read_since_lem {r = r} (pos cursor) chunk_bytes h
      ∙ counted whole (length-slice out cursor (min chunk_bytes (head - cursor))) from in
    rw got refl

ring_tail :
    {r : RingBuffer} (out : ℕ → ℕ) (head : ℕ)
    → Holds r (slice out 0 head)
    → let t = read_logs (some r) (negsuc 0) (pos chunk_bytes) in
      (t.offset ≡ pos head) × (t.log_error ≡ none) × (length t.body ≤ head)
unfolding read_logs
ring_tail {r} out head h = ground (
  arith,
  tail_lem {r = r} (pos chunk_bytes) h,
  length-slice out 0 head,
  length-drop (max (length (slice out 0 head) - chunk_bytes) (oldest r (slice out 0 head)))
      (slice out 0 head),
)

-- A log is faithful to what the instance puts out if its ring buffer holds that at each read, and has not
-- overwritten the cursor.
pub Ringed-Faithful :
    {W : Type 0} (c : Config W) (id : String) (states : ℕ → Manager W) (ring : ℕ → RingBuffer)
    (out head : ℕ → ℕ) (since : ℕ)
    → Ringed c id states ring out head since
    → Faithful (manager_log c id states) out head since
unfolding tail_log read_log_since clamp
Ringed-Faithful c id states ring out head since r = record {
  grows = r.grows;
  reads = λ n cursor k.
      let at_ring =
        ring_read {r = ring n} out (head n) cursor (r.holds n) (omega (arith, r.kept n, k)) in
      ground (arith, r.running n, r.registered, r.reads n (pos cursor) (pos chunk_bytes), at_ring);
  tails = λ n. ground (
    arith,
    r.running n,
    r.registered,
    r.reads n (negsuc 0) (pos chunk_bytes),
    ring_tail {r = ring n} out (head n) (r.holds n),
  );
}
