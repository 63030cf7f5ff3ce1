-- ===== src/App/Stream/Contiguous.antt =====
-- The events of a log stream carry the output, without a gap and without a repetition.
use myworktree.Prelude.{
  ℕ, zero, suc, ◌+◌, ◌-◌, ◌*◌, ◌≤◌, ◌≡◌, refl, sym, ap, subst, none, List, [], ◌∷◌, ℤ, pos, arith,
  length, min,
}
use myworktree.App.Handshake.{Log, chunk_bytes}
use myworktree.App.Handshake.Wire.{slice, length-slice, Faithful}
use myworktree.App.Stream.{
  SseEvent, log_event, ping, poll, after_tick, first_read, streamed, replied,
  handle_instance_log_stream,
}

-- Each event carries the bytes of the output from where the one before ended, and names its own end.
pub Contiguous : (ℕ → ℕ) → ℕ → List SseEvent → Type 0
Contiguous out from [] = Unit
Contiguous out from (ping ∷ es) = Contiguous out from es
Contiguous out from (log_event b z ∷ es) =
    (b ≡ slice out from (length b))
    × (z ≡ pos (from + length b))
    × Contiguous out (from + length b) es

-- the offset behind the last event
unfoldable pub reached : ℕ → List SseEvent → ℕ
reached from [] = from
reached from (ping ∷ es) = reached from es
reached from (log_event b z ∷ es) = reached (from + length b) es

Followed : (ℕ → ℕ) → ℕ → ℕ → ℕ → ℕ → List SseEvent → Type 0
Followed out until ticks up from es =
    Contiguous out from es × (ticks ≤ up → min until (from + ticks * chunk_bytes) ≤ reached from es)

-- An event in front of the events behind it.
Followed-event :
    (out : ℕ → ℕ) (until ticks up from m : ℕ) (es : List SseEvent)
    → min until (from + chunk_bytes) ≤ from + m
    → Followed out until ticks up (from + m) es
    → Followed out until
        (suc ticks)
        (suc up)
        from
        (log_event (slice out from m) (pos (from + m)) ∷ es)
unfolding Followed Contiguous reached
Followed-event out until ticks up from m es h (c, r) =
    let whole : m ≡ length (slice out from m) = sym (length-slice out from m) in
    (
      (
        ap (slice out from) whole,
        ap (λ k. pos (from + k)) whole,
        subst (λ k. Contiguous out (from + k) es) whole c,
      ),
      λ l.
          subst (λ k. min until (from + suc ticks * chunk_bytes) ≤ reached (from + k) es) whole
            (omega (arith, r (omega (arith, l)), h)),
    )

module _ {log : Log} {out head : ℕ → ℕ} {since : ℕ} (f : Faithful log out head since) where
  -- what a tick does where the read gives `m` bytes
  Followed-tick :
      (until ticks n from up m : ℕ) (next : ℤ → ℕ → List SseEvent)
      → until ≤ head n
      → min chunk_bytes (head n - from) ≡ m
      → ((at up' : ℕ) → from ≤ at → Followed out until ticks up' at (next (pos at) up'))
      → Followed out until (suc ticks) up from (
          after_tick next
            (pos from)
            up
            (record { body = slice out from m; offset = pos (from + m); log_error = none }))
  unfolding Followed Contiguous reached after_tick
  Followed-tick until ticks n from zero zero next h e goes =
      ((goes from 0 (omega arith)).0, λ l. absurd (omega (arith, l)))
  Followed-tick until ticks n from (suc up) zero next h e goes =
      let (c, r) = goes from up (omega arith) in (c, λ l. omega (arith, r (omega (arith, l)), h, e))
  Followed-tick until ticks n from zero (suc m) next h e goes = (tt, λ l. absurd (omega (arith, l)))
  Followed-tick until ticks n from (suc up) (suc m) next h e goes =
      Followed-event out until ticks up from (suc m) (next (pos (from + suc m)) up)
        (omega (arith, h, e)) (goes (from + suc m) up (omega arith))

  poll-Followed :
      (until ticks n from up : ℕ)
      → since ≤ from
      → until ≤ head n
      → Followed out until ticks up from (poll log ticks n (pos from) up)
  unfolding poll Followed Contiguous reached
  poll-Followed until zero n from up le h = (tt, λ _. ground arith)
  poll-Followed until (suc ticks) n from up le h =
      subst
        (λ r.
          Followed out until (suc ticks) up from
            (after_tick (poll log ticks (suc n)) (pos from) up r))
        (sym (f.reads n from le))
        (Followed-tick until ticks n from up (min chunk_bytes (head n - from))
          (poll log ticks (suc n)) h refl
          (λ at up' l.
            poll-Followed until ticks (suc n) at up' (omega (arith, le, l))
              (omega (arith, h, f.grows n))))

-- The stream of a client that asks for the offset `from`, on a log that keeps what stands from there on:
-- the request is answered; the events carry the output from that offset, each from where the one before
-- ended; and if the connection takes them all, then after the first event and `ticks` ticks they have
-- reached all that stood at the first read, or 64 KiB for the first read and each tick.
pub handle_instance_log_stream-Contiguous :
    (log : Log) (out head : ℕ → ℕ) (from ticks up : ℕ)
    → Faithful log out head from
    → (es : List SseEvent) × (handle_instance_log_stream log (pos from) ticks up ≡ streamed es)
      × Contiguous out from es
      × (suc ticks ≤ up → min (head 0) (from + suc ticks * chunk_bytes) ≤ reached from es)
unfolding handle_instance_log_stream replied first_read Followed Contiguous
handle_instance_log_stream-Contiguous log out head from ticks zero f = (
  [],
  ap (replied log ticks 0) (f.reads 0 from (omega arith)),
  tt,
  λ l. absurd (omega (arith, l)),
)
handle_instance_log_stream-Contiguous log out head from ticks (suc up) f =
    let m = min chunk_bytes (head 0 - from) in
    let es = poll log ticks 1 (pos (from + m)) up in
    let (c, r) =
      Followed-event out (head 0) ticks up from m es (omega arith)
        (poll-Followed f (head 0) ticks 1 (from + m) up (omega arith) (f.grows 0)) in
    (
      log_event (slice out from m) (pos (from + m)) ∷ es,
      ap (replied log ticks (suc up)) (f.reads 0 from (omega arith)),
      c,
      r,
    )
