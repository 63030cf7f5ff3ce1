-- ===== src/App/Stream.antt =====
-- internal/app/app.go: `handleInstanceLogStream`, which sends the output of an instance as server-sent
-- events, from the offset that the client asks for.
pub mod Contiguous
mod Tests
use myworktree.Prelude.{
  ℕ, zero, suc, ◌+◌, ◌-◌, Bool, true, false, Option, none, some, String, List, [], ◌∷◌, ◌++◌, ℤ,
  pos, is_neg, ◌==◌, if◌then◌else◌,
}
use myworktree.Framework.RingBuffer.{Bytes}
use myworktree.Framework.Kind.{LogRead}
use myworktree.App.Handshake.{Log, chunk_bytes, is_follow_live_end}

-- an event with a chunk and the offset behind it, or the comment for a tick without output
pub data SseEvent : Type 0 where
  log_event : Bytes → ℤ → SseEvent
  ping : SseEvent

-- What a tick does with its read, at this cursor, on a connection that still takes `up` writes; `next` goes
-- on with the loop. The error of a ping's write is passed over.
unfoldable pub after_tick : (ℤ → ℕ → List SseEvent) → ℤ → ℕ → LogRead → List SseEvent
after_tick next cursor up r = elim r.log_error [
  | some e ↦ []
  | none ↦ elim r.body [
    | [] ↦ elim up [ zero ↦ next cursor zero | suc left ↦ ping ∷ next cursor left ]
    | b ∷ bs ↦ elim up [ zero ↦ [] | suc left ↦ log_event (b ∷ bs) r.offset ∷ next r.offset left ]
  ]
]

-- The loop: the number of ticks before the client goes away, the reads made, the cursor, and the number of
-- writes that the connection still takes.
unfoldable pub poll : Log → ℕ → ℕ → ℤ → ℕ → List SseEvent
unfolding after_tick
poll log zero reads cursor up = []
poll log (suc ticks) reads cursor up =
    after_tick (poll log ticks (suc reads)) cursor up (log.read_at reads cursor (pos chunk_bytes))

-- the first read: the end of the log without text, its tail, or what follows the offset
unfoldable pub first_read : Log → ℤ → LogRead
first_read log since =
    if is_follow_live_end since
    then record { body = []; offset = pos (log.end_at 0).0; log_error = (log.end_at 0).1 }
    else if is_neg since
    then log.tail_at 0 (pos chunk_bytes)
    else log.read_at 0 since (pos chunk_bytes)

pub data Streamed : Type 0 where
  bad_request : String → Streamed
  streamed : List SseEvent → Streamed

-- the reply to a request whose first read gives this
unfoldable pub replied : Log → ℕ → ℕ → LogRead → Streamed
unfolding poll
replied log ticks up r = elim r.log_error [
  | some e ↦ bad_request e
  | none ↦ streamed (elim up [
    | zero ↦ []
    | suc left ↦ log_event r.body r.offset ∷ poll log ticks 1 r.offset left
  ])
]

unfoldable pub handle_instance_log_stream : Log → ℤ → ℕ → ℕ → Streamed
unfolding replied first_read
handle_instance_log_stream log since ticks up = replied log ticks up (first_read log since)
