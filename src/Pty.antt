-- ===== src/Pty.antt =====
-- internal/instance/pty/driver.go: how the terminal kind reads the log of an instance.
pub mod FanOut
use myworktree.Prelude.{Option, none, some, ℤ, pos, [], is_neg, if◌then◌else◌}
use myworktree.Framework.RingBuffer.{RingBuffer, tail, read_since}
use myworktree.Framework.Kind.{LogRead}

-- `ReadLogs` on the buffer that the handle has. With an error of `ReadSince` the cursor is what that
-- returns, the one that was asked for.
unfoldable pub read_logs : Option RingBuffer → ℤ → ℤ → LogRead
read_logs buf since max_bytes = elim buf [
  | none ↦ record { body = []; offset = since; log_error = none }
  | some r ↦
      if is_neg since
      then (let t = tail r max_bytes in record { body = t.0; offset = pos t.1; log_error = none })
      else elim (read_since r since max_bytes) [
        | none ↦ record { body = []; offset = since; log_error = some "maxBytes must be >= 0" }
        | some t ↦ record { body = t.0; offset = pos t.1; log_error = none }
      ]
]
