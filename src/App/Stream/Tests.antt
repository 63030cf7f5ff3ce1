-- ===== src/App/Stream/Tests.antt =====
-- A log stream at concrete inputs.
use myworktree.Prelude.{ℕ, ◌+◌, ◌-◌, ◌*◌, ◌≤◌, ◌≡◌, refl, none, List, pos, pos_part, arith, min}
use myworktree.App.Handshake.{Log, chunk_bytes}
use myworktree.App.Handshake.Wire.{slice, Faithful}
use myworktree.App.Stream.{SseEvent, streamed, handle_instance_log_stream}
use myworktree.App.Stream.Contiguous.{Contiguous, reached, handle_instance_log_stream-Contiguous}

abbrev out : ℕ → ℕ
out n = n

-- a log of ten bytes
abbrev log : Log
log = record {
  end_at = λ n. (10, none);
  tail_at = λ n size. record { body = slice out 0 10; offset = pos 10; log_error = none };
  read_at = λ n since size. record {
    body = slice out (pos_part since) (min (pos_part size) (10 - pos_part since));
    offset = pos (pos_part since + min (pos_part size) (10 - pos_part since));
    log_error = none;
  };
}

log_faithful : Faithful log out (λ n. 10) 3
log_faithful = record {
  grows = λ n. omega arith;
  reads = λ n cursor le. refl;
  tails = λ n. (refl, refl);
}

handle_instance_log_stream-Contiguous_example :
    (es : List SseEvent) × (handle_instance_log_stream log (pos 3) 2 5 ≡ streamed es)
    × Contiguous out 3 es
    × (3 ≤ 5 → min 10 (3 + 3 * chunk_bytes) ≤ reached 3 es)
handle_instance_log_stream-Contiguous_example =
    handle_instance_log_stream-Contiguous log out (λ n. 10) 3 2 5 log_faithful
