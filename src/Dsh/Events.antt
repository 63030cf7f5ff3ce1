-- ===== src/Dsh/Events.antt =====
-- The events of internal/instance/dsh_web/bridge.go: what `pump`, `keepAlive` and `serveDownlink` write to
-- the browser, on bytes.
pub mod Client
pub mod Delivered
mod Tests
use myworktree.Prelude.{
  ℕ, ◌+◌, ◌*◌, ◌-◌, ◌/◌, ◌%◌, Bool, true, false, Option, none, some, List, [], ◌∷◌, ◌++◌, leb, ltb,
  ◌==◌, if◌then◌else◌, get_elem?, length,
}
use myworktree.Worktree.Porcelain.{Bytes, split_lines, decimal}

-- one character of base64 (`StdEncoding`)
abbrev pub base64_char : ℕ → ℕ
base64_char n =
    if ltb n 26
    then 65 + n
    else if ltb n 52
    then 71 + n
    else if ltb n 62
    then n - 4
    else if n == 62
    then 43
    else 47

-- `EncodeToString`: three bytes are four characters, and the last ones are padded.
unfoldable pub base64 : Bytes → Bytes
base64 [] = []
base64 (a ∷ []) = base64_char (a / 4) ∷ base64_char (a % 4 * 16) ∷ 61 ∷ 61 ∷ []
base64 (a ∷ b ∷ []) =
    base64_char (a / 4) ∷ base64_char (a % 4 * 16 + b / 16) ∷ base64_char (b % 16 * 4) ∷ 61 ∷ []
base64 (a ∷ b ∷ c ∷ s) =
    base64_char (a / 4)
    ∷ base64_char (a % 4 * 16 + b / 16)
    ∷ base64_char (b % 16 * 4 + c / 64)
    ∷ base64_char (c % 64)
    ∷ base64 s

-- "data: "
abbrev pub data_field : Bytes
data_field = 100 ∷ 97 ∷ 116 ∷ 97 ∷ 58 ∷ 32 ∷ []

-- `strings.Join(lines, "\ndata: ")` behind "data: "
unfoldable pub data_lines : List Bytes → Bytes
data_lines [] = data_field
data_lines (l ∷ []) = data_field ++ l
data_lines (l ∷ m ∷ ls) = data_field ++ (l ++ (10 ∷ data_lines (m ∷ ls)))

-- "event: "
abbrev pub event_field : Bytes
event_field = 101 ∷ 118 ∷ 101 ∷ 110 ∷ 116 ∷ 58 ∷ 32 ∷ []

-- "event: name\ndata: body\n\n"
abbrev pub named_event : Bytes → Bytes → Bytes
named_event name body = event_field ++ (name ++ (10 ∷ data_field ++ (body ++ (10 ∷ 10 ∷ []))))

-- "{\"code\":%d}"
abbrev pub code_body : ℕ → Bytes
code_body code = (123 ∷ 34 ∷ 99 ∷ 111 ∷ 100 ∷ 101 ∷ 34 ∷ 58 ∷ []) ++ (decimal code ++ (125 ∷ []))

-- What is written: the opening, a message from upstream (text or binary), the end of the connection with
-- its code, and the comment that keeps it alive.
pub data Write : Type 0 where
  opened : Write
  text : Bytes → Write
  binary : Bytes → Write
  closed : ℕ → Write
  keep_alive : Write

unfoldable pub event_of : Write → Bytes
event_of opened = named_event (111 ∷ 112 ∷ 101 ∷ 110 ∷ []) (123 ∷ 125 ∷ [])
event_of (text payload) = data_lines (split_lines payload) ++ (10 ∷ 10 ∷ [])
event_of (binary payload) = named_event (98 ∷ 105 ∷ 110 ∷ []) (base64 payload)
event_of (closed code) = named_event (99 ∷ 108 ∷ 111 ∷ 115 ∷ 101 ∷ []) (code_body code)
event_of keep_alive = 58 ∷ 32 ∷ 107 ∷ 97 ∷ 10 ∷ 10 ∷ []

-- the code of a close frame: its first two bytes, or 1000
unfoldable pub close_code : Bytes → ℕ
close_code (a ∷ b ∷ rest) = a * 256 + b
close_code _ = 1000

-- what `pump` does with a message: it writes an event, answers a ping, ends, or passes over it
pub data Pumped : Type 0 where
  written : Write → Pumped
  ponged : Bytes → Pumped
  ended : Write → Pumped
  passed : Pumped

unfoldable pub pumped : ℕ → Bytes → Pumped
pumped opcode payload =
    if opcode == 9
    then ponged payload
    else if opcode == 8
    then ended (closed (close_code payload))
    else if opcode == 2
    then written (binary payload)
    else if opcode == 1
    then written (text payload)
    else passed

-- the bytes of a run of writes
unfoldable pub stream : List Write → Bytes
stream [] = []
stream (w ∷ ws) = event_of w ++ stream ws
