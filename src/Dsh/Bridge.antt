-- ===== src/Dsh/Bridge.antt =====
-- The connections of internal/instance/dsh_web/bridge.go: `serveDownlink`, `serveUplink` and `close`. A
-- connection is a serial number. What is done under the bridge's lock at once is one step; a `close` first
-- closes upstream, and takes the lock in a later step, and an uplink looks its connection up in one step and
-- uses it in a later one.
pub mod Live
pub mod Uplinks
mod Tests
use myworktree.Prelude.{
  ℕ, ◌+◌, Bool, true, false, not, ◌&&◌, Option, none, some, String, List, [], ◌∷◌, Assoc, lookup,
  insert, remove, ltb, leb, ◌==◌, length, if◌then◌else◌, all_codes,
}
use Prim.Native.String.{len}
use myworktree.Worktree.Porcelain.{Bytes}

abbrev pub max_bridge_body_bytes : ℕ
max_bridge_body_bytes = 4194304

abbrev is_conn_code : ℕ → Bool
is_conn_code c =
    if leb 48 c && leb c 57
    then true
    else if leb 65 c && leb c 90
    then true
    else if leb 97 c && leb c 122
    then true
    else if c == 95
    then true
    else c == 45

-- `^[A-Za-z0-9_-]{8,64}$`
unfoldable pub is_bridge_conn : String → Bool
unfolding all_codes
is_bridge_conn s = leb 8 (len s) && leb (len s) 64 && all_codes is_conn_code s

-- how far the `close` of a connection has come; it closes upstream first and then leaves the map
pub data CloseState : Type 0 where
  live closing closed : CloseState

-- `muxBridge`: the registered connections, the id that each serial was made for, its phase, and the serial of
-- the next one
pub record MuxBridge : Type 0 where
  pub conns : Assoc ℕ
  pub owner : ℕ → Option String
  pub phase : ℕ → CloseState
  pub next : ℕ

abbrev pub new_mux_bridge : MuxBridge
new_mux_bridge = record { conns = []; owner = λ s. none; phase = λ s. live; next = 0 }

-- the first part of `serveDownlink`: the older connection, which is then closed, is taken out
unfoldable pub take_over : String → MuxBridge → Option ℕ × MuxBridge
take_over id b = (lookup id b.conns, record b { conns = remove id b.conns })

-- its second part, when the dial has succeeded
unfoldable pub register_conn : String → MuxBridge → MuxBridge
register_conn id b = record {
  conns = insert id b.next b.conns;
  owner = λ s. if s == b.next then some id else b.owner s;
  phase = λ s. if s == b.next then live else b.phase s;
  next = b.next + 1;
}

abbrev pub in_phase : ℕ → CloseState → MuxBridge → MuxBridge
in_phase s p b = record b { phase = λ t. if t == s then p else b.phase t }

abbrev begin_from : ℕ → CloseState → MuxBridge → MuxBridge
begin_from s live b = in_phase s closing b
begin_from s closing b = b
begin_from s closed b = b

-- the first part of `close`, which only the first call does
unfoldable pub begin_close : ℕ → MuxBridge → MuxBridge
begin_close s b = begin_from s (b.phase s) b

abbrev pub is_registered : Option ℕ → ℕ → Bool
is_registered none s = false
is_registered (some t) s = t == s

-- the second part, under the lock, for a connection of this id: it leaves the map only if it is the one there
unfoldable pub leave_map : ℕ → Option String → MuxBridge → MuxBridge
leave_map s none b = b
leave_map s (some id) b = record (in_phase s closed b) {
  conns = if is_registered (lookup id b.conns) s then remove id b.conns else b.conns;
}

unfoldable pub end_from : ℕ → CloseState → MuxBridge → MuxBridge
unfolding leave_map
end_from s live b = b
end_from s closing b = leave_map s (b.owner s) b
end_from s closed b = b

-- the second part of `close`, which follows the first one
unfoldable pub end_close : ℕ → MuxBridge → MuxBridge
unfolding end_from
end_close s b = end_from s (b.phase s) b

-- What an uplink's request holds: whether it closes, its body if that can be read, whether it is base64 with
-- what that decodes to, and whether upstream takes the write.
pub record Uplink : Type 0 where
  pub closes : Bool
  pub body : Option Bytes
  pub is_binary : Bool
  pub decoded : Option Bytes
  pub taken : Bool

-- the status, and what was written to which connection, as a binary message or as a text
pub record UplinkReply : Type 0 where
  pub status : ℕ
  pub sent : Option (ℕ × Bool × Bytes)
  pub bridge : MuxBridge

abbrev pub refused : ℕ → MuxBridge → UplinkReply
refused status b = record { status = status; sent = none; bridge = b }

abbrev pub takes_writes : CloseState → Bool
takes_writes live = true
takes_writes closing = false
takes_writes closed = false

-- A write upstream fails if upstream is closed.
abbrev pub write_up : ℕ → Bool → Bytes → Uplink → MuxBridge → UplinkReply
write_up s is_binary payload u b =
    if u.taken && takes_writes (b.phase s)
    then record { status = 202; sent = some (s, is_binary, payload); bridge = b }
    else refused 409 (begin_close s b)

-- `serveUplink` behind its lookup, for the connection that it has found; a `close` that it calls begins here
unfoldable pub uplink_to : ℕ → Uplink → MuxBridge → UplinkReply
unfolding begin_close
uplink_to s u b = if u.closes then refused 202 (begin_close s b) else elim u.body [
  | none ↦ refused 400 b
  | some body ↦
      if ltb max_bridge_body_bytes (length body)
      then refused 413 b
      else if u.is_binary
      then elim u.decoded [ none ↦ refused 400 b | some payload ↦ write_up s true payload u b ]
      else write_up s false body u b
]

-- with what the lookup has found
unfoldable pub uplink_at : Option ℕ → Uplink → MuxBridge → UplinkReply
unfolding uplink_to
uplink_at none u b = refused 409 b
uplink_at (some s) u b = uplink_to s u b

-- the lookup of `serveUplink`
abbrev pub look_up : String → MuxBridge → Option ℕ
look_up id b = lookup id b.conns
