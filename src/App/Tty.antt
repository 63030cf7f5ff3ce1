-- ===== src/App/Tty.antt =====
-- The size of a terminal that several viewers share: `registerTTYClient`, `unregisterTTYClient`,
-- `updateTTYClientSize`, `recomputeTTYSizeLocked` and `applyTTYSize`. A viewer's channel holds one
-- size. The calls that follow the lock are taken in one step with it.
pub mod Smallest
pub mod Shared
use myworktree.Prelude.{
  ℕ, zero, suc, ◌+◌, ◌≤◌, Bool, true, false, not, ◌&&◌, Option, none, some, String, List, [], ◌∷◌,
  Assoc, lookup, insert, remove, leb, ltb, ◌==◌, length, if◌then◌else◌, show_nat, min,
}

abbrev pub max_tty_clients_per_instance : ℕ
max_tty_clients_per_instance = 8

pub record TtySize : Type 0 where
  pub cols : ℕ
  pub rows : ℕ

-- `size` is `none` while `hasSize` is false.
pub record TtyClientState : Type 0 where
  pub size : Option TtySize
  pub updates : Option TtySize

pub record Server : Type 0 where
  pub tty_clients : Assoc (Assoc TtyClientState)
  pub tty_applied : Assoc TtySize
  pub tty_next_id : ℕ

abbrev pub or_no_clients : Option (Assoc TtyClientState) → Assoc TtyClientState
or_no_clients none = []
or_no_clients (some m) = m

-- `s.ttyClients[instanceID]`
abbrev pub clients_of : String → Server → Assoc TtyClientState
clients_of id s = or_no_clients (lookup id s.tty_clients)

-- The client's id, or `none` where there are too many.
unfoldable pub register_tty_client : String → Server → Option String × Server
register_tty_client id s =
    let next = s.tty_next_id + 1 in
    let clients = clients_of id s in
    let fresh : TtyClientState = record { size = none; updates = lookup id s.tty_applied } in
    if leb max_tty_clients_per_instance (length clients)
    then (none, record s { tty_next_id = next; tty_clients = insert id clients s.tty_clients })
    else (
      some (show_nat next),
      record s {
        tty_next_id = next;
        tty_clients = insert id (insert (show_nat next) fresh clients) s.tty_clients;
      },
    )

abbrev pub smaller : TtySize → TtySize → TtySize
smaller a b = record {
  cols = if ltb a.cols b.cols then a.cols else b.cols;
  rows = if ltb a.rows b.rows then a.rows else b.rows;
}

abbrev pub merge : Option TtySize → Option TtySize → Option TtySize
merge none m = m
merge (some a) none = some a
merge (some a) (some b) = some (smaller a b)

-- the loop of `recomputeTTYSizeLocked`; the order of the map does not matter
unfoldable pub min_size : Assoc TtyClientState → Option TtySize
min_size [] = none
min_size ((name, client) ∷ rest) = merge client.size (min_size rest)

abbrev same_size : TtySize → TtySize → Bool
same_size a b = (a.cols == b.cols) && (a.rows == b.rows)

abbrev is_applied : Option TtySize → TtySize → Bool
is_applied none size = false
is_applied (some old) size = same_size old size

-- the notified channels: each holds the new size, an old one is dropped
notified : TtySize → Assoc TtyClientState → Assoc TtyClientState
notified size [] = []
notified size ((name, client) ∷ rest) =
    (name, record client { updates = some size }) ∷ notified size rest

-- `recomputeTTYSizeLocked` and then `applyTTYSize`; the size for `Resize`, if it is called
unfoldable pub recompute : String → Server → Option TtySize × Server
unfolding notified
recompute id s =
    let clients = clients_of id s in
    elim (min_size clients) [
      | none ↦ (none, record s { tty_applied = remove id s.tty_applied })
      | some size ↦ if is_applied (lookup id s.tty_applied) size then (none, s) else (
        (if ltb 0 size.cols && ltb 0 size.rows then some size else none),
        record s {
          tty_applied = insert id size s.tty_applied;
          tty_clients = insert id (notified size clients) s.tty_clients;
        },
      )
    ]

abbrev pub keep_clients :
    String → Assoc TtyClientState → Assoc (Assoc TtyClientState) → Assoc (Assoc TtyClientState)
keep_clients id [] m = remove id m
keep_clients id (c ∷ cs) m = insert id (c ∷ cs) m

unfoldable pub unregister_tty_client : String → String → Server → Option TtySize × Server
unregister_tty_client id client s =
    recompute id
      (record s { tty_clients = keep_clients id (remove client (clients_of id s)) s.tty_clients })

unfoldable pub update_tty_client_size : String → String → TtySize → Server → Option TtySize × Server
update_tty_client_size id client size s = elim (lookup client (clients_of id s)) [
  | none ↦ (none, s)
  | some state ↦ recompute id (record s {
    tty_clients =
        insert id (insert client (record state { size = some size }) (clients_of id s))
          s.tty_clients;
  })
]
