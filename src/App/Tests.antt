-- ===== src/App/Tests.antt =====
-- A shared terminal at concrete inputs.
mod Handshake
use myworktree.Prelude.{
  ◌≤◌, ◌≡◌, refl, none, some, [], ◌∷◌, lookup, insert, remove, show_nat, arith,
}
use myworktree.App.Tty.{
  recompute, TtySize, TtyClientState, Server, min_size, register_tty_client, unregister_tty_client,
  update_tty_client_size,
}
use myworktree.App.Tty.Shared.{IsShared, AreMinima, AreMinima-IsShared, update-IsShared}

abbrev wide : TtySize
wide = record { cols = 120; rows = 30 }

abbrev viewer : TtyClientState
viewer = record { size = some wide; updates = none }

-- one viewer of the instance "i", whose size is applied
abbrev server : Server
server = record {
  tty_clients = ("i", ("1", viewer) ∷ []) ∷ [];
  tty_applied = ("i", wide) ∷ [];
  tty_next_id = 1;
}

server-IsShared : IsShared server
unfolding AreMinima lookup min_size
server-IsShared = AreMinima-IsShared server (λ id. ground arith)

two_viewers :
    (update_tty_client_size "i" "2"
      (record { cols = 80; rows = 50 })
      (register_tty_client "i" server).1).0
    ≡ some (record { cols = 80; rows = 30 })
unfolding update_tty_client_size register_tty_client lookup insert remove show_nat min_size
    recompute
two_viewers = refl

update-IsShared_example : IsShared (update_tty_client_size "i" "1" wide server).1
update-IsShared_example = update-IsShared "i" "1" wide server server-IsShared
