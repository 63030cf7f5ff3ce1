-- ===== src/Dsh/Bridge/Uplinks.antt =====
-- What an uplink writes to, and what a close takes out of the map, whatever the order of the steps.
use myworktree.Prelude.{ℕ, ◌≡◌, ◌≢◌, Bool, some, String, lookup, ◌⊎◌}
use myworktree.Worktree.Porcelain.{Bytes}
use myworktree.Dsh.Bridge.{
  MuxBridge, live, closed, begin_close, end_close, Uplink, UplinkReply, uplink_to,
}

-- What an uplink leaves: the bridge as it was, or with the close of its connection begun; and what it writes
-- goes to its connection, while that is open.
Uplinked : ℕ → MuxBridge → UplinkReply → Type 0
Uplinked s b r =
    ((r.bridge ≡ b) ⊎ (r.bridge ≡ begin_close s b))
    × ((t : ℕ) (m : Bool) (p : Bytes) → r.sent ≡ some (t, m, p) → (t ≡ s) × (b.phase s ≡ live))

-- What holds of an uplink that has found the connection `s` under the id, in the bridge as it is at that moment
-- and as it is later, when the uplink goes on.
pub record Found (id : String) (s : ℕ) (b later : MuxBridge) : Type 0 where
  pub of_id : b.owner s ≡ some id
  pub not_closed : b.phase s ≢ closed
  pub written :
      (u : Uplink) (t : ℕ) (m : Bool) (p : Bytes)
      → (uplink_to s u later).sent ≡ some (t, m, p)
      → (later.owner t ≡ some id) × (later.phase t ≡ live)
  pub stays : (t : ℕ) → s ≢ t → lookup id (end_close t b).conns ≡ some s
