-- ===== src/Framework/Manager/Logs.antt =====
-- The reads of a running instance's log, and its input: `Tail`, `EndOffset`, `ReadSince`, `Resize` and
-- `SendInput`, which hand over to the kind of the handle.
pub mod Cursors
use myworktree.Prelude.{
  ℕ, Bool, true, false, ◌||◌, Option, none, some, String, [], lookup, ℤ, pos, negsuc, pos_part,
  is_neg, leb_int, ltb, leb, length, if◌then◌else◌,
}
use myworktree.Store.{Result, ok, err, failure}
use myworktree.Framework.Kind.{Handle, LogRead, Kind, get_kind}
use myworktree.Framework.Manager.{Manager}
use myworktree.Framework.Manager.Config.{Config}

-- a read with no text, at the cursor
abbrev pub no_text : ℤ → Option String → LogRead
no_text offset e = record { body = []; offset = offset; log_error = e }

-- the two clamps of the cursor that a kind gives with a tail
unfoldable pub clamp : LogRead → LogRead
clamp r =
    let off = pos_part r.offset in
    record r { offset = pos (if ltb off (length r.body) then length r.body else off) }

module _ {W : Type 0} (c : Config W) where
  -- the handle of a running instance with its kind, or what is returned without one
  abbrev pub with_running :
      {A : Type 0} → String → Manager W → A → (String → A) → (Handle → Kind W → A) → A
  with_running id m absent failed found = elim (lookup id m.running) [
    | none ↦ absent
    | some ri ↦ elim (get_kind ri.handle.kind_name c.registry) [
      | none ↦ failed "kind not registered"
      | some k ↦ found ri.handle k
    ]
  ]

  unfoldable pub tail_log : String → ℤ → Manager W → LogRead
  tail_log id n m =
      with_running id m (no_text (pos 0) none) (λ e. no_text (pos 0) (some e))
        (λ h k. clamp (k.read_logs h (negsuc 0) (if leb_int n 0 then pos 4096 else n) m.world))

  unfoldable pub end_offset : String → Manager W → ℕ × Option String
  end_offset id m =
      with_running id m (0, none) (λ e. (0, some e))
        (λ h k.
          let r = k.read_logs h (negsuc 0) (pos 0) m.world in (pos_part r.offset, r.log_error))

  unfoldable pub read_log_since : String → ℤ → ℤ → Manager W → LogRead
  read_log_since id since max_bytes m =
      let from = pos (pos_part since) in
      with_running id m (no_text from none) (λ e. no_text from (some e))
        (λ h k. k.read_logs h from max_bytes m.world)

  -- the call of the kind on the world
  abbrev acted : Manager W → Result (Unit {0}) × W → Result (Unit {0}) × Manager W
  acted m r = (r.0, record m { world = r.1 })

  unfoldable pub resize : String → ℤ → ℤ → Manager W → Result (Unit {0}) × Manager W
  resize id cols rows m =
      if leb_int cols 0 || leb_int rows 0
      then (err (failure "invalid terminal size"), m)
      else with_running id m (err (failure "instance not running"), m) (λ e. (err (failure e), m))
          (λ h k. elim k.resize [
            | none ↦ (err (failure "kind does not support resize"), m)
            | some f ↦ acted m (f h (pos_part cols) (pos_part rows) m.world)
          ])

  unfoldable pub send_input : String → String → Manager W → Result (Unit {0}) × Manager W
  send_input id input m =
      with_running id m (err (failure "instance input unavailable"), m) (λ e. (err (failure e), m))
        (λ h k. elim k.send_input [
          | none ↦ (err (failure "kind does not support input"), m)
          | some f ↦ acted m (f h input m.world)
        ])
