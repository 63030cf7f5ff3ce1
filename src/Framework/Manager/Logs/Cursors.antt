-- ===== src/Framework/Manager/Logs/Cursors.antt =====
-- The cursors that the reads return.
use myworktree.Prelude.{
  ◌≤◌, if◌then◌else◌, leb_int, ◌≡◌, some, String, ℤ, pos, negsuc, pos_part, length, lookup, arith,
  Option-cases, inl, inr,
}
use myworktree.Framework.Kind.{Handle, Kind, get_kind}
use myworktree.Framework.Manager.{Manager}
use myworktree.Framework.Manager.Config.{Config}
use myworktree.Framework.Manager.Logs.{clamp, tail_log, end_offset}

-- What the kinds promise of a tail: the cursor comes with a read of any size, also of none, and it is no
-- less than the text that comes with it.
pub record TailContract {W : Type 0} (k : Kind W) : Type 0 where
  pub same_cursor :
      (h : Handle) (n : ℤ) (w : W)
      → pos_part (k.read_logs h (negsuc 0) n w).offset
        ≡ pos_part (k.read_logs h (negsuc 0) (pos 0) w).offset
  pub same_error :
      (h : Handle) (n : ℤ) (w : W)
      → (k.read_logs h (negsuc 0) n w).log_error ≡ (k.read_logs h (negsuc 0) (pos 0) w).log_error
  pub reaches :
      (h : Handle) (n : ℤ) (w : W)
      → length (k.read_logs h (negsuc 0) n w).body ≤ pos_part (k.read_logs h (negsuc 0) n w).offset

module _ {W : Type 0} (c : Config W) where
  -- For kinds that keep the contract of tails, `EndOffset` answers what `Tail` of any size answers for its
  -- cursor and its error, also for an instance that is not running or whose kind is unknown.
  pub end_offset-tail_log :
      (id : String) (n : ℤ) (m : Manager W)
      → ((name : String) (k : Kind W) → get_kind name c.registry ≡ some k → TailContract k)
      → let t = tail_log c id n m in
        let e = end_offset c id m in (t.offset ≡ pos e.0) × (t.log_error ≡ e.1)
  unfolding tail_log end_offset clamp
  end_offset-tail_log id n m keeps = elim (Option-cases (lookup id m.running)) [
    | inl e ↦ ground (arith, e)
    | inr (ri, e) ↦ elim (Option-cases (get_kind ri.handle.kind_name c.registry)) [
      | inl g ↦ ground (arith, e, g)
      | inr (k, g) ↦
          let size = if leb_int n 0 then pos 4096 else n in
          let keep = keeps ri.handle.kind_name k g in
          let reach = keep.reaches ri.handle size m.world in
          ground (
            arith,
            e,
            g,
            reach,
            keep.same_cursor ri.handle size m.world,
            keep.same_error ri.handle size m.world,
          )
    ]
  ]
