-- ===== src/Framework/Manager/Config.antt =====
-- What a `Manager` is set up with, and its calls of the store and of the tags. `W` is the world: the
-- state file, the tag files, the processes of the kinds and the memory of the machine.
use myworktree.Prelude.{ℕ, Option, none, some, String, Assoc, ℤ}
use myworktree.Store.{State, Result}
use myworktree.Store.Interface.{InstanceStore}
use myworktree.Tag.{Tag, Files, load_merged, ensure_defaults}
use myworktree.Framework.Commit.{Others, Edit, update}
use myworktree.Framework.Kind.{Registry}
use myworktree.Framework.Sizing.{Sample}
use myworktree.Framework.Manager.{Manager}

-- `others` is what other goroutines and processes do to the world while an update is under way;
-- `float64` is Go's conversion of a size.
pub record Config (W : Type 0) : Type 0 where
  pub registry : Registry W
  pub store : InstanceStore W
  pub others : Others W
  pub tag_files : W → Files
  pub set_tag_files : Files → W → W
  pub root : String
  pub auth_token : String
  pub log_buffer_bytes : ℤ
  pub sampler : W → Option Sample
  pub float64 : ℕ → ℕ
  pub stop_grace_seconds : ℕ

module _ {W : Type 0} (c : Config W) where
  -- `m.Tags.LoadMerged()`, with the global file that it may write
  unfoldable pub load_tags : W → Option (Assoc Tag) × W
  load_tags w = (
    load_merged (c.tag_files w),
    elim (ensure_defaults (c.tag_files w)) [ none ↦ w | some f ↦ c.set_tag_files f w ],
  )

  unfoldable pub load_state : Manager W → Result State × Manager W
  load_state m = let r = c.store.load m.world in (r.0, record m { world = r.1 })

  -- an update of the store on the manager
  unfoldable pub update_state : {A : Type 0} → Edit A → Manager W → Result A × Manager W
  update_state edit m =
      let r = update c.store c.others edit m.world in (r.0, record m { world = r.1 })
