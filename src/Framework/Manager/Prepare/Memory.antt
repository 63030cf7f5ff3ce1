-- ===== src/Framework/Manager/Prepare/Memory.antt =====
-- What settling leaves alone: the manager's own maps and its counter.
use myworktree.Prelude.{◌≡◌, refl, ◌∙◌, String, arith}
use myworktree.Store.{State, Result, ok, err}
use myworktree.Framework.Manager.{Manager}
use myworktree.Framework.Manager.Config.{Config, load_state}
use myworktree.Framework.Manager.Prepare.{
  StartParams, Launch, launched, found_worktree, resolve_worktree, sized, located, prepare,
}

-- The manager's own maps and its counter are the same; the world may differ.
pub record SameMemory {W : Type 0} (m m' : Manager W) : Type 0 where
  pub running : m'.running ≡ m.running
  pub buffers : m'.buffers ≡ m.buffers
  pub total : m'.total_buf_bytes ≡ m.total_buf_bytes
  pub conns : m'.conns ≡ m.conns

pub SameMemory-trans :
    {W : Type 0} {m n o : Manager W} → SameMemory m n → SameMemory n o → SameMemory m o
SameMemory-trans s t = record {
  running = t.running ∙ s.running;
  buffers = t.buffers ∙ s.buffers;
  total = t.total ∙ s.total;
  conns = t.conns ∙ s.conns;
}

module _ {W : Type 0} (c : Config W) where
  pub same : (m : Manager W) → SameMemory m m
  same m = record { running = refl; buffers = refl; total = refl; conns = refl }

  pub load_state-same : (m : Manager W) → SameMemory m (load_state c m).1
  unfolding load_state
  load_state-same m = record { running = refl; buffers = refl; total = refl; conns = refl }

  launched-same : (p : StartParams) (m : Manager W) → SameMemory m (launched c p m).1
  unfolding launched
  launched-same p m = ground arith

  found_worktree-memory :
      (id : String) (r : Result State × Manager W) → (found_worktree c id r).1 ≡ r.1
  unfolding found_worktree
  found_worktree-memory id (err e, m) = refl
  found_worktree-memory id (ok st, m) = refl

  resolve_worktree-same :
      (p : StartParams) (m : Manager W) → SameMemory m (resolve_worktree c p m).1
  unfolding resolve_worktree load_state
  resolve_worktree-same p m = ground (arith, found_worktree-memory p.worktree_id (load_state c m))

  sized-memory :
      (p : StartParams) (l : Launch) (r : Result (String × String) × Manager W)
      → (sized c p l r).1 ≡ r.1
  unfolding sized
  sized-memory p l (err e, m) = refl
  sized-memory p l (ok (path, name), m) = ground arith

  located-same :
      (p : StartParams) (m : Manager W) (r : Result Launch × Manager W)
      → SameMemory m r.1
      → SameMemory m (located c p r).1
  unfolding located
  located-same p m (err e, m') s = s
  located-same p m (ok l, m') s =
      rw (sized-memory p l (resolve_worktree c p m'))
        (ground (arith, s, resolve_worktree-same p m'))

  pub prepare-same : (p : StartParams) (m : Manager W) → SameMemory m (prepare c p m).1
  unfolding prepare
  prepare-same p m = ground (arith, same m, located-same p m (launched c p m), launched-same p m)
