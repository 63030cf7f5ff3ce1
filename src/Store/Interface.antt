-- ===== src/Store/Interface.antt =====
-- What `framework.Manager` relies on of its `InstanceStore`, for a world `W` that holds the state
-- file. `persisted` is the state that the file stands for, `none` if it is unreadable.
use myworktree.Prelude.{ℕ, ◌+◌, Option, some, ℤ, pos, negsuc, ◌≡◌}
use myworktree.Store.{State, Result, ok, err, Error}

-- The version check of a save: a negative expectation skips it.
abbrev pub Agrees : ℤ → ℕ → Type 0
Agrees (pos v) version = version ≡ v
Agrees (negsuc v) version = Unit

pub record InstanceStore (W : Type 0) : Type 0 where
  pub load : W → Result State × W
  pub save_with_version : State → ℤ → W → Result (Unit {0}) × W
  pub persisted : W → Option State
  pub load_current : (w : W) (st : State) → (load w).0 ≡ ok st → persisted w ≡ some st
  pub load_keeps : (w : W) → persisted (load w).1 ≡ persisted w
  pub save_checks :
      (st : State) (v : ℤ) (w : W)
      → (save_with_version st v w).0 ≡ ok tt
      → (cur : State) × (persisted w ≡ some cur)
        × Agrees v cur.version
        × (persisted (save_with_version st v w).1 ≡ some (record st { version = cur.version + 1 }))
  pub save_refused :
      (st : State) (v : ℤ) (w : W) (e : Error)
      → (save_with_version st v w).0 ≡ err e
      → persisted (save_with_version st v w).1 ≡ persisted w
