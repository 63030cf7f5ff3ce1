-- ===== src/Framework/Commit.antt =====
-- internal/framework/manager.go: the loops of `updateStore` and `persistNewInstance`, which load
-- the state, edit it and save it under the version that was loaded, at most three times.
pub mod Atomic
use myworktree.Prelude.{ℕ, zero, suc, ℤ, pos}
use myworktree.Store.{State, Result, ok, err, Error, version_conflict, not_found, failure}
use myworktree.Store.Interface.{InstanceStore}

abbrev pub max_retries : ℕ
max_retries = 3

-- What other goroutines and processes do to the world between the load and the save of an attempt,
-- and between a refused save and the next load. The number counts the attempts that are left.
pub record Others (W : Type 0) : Type 0 where
  pub before_save : ℕ → W → W
  pub before_retry : ℕ → W → W

-- An edit of the loaded state, with what the caller takes from it.
abbrev pub Edit : Type 0 → Type 0
Edit A = State → Result (State × A)

module _ {W : Type 0} (s : InstanceStore W) (others : Others W) where
  module _ {A : Type 0} where
    -- the end of an attempt: a version conflict is tried again by `next`
    pub after_save : A → (W → Result A × W) → Result (Unit {0}) × W → Result A × W
    after_save a next (ok _, w) = (ok a, w)
    after_save a next (err version_conflict, w) = next w
    after_save a next (err not_found, w) = (err not_found, w)
    after_save a next (err (failure m), w) = (err (failure m), w)

    pub save_edited : ℕ → ℤ → (W → Result A × W) → Result (State × A) → W → Result A × W
    unfolding after_save
    save_edited n v next (err e) w = (err e, w)
    save_edited n v next (ok (st, a)) w =
        after_save a next (s.save_with_version st v (others.before_save n w))

    pub edit_loaded :
        ℕ → (State → ℤ) → Edit A → (W → Result A × W) → Result State × W → Result A × W
    unfolding save_edited
    edit_loaded n expected edit next (err e, w) = (err e, w)
    edit_loaded n expected edit next (ok st, w) = save_edited n (expected st) next (edit st) w

    unfoldable pub attempts : ℕ → Edit A → W → Result A × W
    unfolding edit_loaded
    attempts zero edit w = (err version_conflict, w)
    attempts (suc n) edit w =
        let next = λ (v : W). attempts n edit (others.before_retry n v) in
        edit_loaded n (λ st. pos st.version) edit next (s.load w)

    unfoldable pub update : Edit A → W → Result A × W
    unfolding attempts
    update = attempts max_retries

    -- One attempt, under a version that the caller chooses; a conflict is the caller's error.
    unfoldable pub commit_once : (State → ℤ) → Edit A → W → Result A × W
    unfolding edit_loaded
    commit_once expected edit w =
        edit_loaded 0 expected edit (λ v. (err version_conflict, v)) (s.load w)
