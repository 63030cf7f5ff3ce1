-- ===== src/Framework/Commit/Atomic.antt =====
-- Optimistic concurrency: an update that succeeds was made to the state that it replaced.
use myworktree.Prelude.{
  ℕ, zero, suc, ◌+◌, ◌<◌, ◌≡◌, ◌⊎◌, inl, inr, refl, none, some, ℤ, pos, arith, sym, ◌∙◌, ap,
}
use myworktree.Store.{State, Result, ok, err, Error, version_conflict, not_found, failure}
use myworktree.Store.Interface.{InstanceStore}
use myworktree.Framework.Commit.{
  Others, Edit, after_save, save_edited, edit_loaded, attempts, update, max_retries,
}

-- A step that never makes a readable state differ without raising its version.
abbrev pub Disciplined : {W : Type 0} → InstanceStore W → (W → W) → Type 0
Disciplined {W} s step =
    (w : W) (st : State)
    → s.persisted w ≡ some st
    → (s.persisted (step w) ≡ none)
      ⊎ (s.persisted (step w) ≡ some st)
      ⊎ ((st' : State) × (s.persisted (step w) ≡ some st') × (st.version < st'.version))

module _ {W : Type 0} (s : InstanceStore W) (others : Others W) where
  -- The worlds that `w` turns into by the steps of the others alone: a load and a refused save
  -- leave the persisted state as it was.
  pub data Passed (w : W) : W → Type 0 where
    here : Passed w w
    before_save : {v : W} (n : ℕ) → Passed w v → Passed w (others.before_save n v)
    before_retry : {v : W} (n : ℕ) → Passed w v → Passed w (others.before_retry n v)
    unchanged : {v u : W} → Passed w v → s.persisted u ≡ s.persisted v → Passed w u

  -- What a run has done when it ends: with an error nothing, with `ok a` one edit. The edit was
  -- given the very state that stood in the store when it was saved, and its result is what stands
  -- there now, under the next version.
  pub data Outcome {A : Type 0} (edit : Edit A) (w : W) : Result A × W → Type 0 where
    refused : {v : W} (e : Error) → Passed w v → Outcome edit w (err e, v)
    committed :
        {v u : W} (cur st : State) (a : A)
        → Passed w v
        → s.persisted v ≡ some cur
        → edit cur ≡ ok (st, a)
        → s.persisted u ≡ some (record st { version = cur.version + 1 })
        → Outcome edit w (ok a, u)

module _ {W : Type 0} (s : InstanceStore W) (others : Others W) where
  -- the case that a readable state of the loaded version has: it is the loaded state
  same_state :
      (v : W) (st cur : State)
      → (s.persisted v ≡ none)
        ⊎ (s.persisted v ≡ some st)
        ⊎ ((st' : State) × (s.persisted v ≡ some st') × (st.version < st'.version))
      → s.persisted v ≡ some cur
      → cur.version ≡ st.version
      → cur ≡ st
  same_state v st cur (inl e) p q = cc
  same_state v st cur (inr (inl e)) p q = cc
  same_state v st cur (inr (inr (st', e, lt))) p q =
      let e' : st' ≡ cur = cc in absurd (omega (arith, ap (λ (x : State). x.version) e'))

  save-kept :
      (st : State) (x : Error) (n : ℤ) (u v : W)
      → ◌≡◌ {A = Result (Unit {0}) × W} (err x, u) (s.save_with_version st n v)
      → s.persisted u ≡ s.persisted v
  save-kept st x n u v e = rw (ap (λ r. r.1) e) (s.save_refused st n v x (ap (λ r. r.0) (sym e)))

  module _ {A : Type 0} (edit : Edit A) (w : W) where
    after_save-Outcome :
        (a : A) (st st' : State) (next : W → Result A × W) (v : W) (r : Result (Unit {0}) × W)
        → r ≡ s.save_with_version st' (pos st.version) v
        → edit st ≡ ok (st', a)
        → (s.persisted v ≡ none)
          ⊎ (s.persisted v ≡ some st)
          ⊎ ((x : State) × (s.persisted v ≡ some x) × (st.version < x.version))
        → Passed s others w v
        → ((u : W) → Passed s others w u → Outcome s others edit w (next u))
        → Outcome s others edit w (after_save s others a next r)
    unfolding after_save
    after_save-Outcome a st st' next v (ok _, u) e q d p k =
        let (cur, c, agrees, now) = s.save_checks st' (pos st.version) v (ap (λ x. x.0) (sym e)) in
        let same : cur ≡ st = same_state v st cur d c agrees in
        committed cur st' a p c (rw same q) (rw (ap (λ x. x.1) e) now)
    after_save-Outcome a st st' next v (err version_conflict, u) e q d p k =
        k u (unchanged p (save-kept st' version_conflict (pos st.version) u v e))
    after_save-Outcome a st st' next v (err not_found, u) e q d p k =
        refused not_found (unchanged p (save-kept st' not_found (pos st.version) u v e))
    after_save-Outcome a st st' next v (err (failure m), u) e q d p k =
        refused (failure m) (unchanged p (save-kept st' (failure m) (pos st.version) u v e))

    module _ (fair : (n : ℕ) → Disciplined s (others.before_save n)) where
      attempt-Outcome :
          (n : ℕ) (next : W → Result A × W) (v : W) (r : Result State × W)
          → r ≡ s.load v
          → Passed s others w v
          → ((u : W) → Passed s others w u → Outcome s others edit w (next u))
          → Outcome s others edit w (edit_loaded s others n (λ st. pos st.version) edit next r)
      unfolding edit_loaded
      attempt-Outcome n next v (err x, u) e p k =
          refused x (unchanged p (rw (ap (λ r. r.1) e) (s.load_keeps v)))
      attempt-Outcome n next v (ok st, u) e p k = go (edit st) refl
        where
          kept : s.persisted u ≡ s.persisted v
          kept = rw (ap (λ r. r.1) e) (s.load_keeps v)

          read : s.persisted u ≡ some st
          read = kept ∙ s.load_current v st (ap (λ r. r.0) (sym e))

          go :
              (r : Result (State × A))
              → edit st ≡ r
              → Outcome s others edit w (save_edited s others n (pos st.version) next r u)
          go (err x) q = refused x (unchanged p kept)
          go (ok (st', a)) q =
              after_save-Outcome a st st' next (others.before_save n u)
                (s.save_with_version st' (pos st.version) (others.before_save n u)) refl q
                (fair n u st read) (before_save n (unchanged p kept)) k

      attempts-Outcome :
          (n : ℕ) (v : W)
          → Passed s others w v
          → Outcome s others edit w (attempts s others n edit v)
      unfolding attempts
      attempts-Outcome zero v p = refused version_conflict p
      attempts-Outcome (suc n) v p =
          attempt-Outcome n (λ u. attempts s others n edit (others.before_retry n u)) v (s.load v)
            refl p (λ u q. attempts-Outcome n (others.before_retry n u) (before_retry n q))

-- While the others raise the version with every change, `updateStore` is atomic: it either fails
-- and has changed nothing, or it has replaced one state by its own edit of that state, with the
-- next version, and no change of the others in between is lost.
pub update_atomic :
    {W : Type 0} (s : InstanceStore W) (others : Others W) {A : Type 0} (edit : Edit A) (w : W)
    → ((n : ℕ) → Disciplined s (others.before_save n))
    → Outcome s others edit w (update s others edit w)
unfolding update
update_atomic s others edit w fair = attempts-Outcome s others edit w fair max_retries w here
