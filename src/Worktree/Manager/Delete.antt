-- ===== src/Worktree/Manager/Delete.antt =====
-- `Manager.Delete`: a dirty worktree is refused with a summary, unless the caller forces the deletion.
use myworktree.Prelude.{
  ℕ, ◌≡◌, ◌≢◌, refl, ap, Bool, true, false, Option, none, some, String, [], arith, if◌then◌else◌,
  Bool-cases, Option-cases, inl, inr,
}
use myworktree.Store.{State, ManagedWorktree, Result, ok, err}
use myworktree.Worktree.Porcelain.{
  Bytes, DirtyWorktreeError, trim_space, is_empty, summarize_porcelain, count_ignored_porcelain,
  cap_dirty_porcelain,
}
use myworktree.Worktree.Porcelain.Summed.{
  Summed, summarize_porcelain-Summed, ignored_in, ignored_in-count,
}
use myworktree.Worktree.Manager.{Calls, Stat, present, absent, unreadable, find_id, remove_id}

pub data DeleteReply : Type 0 where
  deleted : ℕ → DeleteReply
  dirty : DirtyWorktreeError → DeleteReply
  failed : String → DeleteReply

-- the number of ignored files, 0 where git fails
pub probed : Option Bytes → ℕ
probed none = 0
probed (some out) = count_ignored_porcelain out

-- the refusal: the summary of the output, with the number of ignored files
unfoldable pub refusal : Bytes → Option Bytes → DirtyWorktreeError
unfolding probed
refusal porcelain ignored_out =
    let e = summarize_porcelain porcelain (record {
      entries = 0;
      deleted = 0;
      modified = 0;
      added = 0;
      renamed = 0;
      untracked = 0;
      ignored = 0;
      first_paths = [];
      porcelain = cap_dirty_porcelain porcelain;
    }) in
    record e { ignored = probed ignored_out }

probed-ignored_in : (o : Option Bytes) → probed o ≡ ignored_in o
unfolding probed ignored_in
probed-ignored_in none = refl
probed-ignored_in (some out) = ignored_in-count out

refusal-Summed :
    (out : Bytes) (ignored_out : Option Bytes) → Summed out ignored_out (refusal out ignored_out)
unfolding refusal
refusal-Summed out ignored_out =
    summarize_porcelain-Summed out ignored_out (probed ignored_out) (probed-ignored_in ignored_out)

module _ {W : Type 0} (c : Calls W) where
  pub replied : ℕ → Result (Unit {0}) × W → DeleteReply × W
  replied n (ok _, w) = (deleted n, w)
  replied n (err e, w) = (failed "save", w)

  -- the record is taken out of the state and the state saved
  pub unlisted : String → State → ℕ → W → DeleteReply × W
  unfolding replied
  unlisted id st n w = replied n (c.save (record st { worktrees = remove_id id st.worktrees }) w)

  pub after_command : String → String → State → ℕ → Bool × W → DeleteReply × W
  after_command what id st n (true, w) = unlisted id st n w
  after_command what id st n (false, w) = (failed what, w)

  pub run_remove : String → Bool → String → State → ℕ → W → DeleteReply × W
  unfolding after_command
  run_remove id force path st n w =
      after_command "git worktree remove" id st n (c.worktree_remove force path w)

  -- a worktree that is there, without force
  pub check_status : String → String → State → W → DeleteReply × W
  unfolding run_remove
  check_status id path st w = elim (c.status path w) [
    | none ↦ (failed "git status", w)
    | some out ↦
        if is_empty (trim_space out)
        then run_remove id false path st (probed (c.status_ignored path w)) w
        else (dirty (refusal (trim_space out) (c.status_ignored path w)), w)
  ]

  pub delete_found : String → Bool → State → Option ManagedWorktree → W → DeleteReply × W
  unfolding check_status run_remove after_command
  delete_found id force st none w = (failed "unknown worktree id", w)
  delete_found id force st (some wt) w = elim (c.stat wt.path w) [
    | unreadable ↦ (failed "stat worktree", w)
    | absent ↦ after_command "git worktree prune" id st 0 (c.worktree_prune w)
    | present ↦ if force then run_remove id true wt.path st 0 w else check_status id wt.path st w
  ]

  pub delete_loaded : String → Bool → Result State × W → DeleteReply × W
  unfolding delete_found
  delete_loaded id force (err e, w) = (failed "load", w)
  delete_loaded id force (ok st, w) = delete_found id force st (find_id id st.worktrees) w

  unfoldable pub delete : String → Bool → W → DeleteReply × W
  unfolding delete_loaded
  delete id force w = delete_loaded id force (c.load w)

  unlisted-refused :
      (id : String) (st : State) (n : ℕ) (w : W) (e : DirtyWorktreeError)
      → (unlisted id st n w).0 ≢ dirty e
  unfolding unlisted replied
  unlisted-refused id st n w e h = ground arith

  after_command-refused :
      (what id : String) (st : State) (n : ℕ) (r : Bool × W) (e : DirtyWorktreeError)
      → (after_command what id st n r).0 ≢ dirty e
  unfolding after_command
  after_command-refused what id st n (true, w) e h = unlisted-refused id st n w e h
  after_command-refused what id st n (false, w) e h = ground arith

  -- What the refusal of a dirty worktree says, and that nothing has changed.
  pub record Refused (id : String) (force : Bool) (w : W) (e : DirtyWorktreeError) : Type 0 where
    pub unforced : force ≡ false
    pub unchanged : (delete id force w).1 ≡ (c.load w).1
    pub st : State
    pub wt : ManagedWorktree
    pub out : Bytes
    pub is_loaded : (c.load w).0 ≡ ok st
    pub is_recorded : find_id id st.worktrees ≡ some wt
    pub is_status : c.status wt.path (c.load w).1 ≡ some out
    pub not_clean : is_empty (trim_space out) ≡ false
    pub summary : e ≡ refusal (trim_space out) (c.status_ignored wt.path (c.load w).1)
    pub summed : Summed (trim_space out) (c.status_ignored wt.path (c.load w).1) e

  check_status-refused :
      (id path : String) (st : State) (w : W) (e : DirtyWorktreeError)
      → (check_status id path st w).0 ≡ dirty e
      → (out : Bytes) × (c.status path w ≡ some out)
        × (is_empty (trim_space out) ≡ false)
        × (e ≡ refusal (trim_space out) (c.status_ignored path w))
        × ((check_status id path st w).1 ≡ w)
  unfolding check_status run_remove
  check_status-refused id path st w e h = elim (Option-cases (c.status path w)) [
    | inl n ↦ absurd (ground (arith, n))
    | inr (out, o) ↦ elim (Bool-cases (is_empty (trim_space out))) [
      | inl b ↦ absurd (
          after_command-refused "git worktree remove" id st (probed (c.status_ignored path w))
            (c.worktree_remove false path w) e (ground (arith, o, b)))
      | inr b ↦ (out, o, b, ground (arith, o, b), ground (arith, o, b))
    ]
  ]

  record RefusedHere (path : String) (force : Bool) (r : DeleteReply × W) (w : W)
      (e : DirtyWorktreeError) : Type 0 where
    unforced : force ≡ false
    unchanged : r.1 ≡ w
    out : Bytes
    is_status : c.status path w ≡ some out
    not_clean : is_empty (trim_space out) ≡ false
    summary : e ≡ refusal (trim_space out) (c.status_ignored path w)

  delete_found-refused :
      (id : String) (force : Bool) (st : State) (wt : ManagedWorktree) (w : W)
      (e : DirtyWorktreeError)
      → (delete_found id force st (some wt) w).0 ≡ dirty e
      → RefusedHere wt.path force (delete_found id force st (some wt) w) w e
  unfolding delete_found run_remove
  delete_found-refused id force st wt w e h = cases (c.stat wt.path w) refl force refl
    where
      cases :
          (s : Stat)
          → c.stat wt.path w ≡ s
          → (f : Bool) → force ≡ f
          → RefusedHere wt.path force (delete_found id force st (some wt) w) w e
      cases unreadable q f p = absurd (ground (arith, q))
      cases absent q f p = absurd (
          after_command-refused "git worktree prune" id st 0 (c.worktree_prune w) e
            (ground (arith, q)))
      cases present q true p = absurd (
          after_command-refused "git worktree remove" id st 0 (c.worktree_remove true wt.path w) e
            (ground (arith, q, p)))
      cases present q false p =
          let seen = check_status-refused id wt.path st w e (ground (arith, q, p)) in
          record {
            unforced = p;
            unchanged = ground (arith, q, p, seen.4);
            out = seen.0;
            is_status = seen.1;
            not_clean = seen.2;
            summary = seen.3;
          }

  -- A deletion is refused as dirty only without force and where git reports changes, and nothing has been
  -- changed. The refusal counts the lines of git's output, trimmed: the entries, those of them that are
  -- untracked and those that are deleted, and the ignored files; its buckets sum to the entries, and an output
  -- of at most 200 lines is passed on. Of the paths that it names nothing is said.
  pub delete-Refused :
      (id : String) (force : Bool) (w : W) (e : DirtyWorktreeError)
      → (delete id force w).0 ≡ dirty e
      → Refused id force w e
  unfolding delete delete_loaded
  delete-Refused id force w e h = cases (c.load w) refl
    where
      cases : (r : Result State × W) → c.load w ≡ r → Refused id force w e
      cases (err x, v) q = absurd (ground (arith, q))
      cases (ok st, v) q = elim (Option-cases (find_id id st.worktrees)) [
        | inl n ↦ absurd (ground (arith, q, n))
        | inr (wt, o) ↦
            let here = delete_found-refused id force st wt v e (ground (arith, q, o)) in
            let summary : e
                ≡ refusal (trim_space here.out) (c.status_ignored wt.path (c.load w).1) =
              ground (arith, q, here.summary) in
            record {
              unforced = here.unforced;
              unchanged = ground (arith, q, o, here.unchanged);
              st = st;
              wt = wt;
              out = here.out;
              is_loaded = ap (λ p. p.0) q;
              is_recorded = o;
              is_status = ground (arith, q, here.is_status);
              not_clean = here.not_clean;
              summary = summary;
              summed =
                  rw summary
                    (refusal-Summed (trim_space here.out) (c.status_ignored wt.path (c.load w).1));
            }
      ]
