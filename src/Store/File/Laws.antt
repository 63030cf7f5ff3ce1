-- ===== src/Store/File/Laws.antt =====
-- The file store keeps its promises: a save that fails anywhere leaves the state file as it was.
use myworktree.Prelude.{
  ℕ, ◌≢◌, ◌+◌, false, Option, none, some, String, List, [], ◌∷◌, ℤ, pos, negsuc, ◌==◌, ◌≡◌, inl,
  inr, refl, arith, Option-cases, Bool-cases, ==_iff, ap,
}
use myworktree.Store.{State, Result, ok, err, Error, version_conflict}
use myworktree.Store.Interface.{InstanceStore, Agrees}
use myworktree.Store.File.{
  Bytes, Disk, Codec, Faults, decoded, created, load, write_out, checked, save, save_with_version,
}

abbrev to_option : Result State → Option State
to_option (ok st) = some st
to_option (err e) = none

-- the state that the file stands for
unfoldable pub persisted : Codec → Disk → Option State
unfolding decoded created
persisted c d = to_option (decoded c (created d.file))

module _ (c : Codec) (path : String) (f : Faults) where
  load_current : (d : Disk) (st : State) → (load c path f d).0 ≡ ok st → persisted c d ≡ some st
  unfolding load persisted
  load_current d st h = ground arith

  load_keeps : (d : Disk) → persisted c (load c path f d).1 ≡ persisted c d
  unfolding load persisted
  load_keeps d = ground arith

  decoded-marshal : (st : State) (b : Bytes) → c.marshal st ≡ some b → decoded c b ≡ ok st
  unfolding decoded
  decoded-marshal st [] h = absurd (c.marshal_nonempty st h)
  decoded-marshal st (b ∷ bs) h = rw (c.unmarshal-marshal st (b ∷ bs) h, decoded)

  write_out_ok :
      (st : State) (d : Disk)
      → (write_out c path f st d).0 ≡ ok tt
      → persisted c (write_out c path f st d).1 ≡ some st
  unfolding write_out persisted created
  write_out_ok st d h = elim (Option-cases (c.marshal st)) [
    | inl e ↦ ground (arith, e)
    | inr (b, e) ↦ ground (arith, e, decoded-marshal st b e)
  ]

  write_out_refused :
      (st : State) (d : Disk) (e : Error)
      → (write_out c path f st d).0 ≡ err e
      → (write_out c path f st d).1.file ≡ d.file
  unfolding write_out
  write_out_refused st d e h = ground arith

  checked_ok :
      (st : State) (v : ℤ) (r : Result State × Disk)
      → (checked c path f st v r).0 ≡ ok tt
      → (cur : State) × (r.0 ≡ ok cur)
        × Agrees v cur.version
        × (persisted c (checked c path f st v r).1 ≡ some (record st { version = cur.version + 1 }))
  unfolding checked
  checked_ok st v (err e, d) h = cc
  checked_ok st (negsuc v) (ok cur, d) h =
      (cur, refl, tt, write_out_ok (record st { version = cur.version + 1 }) d h)
  checked_ok st (pos v) (ok cur, d) h = elim (Bool-cases (cur.version == v)) [
    | inl e ↦ (
      cur,
      refl,
      (==_iff cur.version v).0 e,
      rw e (write_out_ok (record st { version = cur.version + 1 }) d (rw e at h)),
    )
    | inr ne ↦ ground (arith, ne)
  ]

  checked_refused :
      (st : State) (v : ℤ) (r : Result State × Disk) (e : Error)
      → (checked c path f st v r).0 ≡ err e
      → persisted c (checked c path f st v r).1 ≡ persisted c r.1
  unfolding checked persisted
  checked_refused st v (err x, d) e h = refl
  checked_refused st v (ok cur, d) e h =
      let same : (checked c path f st v (ok cur, d)).1.file ≡ d.file =
        ground (arith, write_out_refused (record st { version = cur.version + 1 }) d e) in
      ap (λ b. to_option (decoded c (created b))) same

  -- `SaveWithVersion` succeeds only from a readable state of the expected version, and then the
  -- file stands for the new state with the next version.
  pub save_checks :
      (st : State) (v : ℤ) (d : Disk)
      → (save_with_version c path f st v d).0 ≡ ok tt
      → (cur : State) × (persisted c d ≡ some cur)
        × Agrees v cur.version
        × (persisted c (save_with_version c path f st v d).1
            ≡ some (record st { version = cur.version + 1 }))
  unfolding save_with_version
  save_checks st v d h =
      let (cur, e, a, p) = checked_ok st v (load c path f d) (ground arith) in
      (cur, load_current d cur e, a, ground (arith, p))

  -- Whatever makes `SaveWithVersion` fail, a version conflict or any system call, the file stands
  -- for the state that it stood for.
  pub save_refused :
      (st : State) (v : ℤ) (d : Disk) (e : Error)
      → (save_with_version c path f st v d).0 ≡ err e
      → persisted c (save_with_version c path f st v d).1 ≡ persisted c d
  unfolding save_with_version
  save_refused st v d e h = ground (arith, checked_refused st v (load c path f d) e, load_keeps d)

-- The state file under a stream of faults, one for each operation that is still to come; after
-- those nothing fails.
pub record FileWorld : Type 0 where
  pub disk : Disk
  pub faults : List Faults

abbrev pub no_faults : Faults
no_faults = record {
  mkdir = false;
  open_lock = false;
  flock_exclusive = false;
  load_mkdir = false;
  open_file = false;
  flock_shared = false;
  read = false;
  write = false;
  rename = false;
  partial = [];
}

abbrev pub next_faults : List Faults → Faults × List Faults
next_faults [] = (no_faults, [])
next_faults (f ∷ fs) = (f, fs)

abbrev pub lift {ℓ} :
    {A : Type ℓ} → (Faults → Disk → Result A × Disk) → FileWorld → Result A × FileWorld
lift op w =
    let (f, fs) = next_faults w.faults in
    let (r, d) = op f w.disk in (r, record { disk = d; faults = fs })

-- `store.FileStore` is an `InstanceStore`, whatever the system calls do.
pub file_store : Codec → String → InstanceStore FileWorld
file_store c path = record {
  load = lift (load c path);
  save_with_version = λ st v. lift (λ f. save_with_version c path f st v);
  persisted = λ w. persisted c w.disk;
  load_current = λ w st h. load_current c path (next_faults w.faults).0 w.disk st h;
  load_keeps = λ w. load_keeps c path (next_faults w.faults).0 w.disk;
  save_checks = λ st v w h. save_checks c path (next_faults w.faults).0 st v w.disk h;
  save_refused = λ st v w e h. save_refused c path (next_faults w.faults).0 st v w.disk e h;
}

module _ (c : Codec) (path : String) (f : Faults) where
  save_ok :
      (st : State) (d : Disk)
      → (save c path f st d).0 ≡ ok tt
      → persisted c (save c path f st d).1 ≡ some st
  unfolding save
  save_ok st d h = ground (arith, write_out_ok c path f st d)

  load_no_conflict : (d : Disk) → (load c path f d).0 ≢ err version_conflict
  unfolding load decoded
  load_no_conflict d h = ground arith

  write_out_no_conflict :
      (st : State) (d : Disk) → (write_out c path f st d).0 ≢ err version_conflict
  unfolding write_out
  write_out_no_conflict st d h = ground arith

  checked_no_conflict :
      (st : State) (v : ℕ) (r : Result State × Disk)
      → r.0 ≢ err version_conflict
      → ((cur : State) → r.0 ≡ ok cur → cur.version ≡ v)
      → (checked c path f st (pos v) r).0 ≢ err version_conflict
  unfolding checked
  checked_no_conflict st v (err e, d) no_load same h = no_load (cc h)
  checked_no_conflict st v (ok cur, d) no_load same h =
      ground
        (arith, same cur refl, write_out_no_conflict (record st { version = cur.version + 1 }) d)

-- After a successful `FileStore.Save`, which writes the version it is given, a `SaveWithVersion` that
-- expects this version is not refused as a conflict, so its check does not see that save.
pub save-unseen :
    (c : Codec) (path : String) (f g : Faults) (st new : State) (d : Disk)
    → (save c path f st d).0 ≡ ok tt
    → (save_with_version c path g new (pos st.version) (save c path f st d).1).0
      ≢ err version_conflict
unfolding save_with_version
save-unseen c path f g st new d h e =
    let d' = (save c path f st d).1 in
    checked_no_conflict c path g new st.version (load c path g d') (load_no_conflict c path g d')
      (λ cur l. ground (arith, load_current c path g d' cur l, save_ok c path f st d h))
      (ground arith)
