-- ===== src/Store/File.antt =====
-- `FileStore`: reading the state file, and replacing it through a temporary file and a rename.
pub mod Laws
use myworktree.Prelude.{
  ℕ, suc, ◌+◌, Bool, true, false, Option, none, some, String, List, [], ◌∷◌, ℤ, pos, negsuc, ◌==◌,
  not, ◌&&◌, if◌then◌else◌, str_eq, ◌≡◌,
}
use myworktree.Store.{State, zero_state, Result, ok, err, Error, version_conflict, failure}

abbrev pub Bytes : Type 0
Bytes = List ℕ

-- The state file and its temporary file; `none` where there is no file.
pub record Disk : Type 0 where
  pub file : Option Bytes
  pub tmp : Option Bytes

-- encoding/json on `State`. Whatever it encodes is some text, and decodes to the same state.
pub record Codec : Type 0 where
  pub marshal : State → Option Bytes
  pub unmarshal : Bytes → Option State
  pub marshal_nonempty : (st : State) → marshal st ≡ some [] → ⊥
  pub unmarshal-marshal : (st : State) (b : Bytes) → marshal st ≡ some b → unmarshal b ≡ some st

-- Which system call of an operation fails (`true`), and what a failed `os.WriteFile` has left in
-- the temporary file.
pub record Faults : Type 0 where
  pub mkdir : Bool
  pub open_lock : Bool
  pub flock_exclusive : Bool
  pub load_mkdir : Bool
  pub open_file : Bool
  pub flock_shared : Bool
  pub read : Bool
  pub write : Bool
  pub rename : Bool
  pub partial : Bytes

-- `os.OpenFile` with O_CREATE
unfoldable pub created : Option Bytes → Bytes
created none = []
created (some b) = b

module _ (c : Codec) where
  unfoldable pub decoded : Bytes → Result State
  decoded [] = ok zero_state
  decoded (b ∷ bs) = elim (c.unmarshal (b ∷ bs)) [ none ↦ err (failure "json") | some st ↦ ok st ]

  module _ (path : String) (f : Faults) where
    unfoldable pub load : Disk → Result State × Disk
    unfolding created
    load d =
        let d' = record d { file = some (created d.file) } in
        if str_eq path ""
        then (err (failure "store path is required"), d)
        else if f.load_mkdir
        then (err (failure "mkdir"), d)
        else if f.open_file
        then (err (failure "open"), d)
        else if f.flock_shared
        then (err (failure "flock"), d')
        else if f.read
        then (err (failure "read"), d')
        else (decoded (created d.file), d')

    -- the end of `Save` and `SaveWithVersion`: encode, write the temporary file, rename
    unfoldable pub write_out : State → Disk → Result (Unit {0}) × Disk
    write_out st d = elim (c.marshal st) [
      | none ↦ (err (failure "json"), d)
      | some b ↦
          if f.write
          then (err (failure "write"), record d { tmp = some f.partial })
          else if f.rename
          then (err (failure "rename"), record d { tmp = some b })
          else (ok tt, record { file = some b; tmp = none })
    ]

    -- the steps before the state is touched: the directory and the exclusive lock
    locked : (Disk → Result (Unit {0}) × Disk) → Disk → Result (Unit {0}) × Disk
    locked body d =
        if str_eq path ""
        then (err (failure "store path is required"), d)
        else if f.mkdir
        then (err (failure "mkdir"), d)
        else if f.open_lock
        then (err (failure "open lock"), d)
        else if f.flock_exclusive
        then (err (failure "flock"), d)
        else body d

    unfoldable pub save : State → Disk → Result (Unit {0}) × Disk
    unfolding locked
    save st d = locked (write_out st) d

    -- `expectedVersion >= 0 && current.Version != expectedVersion`
    abbrev conflicts : ℤ → ℕ → Bool
    conflicts (pos v) current = not (current == v)
    conflicts (negsuc v) current = false

    checked : State → ℤ → Result State × Disk → Result (Unit {0}) × Disk
    checked st expected (err e, d) = (err e, d)
    checked st expected (ok current, d) =
        if conflicts expected current.version
        then (err version_conflict, d)
        else write_out (record st { version = current.version + 1 }) d

    unfoldable pub save_with_version : State → ℤ → Disk → Result (Unit {0}) × Disk
    unfolding locked checked
    save_with_version st expected d = locked (λ d'. checked st expected (load d')) d
