-- ===== src/Store/Tests.antt =====
-- The file store at concrete inputs.
use myworktree.Prelude.{
  ℕ, ◌+◌, ◌-◌, ◌≡◌, refl, Option, none, some, List, [], ◌∷◌, pos, replicate, length,
  length-replicate, arith,
}
use myworktree.Store.{State, ManagedWorktree, ManagedInstance, zero_state, version_conflict}
use myworktree.Store.Interface.{Agrees}
use myworktree.Store.File.{Bytes, Disk, Codec, load, save_with_version, write_out, decoded}
use myworktree.Store.File.Laws.{persisted, no_faults, save_checks, save_refused}

-- A codec that encodes the states with nothing but a version, as so many bytes and one more.
encode : State → Option Bytes
encode st = lists st.worktrees st.instances
  where
    lists : List ManagedWorktree → List ManagedInstance → Option Bytes
    lists [] [] = elim st.tab_order [ [] ↦ some (0 ∷ replicate st.version 0) | e ∷ es ↦ none ]
    lists _ _ = none

decode : Bytes → Option State
decode b = some (record zero_state { version = length b - 1 })

encode_nonempty : (st : State) → encode st ≡ some [] → ⊥
unfolding encode
encode_nonempty st h = ground arith

decode-encode : (st : State) (b : Bytes) → encode st ≡ some b → decode b ≡ some st
unfolding encode decode
decode-encode st b h = ground (arith, length-replicate {A = ℕ} st.version 0)

abbrev codec : Codec
codec = record {
  marshal = encode;
  unmarshal = decode;
  marshal_nonempty = encode_nonempty;
  unmarshal-marshal = decode-encode;
}

-- version 2 on the disk
abbrev disk : Disk
disk = record { file = some (0 ∷ 0 ∷ 0 ∷ []); tmp = none }

save_checks_example :
    (cur : State) × (persisted codec disk ≡ some cur)
    × Agrees (pos 2) cur.version
    × (persisted codec (save_with_version codec "state.json" no_faults zero_state (pos 2) disk).1
        ≡ some (record zero_state { version = cur.version + 1 }))
unfolding save_with_version load write_out decoded encode decode
save_checks_example = save_checks codec "state.json" no_faults zero_state (pos 2) disk refl

save_refused_example :
    persisted codec (save_with_version codec "state.json" no_faults zero_state (pos 1) disk).1
    ≡ persisted codec disk
unfolding save_with_version load write_out decoded encode decode
save_refused_example =
    save_refused codec "state.json" no_faults zero_state (pos 1) disk version_conflict refl
