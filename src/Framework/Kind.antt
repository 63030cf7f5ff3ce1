-- ===== src/Framework/Kind.antt =====
-- internal/framework/kind.go: the contract of the kinds, and their registry. A kind is a parameter of
-- the manager: its calls act on the world `W`, with the processes. Optional interfaces are `none` for a
-- kind that does not implement them.
use myworktree.Prelude.{
  ℕ, Bool, Option, none, some, String, List, Assoc, lookup, insert, str_eq, ℤ, if◌then◌else◌, map,
}
use myworktree.Store.{Result}
use myworktree.Framework.Status.{Status}

-- `inner` stands for the kind's private value, which only the kind reads.
pub record Handle : Type 0 where
  pub kind_name : String
  pub inner : ℕ

-- `buffered` tells whether the buffer that the manager keeps under the instance's id is handed over.
pub record SpawnParams : Type 0 where
  pub worktree_id : String
  pub worktree_path : String
  pub worktree_name : String
  pub tag_id : String
  pub name : String
  pub auth_token : String
  pub extra_env : Assoc String
  pub command : String
  pub pre_start : String
  pub instance_id : String
  pub buffered : Bool

-- What a log read returns: the bytes and the cursor, also with an error.
pub record LogRead : Type 0 where
  pub body : List ℕ
  pub offset : ℤ
  pub log_error : Option String

pub record Kind (W : Type 0) : Type 0 where
  pub name : String
  pub needs_output_buffer : Option Bool
  pub spawn : SpawnParams → W → Result Handle × W
  pub stop : Handle → ℕ → W → Result (Unit {0}) × W
  pub status : Handle → W → Status × String
  pub read_logs : Handle → ℤ → ℤ → W → LogRead
  pub reattach : Option (String → W → Result Handle × W)
  pub cleanup : Option (String → W → Result (Unit {0}) × W)
  pub resize : Option (Handle → ℕ → ℕ → W → Result (Unit {0}) × W)
  pub send_input : Option (Handle → String → W → Result (Unit {0}) × W)

abbrev pub Registry : Type 0 → Type 0
Registry W = Assoc (Kind W)

module _ {W : Type 0} where
  -- `none` is a panic: an empty name, or one that is taken
  unfoldable pub register : Kind W → Registry W → Option (Registry W)
  register k r =
      if str_eq k.name ""
      then none
      else elim (lookup k.name r) [ some other ↦ none | none ↦ some (insert k.name k r) ]

  unfoldable pub get_kind : String → Registry W → Option (Kind W)
  get_kind name r = lookup name r

  -- `Names`: the keys in the order of the map, which Go leaves open
  unfoldable pub names : Registry W → List String
  names r = map (λ (e : String × Kind W). e.0) r
