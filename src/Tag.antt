-- ===== src/Tag.antt =====
-- internal/tag/tag.go: the tags, in three layers. encoding/json is read as in a decoded file.
pub mod Layers
use myworktree.Prelude.{
  Bool, true, false, Option, none, some, String, List, [], ◌∷◌, Assoc, lookup, insert, str_eq,
  clean, if◌then◌else◌,
}

-- A missing `env` reads as an empty one, which `LoadMerged` makes of it.
pub record Tag : Type 0 where
  pub id : String
  pub command : String
  pub env : Assoc String
  pub pre_start : String
  pub cwd : String

abbrev bare : String → String → Tag
bare id command = record { id = id; command = command; env = []; pre_start = ""; cwd = "" }

abbrev pub default_tags : List Tag
default_tags =
    bare "docs" "pwd"
    ∷ bare "dev" "pwd"
    ∷ bare "review" "pwd"
    ∷ bare "opencode-web" ""
    ∷ bare "dsh-web" ""
    ∷ []

-- A tags file: not there, not readable or no JSON, or its list of tags.
pub data TagFile : Type 0 where
  missing : TagFile
  unreadable : TagFile
  tags : List Tag → TagFile

-- The two paths of `tag.Manager`, the files that stand there, and whether the calls that write the
-- global file fail.
pub record Files : Type 0 where
  pub global_path : String
  pub project_path : String
  pub global_file : TagFile
  pub project_file : TagFile
  pub write_fails : Bool

-- `none` is an error; `os.Stat` finds a file that cannot be read
unfoldable pub ensure_defaults : Files → Option Files
ensure_defaults f =
    let written =
      if f.write_fails then none else some (record f { global_file = tags default_tags }) in
    if str_eq f.global_path ""
    then some f
    else elim f.global_file [ missing ↦ written | unreadable ↦ some f | tags ts ↦ some f ]

abbrev pub clean_cwd : Tag → Tag
clean_cwd t = record t { cwd = if str_eq t.cwd "" then "" else clean t.cwd }

-- the loop of `loadInto`
unfoldable pub put_all : Assoc Tag → List Tag → Assoc Tag
put_all dst [] = dst
put_all dst (t ∷ ts) = put_all (if str_eq t.id "" then dst else insert t.id (clean_cwd t) dst) ts

-- the loop of `LoadMerged` over the defaults, which have no cwd
unfoldable pub put_defaults : Assoc Tag → List Tag → Assoc Tag
put_defaults dst [] = dst
put_defaults dst (t ∷ ts) = put_defaults (if str_eq t.id "" then dst else insert t.id t dst) ts

unfoldable pub load_into : Assoc Tag → String → TagFile → Option (Assoc Tag)
load_into dst path file =
    if str_eq path ""
    then some dst
    else elim file [ missing ↦ some dst | unreadable ↦ none | tags ts ↦ some (put_all dst ts) ]

-- an empty id is an error
checked_ids : Assoc Tag → Option (Assoc Tag)
checked_ids m = elim (lookup "" m) [ none ↦ some m | some t ↦ none ]

over_project : Files → Option (Assoc Tag) → Option (Assoc Tag)
over_project f none = none
over_project f (some m) = load_into m f.project_path f.project_file

over_global : Option Files → Option (Assoc Tag)
unfolding over_project
over_global none = none
over_global (some f) =
    over_project f (load_into (put_defaults [] default_tags) f.global_path f.global_file)

checked : Option (Assoc Tag) → Option (Assoc Tag)
unfolding checked_ids
checked none = none
checked (some m) = checked_ids m

unfoldable pub load_merged : Files → Option (Assoc Tag)
unfolding over_global checked
load_merged f = checked (over_global (ensure_defaults f))
