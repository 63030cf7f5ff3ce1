-- ===== src/Tag/Layers.antt =====
-- Later layers win for each id, and the defaults are always there.
use myworktree.Prelude.{
  Option, none, some, String, List, [], ◌∷◌, ◌≡◌, ◌≢◌, refl, Assoc, lookup, insert, lookup-insert,
  str_eq, eq_iff, if◌then◌else◌, arith, Option-cases, inl, inr,
}
use myworktree.Tag.{
  Tag, default_tags, TagFile, missing, unreadable, tags, Files, ensure_defaults, clean_cwd, put_all,
  put_defaults, load_into, load_merged,
}

-- the last tag of the id in a list
unfoldable pub last_of : String → List Tag → Option Tag
last_of id [] = none
last_of id (t ∷ ts) = elim (last_of id ts) [
  | some u ↦ some u
  | none ↦ if str_eq t.id id then some (clean_cwd t) else none
]

abbrev pub or_else : Option Tag → Option Tag → Option Tag
or_else (some t) o = some t
or_else none o = o

-- what a file gives for an id; without a path it gives nothing
abbrev pub layer : String → String → TagFile → Option Tag
layer path id missing = none
layer path id unreadable = none
layer path id (tags ts) = if str_eq path "" then none else last_of id ts

lookup-put_all :
    (id : String) (dst : Assoc Tag) (ts : List Tag)
    → id ≢ ""
    → lookup id (put_all dst ts) ≡ or_else (last_of id ts) (lookup id dst)
unfolding put_all last_of
lookup-put_all id dst [] ne = refl
lookup-put_all id dst (t ∷ ts) ne = ground (
  arith,
  eq_iff t.id id,
  eq_iff t.id "",
  lookup-insert t.id id (clean_cwd t) dst,
  lookup-put_all id (if str_eq t.id "" then dst else insert t.id (clean_cwd t) dst) ts ne,
)

lookup-put_defaults :
    (id : String) (dst : Assoc Tag)
    → id ≢ ""
    → lookup id (put_defaults dst default_tags) ≡ or_else (last_of id default_tags) (lookup id dst)
unfolding put_defaults put_all
lookup-put_defaults id dst ne = lookup-put_all id dst default_tags ne

lookup-load_into :
    (id path : String) (file : TagFile) (dst dst' : Assoc Tag)
    → id ≢ ""
    → load_into dst path file ≡ some dst'
    → lookup id dst' ≡ or_else (layer path id file) (lookup id dst)
unfolding load_into
lookup-load_into id path missing dst dst' ne h = ground arith
lookup-load_into id path unreadable dst dst' ne h = ground arith
lookup-load_into id path (tags ts) dst dst' ne h = ground (arith, lookup-put_all id dst ts ne)

-- What `LoadMerged` gives for an id is the last tag of the project's file with it, or else of the
-- global file, which is written first if it is not there, or else the default.
pub load_merged_lem :
    (id : String) (f g : Files) (m : Assoc Tag)
    → id ≢ ""
    → ensure_defaults f ≡ some g
    → load_merged f ≡ some m
    → lookup id m
      ≡ or_else
          (layer g.project_path id g.project_file)
          (or_else (layer g.global_path id g.global_file) (last_of id default_tags))
unfolding load_merged lookup
load_merged_lem id f g m ne e h =
    elim (Option-cases (load_into (put_defaults [] default_tags) g.global_path g.global_file)) [
      | inl n ↦ absurd (ground (arith, e, n))
      | inr (base, b) ↦ elim (Option-cases (load_into base g.project_path g.project_file)) [
        | inl n ↦ absurd (ground (arith, e, b, n))
        | inr (all, a) ↦ ground (
          arith,
          e,
          b,
          a,
          lookup-put_defaults id [] ne,
          lookup-load_into id g.global_path g.global_file (put_defaults [] default_tags) base ne b,
          lookup-load_into id g.project_path g.project_file base all ne a,
        )
      ]
    ]
