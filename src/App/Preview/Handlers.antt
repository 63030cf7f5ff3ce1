-- ===== src/App/Preview/Handlers.antt =====
-- `handleWorktreeFileContent` and `handleWorktreeFileDiff`, on requests with the method GET. The file system
-- and git are parameters, and so are the worktrees that the manager lists.
use myworktree.Prelude.{
  ℕ, Bool, not, ◌||◌, Option, none, some, String, List, [], ◌∷◌, ◌++◌, ltb, length, str_eq,
  trim_space, join, if◌then◌else◌,
}
use myworktree.Worktree.Porcelain.{Bytes, split_lines, decimal}
use myworktree.App.Preview.{
  is_binary_data, is_path_within, is_sensitive_file, detect_file_type, whole_lines, added_lines,
}

-- What a request finds: the working directory and the main root, the worktrees with their ids and paths, the
-- size and the content of a file, git's diff of a file in a root, and the bytes of a text.
pub record Site : Type 0 where
  pub cwd : String
  pub root : String
  pub worktrees : Option (List (String × String))
  pub size_of : String → Option ℕ
  pub content_of : String → Option Bytes
  pub diff_of : String → Bool → String → Option Bytes
  pub bytes_of : String → Bytes

abbrev tree_path : String → List (String × String) → Option String
tree_path id [] = none
tree_path id ((i, path) ∷ ts) = if str_eq i id then some path else tree_path id ts

unfoldable pub resolve_worktree_path : Site → String → Option String
resolve_worktree_path s id =
    if str_eq id "__main__"
    then some s.root
    else elim s.worktrees [ none ↦ none | some ts ↦ tree_path id ts ]

-- a status, or a content with its type
pub data Preview : Type 0 where
  refused_with : ℕ → Preview
  shown : String → Bytes → Preview

abbrev content_at : Site → String → String → Preview
content_at s path full = elim (s.size_of full) [
  | none ↦ refused_with 404
  | some size ↦ if ltb 1048576 size then refused_with 413 else elim (s.content_of full) [
    | none ↦ refused_with 500
    | some text ↦
        if is_binary_data text then refused_with 415 else shown (detect_file_type path) text
  ]
]

-- the checks that both handlers begin with
abbrev guarded : Site → String → String → (String → Preview) → Preview
guarded s id path next =
    if str_eq id "" || str_eq path "" then refused_with 400 else elim (resolve_worktree_path s id) [
      | none ↦ refused_with 400
      | some root ↦
          if not (is_path_within s.cwd root path)
          then refused_with 403
          else if is_sensitive_file path
          then refused_with 403
          else next root
    ]

unfoldable pub handle_worktree_file_content : Site → String → String → Preview
handle_worktree_file_content s id path =
    guarded s (trim_space id) (trim_space path)
      (λ root. content_at s (trim_space path) (join root (trim_space path)))

-- a file that git does not know, as a diff that adds it
unfoldable pub added_diff : Site → String → Bytes → Bytes
added_diff s path text =
    s.bytes_of "diff --git a/"
    ++ s.bytes_of path
    ++ s.bytes_of " b/"
    ++ s.bytes_of path
    ++ (10 ∷ s.bytes_of "new file mode 100644")
    ++ (10 ∷ s.bytes_of "--- /dev/null")
    ++ (10 ∷ s.bytes_of "+++ b/")
    ++ s.bytes_of path
    ++ (10 ∷ s.bytes_of "@@ -0,0 +1,")
    ++ decimal (length (whole_lines (split_lines text)))
    ++ s.bytes_of " @@"
    ++ (10 ∷ added_lines text)

abbrev synthesized : Site → String → String → Preview
synthesized s path full = elim (s.size_of full) [
  | none ↦ shown "text/plain" []
  | some size ↦ elim (s.content_of full) [
    | none ↦ shown "text/plain" []
    | some text ↦
        if ltb 512000 size || is_binary_data text
        then shown "text/plain" []
        else if ltb 512000 (length (added_diff s path text))
        then refused_with 413
        else shown "text/plain" (added_diff s path text)
  ]
]

abbrev diff_in : Site → Bool → String → String → Preview
diff_in s staged path root = elim (s.diff_of root staged path) [
  | none ↦ refused_with 500
  | some [] ↦ synthesized s path (join root path)
  | some (b ∷ out) ↦
      if ltb 512000 (length (b ∷ out)) then refused_with 413 else shown "text/plain" (b ∷ out)
]

unfoldable pub handle_worktree_file_diff : Site → String → String → String → Preview
handle_worktree_file_diff s id path staged =
    guarded s (trim_space id) (trim_space path)
      (diff_in s (str_eq (trim_space staged) "true") (trim_space path))
