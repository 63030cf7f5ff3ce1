-- ===== src/Opencode/Scope.antt =====
-- internal/instance/opencode_web/scope.go, and its callers: `NewProxyHandler` in proxy.go, and
-- `handleInstanceOpencodeScope` in internal/app/app.go. What `url.PathUnescape` makes of the header is part
-- of the request; what `filepath.EvalSymlinks` answers is a parameter.
pub mod Judged
pub mod Told
mod Tests
use myworktree.Prelude.{
  ℕ, Bool, true, false, not, ◌&&◌, ◌||◌, Option, none, some, String, List, [], ◌∷◌, Assoc, lookup,
  insert, remove, str_eq, clean, ◌==◌, if◌then◌else◌,
}
use Prim.Native.Char.{code}

-- `Scope`; `no_scope` is the zero value
pub data Scope : Type 0 where
  no_scope in_scope out_of_scope cross_project : Scope

pub record ScopeState : Type 0 where
  pub scope : Scope
  pub directory : String
  pub is_cross_project : Bool
  pub at : ℕ
  pub csp_anchor_missing : Bool

abbrev pub no_state : ScopeState
no_state = record {
  scope = no_scope;
  directory = "";
  is_cross_project = false;
  at = 0;
  csp_anchor_missing = false;
}

-- the header x-opencode-directory and what unescaping makes of it, and the queries `directory` and `scope`
pub record Request : Type 0 where
  pub header : String
  pub unescaped : Option String
  pub directory_query : String
  pub scope_query : String

abbrev parse_header : String → Option String → String
parse_header h none = h
parse_header h (some d) = d

unfoldable pub parse_directory : Request → Option String
parse_directory r =
    if not (str_eq r.header "")
    then some (parse_header r.header r.unescaped)
    else if not (str_eq r.directory_query "")
    then some r.directory_query
    else none

-- `strings.TrimRight(dir, "/")`
trim_slashes : String → String
trim_slashes String.[] = ""
trim_slashes (String.◌∷◌ c s) =
    let rest = trim_slashes s in if (code c == 47) && str_eq rest "" then "" else String.◌∷◌ c rest

abbrev pub Tracker : Type 0
Tracker = Assoc ScopeState

unfoldable pub record_scope : String → ScopeState → ℕ → Tracker → Tracker
record_scope id st now t = insert id (record st { at = now }) t

abbrev pub named_dir : Option String → String
named_dir none = ""
named_dir (some d) = d

abbrev pub crosses_project : Request → Bool
crosses_project r = str_eq r.scope_query "project"

abbrev pub has_dir : Option String → Bool
has_dir none = false
has_dir (some d) = true

module _ (eval_symlinks : String → Option String) where
  abbrev resolved : String → String
  resolved dir = elim (eval_symlinks dir) [ none ↦ dir | some to ↦ to ]

  unfoldable pub normalize_dir : String → String
  unfolding trim_slashes
  normalize_dir dir =
      if str_eq dir ""
      then ""
      else let stripped = trim_slashes (resolved (clean dir)) in
        if str_eq stripped "" then "/" else stripped

  unfoldable pub classify : String → String → Bool → Scope
  unfolding normalize_dir
  classify worktree dir crosses =
      let nw = normalize_dir worktree in
      let nd = normalize_dir dir in
      if crosses
      then cross_project
      else if str_eq nw "" || str_eq nd ""
      then in_scope
      else if str_eq nd nw
      then in_scope
      else out_of_scope

  -- the state that a request with a directory, or for the whole project, leaves
  abbrev pub observed : String → Request → ScopeState
  observed worktree r =
      let dir = named_dir (parse_directory r) in
      record {
        scope = classify worktree dir (crosses_project r);
        directory = dir;
        is_cross_project = crosses_project r;
        at = 0;
        csp_anchor_missing = false;
      }

  -- the part of the handler before it forwards
  unfoldable pub monitor : String → String → Request → ℕ → Tracker → Tracker
  unfolding record_scope
  monitor id worktree r now t =
      if has_dir (parse_directory r) || crosses_project r
      then record_scope id (observed worktree r) now t
      else t

abbrev pub state_or_zero : Option ScopeState → ScopeState
state_or_zero none = no_state
state_or_zero (some st) = st

abbrev pub given_scope : Scope → Scope
given_scope no_scope = in_scope
given_scope s = s

abbrev pub flagged : Bool → ScopeState → ScopeState
flagged missing st = record st { csp_anchor_missing = missing; scope = given_scope st.scope }

unfoldable pub set_csp_anchor_missing : String → Bool → Tracker → Tracker
set_csp_anchor_missing id missing t = insert id (flagged missing (state_or_zero (lookup id t))) t

-- what `handleInstanceOpencodeScope` answers for an instance of the kind
abbrev pub state_or_in_scope : Option ScopeState → ScopeState
state_or_in_scope none = record no_state { scope = in_scope }
state_or_in_scope (some st) = st

unfoldable pub handle_instance_opencode_scope : String → Tracker → ScopeState
handle_instance_opencode_scope id t = state_or_in_scope (lookup id t)
