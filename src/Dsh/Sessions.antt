-- ===== src/Dsh/Sessions.antt =====
-- internal/instance/dsh_web/sessionwatch.go: which sessions of the shared pool someone else drives. Times
-- are nanoseconds; the reading of the pool is an argument.
pub mod Attributed
mod Tests
use Prim.Native.String.{compare}
use Prim.Native.Nat.{Ordering}
use myworktree.Prelude.{
  ℕ, ◌+◌, ◌*◌, Bool, true, false, Option, none, some, String, List, [], ◌∷◌, Assoc, lookup, insert,
  adjust, str_eq, leb, length, if◌then◌else◌,
}

abbrev pub session_fresh_window : ℕ
session_fresh_window = 90 * 1000000000

abbrev pub session_own_window : ℕ
session_own_window = 30 * 60 * 1000000000

pub record SessionWatch : Type 0 where
  pub dir : String
  pub own : Assoc ℕ
  pub foreign : Assoc ℕ

abbrev pub new_session_watch : String → SessionWatch
new_session_watch dir = record { dir = dir; own = []; foreign = [] }

-- an entry of a slug's directory, with the time of its session file if there is one
pub record Entry : Type 0 where
  pub name : String
  pub is_dir : Bool
  pub mod_time : Option ℕ

-- an entry of the pool, with its own entries if they can be read
pub record Slug : Type 0 where
  pub is_dir : Bool
  pub sessions : Option (List Entry)

unfoldable pub mark_own : String → ℕ → SessionWatch → SessionWatch
mark_own id now w = if str_eq id "" then w else record w { own = insert id now w.own }

-- `now.Sub(t) <= window`
abbrev pub is_within : ℕ → ℕ → ℕ → Bool
is_within window now t = leb now (t + window)

-- the session of an entry in the map of the active ones
unfoldable pub add_entry : ℕ → Entry → Assoc ℕ → Assoc ℕ
add_entry now e active =
    if e.is_dir
    then elim e.mod_time [
      | none ↦ active
      | some mt ↦ if is_within session_fresh_window now mt then insert e.name mt active else active
    ]
    else active

unfoldable pub add_entries : ℕ → List Entry → Assoc ℕ → Assoc ℕ
add_entries now [] active = active
add_entries now (e ∷ es) active = add_entries now es (add_entry now e active)

abbrev or_none : Option (List Entry) → List Entry
or_none none = []
or_none (some es) = es

unfoldable pub add_slugs : ℕ → List Slug → Assoc ℕ → Assoc ℕ
unfolding add_entries
add_slugs now [] active = active
add_slugs now (s ∷ ss) active =
    add_slugs now ss (if s.is_dir then add_entries now (or_none s.sessions) active else active)

-- `t, ok := w.own[id]; ok && now.Sub(t) <= sessionOwnWindow`
abbrev pub is_own : ℕ → Option ℕ → Bool
is_own now none = false
is_own now (some t) = is_within session_own_window now t

unfoldable pub foreign_of : ℕ → Assoc ℕ → Assoc ℕ → Assoc ℕ
foreign_of now own [] = []
foreign_of now own ((id, mt) ∷ active) =
    let rest = foreign_of now own active in
    if is_own now (lookup id own) then rest else (id, mt) ∷ rest

-- the record of an own session, dropped when it is too old
abbrev pub still_own : ℕ → ℕ → Option ℕ
still_own now t = if is_within session_own_window now t then some t else none

-- `ScanNow`; `none` is a pool that cannot be read
unfoldable pub scan_now : ℕ → Option (List Slug) → SessionWatch → SessionWatch
unfolding add_slugs foreign_of
scan_now now none w = w
scan_now now (some slugs) w = if str_eq w.dir "" then w else record w {
  foreign = foreign_of now w.own (add_slugs now slugs []);
  own = adjust (still_own now) w.own;
}

-- `sort.Strings`
insert_sorted : String → List String → List String
insert_sorted id [] = id ∷ []
insert_sorted id (x ∷ xs) =
    let rest = insert_sorted id xs in
    elim (compare id x) [ Ordering.gt ↦ x ∷ rest | _ ↦ id ∷ x ∷ xs ]

sorted_keys : Assoc ℕ → List String
sorted_keys [] = []
sorted_keys ((id, mt) ∷ rest) = insert_sorted id (sorted_keys rest)

unfoldable pub foreign_active : SessionWatch → ℕ × List String
unfolding insert_sorted sorted_keys
foreign_active w = let ids = sorted_keys w.foreign in (length ids, ids)
