-- ===== src/Dsh/Sessions/Tests.antt =====
-- Scans at concrete inputs.
use myworktree.Prelude.{
  ℕ, ◌*◌, ◌≡◌, ◌≢◌, refl, true, none, some, String, List, [], ◌∷◌, lookup, insert, adjust, arith,
  if◌then◌else◌, eq_iff,
}
use myworktree.Dsh.Sessions.{
  Slug, new_session_watch, scan_now, mark_own, is_own, add_slugs, add_entries, add_entry,
  foreign_of, foreign_active,
}
use myworktree.Dsh.Sessions.Attributed.{
  Event, marked, scanned, run, step, last_mark, Ascending, foreign-Attributed,
}

abbrev second : ℕ
second = 1000000000

-- the session "a", whose file was written at 100 s
abbrev pool : List Slug
pool =
    record {
      is_dir = true;
      sessions = some (record { name = "a"; is_dir = true; mod_time = some (100 * second) } ∷ []);
    }
    ∷ []

-- a mark of "b", and a scan
abbrev before : List Event
before = marked "b" (50 * second) ∷ scanned (60 * second) (some pool) ∷ []

not_empty : ◌≢◌ {A = String} "a" ""
not_empty e = absurd (ground (arith, e, eq_iff "a" ""))

reported :
    (foreign_active (scan_now (110 * second) (some pool) (run before (new_session_watch "p")))).1
    ≡ "a" ∷ []
unfolding scan_now mark_own run step add_slugs add_entries add_entry foreign_of foreign_active
    lookup insert adjust
reported = refl

dir_named : ◌≢◌ {A = String} "p" ""
dir_named e = absurd (ground (arith, e, eq_iff "p" ""))

foreign-Attributed_example :
    lookup "a" (scan_now (110 * second) (some pool) (run before (new_session_watch "p"))).foreign
    ≡ (if is_own (110 * second) (last_mark "a" before none)
        then none
        else lookup "a" (add_slugs (110 * second) pool []))
unfolding Ascending
foreign-Attributed_example =
    foreign-Attributed "p" "a" before (110 * second) pool dir_named not_empty
      (omega arith, omega arith)
