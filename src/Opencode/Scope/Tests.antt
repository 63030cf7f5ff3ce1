-- ===== src/Opencode/Scope/Tests.antt =====
-- Scopes at concrete inputs.
use myworktree.Prelude.{
  ◌≡◌, refl, true, false, Option, none, some, String, List, [], ◌∷◌, lookup, insert, clean, is_abs,
  after_prefix, split_at_code,
}
use myworktree.Opencode.Scope.{
  out_of_scope, Request, parse_directory, normalize_dir, classify, record_scope, monitor,
  set_csp_anchor_missing, handle_instance_opencode_scope,
}
use myworktree.Opencode.Scope.Told.{
  Event, requested, passed_on, bears, handled, after, latest,
  handle_instance_opencode_scope-Observed, Observed, last_page,
}

abbrev no_links : String → Option String
no_links s = none

abbrev request : String → Request
request dir = record { header = dir; unescaped = some dir; directory_query = ""; scope_query = "" }

normalized : normalize_dir no_links "/w//fix/../fix/" ≡ "/w/fix"
unfolding normalize_dir clean is_abs after_prefix split_at_code
normalized = refl

-- A page without the anchor, behind a request for another directory, with the last event first
abbrev events : List Event
events =
    passed_on "b" false
    ∷ passed_on "a" true
    ∷ requested "a" "/w/fix" (request "") 6
    ∷ requested "a" "/w/fix" (request "/w/main/") 5
    ∷ []

handle_instance_opencode_scope-Observed_example :
    Observed no_links
      (latest "a" events)
      (handle_instance_opencode_scope "a" (after no_links events))
    × ((handle_instance_opencode_scope "a" (after no_links events)).csp_anchor_missing ≡ true
        → last_page "a" events ≡ some true)
handle_instance_opencode_scope-Observed_example =
    handle_instance_opencode_scope-Observed no_links "a" events

-- the answer after these events
answered :
    ((handle_instance_opencode_scope "a" (after no_links events)).scope ≡ out_of_scope)
    × ((handle_instance_opencode_scope "a" (after no_links events)).csp_anchor_missing ≡ true)
unfolding handle_instance_opencode_scope after handled monitor record_scope set_csp_anchor_missing
    bears parse_directory classify normalize_dir clean is_abs after_prefix split_at_code lookup
    insert
answered = (refl, refl)

-- The next request hides that the anchor is missing.
hidden :
    (handle_instance_opencode_scope "a"
      (after no_links (requested "a" "/w/fix" (request "/w/fix") 7 ∷ events))).csp_anchor_missing
    ≡ false
unfolding handle_instance_opencode_scope after handled monitor record_scope set_csp_anchor_missing
    bears parse_directory classify normalize_dir clean is_abs after_prefix split_at_code lookup
    insert
hidden = refl
