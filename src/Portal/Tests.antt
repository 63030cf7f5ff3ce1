-- ===== src/Portal/Tests.antt =====
-- The sign-in protection at concrete inputs.
use myworktree.Prelude.{
  ℕ, ◌≤◌, ◌≡◌, ◌≢◌, refl, some, List, [], ◌∷◌, lookup, length, before_code, trim_space, arith,
}
use myworktree.Portal.Csrf.{
  CsrfState, minute, since, new_csrf_state, verify_and_consume, allow_auth_attempt,
}
use myworktree.Portal.Csrf.Steps.{Event, auth_attempt, cleaned_up, run, By, Without}
use myworktree.Portal.Csrf.Attempts.{accepted, Ascending, auth_attempts_lem}
use myworktree.Portal.Auth.{Request, granted, get_ip, handle_auth}
use myworktree.Portal.Auth.SignIn.{replay-refused, Admitted, granted-Admitted}

abbrev issued_one : CsrfState
issued_one = record new_csrf_state { pending = ("t", 5) ∷ [] }

abbrev later_events : List (ℕ × Event)
later_events = (7, cleaned_up) ∷ (8, auth_attempt "10.0.0.1") ∷ []

auth_attempts_lem_example :
    length (since minute 9 (accepted "10.0.0.1" later_events new_csrf_state)) ≤ 20
unfolding Ascending
auth_attempts_lem_example =
    auth_attempts_lem "10.0.0.1" 0 9 later_events (omega arith, (omega arith, omega arith))

abbrev request : Request
request = record {
  method = "POST";
  authorization = "Bearer key";
  forwarded_for = "10.0.0.1, 10.0.0.2";
  query_token = "";
  cookies = ("mw_csrf", "t") ∷ [];
  remote_addr = "127.0.0.1:5000";
  remote_host = some "127.0.0.1";
  body = some ("key", "t");
}

request_ip : get_ip request ≡ "10.0.0.1"
unfolding get_ip before_code trim_space
request_ip = refl

granted-Admitted_example : Admitted "key" 6 request issued_one
unfolding handle_auth verify_and_consume allow_auth_attempt get_ip lookup since
granted-Admitted_example = granted-Admitted "key" 6 request issued_one refl

replay-refused_example :
    (handle_auth "key" 9 request (run later_events (handle_auth "key" 6 request issued_one).1)).0
    ≢ granted
unfolding handle_auth verify_and_consume allow_auth_attempt get_ip lookup since By Without
replay-refused_example =
    replay-refused "key" 6 9 request request later_events issued_one refl "t" refl refl
      (omega arith, (omega arith, tt)) ((λ h. h), ((λ h. h), tt)) (omega arith)
