-- ===== src/App/Access/Tests.antt =====
-- Requests to a server that is reached from the network, at concrete inputs.
use myworktree.Prelude.{
  ◌≡◌, refl, true, false, none, some, String, [], ◌*◌, ℕ, lookup, trim_space, after_prefix,
  trim_prefix, contains, equal_fold, split_at_code, all_codes,
}
use myworktree.App.Access.{
  Request, Cookie, passed, with_auth, check_token, AuthFails, extract_auth_token, is_loopback_host,
  same_origin_host, minute, reset_auth_attempts, is_valid_redirect_path,
}
use myworktree.App.Access.Entitled.{Entitled, with_auth-Entitled}

-- a request for the main page from the network, with this token
abbrev asking : String → Request
asking token = record {
  method = "GET";
  path = "/";
  accept = "text/html";
  authorization = "";
  origin = "";
  origin_host = none;
  host = "box:8080";
  forwarded_proto = "";
  tls = false;
  query_token = token;
  query_next = "";
  cookies = [];
  remote_addr = "10.0.0.7:5000";
  remote_host = some "10.0.0.7";
  form = none;
}

abbrev now : ℕ
now = 5 * minute

given_cookie :
    (with_auth (some "secret") now (asking "secret") []).0
    ≡ passed (some (record { value = "secret"; secure = false }))
unfolding with_auth check_token extract_auth_token is_loopback_host same_origin_host lookup
    trim_space trim_prefix after_prefix contains equal_fold reset_auth_attempts split_at_code
    all_codes
given_cookie = refl

with_auth-Entitled_example :
    Entitled (some "secret") (asking "secret")
    × ((k : Cookie)
        → some (record { value = "secret"; secure = false }) ≡ some k
        → (some "secret" ≡ some k.value) × (extract_auth_token (asking "secret") ≡ k.value))
with_auth-Entitled_example =
    with_auth-Entitled (some "secret") now (asking "secret") []
      (some (record { value = "secret"; secure = false })) given_cookie

loopback : is_loopback_host "127.0.0.1" ≡ true
unfolding is_loopback_host trim_space equal_fold contains after_prefix split_at_code all_codes
loopback = refl

-- A browser reads a backslash as a slash, so that this path leads to another host.
backslash : is_valid_redirect_path "/\\evil.example" ≡ true
unfolding is_valid_redirect_path contains after_prefix
backslash = refl

abbrev no_records : AuthFails
no_records = []
