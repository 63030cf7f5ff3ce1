-- ===== src/App/Access/Guesses.antt =====
-- How often withAuth lets an address guess the token. The form of the page for signing in, which withAuth passes
-- on without a limit, is not counted.
use myworktree.Prelude.{
  ℕ, ◌+◌, ◌-◌, ◌≤◌, ◌≡◌, ◌≢◌, Bool, true, false, ◌&&◌, Option, none, some, String, List, [], ◌∷◌,
  lookup, insert, str_eq, if◌then◌else◌, leb, ltb, ◌==◌, ◌⊎◌, remove,
}
use myworktree.App.Access.{
  Request, Verdict, passed, refused, sign_in, AuthFail, AuthFails, extract_auth_token, with_auth,
  client_ip, counted,
}

-- the token was compared, and the answer tells that it is wrong
abbrev pub is_guess : Verdict → Bool
is_guess (passed c) = false
is_guess (refused status) = status == 401
is_guess (sign_in next) = true

-- how many requests of the address withAuth itself tells that their token is wrong, in a run with the clock's readings
unfoldable pub guesses : String → Option String → List (ℕ × Request) → AuthFails → ℕ
guesses ip cfg [] s = 0
guesses ip cfg ((now, r) ∷ rs) s =
    let tried = with_auth cfg now r s in
    let rest = guesses ip cfg rs tried.1 in
    if str_eq (client_ip r) ip && is_guess tried.0 then rest + 1 else rest

-- The clock does not go back from `from` on and stays below `until`, and the address never has the token.
unfoldable pub Guessing : String → Option String → ℕ → List (ℕ × Request) → ℕ → Type 0
Guessing ip cfg from [] until = from ≤ until
Guessing ip cfg from ((now, r) ∷ rs) until =
    (from ≤ now)
    × (client_ip r ≡ ip → cfg ≢ some (extract_auth_token r))
    × Guessing ip cfg now rs until

-- how many guesses are left to an address with this record
budget : ℕ → Option AuthFail → ℕ
budget until none = 20
budget until (some v) = (20 - v.count) + (if ltb v.window_end until then 20 else 0)

-- What a request does to the records: nothing, and it is no guess; it counts an attempt; or it has the
-- token.
Effect : Option String → ℕ → Request → AuthFails → Verdict × AuthFails → Type 0
Effect cfg now r s (v, s') =
    let counts = counted now (lookup (client_ip r) s) in
    (is_guess v ≡ false) × (s' ≡ s)
    ⊎ (s' ≡ insert (client_ip r) counts s) × (is_guess v ≡ true → leb counts.count 20 ≡ true)
    ⊎ (is_guess v ≡ false) × (cfg ≡ some (extract_auth_token r)) × (s' ≡ remove (client_ip r) s)
