-- ===== src/Dsh/Auth/Tests.antt =====
-- A dial that is refused once, at concrete inputs.
use myworktree.Prelude.{
  ℕ, ◌≡◌, ◌⊎◌, refl, Bool, true, false, Option, none, some, String, [], ◌∷◌, before_code,
  after_prefix,
}
use myworktree.Dsh.Auth.{
  UpstreamAuth, Exchange, answered, DialOutcome, connected, refused, dial, first_dial, redial,
  get_cookie, cached_locked, mint_locked, first_pair, session_pair, invalidate,
}
use myworktree.Dsh.Auth.Retried.{Fresh, Again, dial-Retried}

-- a sign-in that has kept a cookie for an hour
abbrev kept : UpstreamAuth
kept = record { token = "t"; cookie = "dsh-auth-1=old"; minted_at = 0; last_invalidate = none }

abbrev hour : ℕ
hour = 3600000000000

abbrev exchange : Bool → Exchange
exchange first = answered 303 ("dsh-auth-1=new; Path=/" ∷ [])

abbrev upstream : Bool → Option String → DialOutcome
upstream true header = refused 401
upstream false header = connected

both_sent :
    (dial exchange upstream hour hour hour kept).sent
    ≡ some "dsh-auth-1=old" ∷ some "dsh-auth-1=new" ∷ []
unfolding dial first_dial redial get_cookie cached_locked mint_locked first_pair session_pair
    invalidate before_code after_prefix
both_sent = refl

dial-Retried_example :
    let sent = (dial exchange upstream hour hour hour kept).sent in
    (sent ≡ [])
    ⊎ (c : String) × Fresh (exchange true) hour kept c
      × ((sent ≡ some c ∷ [])
          ⊎ (c' : String) × (sent ≡ some c ∷ some c' ∷ []) × Again exchange upstream hour kept c c')
dial-Retried_example = dial-Retried exchange upstream hour hour hour kept refl
