-- ===== src/App/Access/Entitled.antt =====
-- Whom `withAuth` lets through.
use myworktree.Prelude.{
  ℕ, ◌≡◌, true, false, ◌||◌, Option, none, some, String, str_eq, trim_space, arith, ◌⊎◌, inl, inr,
  eq_iff, Bool-cases, remove, refl,
}
use myworktree.App.Access.{
  Request, Cookie, passed, AuthFails, is_loopback_request, same_origin_host, extract_auth_token,
  check_token, with_auth, client_ip, reset_auth_attempts,
}

-- A request from the machine itself, or one from a page of the same host that asks for a public path,
-- finds a server without a token, or carries the token.
pub Entitled : Option String → Request → Type 0
Entitled cfg r =
    (is_loopback_request r ≡ true)
    ⊎ (same_origin_host r ≡ true)
      × ((r.path ≡ "/login")
          ⊎ (r.path ≡ "/api/csrf-token")
          ⊎ (auth_token : String) × (cfg ≡ some auth_token)
            × ((trim_space auth_token ≡ "") ⊎ (extract_auth_token r ≡ auth_token)))

check_token-Entitled :
    (auth_token : String) (now : ℕ) (r : Request) (s : AuthFails) (c : Option Cookie)
    → (check_token auth_token now r s).0 ≡ passed c
    → (extract_auth_token r ≡ auth_token)
      × ((check_token auth_token now r s).1 ≡ remove (client_ip r) s)
unfolding check_token reset_auth_attempts
check_token-Entitled auth_token now r s c h =
    ground (arith, eq_iff (extract_auth_token r) auth_token)

-- A request that passes is entitled and gets no cookie, or its token was checked.
Passed : Option String → ℕ → Request → AuthFails → Option Cookie → Type 0
Passed cfg now r s c =
    Entitled cfg r × (c ≡ none)
    ⊎ (same_origin_host r ≡ true)
      × (auth_token : String) × (cfg ≡ some auth_token)
      × ((check_token auth_token now r s).0 ≡ passed c)

with_auth-loaded :
    (cfg : Option String) (now : ℕ) (r : Request) (s : AuthFails) (c : Option Cookie)
    → is_loopback_request r ≡ false
    → same_origin_host r ≡ true
    → (str_eq r.path "/login" || str_eq r.path "/api/csrf-token") ≡ false
    → (with_auth cfg now r s).0 ≡ passed c
    → Passed cfg now r s c
unfolding with_auth Passed Entitled
with_auth-loaded none now r s c l o p h = absurd (ground (arith, l, o, p))
with_auth-loaded (some t) now r s c l o p h = elim (Bool-cases (str_eq (trim_space t) "")) [
  | inl e ↦ inl (
    inr (o, inr (inr (t, refl, inl ((eq_iff (trim_space t) "").0 e)))),
    ground (arith, l, o, p, e),
  )
  | inr e ↦ inr (o, t, refl, ground (arith, l, o, p, e))
]

with_auth-Passed :
    (cfg : Option String) (now : ℕ) (r : Request) (s : AuthFails) (c : Option Cookie)
    → (with_auth cfg now r s).0 ≡ passed c
    → Passed cfg now r s c
unfolding with_auth Passed Entitled
with_auth-Passed cfg now r s c h = elim (Bool-cases (is_loopback_request r)) [
  | inl l ↦ inl (inl l, ground (arith, l))
  | inr l ↦ elim (Bool-cases (same_origin_host r)) [
    | inr o ↦ absurd (ground (arith, l, o))
    | inl o ↦ elim (Bool-cases (str_eq r.path "/login")) [
      | inl p ↦ inl (inr (o, inl ((eq_iff r.path "/login").0 p)), ground (arith, l, o, p))
      | inr p ↦ elim (Bool-cases (str_eq r.path "/api/csrf-token")) [
        | inl q ↦
            inl (
              inr (o, inr (inl ((eq_iff r.path "/api/csrf-token").0 q))),
              ground (arith, l, o, p, q),
            )
        | inr q ↦ with_auth-loaded cfg now r s c l o (rw (p, q) refl) h
      ]
    ]
  ]
]

cookie_value :
    (auth_token : String) (now : ℕ) (r : Request) (s : AuthFails) (c : Option Cookie) (k : Cookie)
    → (check_token auth_token now r s).0 ≡ passed c
    → c ≡ some k
    → auth_token ≡ k.value
unfolding check_token
cookie_value auth_token now r s c k h e =
    ground (arith, e, eq_iff (extract_auth_token r) auth_token)

-- A request that passes is entitled; and if a cookie goes with it, then its value is the server's
-- token, which the request carries.
pub with_auth-Entitled :
    (cfg : Option String) (now : ℕ) (r : Request) (s : AuthFails) (c : Option Cookie)
    → (with_auth cfg now r s).0 ≡ passed c
    → Entitled cfg r
      × ((k : Cookie) → c ≡ some k → (cfg ≡ some k.value) × (extract_auth_token r ≡ k.value))
unfolding Passed Entitled
with_auth-Entitled cfg now r s c h = elim (with_auth-Passed cfg now r s c h) [
  | inl (e, n) ↦ (e, λ k eq. absurd (ground (arith, n, eq)))
  | inr (o, t, e, p) ↦
      let carried = (check_token-Entitled t now r s c p).0 in
      (
        inr (o, inr (inr (t, e, inr carried))),
        λ k eq. let same = cookie_value t now r s c k p eq in (cc (e, same), cc (carried, same)),
      )
]
