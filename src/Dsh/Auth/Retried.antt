-- ===== src/Dsh/Auth/Retried.antt =====
-- Which cookies `dial` sends, and when it dials again.
use myworktree.Prelude.{
  ℕ, ◌+◌, ◌<◌, ◌≡◌, ◌≢◌, refl, sym, ap, subst, ◌∙◌, Bool, true, false, not, ◌||◌, Option, some,
  String, List, [], ◌∷◌, str_eq, leb, ◌==◌, if◌then◌else◌, arith, Bool-cases, Option-cases, inl,
  inr, ◌⊎◌, eq_iff,
}
use myworktree.Dsh.Auth.{
  UpstreamAuth, Exchange, unreachable, answered, CookieResult, cookie_ok, cookie_err, first_pair,
  mint_locked, cached_locked, get_cookie, enabled, invalidate, is_throttled, DialOutcome, connected,
  refused, broken, dialled, header_of, redial, first_dial, is_unauthorized, dial,
  upstream_cookie_fresh_for,
}

-- The exchange's 303 sets this cookie, as its first one of a session.
pub Minted : Exchange → String → Type 0
Minted e c = (headers : List String) × (e ≡ answered 303 headers) × (first_pair headers ≡ some c)

-- A cookie that was kept, and is younger than twelve hours, or one that the exchange sets.
pub Fresh : Exchange → ℕ → UpstreamAuth → String → Type 0
Fresh e now a c =
    (a.cookie ≡ c) × (c ≢ "") × (now < a.minted_at + upstream_cookie_fresh_for) ⊎ Minted e c

kept_pair-Minted :
    (headers : List String) (now : ℕ) (a b : UpstreamAuth) (c p : String)
    → first_pair headers ≡ some p
    → mint_locked (answered 303 headers) now a ≡ (cookie_ok c, b)
    → (p ≡ c) × (enabled b ≡ enabled a) × (b.last_invalidate ≡ a.last_invalidate)
unfolding mint_locked
kept_pair-Minted headers now a b c p f h =
    (ground (arith, h, f), ground (arith, h, f), ground (arith, h, f))

mint_locked-Minted :
    (e : Exchange) (now : ℕ) (a b : UpstreamAuth) (c : String)
    → mint_locked e now a ≡ (cookie_ok c, b)
    → Minted e c × (enabled b ≡ enabled a) × (b.last_invalidate ≡ a.last_invalidate)
unfolding mint_locked Minted
mint_locked-Minted unreachable now a b c h = absurd (ground (arith, h))
mint_locked-Minted (answered status headers) now a b c h = elim (Bool-cases (status == 303)) [
  | inr e ↦ absurd (ground (arith, h, e))
  | inl e ↦
      let same : status ≡ 303 = ground (arith, e) in
      elim (Option-cases (first_pair headers)) [
        | inl n ↦ absurd (ground (arith, h, e, n))
        | inr (p, f) ↦
            let (is, on, last) =
              kept_pair-Minted headers now a b c p f
                (subst (λ s. mint_locked (answered s headers) now a ≡ (cookie_ok c, b)) same h) in
            ((headers, ap (λ s. answered s headers) same, f ∙ ap some is), on, last)
      ]
]

get_cookie-cached :
    (e : Exchange) (now : ℕ) (a : UpstreamAuth)
    → enabled a ≡ true
    → str_eq (cached_locked now a) "" ≡ false
    → get_cookie e now a ≡ (cookie_ok (cached_locked now a), a)
unfolding get_cookie
get_cookie-cached e now a on n = rw (on, n) refl

get_cookie-mints :
    (e : Exchange) (now : ℕ) (a : UpstreamAuth)
    → enabled a ≡ true
    → str_eq (cached_locked now a) "" ≡ true
    → get_cookie e now a ≡ mint_locked e now a
unfolding get_cookie
get_cookie-mints e now a on n = rw (on, n) refl

cached_locked_lem :
    (now : ℕ) (a : UpstreamAuth)
    → str_eq (cached_locked now a) "" ≡ false
    → (cached_locked now a ≡ a.cookie)
      × (now < a.minted_at + upstream_cookie_fresh_for)
      × (a.cookie ≢ "")
unfolding cached_locked
cached_locked_lem now a n =
    elim (Bool-cases (str_eq a.cookie "" || leb (a.minted_at + upstream_cookie_fresh_for) now)) [
      | inl o ↦
          let nothing : cached_locked now a ≡ "" = rw o refl in
          absurd (ground (arith, n, nothing, eq_iff (cached_locked now a) ""))
      | inr o ↦ (
        ground (arith, o),
        ground (arith, o),
        λ q. absurd (ground (arith, o, q, eq_iff a.cookie "")),
      )
    ]

-- If the sign-in is on, then a cookie that `Cookie` returns is fresh.
pub get_cookie-Fresh :
    (e : Exchange) (now : ℕ) (a b : UpstreamAuth) (c : String)
    → enabled a ≡ true
    → get_cookie e now a ≡ (cookie_ok c, b)
    → Fresh e now a c × (enabled b ≡ enabled a) × (b.last_invalidate ≡ a.last_invalidate)
unfolding Fresh
get_cookie-Fresh e now a b c on h = elim (Bool-cases (str_eq (cached_locked now a) "")) [
  | inl n ↦
      let (m, k, l) = mint_locked-Minted e now a b c (sym (get_cookie-mints e now a on n) ∙ h) in
      (inr m, k, l)
  | inr n ↦
      let (is, young, some_cookie) = cached_locked_lem now a n in
      let both = sym (get_cookie-cached e now a on n) ∙ h in
      let found : a.cookie ≡ c = ground (arith, both, is) in
      (
        inl (found, (λ q. some_cookie (found ∙ q)), young),
        ap (λ r. enabled r.1) (sym both),
        ap (λ r. r.1.last_invalidate) (sym both),
      )
]

cleared : ℕ → UpstreamAuth → UpstreamAuth
cleared now a = record a { cookie = ""; minted_at = 0; last_invalidate = some now }

invalidate-cleared :
    (now : ℕ) (a : UpstreamAuth)
    → enabled a ≡ true
    → is_throttled now a.last_invalidate ≡ false
    → invalidate now a ≡ cleared now a
unfolding invalidate cleared
invalidate-cleared now a on free = rw (on, free) refl

none_cached :
    (now now'' : ℕ) (a : UpstreamAuth) → str_eq (cached_locked now'' (cleared now a)) "" ≡ true
unfolding cached_locked cleared
none_cached now now'' a = refl

-- An invalidation that is not throttled makes the next cookie a new one.
invalidate-Minted :
    (e : Exchange) (now now'' : ℕ) (a b : UpstreamAuth) (c : String)
    → enabled a ≡ true
    → is_throttled now a.last_invalidate ≡ false
    → get_cookie e now'' (invalidate now a) ≡ (cookie_ok c, b)
    → Minted e c
unfolding cleared
invalidate-Minted e now now'' a b c on free h =
    (mint_locked-Minted e now'' (cleared now a) b c (
      sym (get_cookie-mints e now'' (cleared now a) on (none_cached now now'' a))
      ∙ subst (λ x. get_cookie e now'' x ≡ (cookie_ok c, b)) (invalidate-cleared now a on free)
          h)).0

-- An invalidation does not turn the sign-in off.
enabled-invalidate :
    (now : ℕ) (a : UpstreamAuth) → enabled a ≡ true → enabled (invalidate now a) ≡ true
unfolding invalidate
enabled-invalidate now a on =
    elim (Bool-cases (not (enabled a) || is_throttled now a.last_invalidate)) [
      | inl e ↦ rw e on
      | inr e ↦ rw e on
    ]

header_of-enabled : (a : UpstreamAuth) (c : String) → enabled a ≡ true → header_of a c ≡ some c
header_of-enabled a c on = rw on refl

-- The second cookie, where there is one: the first dial was refused with 401; and unless an invalidation
-- in the five seconds before held this one back, an exchange has set the cookie since.
pub Again :
    (Bool → Exchange)
    → (Bool → Option String → DialOutcome)
    → ℕ
    → UpstreamAuth
    → String
    → String
    → Type 0
Again exchange ws_dial now' a c c' =
    (ws_dial true (some c) ≡ refused 401)
    × (is_throttled now' a.last_invalidate ≡ false → Minted (exchange false) c')

-- With the sign-in on, `dial` sends no cookie, or a fresh one, or a fresh one and then a second, and the
-- second only after a 401.
pub dial-Retried :
    (exchange : Bool → Exchange) (ws_dial : Bool → Option String → DialOutcome) (now now' now'' : ℕ)
    (a : UpstreamAuth)
    → enabled a ≡ true
    → let sent = (dial exchange ws_dial now now' now'' a).sent in
      (sent ≡ [])
      ⊎ (c : String) × Fresh (exchange true) now a c
        × ((sent ≡ some c ∷ [])
            ⊎ (c' : String) × (sent ≡ some c ∷ some c' ∷ []) × Again exchange ws_dial now' a c c')
unfolding dial first_dial redial Again
dial-Retried exchange ws_dial now now' now'' a on =
    ended (get_cookie (exchange true) now a).0 (get_cookie (exchange true) now a).1 refl
  where
    Sent : List (Option String) → Type 0
    Sent sent =
        (sent ≡ [])
        ⊎ (c : String) × Fresh (exchange true) now a c
          × ((sent ≡ some c ∷ [])
              ⊎ (c' : String) × (sent ≡ some c ∷ some c' ∷ []) × Again exchange ws_dial now' a c c')

    again :
        (c : String) (b : UpstreamAuth) (r : CookieResult) (d : UpstreamAuth)
        → Fresh (exchange true) now a c
        → enabled b ≡ true
        → b.last_invalidate ≡ a.last_invalidate
        → ws_dial true (some c) ≡ refused 401
        → get_cookie (exchange false) now'' (invalidate now' b) ≡ (r, d)
        → Sent (redial (ws_dial false) (some c ∷ []) (r, d)).sent
    again c b (cookie_err e) d f on' same denied h = inr (c, f, inl refl)
    again c b (cookie_ok c') d f on' same denied h =
        let still =
          get_cookie-Fresh (exchange false) now'' (invalidate now' b) d c'
            (enabled-invalidate now' b on') h in
        inr (
          c,
          f,
          inr (
            c',
            rw (still.1, enabled-invalidate now' b on') refl,
            (
              denied,
              λ free.
                  invalidate-Minted (exchange false) now' now'' b d c' on'
                    (subst (λ l. is_throttled now' l ≡ false) (sym same) free) h,
            ),
          ),
        )

    first :
        (c : String) (b : UpstreamAuth) (o : DialOutcome)
        → Fresh (exchange true) now a c
        → enabled b ≡ true
        → b.last_invalidate ≡ a.last_invalidate
        → ws_dial true (some c) ≡ o
        → Sent
            (if is_unauthorized o
              then redial
                  (ws_dial false)
                  (some c ∷ [])
                  (get_cookie (exchange false) now'' (invalidate now' b))
              else record { ending = dialled o; auth = b; sent = some c ∷ [] }).sent
    first c b connected f on' same denied = inr (c, f, inl refl)
    first c b broken f on' same denied = inr (c, f, inl refl)
    first c b (refused status) f on' same denied = elim (Bool-cases (status == 401)) [
      | inr e ↦ rw e (inr (c, f, inl refl))
      | inl e ↦ rw e (
          again c b (get_cookie (exchange false) now'' (invalidate now' b)).0
            (get_cookie (exchange false) now'' (invalidate now' b)).1 f on' same
            (denied ∙ ap refused (ground (arith, e))) refl)
    ]

    ended :
        (r : CookieResult) (b : UpstreamAuth)
        → get_cookie (exchange true) now a ≡ (r, b)
        → Sent (first_dial exchange ws_dial now' now'' (r, b)).sent
    ended (cookie_err e) b h = inl refl
    ended (cookie_ok c) b h =
        let (f, on', same) = get_cookie-Fresh (exchange true) now a b c on h in
        subst
          (λ header.
            Sent
              (if is_unauthorized (ws_dial true header)
                then redial (ws_dial false) (header ∷ [])
                    (get_cookie (exchange false) now'' (invalidate now' b))
                else record {
                  ending = dialled (ws_dial true header);
                  auth = b;
                  sent = header ∷ [];
                }).sent)
          (sym (header_of-enabled b c (on' ∙ on)))
          (first c b (ws_dial true (some c)) f (on' ∙ on) same refl)
