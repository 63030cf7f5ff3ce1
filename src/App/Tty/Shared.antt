-- ===== src/App/Tty/Shared.antt =====
-- The applied size is the smallest of the viewers', whatever they do.
use myworktree.Prelude.{
  ◌≤◌, ◌≡◌, refl, subst, none, some, String, [], ◌∷◌, Assoc, lookup, insert, remove, lookup-insert,
  lookup-remove, str_eq, eq_iff, arith, Bool-cases, Option-cases, inl, inr, show_nat, ◌+◌,
}
use myworktree.App.Tty.Smallest.{IsSmallest, min_size-IsSmallest, IsSmallest-unique}
use myworktree.App.Tty.{
  keep_clients, register_tty_client, unregister_tty_client, update_tty_client_size, TtySize,
  TtyClientState, Server, clients_of, min_size, notified, recompute, register_tty_client,
  unregister_tty_client, keep_clients, update_tty_client_size,
}

-- The size of every instance is what the code's loop finds for its viewers.
unfoldable pub AreMinima : Server → Type 0
AreMinima s = (id : String) → lookup id s.tty_applied ≡ min_size (clients_of id s)

-- for one instance
Agrees : String → Server → Type 0
Agrees id s = lookup id s.tty_applied ≡ min_size (clients_of id s)

min_size-notified :
    (size : TtySize) (m : Assoc TtyClientState) → min_size (notified size m) ≡ min_size m
unfolding min_size notified
min_size-notified size [] = refl
min_size-notified size ((name, client) ∷ rest) = ground (arith, min_size-notified size rest)

recompute-Agrees : (id : String) (s : Server) → Agrees id (recompute id s).1
unfolding Agrees recompute
recompute-Agrees id s = elim (Option-cases (min_size (clients_of id s))) [
  | inl e ↦ ground (arith, e, lookup-remove id id s.tty_applied, eq_iff id id)
  | inr (size, e) ↦ ground (
    arith,
    e,
    lookup-insert id id size s.tty_applied,
    eq_iff id id,
    lookup-insert id id (notified size (clients_of id s)) s.tty_clients,
    min_size-notified size (clients_of id s),
  )
]

recompute-other :
    (id other : String) (s : Server)
    → (id ≡ other → ⊥)
    → Agrees other s
    → Agrees other (recompute id s).1
unfolding Agrees recompute
recompute-other id other s ne h = elim (Option-cases (min_size (clients_of id s))) [
  | inl e ↦ ground (arith, e, h, lookup-remove id other s.tty_applied, eq_iff id other)
  | inr (size, e) ↦ ground (
    arith,
    e,
    h,
    lookup-insert id other size s.tty_applied,
    eq_iff id other,
    lookup-insert id other (notified size (clients_of id s)) s.tty_clients,
  )
]

recompute-AreMinima :
    (id : String) (s' : Server)
    → ((other : String) → (id ≡ other → ⊥) → Agrees other s')
    → AreMinima (recompute id s').1
unfolding AreMinima Agrees
recompute-AreMinima id s' h other = elim (Bool-cases (str_eq id other)) [
  | inl e ↦
      subst
        (λ k.
          lookup k (recompute id s').1.tty_applied ≡ min_size (clients_of k (recompute id s').1))
        ((eq_iff id other).0 e) (recompute-Agrees id s')
  | inr e ↦
      let ne : id ≡ other → ⊥ = λ q. ground (arith, eq_iff id other) in
      recompute-other id other s' ne (h other ne)
]

changed-Agrees :
    (id : String) (clients : Assoc (Assoc TtyClientState)) (s : Server)
    → ((other : String) → (id ≡ other → ⊥) → lookup other clients ≡ lookup other s.tty_clients)
    → AreMinima s
    → (other : String) → (id ≡ other → ⊥)
    → Agrees other (record s { tty_clients = clients })
unfolding AreMinima Agrees
changed-Agrees id clients s same h other ne = ground (arith, same other ne, h other)

-- Another list of viewers for one instance, and then its size.
changed-AreMinima :
    (id : String) (clients : Assoc (Assoc TtyClientState)) (s : Server)
    → ((other : String) → (id ≡ other → ⊥) → lookup other clients ≡ lookup other s.tty_clients)
    → AreMinima s
    → AreMinima (recompute id (record s { tty_clients = clients })).1
changed-AreMinima id clients s same h =
    recompute-AreMinima id (record s { tty_clients = clients }) (changed-Agrees id clients s same h)

-- A viewer's new size keeps the shared size what the loop finds.
update-AreMinima :
    (id client : String) (size : TtySize) (s : Server)
    → AreMinima s
    → AreMinima (update_tty_client_size id client size s).1
unfolding update_tty_client_size
update-AreMinima id client size s h = elim (Option-cases (lookup client (clients_of id s))) [
  | inl e ↦ rw (e, update_tty_client_size) h
  | inr (state, e) ↦
      let mine = insert client (record state { size = some size }) (clients_of id s) in
      rw (e, update_tty_client_size)
        (changed-AreMinima id (insert id mine s.tty_clients) s
          (λ other ne. ground (arith, lookup-insert id other mine s.tty_clients, eq_iff id other))
          h)
]

-- The size of every instance is the smallest of its viewers'.
unfoldable pub IsShared : Server → Type 0
IsShared s = (id : String) → IsSmallest (clients_of id s) (lookup id s.tty_applied)

pub AreMinima-IsShared : (s : Server) → AreMinima s → IsShared s
unfolding AreMinima IsShared
AreMinima-IsShared s h id = rw (h id) (min_size-IsSmallest (clients_of id s))

IsShared-AreMinima : (s : Server) → IsShared s → AreMinima s
unfolding AreMinima IsShared
IsShared-AreMinima s h id =
    IsSmallest-unique (clients_of id s) (lookup id s.tty_applied) (min_size (clients_of id s))
      (h id) (min_size-IsSmallest (clients_of id s))

-- A viewer's new size, whatever it is, keeps the applied size of every instance the smallest that its
-- viewers have told: no viewer's terminal is narrower or lower, and some viewer has just its width, and some
-- its height; without any size of a viewer none is applied.
pub update-IsShared :
    (id client : String) (size : TtySize) (s : Server)
    → IsShared s
    → IsShared (update_tty_client_size id client size s).1
update-IsShared id client size s h =
    AreMinima-IsShared (update_tty_client_size id client size s).1
      (update-AreMinima id client size s (IsShared-AreMinima s h))

lookup-keep_clients :
    (id other : String) (mine : Assoc TtyClientState) (m : Assoc (Assoc TtyClientState))
    → (id ≡ other → ⊥)
    → lookup other (keep_clients id mine m) ≡ lookup other m
lookup-keep_clients id other [] m ne = ground (arith, lookup-remove id other m, eq_iff id other)
lookup-keep_clients id other (c ∷ cs) m ne =
    ground (arith, lookup-insert id other (c ∷ cs) m, eq_iff id other)

-- A viewer that leaves keeps the shared size what the loop finds.
pub unregister-AreMinima :
    (id client : String) (s : Server)
    → AreMinima s
    → AreMinima (unregister_tty_client id client s).1
unfolding unregister_tty_client
unregister-AreMinima id client s h =
    let mine = remove client (clients_of id s) in
    changed-AreMinima id (keep_clients id mine s.tty_clients) s
      (λ other ne. lookup-keep_clients id other mine s.tty_clients ne) h

min_size-insert :
    (name : String) (fresh : TtyClientState) (m : Assoc TtyClientState)
    → lookup name m ≡ none
    → fresh.size ≡ none
    → min_size (insert name fresh m) ≡ min_size m
unfolding min_size insert lookup
min_size-insert name fresh [] h e = ground (arith, e)
min_size-insert name fresh ((other, client) ∷ rest) h e =
    ground (arith, e, min_size-insert name fresh rest)

-- A new viewer, which has told no size yet, leaves the shared sizes as they are; the counter's next id
-- must not be in use.
pub register-AreMinima :
    (id : String) (s : Server)
    → lookup (show_nat (s.tty_next_id + 1)) (clients_of id s) ≡ none
    → AreMinima s
    → AreMinima (register_tty_client id s).1
unfolding AreMinima register_tty_client
register-AreMinima id s free h other =
    let fresh : TtyClientState = record { size = none; updates = lookup id s.tty_applied } in
    let mine = insert (show_nat (s.tty_next_id + 1)) fresh (clients_of id s) in
    ground (
      arith,
      eq_iff id other,
      h id,
      h other,
      lookup-insert id other (clients_of id s) s.tty_clients,
      lookup-insert id other mine s.tty_clients,
      min_size-insert (show_nat (s.tty_next_id + 1)) fresh (clients_of id s) free refl,
    )

min_size-none :
    (client : String) (m : Assoc TtyClientState) (state : TtyClientState) (told : TtySize)
    → lookup client m ≡ some state
    → state.size ≡ some told
    → min_size m ≡ none
    → ⊥
unfolding lookup min_size
min_size-none client [] state told h e q = ground arith
min_size-none client ((name, c) ∷ rest) state told h e q =
    ground (arith, min_size-none client rest state told)

fits :
    (client : String) (m : Assoc TtyClientState) (state : TtyClientState) (told size : TtySize)
    → lookup client m ≡ some state
    → state.size ≡ some told
    → min_size m ≡ some size
    → (size.cols ≤ told.cols) × (size.rows ≤ told.rows)
unfolding lookup min_size
fits client [] state told size h e q = ground arith
fits client ((name, c) ∷ rest) state told size h e q = elim (Option-cases (min_size rest)) [
  | inl n ↦ (
    ground (arith, n, min_size-none client rest state told),
    ground (arith, n, min_size-none client rest state told),
  )
  | inr (low, l) ↦ (
    ground (arith, l, fits client rest state told low),
    ground (arith, l, fits client rest state told low),
  )
]

-- While the sizes are shared, a terminal with a viewer that has told its size has a size, and this is
-- no wider and no higher than the viewer's.
pub shared_size-fits :
    (id client : String) (s : Server) (state : TtyClientState) (told : TtySize)
    → AreMinima s
    → lookup client (clients_of id s) ≡ some state
    → state.size ≡ some told
    → (size : TtySize) × (lookup id s.tty_applied ≡ some size)
      × (size.cols ≤ told.cols)
      × (size.rows ≤ told.rows)
unfolding AreMinima
shared_size-fits id client s state told shared h e =
    elim (Option-cases (min_size (clients_of id s))) [
      | inl n ↦ absurd (min_size-none client (clients_of id s) state told h e n)
      | inr (size, q) ↦
          let fit = fits client (clients_of id s) state told size h e q in
          (size, rw (shared id) q, fit.0, fit.1)
    ]
