-- ===== src/Dsh/Sessions/Attributed.antt =====
-- A scan reports the active sessions that were not marked in the half hour before it.
use myworktree.Prelude.{
  ℕ, ◌≤◌, ◌≡◌, ◌≢◌, ◌∙◌, refl, ap, false, Option, none, some, String, List, [], ◌∷◌, Assoc, lookup,
  lookup-insert, lookup-adjust, str_eq, eq_iff, if◌then◌else◌, arith, Bool-cases, inl, inr,
}
use myworktree.Dsh.Sessions.{
  SessionWatch, Slug, new_session_watch, mark_own, scan_now, foreign_of, is_own, add_slugs,
  still_own,
}

pub data Event : Type 0 where
  marked : String → ℕ → Event
  scanned : ℕ → Option (List Slug) → Event

unfoldable pub step : Event → SessionWatch → SessionWatch
unfolding mark_own scan_now
step (marked id now) w = mark_own id now w
step (scanned now pool) w = scan_now now pool w

-- the events in order, the first of them first
unfoldable pub run : List Event → SessionWatch → SessionWatch
run [] w = w
run (e ∷ es) w = run es (step e w)

-- when the session was marked last
unfoldable pub last_mark : String → List Event → Option ℕ → Option ℕ
last_mark id [] found = found
last_mark id (scanned now pool ∷ es) found = last_mark id es found
last_mark id (marked other now ∷ es) found =
    last_mark id es (if str_eq other id then some now else found)

-- the scans' readings of the clock do not go back, from `from` to `until`
unfoldable pub Ascending : ℕ → List Event → ℕ → Type 0
Ascending from [] until = from ≤ until
Ascending from (marked id now ∷ es) until = Ascending from es until
Ascending from (scanned now pool ∷ es) until = (from ≤ now) × Ascending now es until

lookup-foreign_of :
    (id : String) (now : ℕ) (own active : Assoc ℕ)
    → lookup id (foreign_of now own active)
      ≡ (if is_own now (lookup id own) then none else lookup id active)
unfolding foreign_of lookup
lookup-foreign_of id now own [] = ground arith
lookup-foreign_of id now own ((name, mt) ∷ active) =
    let earlier = lookup-foreign_of id now own active in
    elim (Bool-cases (str_eq name id)) [
      | inl e ↦
          let same : lookup name own ≡ lookup id own =
            ap (λ k. lookup k own) ((eq_iff name id).0 e) in
          rw same (elim (Bool-cases (is_own now (lookup id own))) [
            | inl o ↦ ground (arith, e, o, earlier)
            | inr o ↦ ground (arith, e, o, earlier)
          ])
      | inr e ↦ elim (Bool-cases (is_own now (lookup name own))) [
        | inl o ↦ rw (o, e) earlier
        | inr o ↦ ground (arith, e, o, earlier)
      ]
    ]

-- From `now` on the records tell as much as the marks.
Records : String → ℕ → Option ℕ → SessionWatch → Type 0
Records id now found w =
    (later : ℕ) → now ≤ later → is_own later (lookup id w.own) ≡ is_own later found

-- What a scan drops is too old for every later one.
is_own-kept :
    (now later : ℕ) (o : Option ℕ)
    → now ≤ later
    → is_own later (elim o [ none ↦ none | some t ↦ still_own now t ]) ≡ is_own later o
is_own-kept now later none l = refl
is_own-kept now later (some t) l = ground arith

scan_now-Records :
    (id : String) (from now : ℕ) (pool : Option (List Slug)) (found : Option ℕ) (w : SessionWatch)
    → from ≤ now
    → Records id from found w
    → Records id now found (scan_now now pool w)
unfolding Records scan_now
scan_now-Records id from now none found w le r later l = r later (omega (arith, le, l))
scan_now-Records id from now (some slugs) found w le r later l =
    elim (Bool-cases (str_eq w.dir "")) [
      | inl e ↦ rw e (r later (omega (arith, le, l)))
      | inr e ↦
          rw (e, lookup-adjust id (still_own now) w.own)
            (is_own-kept now later (lookup id w.own) l ∙ r later (omega (arith, le, l)))
    ]

mark_own-Records :
    (id other : String) (from now : ℕ) (found : Option ℕ) (w : SessionWatch)
    → id ≢ ""
    → Records id from found w
    → Records id from (if str_eq other id then some now else found) (mark_own other now w)
unfolding Records mark_own
mark_own-Records id other from now found w n r later l = elim (Bool-cases (str_eq other "")) [
  | inl e ↦
      let other_id : str_eq other id ≡ false =
        ground (arith, e, n, eq_iff other id, eq_iff other "") in
      rw (e, other_id) (r later l)
  | inr e ↦
      rw (e, lookup-insert other id now w.own)
        (elim (Bool-cases (str_eq other id)) [ inl q ↦ rw q refl | inr q ↦ rw q (r later l) ])
]

run-Records :
    (id : String) (from until : ℕ) (es : List Event) (found : Option ℕ) (w : SessionWatch)
    → id ≢ ""
    → Ascending from es until
    → Records id from found w
    → Records id until (last_mark id es found) (run es w)
unfolding run step last_mark Ascending Records
run-Records id from until [] found w n a r = λ later l. r later (omega (arith, a, l))
run-Records id from until (marked other now ∷ es) found w n a r =
    run-Records id from until es (if str_eq other id then some now else found)
      (mark_own other now w) n a (mark_own-Records id other from now found w n r)
run-Records id from until (scanned now pool ∷ es) found w n (le, a) r =
    run-Records id now until es found (scan_now now pool w) n a
      (scan_now-Records id from now pool found w le r)

dir-scan_now :
    (now : ℕ) (pool : Option (List Slug)) (w : SessionWatch) → (scan_now now pool w).dir ≡ w.dir
unfolding scan_now
dir-scan_now now none w = refl
dir-scan_now now (some slugs) w = ground arith

dir-run : (es : List Event) (w : SessionWatch) → (run es w).dir ≡ w.dir
unfolding run step mark_own
dir-run [] w = refl
dir-run (marked id now ∷ es) w = dir-run es (mark_own id now w) ∙ ground arith
dir-run (scanned now pool ∷ es) w = dir-run es (scan_now now pool w) ∙ dir-scan_now now pool w

-- However the marks and the scans before are ordered, if the scans' clock does not go back: a scan of a pool
-- that can be read reports a session exactly if it is active there and was not marked in the half
-- hour before. That earlier scans drop old marks makes no difference.
pub foreign-Attributed :
    (dir id : String) (es : List Event) (now : ℕ) (slugs : List Slug)
    → dir ≢ ""
    → id ≢ ""
    → Ascending 0 es now
    → lookup id (scan_now now (some slugs) (run es (new_session_watch dir))).foreign
      ≡ (if is_own now (last_mark id es none) then none else lookup id (add_slugs now slugs []))
unfolding scan_now Records lookup
foreign-Attributed dir id es now slugs d n a =
    let w = run es (new_session_watch dir) in
    let known : str_eq w.dir "" ≡ false =
      ground (arith, d, dir-run es (new_session_watch dir), eq_iff w.dir "") in
    let same =
      run-Records id 0 now es none (new_session_watch dir) n a (λ later l. refl) now
        (omega arith) in
    rw (known, lookup-foreign_of id now w.own (add_slugs now slugs []), same) refl
