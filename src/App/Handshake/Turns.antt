-- ===== src/App/Handshake/Turns.antt =====
-- The loop of the replay comes to its end, whatever the reads answer.
use myworktree.Prelude.{
  ℕ, zero, suc, ◌+◌, ◌-◌, ◌<◌, ◌≡◌, ◌≢◌, Bool-cases, is_neg, ◌⊎◌, refl, Bool, true, Option, none,
  some, String, List, ℤ, pos, pos_part, arith, if◌then◌else◌, length, inl, inr,
}
use myworktree.Framework.RingBuffer.{Bytes}
use myworktree.Framework.Kind.{LogRead}
use myworktree.App.Handshake.{
  Log, Frame, Ending, done, refused, Place, Turn, stop, again, consult, deliver, turn, replay,
  replay_budget, chunk_bytes, start_place, is_follow_live_end, complete_handshake, first_connect,
  follow, finish,
}

-- how many rounds a place can still go on for
abbrev pub rounds_left : Place → ℕ
rounds_left p = (replay_budget - p.streamed) + (if p.is_first then 1 else 0)

some-none : {x : Option Ending} {e : Ending} → x ≡ some e → x ≢ none
some-none h = ground (arith, h)

pub Turn-cases :
    (t : Turn)
    → ((frames : List Frame) × (e : Ending) × (t ≡ stop frames e))
      ⊎ ((frames : List Frame) × (q : Place) × (t ≡ again frames q))
Turn-cases (stop frames e) = inl (frames, e, refl)
Turn-cases (again frames q) = inr (frames, q, refl)

module _ (sync_cap : Bool) (log : Log) where
  consult-rounds_left :
      (p q : Place) (r : LogRead) (frames : List Frame)
      → p.is_first ≡ true
      → consult sync_cap p r ≡ again frames q
      → rounds_left q < rounds_left p
  unfolding consult
  consult-rounds_left p q r frames first e = ground arith

  deliver-rounds_left :
      (p q : Place) (body : Bytes) (next : ℤ) (frames : List Frame)
      → p.streamed < replay_budget
      → 0 < length body
      → deliver sync_cap p body next ≡ again frames q
      → rounds_left q < rounds_left p
  unfolding deliver
  deliver-rounds_left p q body next frames h k e = ground arith

  turn-rounds_left :
      (p q : Place) (frames : List Frame)
      → turn sync_cap log p ≡ again frames q
      → rounds_left q < rounds_left p
  unfolding turn
  turn-rounds_left p q frames e =
      let r = log.read_at p.reads (pos p.cursor) (pos chunk_bytes) in
      let read = record p { reads = suc p.reads } in
      let asked = record read { reads = suc read.reads } in
      ground (
        arith,
        deliver-rounds_left read q r.body r.offset frames,
        consult-rounds_left asked q (log.tail_at read.reads (pos chunk_bytes)) frames,
      )

  replay-ends :
      (fuel : ℕ) (p : Place)
      → rounds_left p < fuel
      → (e : Ending) × ((replay sync_cap log fuel p).1 ≡ some e)
  unfolding replay
  replay-ends zero p h = absurd (omega (arith, h))
  replay-ends (suc fuel) p h = elim (Turn-cases (turn sync_cap log p)) [
    | inl (frames, e, t) ↦ (e, rw (t, replay) refl)
    | inr (frames, q, t) ↦
        let rest = replay-ends fuel q (omega (arith, h, turn-rounds_left p q frames t)) in
        (rest.0, rw (t, replay) rest.1)
  ]

  finish-ends :
      (up : ℕ) (subscribed : Option String) (r : List Frame × Option Ending)
      → r.1 ≢ none
      → (finish sync_cap log up subscribed r).1 ≢ none
  unfolding finish
  finish-ends up subscribed (frames, none) h = h
  finish-ends up subscribed (frames, some refused) h = ground arith
  finish-ends up subscribed (frames, some (done off)) h = ground arith

  follow-ends : (up : ℕ) (r : ℕ × Option String) → (follow sync_cap log up r).1 ≢ none
  unfolding follow
  follow-ends up (off, none) = ground arith
  follow-ends up (off, some e) = ground arith

  first_connect-ends : (up : ℕ) (r : LogRead) → (first_connect sync_cap log up r).1 ≢ none
  unfolding first_connect
  first_connect-ends up r = ground arith

  -- The handshake comes to an end, for every cursor and whatever the reads of the log answer: the loop
  -- never uses up its fuel of two rounds more than the budget has bytes.
  pub complete_handshake-ends :
      (since : ℤ) (up : ℕ) (subscribed : Option String)
      → (complete_handshake sync_cap log since up subscribed).1 ≢ none
  unfolding complete_handshake
  complete_handshake-ends since up subscribed =
      let start = start_place sync_cap log (pos_part since) up in
      let (e, looped) = replay-ends (replay_budget + 2) start (omega arith) in
      let ended : (replay sync_cap log (replay_budget + 2) start).1 ≢ none = some-none looped in
      let head = first_connect sync_cap log up (log.tail_at 0 (pos chunk_bytes)) in
      elim (Bool-cases (is_follow_live_end since)) [
        | inl f ↦
            rw (f, complete_handshake)
              (finish-ends up subscribed (follow sync_cap log up (log.end_at 0))
                (follow-ends up (log.end_at 0)))
        | inr f ↦ elim (Bool-cases (is_neg since)) [
          | inl g ↦
              rw (f, g, complete_handshake)
                (finish-ends up subscribed head
                  (first_connect-ends up (log.tail_at 0 (pos chunk_bytes))))
          | inr g ↦
              rw (f, g, complete_handshake)
                (finish-ends up subscribed (replay sync_cap log (replay_budget + 2) start) ended)
        ]
      ]
