-- ===== src/App/Handshake/Contiguous/Resumed.antt =====
-- What a client that reconnects with a cursor gets: the bytes from its cursor on, each once and in order.
use myworktree.Prelude.{length-append}
use myworktree.Prelude.{
  ℕ, zero, suc, ◌+◌, ◌≤◌, ◌<◌, ◌≡◌, ◌⊎◌, sym, ap, ap₂, ◌∙◌, Bool, not, ◌||◌, ◌==◌, Option, none,
  some, String, List, [], ◌∷◌, ◌++◌, ℤ, pos, arith, if◌then◌else◌, length, inl, inr,
}
use myworktree.App.Handshake.{
  Log, Frame, sync, Ending, done, refused, Place, stop, turn, replay, replay_budget, chunk_bytes,
  start_place, complete_handshake, finish,
}
use myworktree.App.Handshake.Turns.{Turn-cases}
use myworktree.App.Handshake.Wire.{
  slice, payload, starts, slice-append, payload-append, starts-append, Faithful,
}
use myworktree.App.Handshake.Contiguous.{IsGood, Onward, Final, turn-Onward, turn-Final}

module _ (sync_cap : Bool) (log : Log) (out head : ℕ → ℕ) (since : ℕ)
    (faithful : Faithful log out head since) where
  abbrev Good : Place → Type 0
  Good = IsGood sync_cap log out head since faithful

  abbrev Next : Place → Place → List Frame → Type 0
  Next = Onward sync_cap log out head since faithful

  abbrev Last : Place → List Frame → ℤ → Type 0
  Last = Final sync_cap log out head since faithful

  record Replayed (p : Place) (frames : List Frame) (off : ℤ) : Type 0 where
    at_end : off ≡ pos (p.cursor + length (payload frames))
    text : payload frames ≡ slice out p.cursor (length (payload frames))
    start : starts frames ≡ (
        if p.start_published || not sync_cap || length (payload frames) == 0
        then []
        else pos p.cursor ∷ [])
    bounded : p.streamed + length (payload frames) < replay_budget + chunk_bytes
    complete :
        (replay_budget ≤ p.streamed + length (payload frames))
        ⊎ ((n : ℕ) × (p.reads ≤ n) × (off ≡ pos (head n)))

  Replayed-final :
      (p : Place) (frames : List Frame) (off : ℤ)
      → Good p
      → Last p frames off
      → Replayed p frames off
  Replayed-final p frames off good f = record {
    at_end = ground (arith, f.at_cursor, f.no_text);
    text = ground (arith, f.no_text);
    start = ground (arith, f.no_text, f.no_start);
    bounded = ground (arith, f.no_text, good.bounded);
    complete = elim f.spent_or_level [
      | inl spent ↦ inl (ground (arith, spent, f.no_text))
      | inr level ↦ inr (p.reads, omega arith, f.at_cursor ∙ ap pos level)
    ];
  }

  Replayed-onward :
      (p q : Place) (frames rest : List Frame) (off : ℤ)
      → Next p q frames
      → Replayed q rest off
      → Replayed p (frames ++ rest) off
  Replayed-onward p q frames rest off o r =
      let a = length (payload frames) in
      let b = length (payload rest) in
      let both : length (payload (frames ++ rest)) ≡ a + b =
        ap length (payload-append frames rest) ∙ length-append (payload frames) (payload rest) in
      record {
        at_end = ground (arith, r.at_end, o.moves, both);
        text =
            payload-append frames rest
            ∙ ap₂ (λ x y. x ++ y) o.text (r.text ∙ ap (λ x. slice out x b) o.moves)
            ∙ slice-append out p.cursor a b
            ∙ ap (slice out p.cursor) (sym both);
        start = ground (arith, starts-append frames rest, o.start, r.start, o.marks, o.moves, both);
        bounded = omega (arith, r.bounded, o.counts, both);
        complete = elim r.complete [
          | inl spent ↦ inl (omega (arith, spent, o.counts, both))
          | inr (n, l, e) ↦ inr (n, omega (arith, l, o.later), e)
        ];
      }

  replay-Replayed :
      (fuel : ℕ) (p : Place) (off : ℤ)
      → Good p
      → (replay sync_cap log fuel p).1 ≡ some (done off)
      → Replayed p (replay sync_cap log fuel p).0 off
  unfolding replay
  replay-Replayed zero p off good e = absurd (ground arith)
  replay-Replayed (suc fuel) p off good e = elim (Turn-cases (turn sync_cap log p)) [
    | inl (frames, end, t) ↦
        let stops : turn sync_cap log p ≡ stop frames (done off) = ground (arith, t, e) in
        rw (t, replay)
          (Replayed-final p frames off good
            (turn-Final sync_cap log out head since faithful p frames off good stops))
    | inr (frames, q, t) ↦
        let on = turn-Onward sync_cap log out head since faithful p q frames good t in
        let ends : (replay sync_cap log fuel q).1 ≡ some (done off) = ground (arith, t, e) in
        rw (t, replay)
          (Replayed-onward p q frames (replay sync_cap log fuel q).0 off on
            (replay-Replayed fuel q off on.good ends))
  ]

  finish-done :
      (up : ℕ) (subscribed : Option String) (r : List Frame × Option Ending) (frames : List Frame)
      (off : ℤ)
      → finish sync_cap log up subscribed r ≡ (frames, some (done off))
      → (r.1 ≡ some (done off)) × (frames ≡ r.0 ++ (if sync_cap then sync off ∷ [] else []))
  unfolding finish
  finish-done up subscribed (fs, none) frames off e = absurd (ground arith)
  finish-done up subscribed (fs, some refused) frames off e = absurd (ground arith)
  finish-done up subscribed (fs, some (done z)) frames off e = ground arith

  start-Good : (up : ℕ) → since ≤ head 0 → Good (start_place sync_cap log since up)
  start-Good up reached = record {
    kept = omega arith;
    behind = reached;
    echoed = λ h. absurd (omega (arith, h));
    bounded = omega arith;
  }

  -- The frames that a handshake writes before the echo, and the offset that it ends at.
  pub record Resumed (before : List Frame) (off : ℤ) : Type 0 where
    pub at_end : off ≡ pos (since + length (payload before))
    pub text : payload before ≡ slice out since (length (payload before))
    pub start :
        starts before
        ≡ (if not sync_cap || length (payload before) == 0 then [] else pos since ∷ [])
    pub bounded : length (payload before) < replay_budget + chunk_bytes
    pub complete : (replay_budget ≤ length (payload before)) ⊎ ((n : ℕ) × (off ≡ pos (head n)))

  -- A client reconnects with a cursor that the log has reached and that it keeps throughout. If the
  -- handshake succeeds, the client has got the bytes from its cursor up to the offset that the echo names,
  -- each once and in order, behind one frame with the start offset if there are any; they are fewer than
  -- the budget and one more read; and they reach the end of the log at some read, or use up the budget.
  pub complete_handshake-Resumed :
      (up : ℕ) (subscribed : Option String) (frames : List Frame) (off : ℤ)
      → since ≤ head 0
      → complete_handshake sync_cap log (pos since) up subscribed ≡ (frames, some (done off))
      → (before : List Frame) × (frames ≡ before ++ (if sync_cap then sync off ∷ [] else []))
        × Resumed before off
  unfolding complete_handshake
  complete_handshake-Resumed up subscribed frames off reached e =
      let start = start_place sync_cap log since up in
      let r = replay sync_cap log (replay_budget + 2) start in
      let (ends, split) = finish-done up subscribed r frames off e in
      let done_ = replay-Replayed (replay_budget + 2) start off (start-Good up reached) ends in
      (
        r.0,
        split,
        record {
          at_end = done_.at_end;
          text = done_.text;
          start = done_.start;
          bounded = omega (arith, done_.bounded);
          complete = elim done_.complete [
            | inl spent ↦ inl (omega (arith, spent))
            | inr (n, l, level) ↦ inr (n, level)
          ];
        },
      )
