-- ===== src/App/Handshake/Contiguous.antt =====
-- The turns of a replay whose reads are faithful: each delivers the bytes from the cursor on.
pub mod Resumed
use mathlib.Core.Option
use mathlib.Core.List.{append-nil, append_assoc}
use myworktree.Prelude.{length-append}
use myworktree.Prelude.{
  ℕ, zero, suc, ◌+◌, ◌-◌, ◌≤◌, ◌<◌, ◌≡◌, ◌≢◌, ◌⊎◌, refl, sym, ap, ap₂, ◌∙◌, Bool, true, false, not,
  ◌||◌, ◌==◌, Option, none, some, String, List, [], ◌∷◌, ◌++◌, ℤ, pos, pos_part, arith,
  if◌then◌else◌, length, inl, inr, Bool-cases, ltb, leb, min, minus,
}
use myworktree.Framework.RingBuffer.{Bytes}
use myworktree.Framework.Kind.{LogRead}
use myworktree.App.Handshake.{
  Log, Frame, start_sync, binary, sync, close_1013, Ending, done, refused, Place, Turn, stop, again,
  consult, deliver, turn, replay, replay_budget, chunk_bytes, start_place, complete_handshake,
}
use myworktree.App.Handshake.Turns.{Turn-cases}
use myworktree.App.Handshake.Wire.{
  slice, payload, starts, length-slice, slice-append, payload-append, starts-append, Faithful,
}

module _ (sync_cap : Bool) (log : Log) (out head : ℕ → ℕ) (since : ℕ)
    (faithful : Faithful log out head since) where
  -- a place of the loop that has delivered what stands before its cursor
  pub record IsGood (p : Place) : Type 0 where
    pub kept : since ≤ p.cursor
    pub behind : p.cursor ≤ head p.reads
    pub echoed : 0 < p.streamed → p.end_offset ≡ pos p.cursor
    pub bounded : p.streamed < replay_budget + chunk_bytes

  deliver-again :
      (p q : Place) (n : ℕ) (frames : List Frame)
      → 0 < n
      → deliver sync_cap p (slice out p.cursor n) (pos (p.cursor + n)) ≡ again frames q
      → (q.cursor ≡ p.cursor + n)
        × (q.streamed ≡ p.streamed + n)
        × (q.end_offset ≡ pos q.cursor)
        × (q.reads ≡ p.reads)
        × (q.start_published ≡ true)
        × (payload frames ≡ slice out p.cursor n)
        × (starts frames ≡ (if p.start_published || not sync_cap then [] else pos p.cursor ∷ []))
  unfolding deliver
  deliver-again p q n frames h e =
      ground (arith, length-slice out p.cursor n, append-nil (slice out p.cursor n))

  deliver-stop :
      (p : Place) (n : ℕ) (frames : List Frame) (e : Ending)
      → 0 < n
      → deliver sync_cap p (slice out p.cursor n) (pos (p.cursor + n)) ≡ stop frames e
      → e ≡ refused
  unfolding deliver
  deliver-stop p n frames e h q = ground (arith, length-slice out p.cursor n)

  -- how many bytes the read of a place gives
  abbrev given : Place → ℕ
  given p = min chunk_bytes (head p.reads - p.cursor)

  abbrev read_on : Place → Place
  read_on p = record p { reads = suc p.reads }

  -- the turns of a place that has not used up the budget, by whether the read gives any byte
  turn-text :
      (p : Place)
      → IsGood p
      → p.streamed < replay_budget
      → 0 < given p
      → turn sync_cap log p
        ≡ deliver sync_cap (read_on p) (slice out p.cursor (given p)) (pos (p.cursor + given p))
  unfolding turn
  turn-text p good h k =
      ground (arith, faithful.reads p.reads p.cursor good.kept, length-slice out p.cursor (given p))

  turn-no_text :
      (p : Place)
      → IsGood p
      → p.streamed < replay_budget
      → given p ≡ 0
      → turn sync_cap log p ≡ (
          if not p.is_first
          then stop [] (done (pos p.cursor))
          else if p.cursor == head (suc p.reads)
          then stop [] (done (pos p.cursor))
          else again [] (record p { reads = suc (suc p.reads); is_first = false }))
  unfolding turn consult
  turn-no_text p good h k = ground (
    arith,
    faithful.reads p.reads p.cursor good.kept,
    length-slice out p.cursor (given p),
    good.behind,
    faithful.grows p.reads,
    faithful.tails (suc p.reads),
  )

  turn-spent :
      (p : Place) → replay_budget ≤ p.streamed → turn sync_cap log p ≡ stop [] (done p.end_offset)
  unfolding turn
  turn-spent p h = ground arith

  -- what is shown of a turn that goes on, from a place to the next
  pub record Onward (p q : Place) (frames : List Frame) : Type 0 where
    pub good : IsGood q
    pub later : p.reads ≤ q.reads
    pub moves : q.cursor ≡ p.cursor + length (payload frames)
    pub counts : q.streamed ≡ p.streamed + length (payload frames)
    pub text : payload frames ≡ slice out p.cursor (length (payload frames))
    pub marks : q.start_published ≡ (p.start_published || not (length (payload frames) == 0))
    pub start : starts frames ≡ (
        if p.start_published || not sync_cap || length (payload frames) == 0
        then []
        else pos p.cursor ∷ [])

  pub record Final (p : Place) (frames : List Frame) (off : ℤ) : Type 0 where
    pub no_text : payload frames ≡ []
    pub no_start : starts frames ≡ []
    pub at_cursor : off ≡ pos p.cursor
    pub spent_or_level : (replay_budget ≤ p.streamed) ⊎ (p.cursor ≡ head p.reads)

  Onward-text :
      (p q : Place) (n : ℕ) (frames : List Frame)
      → IsGood p
      → p.streamed < replay_budget
      → n ≡ given p
      → 0 < n
      → deliver sync_cap (read_on p) (slice out p.cursor n) (pos (p.cursor + n)) ≡ again frames q
      → Onward p q frames
  Onward-text p q n frames good h g k e =
      let (c, s, o, r, m, t, a) = deliver-again (read_on p) q n frames k e in
      let len : length (payload frames) ≡ n = ap length t ∙ length-slice out p.cursor n in
      record {
        good = record {
          kept = omega (arith, good.kept, c);
          behind = ground (arith, c, r, g, good.behind, faithful.grows p.reads);
          echoed = λ _. o;
          bounded = omega (arith, s, g, h);
        };
        later = omega (arith, r);
        moves = omega (arith, c, len);
        counts = omega (arith, s, len);
        text = t ∙ ap (slice out p.cursor) (sym len);
        marks = ground (arith, m, len, k);
        start = ground (arith, a, len, k);
      }

  Onward-no_text :
      (p q : Place) (frames : List Frame)
      → IsGood p
      → p.is_first ≡ true
      → frames ≡ []
      → q ≡ record p { reads = suc (suc p.reads); is_first = false }
      → Onward p q frames
  Onward-no_text p q frames good first nil e = record {
    good = record {
      kept = ground (arith, e, good.kept);
      behind = ground (arith, e, good.behind, faithful.grows p.reads, faithful.grows (suc p.reads));
      echoed = ground (arith, e, good.echoed);
      bounded = ground (arith, e, good.bounded);
    };
    later = ground (arith, e);
    moves = ground (arith, e, nil);
    counts = ground (arith, e, nil);
    text = ground (arith, nil);
    marks = ground (arith, e, nil);
    start = ground (arith, nil);
  }

  pub turn-Onward :
      (p q : Place) (frames : List Frame)
      → IsGood p
      → turn sync_cap log p ≡ again frames q
      → Onward p q frames
  turn-Onward p q frames good e = elim (Bool-cases (leb replay_budget p.streamed)) [
    | inl spent ↦ absurd (ground (arith, turn-spent p))
    | inr more ↦ elim (Bool-cases (given p == 0)) [
      | inl nil ↦
          let t = sym (turn-no_text p good (ground (arith, more)) (ground (arith, nil))) ∙ e in
          Onward-no_text p q frames good (ground (arith, t)) (ground (arith, t)) (ground (arith, t))
      | inr some_ ↦
          Onward-text p q (given p) frames good (ground (arith, more)) refl (ground (arith, some_))
            (sym (turn-text p good (ground (arith, more)) (ground (arith, some_))) ∙ e)
    ]
  ]

  pub turn-Final :
      (p : Place) (frames : List Frame) (off : ℤ)
      → IsGood p
      → turn sync_cap log p ≡ stop frames (done off)
      → Final p frames off
  turn-Final p frames off good e = elim (Bool-cases (leb replay_budget p.streamed)) [
    | inl spent ↦
        let t = sym (turn-spent p (ground (arith, spent))) ∙ e in
        record {
          no_text = ground (arith, t);
          no_start = ground (arith, t);
          at_cursor = ground (arith, t, spent, good.echoed);
          spent_or_level = inl (ground (arith, spent));
        }
    | inr more ↦ elim (Bool-cases (given p == 0)) [
      | inl nil ↦
          let t = sym (turn-no_text p good (ground (arith, more)) (ground (arith, nil))) ∙ e in
          record {
            no_text = ground (arith, t);
            no_start = ground (arith, t);
            at_cursor = ground (arith, t);
            spent_or_level = inr (ground (arith, nil, good.behind));
          }
      | inr some_ ↦
          let t = sym (turn-text p good (ground (arith, more)) (ground (arith, some_))) ∙ e in
          absurd (
            ground (
              arith,
              deliver-stop (read_on p) (given p) frames (done off) (ground (arith, some_)) t,
            ))
    ]
  ]
