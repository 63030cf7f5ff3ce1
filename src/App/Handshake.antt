-- ===== src/App/Handshake.antt =====
-- internal/app/app.go: `completeHandshake` of `handleTTYWS`, which replays what a client has not seen of
-- an instance's output, tells it the offset that the replay ends at, and subscribes it to what follows.
pub mod Turns
pub mod Wire
pub mod Contiguous
pub mod Rings
use myworktree.Prelude.{
  ℕ, zero, suc, ◌+◌, ◌-◌, ◌*◌, Bool, true, false, not, ◌&&◌, ◌||◌, Option, none, some, String, List,
  [], ◌∷◌, ◌++◌, ℤ, pos, negsuc, pos_part, is_neg, leb_int, minus, ltb, leb, ◌==◌, length, take,
  if◌then◌else◌,
}
use myworktree.Framework.RingBuffer.{Bytes}
use myworktree.Framework.Kind.{LogRead}
use myworktree.Framework.Manager.{Manager}
use myworktree.Framework.Manager.Config.{Config}
use myworktree.Framework.Manager.Logs.{tail_log, end_offset, read_log_since}

-- `64*1024`, the size of a read
abbrev pub chunk_bytes : ℕ
chunk_bytes = 65536

-- `ttyHandshakeReplayBudget`
abbrev pub replay_budget : ℕ
replay_budget = 8388608

-- `sinceFollowLiveEnd`, which is -2
abbrev pub is_follow_live_end : ℤ → Bool
is_follow_live_end (pos n) = false
is_follow_live_end (negsuc n) = n == 1

-- The three reads of an instance's log that the handshake makes, by the count of the reads before: the
-- instance goes on writing between them.
pub record Log : Type 0 where
  pub end_at : ℕ → ℕ × Option String
  pub tail_at : ℕ → ℤ → LogRead
  pub read_at : ℕ → ℤ → ℤ → LogRead

-- the log of an instance, by the manager's state at each read
abbrev pub manager_log : {W : Type 0} → Config W → String → (ℕ → Manager W) → Log
manager_log c id states = record {
  end_at = λ n. end_offset c id (states n);
  tail_at = λ n size. tail_log c id size (states n);
  read_at = λ n since size. read_log_since c id since size (states n);
}

-- What is written to the client: the offset that a replay starts at, bytes of the log, the offset that
-- the replay ends at, and the close frame 1013 with an error.
pub data Frame : Type 0 where
  start_sync : ℤ → Frame
  binary : Bytes → Frame
  sync : ℤ → Frame
  close_1013 : String → Frame

-- The end of the replay: at an end offset, or with the connection given up.
pub data Ending : Type 0 where
  done : ℤ → Ending
  refused : Ending

-- The variables of the loop. `reads` counts the reads made; `up` is the number of frames that the
-- connection still takes before it breaks.
pub record Place : Type 0 where
  pub cursor : ℕ
  pub streamed : ℕ
  pub is_first : Bool
  pub start_published : Bool
  pub end_offset : ℤ
  pub reads : ℕ
  pub up : ℕ

-- One round of the loop: it writes frames, and ends the loop or goes on.
pub data Turn : Type 0 where
  stop : List Frame → Ending → Turn
  again : List Frame → Place → Turn

-- the close frame, whose own write may fail
abbrev shut : ℕ → String → List Frame
shut up e = take up (close_1013 e ∷ [])

-- frames written one after another; the first failure gives the connection up
abbrev pub write_then : ℕ → List Frame → (ℕ → Turn) → Turn
write_then up frames next =
    if leb (length frames) up then next (up - length frames) else stop (take up frames) refused

module _ (sync_cap : Bool) where
  abbrev pub start_frame : ℤ → List Frame
  start_frame start = if sync_cap then start_sync start ∷ [] else []

  -- a first read without text: the tail tells how the cursor stands to the head
  pub consult : Place → LogRead → Turn
  consult p r = elim r.log_error [
    | some e ↦ stop (shut p.up e) refused
    | none ↦
        if not (leb p.cursor (pos_part r.offset))
        then (if length r.body == 0
            then stop [] (done r.offset)
            else write_then p.up
                (start_frame (minus r.offset (length r.body)) ++ (binary r.body ∷ []))
                (λ up.
                  stop (start_frame (minus r.offset (length r.body)) ++ (binary r.body ∷ []))
                    (done r.offset)))
        else if not (leb_int r.offset p.cursor)
        then again [] (record p { is_first = false })
        else stop [] (done r.offset)
  ]

  -- a read with text: it is written at once
  pub deliver : Place → Bytes → ℤ → Turn
  deliver p body next =
      let frames =
        (if p.start_published then [] else start_frame (minus next (length body)))
        ++ (binary body ∷ []) in
      write_then p.up frames (λ up.
        if leb_int next p.cursor
        then stop frames (done next)
        else again frames (record p {
          cursor = pos_part next;
          streamed = p.streamed + length body;
          is_first = false;
          start_published = true;
          end_offset = next;
          up = up;
        }))

  module _ (log : Log) where
    unfoldable pub turn : Place → Turn
    unfolding consult deliver
    turn p =
        let r = log.read_at p.reads (pos p.cursor) (pos chunk_bytes) in
        let read = record p { reads = suc p.reads } in
        if leb replay_budget p.streamed then stop [] (done p.end_offset) else elim r.log_error [
          | some e ↦ stop (shut p.up e) refused
          | none ↦
              if not (length r.body == 0)
              then deliver read r.body r.offset
              else if not p.is_first
              then stop [] (done r.offset)
              else consult (record read { reads = suc read.reads })
                  (log.tail_at read.reads (pos chunk_bytes))
        ]

    -- The loop, with `none` for the end where the fuel has run out.
    unfoldable pub replay : ℕ → Place → List Frame × Option Ending
    replay zero p = ([], none)
    replay (suc fuel) p = elim (turn p) [
      | stop frames e ↦ (frames, some e)
      | again frames q ↦ let rest = replay fuel q in (frames ++ rest.0, rest.1)
    ]

    abbrev pub start_place : ℕ → ℕ → Place
    start_place since up = record {
      cursor = since;
      streamed = 0;
      is_first = true;
      start_published = false;
      end_offset = pos 0;
      reads = 0;
      up = up;
    }

    -- a first connect gets the tail
    pub first_connect : ℕ → LogRead → List Frame × Option Ending
    first_connect up r = elim r.log_error [
      | some e ↦ (shut up e, some refused)
      | none ↦
          if length r.body == 0
          then ([], some (done r.offset))
          else if up == 0
          then ([], some refused)
          else (binary r.body ∷ [], some (done r.offset))
    ]

    pub follow : ℕ → ℕ × Option String → List Frame × Option Ending
    follow up (off, none) = ([], some (done (pos off)))
    follow up (off, some e) = (shut up e, some refused)

    -- the offset echo and the subscription, which answers `none` or an error
    pub finish : ℕ → Option String → List Frame × Option Ending → List Frame × Option Ending
    finish up subscribed (frames, none) = (frames, none)
    finish up subscribed (frames, some refused) = (frames, some refused)
    finish up subscribed (frames, some (done off)) =
        let echoed = frames ++ (if sync_cap then sync off ∷ [] else []) in
        if not (leb (length echoed) up) then (frames, some refused) else elim subscribed [
          | none ↦ (echoed, some (done off))
          | some e ↦ (echoed ++ shut (up - length echoed) e, some refused)
        ]

    unfoldable pub complete_handshake : ℤ → ℕ → Option String → List Frame × Option Ending
    unfolding first_connect follow finish
    complete_handshake since up subscribed = finish up subscribed (
        if is_follow_live_end since
        then follow up (log.end_at 0)
        else if is_neg since
        then first_connect up (log.tail_at 0 (pos chunk_bytes))
        else replay (replay_budget + 2) (start_place (pos_part since) up))
