-- ===== src/Pty/FanOut/Tests.antt =====
-- A subscriber of a terminal at concrete inputs.
use myworktree.Prelude.{◌≡◌, refl, [], ◌∷◌, replicate}
use myworktree.Pty.FanOut.{
  Subscriber, Subs, new_subscriber, subscribe_output, broadcast, send, receive, drain_one, at_place,
  close_locked,
}
use myworktree.Pty.FanOut.Served.{Run, nobody, subscribed, sent, received, AllServed, Run-AllServed}

-- two chunks, of which the consumer has received the first
abbrev two_sent : Subs
two_sent = record (new_subscriber "i") { queue = (98 ∷ []) ∷ []; taken = (97 ∷ []) ∷ [] } ∷ []

two_sent-Run : Run two_sent (((97 ∷ []) ∷ (98 ∷ []) ∷ []) ∷ [])
unfolding subscribe_output broadcast send receive at_place
two_sent-Run =
    sent "i" (98 ∷ []) (received 0 (sent "i" (97 ∷ []) (subscribed "i" nobody refl) refl)) refl

Run-AllServed_example : AllServed two_sent (((97 ∷ []) ∷ (98 ∷ []) ∷ []) ∷ [])
Run-AllServed_example = Run-AllServed two_sent-Run

-- A full channel is closed by the next chunk. A round of the drain before the consumer comes back takes
-- the first chunk away, and the consumer receives the second.
abbrev full : Subscriber
full = record (new_subscriber "i") { queue = (97 ∷ []) ∷ (98 ∷ []) ∷ replicate 62 (99 ∷ []) }

drained_between : (receive (drain_one (send (100 ∷ []) full))).taken ≡ (98 ∷ []) ∷ []
unfolding send close_locked drain_one receive
drained_between = refl
