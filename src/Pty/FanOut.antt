-- ===== src/Pty/FanOut.antt =====
-- internal/instance/pty/driver.go: the output of the instances, sent to the subscribers of each. A
-- subscriber is its place in the list, which stands for the pointer; it is in the map `subs` under its
-- instance as long as it is registered.
pub mod Served
mod Tests
use myworktree.Prelude.{
  ℕ, zero, suc, Bool, true, false, ◌&&◌, ◌||◌, Option, none, some, String, List, [], ◌∷◌, ◌++◌,
  str_eq, ltb, length, ◌==◌, if◌then◌else◌, map,
}
use myworktree.Framework.RingBuffer.{Bytes}

-- `cap(ch)`
abbrev pub queue_cap : ℕ
queue_cap = 64

-- The channel has what is queued; `taken` is what the consumer has received from it.
pub record Subscriber : Type 0 where
  pub instance_id : String
  pub registered : Bool
  pub closed : Bool
  pub queue : List Bytes
  pub taken : List Bytes

abbrev pub Subs : Type 0
Subs = List Subscriber

abbrev pub new_subscriber : String → Subscriber
new_subscriber id = record {
  instance_id = id;
  registered = true;
  closed = false;
  queue = [];
  taken = [];
}

-- `SubscribeOutput`; `none` is its error
unfoldable pub subscribe_output : String → Subs → Option Subs
subscribe_output id s = if str_eq id "" then none else some (s ++ (new_subscriber id ∷ []))

-- with whether this call has closed the channel
unfoldable pub close_locked : Subscriber → Subscriber × Bool
close_locked x = if x.closed then (x, false) else (record x { closed = true }, true)

-- the `cancel` that a subscriber gets
unfoldable pub cancel_output : Subscriber → Subscriber
cancel_output x = (close_locked (record x { registered = false })).0

-- a chunk for a subscriber in the map; a full channel is closed and given up
unfoldable pub send : Bytes → Subscriber → Subscriber
send chunk x =
    if ltb (length x.queue) queue_cap
    then record x { queue = x.queue ++ (chunk ∷ []) }
    else (close_locked (record x { registered = false })).0

-- `broadcast` up to its unlock
unfoldable pub broadcast : String → Bytes → Subs → Subs
broadcast id chunk s =
    if length chunk == 0 || str_eq id ""
    then s
    else map (λ x. if x.registered && str_eq x.instance_id id then send chunk x else x) s

-- The consumer receives, if the channel has something.
unfoldable pub receive : Subscriber → Subscriber
receive x = elim x.queue [ [] ↦ x | c ∷ cs ↦ record x { queue = cs; taken = x.taken ++ (c ∷ []) } ]

-- one round of `drain`, which runs on a closed channel after the unlock
unfoldable pub drain_one : Subscriber → Subscriber
drain_one x = elim x.queue [ [] ↦ x | c ∷ cs ↦ if x.closed then record x { queue = cs } else x ]

-- one subscriber is changed
unfoldable pub at_place : ℕ → (Subscriber → Subscriber) → Subs → Subs
at_place n f [] = []
at_place zero f (x ∷ xs) = f x ∷ xs
at_place (suc n) f (x ∷ xs) = x ∷ at_place n f xs
