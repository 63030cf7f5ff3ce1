-- ===== src/Pty/FanOut/Served.antt =====
-- What a subscriber gets, whatever the consumers, the cancels and the drains do in between.
use myworktree.Prelude.{
  ℕ, zero, suc, ◌≤◌, ◌≡◌, ◌⊎◌, subst, refl, true, false, ◌&&◌, ◌||◌, some, String, List, [], ◌∷◌,
  ◌++◌, str_eq, length, ◌==◌, if◌then◌else◌, map, arith, length-append, Bool-cases, inl, inr,
}
use mathlib.Core.Bool.{false≢true}
use mathlib.Core.List.{append_assoc}
use myworktree.Framework.RingBuffer.{Bytes}
use myworktree.Pty.FanOut.{
  Subscriber, Subs, queue_cap, new_subscriber, subscribe_output, close_locked, cancel_output, send,
  broadcast, receive, drain_one, at_place,
}

-- A chunk is due to each subscriber of its instance, whether or not it is still registered.
abbrev pub add_due : String → Bytes → Subs → List (List Bytes) → List (List Bytes)
add_due id chunk [] due = due
add_due id chunk (x ∷ xs) [] = []
add_due id chunk (x ∷ xs) (d ∷ due) =
    (if str_eq x.instance_id id then d ++ (chunk ∷ []) else d) ∷ add_due id chunk xs due

-- The runs from an empty map, with the chunks that have been due to each subscriber since it came.
pub data Run : Subs → List (List Bytes) → Type 0 where
  nobody : Run [] []
  subscribed :
      {s t : Subs} {due : List (List Bytes)} (id : String)
      → Run s due
      → subscribe_output id s ≡ some t
      → Run t (due ++ ([] ∷ []))
  sent :
      {s : Subs} {due : List (List Bytes)} (id : String) (chunk : Bytes)
      → Run s due
      → (length chunk == 0 || str_eq id "") ≡ false
      → Run (broadcast id chunk s) (add_due id chunk s due)
  received :
      {s : Subs} {due : List (List Bytes)} (n : ℕ) → Run s due → Run (at_place n receive s) due
  cancelled :
      {s : Subs} {due : List (List Bytes)} (n : ℕ)
      → Run s due
      → Run (at_place n cancel_output s) due
  drained :
      {s : Subs} {due : List (List Bytes)} (n : ℕ) → Run s due → Run (at_place n drain_one s) due

-- An open channel is in the map and misses nothing of what was due; a closed one is not in the map,
-- so that nothing is sent to it; no channel has more than it holds.
pub record IsServed (x : Subscriber) (d : List Bytes) : Type 0 where
  pub registered : x.closed ≡ false → x.registered ≡ true
  pub complete : x.closed ≡ false → x.taken ++ x.queue ≡ d
  pub off_map : x.closed ≡ true → x.registered ≡ false
  pub bounded : length x.queue ≤ queue_cap

pub data AllServed : Subs → List (List Bytes) → Type 0 where
  nil : AllServed [] []
  cons :
      {x : Subscriber} {d : List Bytes} {s : Subs} {due : List (List Bytes)}
      → IsServed x d
      → AllServed s due
      → AllServed (x ∷ s) (d ∷ due)

queue-cases : (q : List Bytes) → (q ≡ []) ⊎ ((c : Bytes) × (cs : List Bytes) × (q ≡ c ∷ cs))
queue-cases [] = inl refl
queue-cases (c ∷ cs) = inr (c, cs, refl)

receive-IsServed : (x : Subscriber) (d : List Bytes) → IsServed x d → IsServed (receive x) d
unfolding receive
receive-IsServed x d v = elim (queue-cases x.queue) [
  | inl e ↦ rw (e, receive) v
  | inr (c, cs, e) ↦ record {
    registered = ground (arith, e, v);
    complete = ground (arith, e, v, append_assoc x.taken (c ∷ []) cs);
    off_map = ground (arith, e, v);
    bounded = ground (arith, e, v);
  }
]

drain_one-IsServed : (x : Subscriber) (d : List Bytes) → IsServed x d → IsServed (drain_one x) d
unfolding drain_one
drain_one-IsServed x d v = elim (queue-cases x.queue) [
  | inl e ↦ rw (e, drain_one) v
  | inr (c, cs, e) ↦ record {
    registered = ground (arith, e, v);
    complete = ground (arith, e, v);
    off_map = ground (arith, e, v);
    bounded = ground (arith, e, v);
  }
]

cancel_output-IsServed :
    (x : Subscriber) (d : List Bytes) → IsServed x d → IsServed (cancel_output x) d
unfolding cancel_output close_locked
cancel_output-IsServed x d v = record {
  registered = ground (arith, v);
  complete = ground (arith, v);
  off_map = ground (arith, v);
  bounded = ground (arith, v);
}

send-IsServed :
    (chunk : Bytes) (x : Subscriber) (d : List Bytes)
    → x.registered ≡ true
    → IsServed x d
    → IsServed (send chunk x) (d ++ (chunk ∷ []))
unfolding send close_locked
send-IsServed chunk x d r v = record {
  registered = ground (arith, v, r);
  complete = ground (arith, v, r, append_assoc x.taken x.queue (chunk ∷ []));
  off_map = ground (arith, v, r);
  bounded = ground (arith, v, r, length-append x.queue (chunk ∷ []));
}

-- a subscriber that the chunk is not for, or that has been closed
kept-IsServed :
    (id : String) (chunk : Bytes) (x : Subscriber) (d : List Bytes)
    → IsServed x d
    → IsServed
        (if x.registered && str_eq x.instance_id id then send chunk x else x)
        (if str_eq x.instance_id id then d ++ (chunk ∷ []) else d)
kept-IsServed id chunk x d v = elim (Bool-cases x.registered) [
  | inl r ↦ elim (Bool-cases (str_eq x.instance_id id)) [
    | inl e ↦ simp (r, e) (send-IsServed chunk x d r v)
    | inr e ↦ simp (r, e) v
  ]
  | inr r ↦ simp r (record {
    registered = ground (arith, v, r);
    complete = ground (arith, v, r);
    off_map = ground (arith, v, r);
    bounded = ground (arith, v, r);
  })
]

at_place-AllServed :
    {s : Subs} {due : List (List Bytes)} (n : ℕ) (f : Subscriber → Subscriber)
    → ((x : Subscriber) (d : List Bytes) → IsServed x d → IsServed (f x) d)
    → AllServed s due
    → AllServed (at_place n f s) due
unfolding at_place
at_place-AllServed n f keeps nil = nil
at_place-AllServed zero f keeps (cons {x} {d} v rest) = cons (keeps x d v) rest
at_place-AllServed (suc n) f keeps (cons v rest) = cons v (at_place-AllServed n f keeps rest)

map-AllServed :
    {s : Subs} {due : List (List Bytes)} (id : String) (chunk : Bytes)
    → AllServed s due
    → AllServed
        (map (λ x. if x.registered && str_eq x.instance_id id then send chunk x else x) s)
        (add_due id chunk s due)
map-AllServed id chunk nil = nil
map-AllServed id chunk (cons {x} {d} v rest) =
    cons (kept-IsServed id chunk x d v) (map-AllServed id chunk rest)

append-AllServed :
    {s : Subs} {due : List (List Bytes)} (id : String)
    → AllServed s due
    → AllServed (s ++ (new_subscriber id ∷ [])) (due ++ ([] ∷ []))
append-AllServed id nil =
    cons
      (record {
        registered = λ e. refl;
        complete = λ e. refl;
        off_map = λ e. absurd (false≢true e);
        bounded = omega arith;
      })
      nil
append-AllServed id (cons v rest) = cons v (append-AllServed id rest)

subscribe_output-appends :
    (id : String) (s t : Subs) → subscribe_output id s ≡ some t → s ++ (new_subscriber id ∷ []) ≡ t
unfolding subscribe_output
subscribe_output-appends id s t e = ground (arith, e)

broadcast-map :
    (id : String) (chunk : Bytes) (s : Subs)
    → (length chunk == 0 || str_eq id "") ≡ false
    → map (λ x. if x.registered && str_eq x.instance_id id then send chunk x else x) s
      ≡ broadcast id chunk s
unfolding broadcast
broadcast-map id chunk s e = rw e refl

-- However the broadcasts of the instances, the subscriptions, the consumers, the cancels and the drains
-- interleave: a subscriber whose channel is open has received or has queued each chunk of its instance
-- since it came, once and in order; one whose channel is closed is not in the map, so that nothing is sent
-- to it; and no queue is longer than the channel.
pub Run-AllServed : {s : Subs} {due : List (List Bytes)} → Run s due → AllServed s due
Run-AllServed nobody = nil
Run-AllServed (subscribed {s} {t} {due} id r e) =
    subst (λ u. AllServed u (due ++ ([] ∷ []))) (subscribe_output-appends id s t e)
      (append-AllServed id (Run-AllServed r))
Run-AllServed (sent {s} {due} id chunk r e) =
    subst (λ u. AllServed u (add_due id chunk s due)) (broadcast-map id chunk s e)
      (map-AllServed id chunk (Run-AllServed r))
Run-AllServed (received n r) = at_place-AllServed n receive receive-IsServed (Run-AllServed r)
Run-AllServed (cancelled n r) =
    at_place-AllServed n cancel_output cancel_output-IsServed (Run-AllServed r)
Run-AllServed (drained n r) = at_place-AllServed n drain_one drain_one-IsServed (Run-AllServed r)
