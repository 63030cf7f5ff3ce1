-- ===== src/Dsh/Events/Delivered.antt =====
-- What the browser reads is what upstream sent.
use mathlib.Core.List.{append-nil, append_assoc}
use myworktree.Prelude.{
  ℕ, ◌+◌, ◌*◌, ◌/◌, ◌%◌, ◌≤◌, ◌≡◌, refl, sym, ap, ◌∙◌, Bool, true, false, not, ◌&&◌, List, [], ◌∷◌,
  ◌++◌, ◌==◌, arith, Bool-cases, inl, inr, length-append, take-append,
}
use myworktree.Worktree.Porcelain.{Bytes, split_lines, decimal}
use myworktree.Worktree.Porcelain.Digits.{AllDigits, decimal-AllDigits}
use myworktree.Dsh.Events.{
  Write, opened, text, binary, closed, keep_alive, event_of, stream, data_lines, data_field,
  event_field, named_event, base64, base64_char, code_body,
}
use myworktree.Dsh.Events.Client.{
  lines_from, Message, Buffers, on_line, fresh, messages_from, messages, cut_colon,
}

-- no new line and no carriage return
unfoldable pub no_break : Bytes → Bool
no_break [] = true
no_break (b ∷ l) = not (b == 10) && not (b == 13) && no_break l

-- A line ends at the new line behind it.
lines_from-line :
    (acc l rest : Bytes)
    → no_break l ≡ true
    → lines_from acc false (l ++ (10 ∷ rest)) ≡ (acc ++ l) ∷ lines_from [] false rest
unfolding lines_from no_break
lines_from-line acc [] rest h = ap (λ a. a ∷ lines_from [] false rest) (sym (append-nil acc))
lines_from-line acc (b ∷ l) rest h = ground (
  arith,
  h,
  lines_from-line (acc ++ (b ∷ [])) l rest (ground (arith, h)),
  append_assoc acc (b ∷ []) l,
)

on_line-data :
    (l : Bytes) (s : Buffers)
    → on_line (data_field ++ l) s ≡ record s { text = s.text ++ (l ++ (10 ∷ [])) }
unfolding on_line cut_colon
on_line-data l s = refl

on_line-event :
    (name : Bytes) (s : Buffers) → on_line (event_field ++ name) s ≡ record s { event = name }
unfolding on_line cut_colon
on_line-event name s = refl

-- the lines, each with its new line
ended_lines : List Bytes → Bytes
ended_lines [] = []
ended_lines (l ∷ ls) = l ++ (10 ∷ ended_lines ls)

all_no_break : List Bytes → Bool
all_no_break [] = true
all_no_break (l ∷ ls) = no_break l && all_no_break ls

data_line :
    (l rest : Bytes) (s : Buffers)
    → no_break l ≡ true
    → messages_from s (lines_from [] false (data_field ++ (l ++ (10 ∷ rest))))
      ≡ messages_from (record s { text = s.text ++ (l ++ (10 ∷ [])) }) (lines_from [] false rest)
unfolding messages_from no_break
data_line l rest s h =
    ap (messages_from s) (lines_from-line [] (data_field ++ l) rest h)
    ∙ ap (λ t. messages_from t (lines_from [] false rest)) (on_line-data l s)

event_line :
    (name rest : Bytes) (s : Buffers)
    → no_break name ≡ true
    → messages_from s (lines_from [] false (event_field ++ (name ++ (10 ∷ rest))))
      ≡ messages_from (record s { event = name }) (lines_from [] false rest)
unfolding messages_from no_break
event_line name rest s h =
    ap (messages_from s) (lines_from-line [] (event_field ++ name) rest h)
    ∙ ap (λ t. messages_from t (lines_from [] false rest)) (on_line-event name s)

-- The empty line behind the data ends the event.
end_of_event :
    (s : Buffers) (body rest : Bytes)
    → s.text ≡ body ++ (10 ∷ [])
    → messages_from s (lines_from [] false (10 ∷ rest))
      ≡ record { event = s.event; body = body } ∷ messages rest
unfolding messages messages_from lines_from
end_of_event s body rest h =
    ground (arith, h, length-append body (10 ∷ []), take-append body (10 ∷ []))

longer : (t l e : Bytes) → (t ++ (l ++ (10 ∷ []))) ++ e ≡ t ++ (l ++ (10 ∷ e))
longer t l e = append_assoc t (l ++ (10 ∷ [])) e ∙ ap (λ r. t ++ r) (append_assoc l (10 ∷ []) e)

lines_of_data :
    (l : Bytes) (ls : List Bytes) (rest : Bytes) (s : Buffers)
    → all_no_break (l ∷ ls) ≡ true
    → messages_from s (lines_from [] false (data_lines (l ∷ ls) ++ (10 ∷ rest)))
      ≡ messages_from
          (record s { text = s.text ++ ended_lines (l ∷ ls) })
          (lines_from [] false rest)
unfolding data_lines all_no_break ended_lines
lines_of_data l [] rest s h = data_line l rest s (ground (arith, h))
lines_of_data l (m ∷ ls) rest s h =
    let s' : Buffers = record s { text = s.text ++ (l ++ (10 ∷ [])) } in
    let more = data_lines (m ∷ ls) in
    ap (λ b. messages_from s (lines_from [] false (data_field ++ b)))
      (append_assoc l (10 ∷ more) (10 ∷ rest))
    ∙ data_line l (more ++ (10 ∷ rest)) s (ground (arith, h))
    ∙ lines_of_data m ls rest s' (ground (arith, h))
    ∙ ap (λ t. messages_from (record s { text = t }) (lines_from [] false rest))
        (longer s.text l (ended_lines (m ∷ ls)))

-- no carriage return
unfoldable pub no_return : Bytes → Bool
no_return [] = true
no_return (b ∷ l) = not (b == 13) && no_return l

-- There is a line, and the lines with their new lines are the payload with one more.
Divided : Bytes → Type 0
Divided p =
    (l : Bytes) × (ls : List Bytes) × (split_lines p ≡ l ∷ ls)
    × (ended_lines (l ∷ ls) ≡ p ++ (10 ∷ []))
    × (no_return p ≡ true → all_no_break (l ∷ ls) ≡ true)

split_lines-Divided : (p : Bytes) → Divided p
unfolding split_lines Divided ended_lines all_no_break no_break no_return
split_lines-Divided [] = ([], [], refl, refl, λ _. refl)
split_lines-Divided (b ∷ p) =
    let (l, ls, e, t, n) = split_lines-Divided p in
    elim (Bool-cases (b == 10)) [
      | inl q ↦ (
        [],
        l ∷ ls,
        ground (arith, q, e),
        ground (arith, q, t),
        λ h. ground (arith, q, h, n (ground (arith, h))),
      )
      | inr q ↦ (
        b ∷ l,
        ls,
        ground (arith, q, e),
        ground (arith, q, t),
        λ h. ground (arith, q, h, n (ground (arith, h))),
      )
    ]

text_event :
    (payload rest : Bytes)
    → no_return payload ≡ true
    → messages (event_of (text payload) ++ rest)
      ≡ record { event = []; body = payload } ∷ messages rest
unfolding messages event_of Divided
text_event payload rest h =
    let (l, ls, e, t, n) = split_lines-Divided payload in
    ap messages (
      ap (λ x. (data_lines x ++ (10 ∷ 10 ∷ [])) ++ rest) e
      ∙ append_assoc (data_lines (l ∷ ls)) (10 ∷ 10 ∷ []) rest)
    ∙ lines_of_data l ls (10 ∷ rest) fresh (n h)
    ∙ end_of_event (record { event = []; text = ended_lines (l ∷ ls) }) payload rest t

named_event-message :
    (name body rest : Bytes)
    → no_break name ≡ true
    → no_break body ≡ true
    → messages (named_event name body ++ rest)
      ≡ record { event = name; body = body } ∷ messages rest
unfolding messages
named_event-message name body rest h k =
    let ending : Bytes = 10 ∷ 10 ∷ [] in
    ap (λ b. messages (event_field ++ b))
      (append_assoc name (10 ∷ (data_field ++ (body ++ ending))) rest)
    ∙ ap (λ b. messages (event_field ++ (name ++ (10 ∷ (data_field ++ b)))))
        (append_assoc body ending rest)
    ∙ event_line name (data_field ++ (body ++ (10 ∷ 10 ∷ rest))) fresh h
    ∙ data_line body (10 ∷ rest) (record { event = name; text = [] }) k
    ∙ end_of_event (record { event = name; text = body ++ (10 ∷ []) }) body rest refl

printable : (b : ℕ) (l : Bytes) → 14 ≤ b → no_break l ≡ true → no_break (b ∷ l) ≡ true
unfolding no_break
printable b l h k = ground (arith, h, k)

base64_char-printable : (n : ℕ) → 14 ≤ base64_char n
base64_char-printable n = ground arith

char-no_break : (n : ℕ) (l : Bytes) → no_break l ≡ true → no_break (base64_char n ∷ l) ≡ true
char-no_break n l h = printable (base64_char n) l (base64_char-printable n) h

base64-no_break : (p : Bytes) → no_break (base64 p) ≡ true
unfolding base64 no_break
base64-no_break [] = refl
base64-no_break (a ∷ []) =
    let l : Bytes = 61 ∷ 61 ∷ [] in
    char-no_break (a / 4) (base64_char (a % 4 * 16) ∷ l) (char-no_break (a % 4 * 16) l refl)
base64-no_break (a ∷ b ∷ []) =
    let l : Bytes = base64_char (b % 16 * 4) ∷ 61 ∷ [] in
    char-no_break (a / 4) (base64_char (a % 4 * 16 + b / 16) ∷ l)
      (char-no_break (a % 4 * 16 + b / 16) l (char-no_break (b % 16 * 4) (61 ∷ []) refl))
base64-no_break (a ∷ b ∷ c ∷ s) =
    let l : Bytes = base64_char (c % 64) ∷ base64 s in
    let m : Bytes = base64_char (b % 16 * 4 + c / 64) ∷ l in
    char-no_break (a / 4) (base64_char (a % 4 * 16 + b / 16) ∷ m) (
      char-no_break (a % 4 * 16 + b / 16) m (
        char-no_break (b % 16 * 4 + c / 64) l
          (char-no_break (c % 64) (base64 s) (base64-no_break s))))

digits-no_break : (p t : Bytes) → AllDigits p → no_break t ≡ true → no_break (p ++ t) ≡ true
unfolding no_break AllDigits
digits-no_break [] t h k = k
digits-no_break (b ∷ p) t (d, h) k =
    printable b (p ++ t) (omega (arith, d)) (digits-no_break p t h k)

code_body-no_break : (code : ℕ) → no_break (code_body code) ≡ true
unfolding no_break
code_body-no_break code = digits-no_break (decimal code) (125 ∷ []) (decimal-AllDigits code) refl

nothing : messages [] ≡ []
unfolding messages messages_from lines_from
nothing = refl

comment : (rest : Bytes) → messages (event_of keep_alive ++ rest) ≡ messages rest
unfolding messages messages_from lines_from event_of on_line cut_colon
comment rest = refl

-- What the browser is to get: a message without a name for a text, named ones for the others, and none
-- for the comment.
pub expected : List Write → List Message
expected [] = []
expected (opened ∷ ws) =
    record { event = 111 ∷ 112 ∷ 101 ∷ 110 ∷ []; body = 123 ∷ 125 ∷ [] } ∷ expected ws
expected (text payload ∷ ws) = record { event = []; body = payload } ∷ expected ws
expected (binary payload ∷ ws) =
    record { event = 98 ∷ 105 ∷ 110 ∷ []; body = base64 payload } ∷ expected ws
expected (closed code ∷ ws) =
    record { event = 99 ∷ 108 ∷ 111 ∷ 115 ∷ 101 ∷ []; body = code_body code } ∷ expected ws
expected (keep_alive ∷ ws) = expected ws

-- no text has a carriage return
unfoldable pub Returnless : List Write → Type 0
Returnless [] = Unit
Returnless (text payload ∷ ws) = (no_return payload ≡ true) × Returnless ws
Returnless (w ∷ ws) = Returnless ws

-- Whatever the bridge writes, one event behind the other: the browser gets the messages of upstream, all
-- of them, in order and unchanged, if no text has a carriage return.
pub messages-stream : (ws : List Write) → Returnless ws → messages (stream ws) ≡ expected ws
unfolding stream event_of Returnless expected no_break
messages-stream [] h = nothing
messages-stream (opened ∷ ws) h =
    named_event-message (111 ∷ 112 ∷ 101 ∷ 110 ∷ []) (123 ∷ 125 ∷ []) (stream ws) refl refl
    ∙ ap (λ ms. record { event = 111 ∷ 112 ∷ 101 ∷ 110 ∷ []; body = 123 ∷ 125 ∷ [] } ∷ ms)
        (messages-stream ws h)
messages-stream (text payload ∷ ws) (r, h) =
    text_event payload (stream ws) r
    ∙ ap (λ ms. record { event = []; body = payload } ∷ ms) (messages-stream ws h)
messages-stream (binary payload ∷ ws) h =
    named_event-message (98 ∷ 105 ∷ 110 ∷ []) (base64 payload) (stream ws) refl
      (base64-no_break payload)
    ∙ ap (λ ms. record { event = 98 ∷ 105 ∷ 110 ∷ []; body = base64 payload } ∷ ms)
        (messages-stream ws h)
messages-stream (closed code ∷ ws) h =
    named_event-message (99 ∷ 108 ∷ 111 ∷ 115 ∷ 101 ∷ []) (code_body code) (stream ws) refl
      (code_body-no_break code)
    ∙ ap (λ ms. record { event = 99 ∷ 108 ∷ 111 ∷ 115 ∷ 101 ∷ []; body = code_body code } ∷ ms)
        (messages-stream ws h)
messages-stream (keep_alive ∷ ws) h = comment (stream ws) ∙ messages-stream ws h
