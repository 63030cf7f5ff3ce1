-- ===== src/Dsh/Events/Client.antt =====
-- How a browser reads an event stream (the HTML standard's EventSource), an independent description.
use myworktree.Prelude.{
  Bool, true, false, ◌&&◌, List, [], ◌∷◌, ◌++◌, ◌==◌, if◌then◌else◌, length, take, ◌-◌,
}
use myworktree.Worktree.Porcelain.{Bytes}

-- The complete lines: a line ends with a new line, a carriage return, or both. `acc` is what the line has
-- so far, and the flag tells that the byte before was a carriage return.
unfoldable pub lines_from : Bytes → Bool → Bytes → List Bytes
lines_from acc cr [] = []
lines_from acc cr (b ∷ bs) = elim (b == 10) [
  | true ↦ elim cr [ true ↦ lines_from acc false bs | false ↦ acc ∷ lines_from [] false bs ]
  | false ↦ elim (b == 13) [
    | true ↦ acc ∷ lines_from [] true bs
    | false ↦ lines_from (acc ++ (b ∷ [])) false bs
  ]
]

pub record Message : Type 0 where
  pub event : Bytes
  pub body : Bytes

-- what stands before and after the first colon
unfoldable pub cut_colon : Bytes → Bytes × Bytes
cut_colon [] = ([], [])
cut_colon (b ∷ bs) = let rest = cut_colon bs in if b == 58 then ([], bs) else (b ∷ rest.0, rest.1)

abbrev without_space : Bytes → Bytes
without_space [] = []
without_space (b ∷ bs) = if b == 32 then bs else b ∷ bs

abbrev pub is_data : Bytes → Bool
is_data (a ∷ b ∷ c ∷ d ∷ []) = a == 100 && b == 97 && c == 116 && d == 97
is_data _ = false

abbrev pub is_event : Bytes → Bool
is_event (a ∷ b ∷ c ∷ d ∷ e ∷ []) = a == 101 && b == 118 && c == 101 && d == 110 && e == 116
is_event _ = false

-- the buffers of the event's type and of its data, of which each line ends with a new line
pub record Buffers : Type 0 where
  pub event : Bytes
  pub text : Bytes

-- the buffers after a line that is not empty
unfoldable pub on_line : Bytes → Buffers → Buffers
on_line line s =
    let parts = cut_colon line in
    let value = without_space parts.1 in
    if is_data parts.0
    then record s { text = s.text ++ (value ++ (10 ∷ [])) }
    else if is_event parts.0
    then record s { event = value }
    else s

-- an event without data is dropped; the last new line is not part of the data
abbrev pub dispatched : Buffers → List Message → List Message
dispatched s later =
    if length s.text == 0
    then later
    else record { event = s.event; body = take (length s.text - 1) s.text } ∷ later

abbrev pub fresh : Buffers
fresh = record { event = []; text = [] }

unfoldable pub messages_from : Buffers → List Bytes → List Message
messages_from s [] = []
messages_from s ([] ∷ ls) = dispatched s (messages_from fresh ls)
messages_from s ((b ∷ line) ∷ ls) = messages_from (on_line (b ∷ line) s) ls

unfoldable pub messages : Bytes → List Message
unfolding messages_from lines_from
messages bytes = messages_from fresh (lines_from [] false bytes)
