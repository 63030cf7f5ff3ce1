-- ===== src/Dsh/Events/Tests.antt =====
-- Events at concrete inputs.
use myworktree.Prelude.{◌≡◌, refl, List, [], ◌∷◌}
use myworktree.Dsh.Events.{Write, opened, text, binary, closed, keep_alive, stream, base64}
use myworktree.Dsh.Events.Client.{messages}
use myworktree.Dsh.Events.Delivered.{expected, Returnless, no_return, messages-stream}

-- a connection: its opening, a text of two lines, a comment, some bytes, and its end
abbrev connection : List Write
connection = opened ∷ text (97 ∷ 10 ∷ 98 ∷ []) ∷ keep_alive ∷ binary (1 ∷ 2 ∷ []) ∷ closed 1000 ∷ []

messages-stream_example : messages (stream connection) ≡ expected connection
unfolding Returnless no_return
messages-stream_example = messages-stream connection (refl, tt)

-- "Ma" is "TWE=".
base64_two : base64 (77 ∷ 97 ∷ []) ≡ 84 ∷ 87 ∷ 69 ∷ 61 ∷ []
unfolding base64
base64_two = refl
