-- ===== src/Framework/Tests/Buffers.antt =====
-- Runs of the framework's definitions, and its theorems at concrete inputs.
use myworktree.Prelude.{
  ◌+◌, ◌≡◌, refl, some, [], ◌∷◌, ◌++◌, pos, take, drop, length, max, arith, ◌==◌, if◌then◌else◌,
}
use myworktree.Framework.RingBuffer.{
  Bytes, RingBuffer, new_ring_buffer, write, tail, read_since, copy_round, copy_range,
}
use myworktree.Framework.RingBuffer.Holds.{Holds, write-Holds}
use myworktree.Framework.RingBuffer.Read.{oldest, read_since_lem}
use myworktree.Framework.RingBuffer.Stream.{write_all, write_all_from_new}
use myworktree.Framework.Sizing.{MemStat}

-- a buffer of 4 bytes after "abc" and "defgh", of which it keeps "efgh"
abbrev small : RingBuffer
small =
    write_all (new_ring_buffer (pos 4))
      ((97 ∷ 98 ∷ 99 ∷ []) ∷ (100 ∷ 101 ∷ 102 ∷ 103 ∷ 104 ∷ []) ∷ [])

abbrev stream : Bytes
stream = 97 ∷ 98 ∷ 99 ∷ 100 ∷ 101 ∷ 102 ∷ 103 ∷ 104 ∷ []

small_buffer_tail : tail small (pos 9) ≡ (101 ∷ 102 ∷ 103 ∷ 104 ∷ [], 8)
unfolding tail write_all write new_ring_buffer copy_round copy_range
small_buffer_tail = refl

small-Holds : Holds small stream
small-Holds =
    write_all_from_new 4 ((97 ∷ 98 ∷ 99 ∷ []) ∷ (100 ∷ 101 ∷ 102 ∷ 103 ∷ 104 ∷ []) ∷ [])
      (omega arith)

write-Holds_example :
    Holds (write small (1 ∷ 2 ∷ [])).0 (stream ++ (1 ∷ 2 ∷ [])) × ((write small (1 ∷ 2 ∷ [])).1 ≡ 2)
write-Holds_example = write-Holds (1 ∷ 2 ∷ []) small-Holds

read_since_lem_example :
    let start = max 2 (oldest small stream) in
    let text = take 3 (drop start stream) in
    read_since small (pos 2) (pos 3)
    ≡ some (text, if length text == 0 then 2 else start + length text)
read_since_lem_example = read_since_lem (pos 2) 3 small-Holds

abbrev machine : MemStat
machine = record { total = 2147483648; available = 1073741824; used = 1073741824 }
