-- ===== src/Pipe/Tests.antt =====
-- The theorems on pipes at concrete pipes, and runs of their operations.
use scarlet.Common.{ltb, if◌then◌else◌, ◌≡◌, refl, true, false, none, some, List, [], ◌∷◌, arith}
use scarlet.Pipe.{
  PipeEndpoint, new_state, new_endpoint, clone, drop_endpoint, read, write, is_connected,
  peer_count, unidirectional_peer_count, has_readers, has_writers, create_pair,
}
use scarlet.Pipe.Read.{ReadDone, read-ReadDone}
use scarlet.Pipe.Write.{WriteDone, write-WriteDone}
use scarlet.Pipe.System.{System, Call, reads, writes, clones_end, drops_end, step, run, open_pair}
use scarlet.Pipe.System.Invariant.{readers, writers, IsValid, run-IsValid, open_pair-IsValid}
use scarlet.Pipe.System.Order.{InOrder, run-InOrder}
use scarlet.Pipe.System.Peers.{peer_count-others}

-- Endpoint 0 reads and endpoint 1 writes; the last calls are by a clone.
abbrev session : List Call
session =
    writes none 1 (1 ∷ 2 ∷ 3 ∷ [])
    ∷ reads none 0 2
    ∷ writes none 1 (4 ∷ 5 ∷ 6 ∷ [])
    ∷ reads (some 7) 0 2
    ∷ clones_end 0
    ∷ drops_end 1
    ∷ reads none 0 1
    ∷ []

abbrev small_pipe : System
small_pipe = open_pair 4

small_pipe-IsValid : IsValid small_pipe
small_pipe-IsValid = open_pair-IsValid 4 (omega arith)

session-bytes :
    ((run small_pipe session).sent ≡ 1 ∷ 2 ∷ 3 ∷ 4 ∷ 5 ∷ 6 ∷ [])
    × ((run small_pipe session).got ≡ 1 ∷ 2 ∷ 3 ∷ 4 ∷ 5 ∷ [])
    × ((run small_pipe session).system.state.buffer ≡ 6 ∷ [])
unfolding run step open_pair create_pair new_state new_endpoint read write clone drop_endpoint
session-bytes = (refl, refl, refl)

abbrev reader : PipeEndpoint
reader = record { can_read = true; can_write = false; clones = 0 }

abbrev writer : PipeEndpoint
writer = record { can_read = false; can_write = true; clones = 0 }

read-ReadDone_example :
    ReadDone
      (some 7)
      reader
      2
      small_pipe.state
      (read (some 7) reader 2 small_pipe.state)
      (read (some 7) reader 2 small_pipe.state).outcome
read-ReadDone_example = read-ReadDone (some 7) reader 2 small_pipe.state

write-WriteDone_example :
    WriteDone none writer
      (8 ∷ [])
      small_pipe.state
      (write none writer (8 ∷ []) small_pipe.state)
      (write none writer (8 ∷ []) small_pipe.state).outcome
write-WriteDone_example =
    write-WriteDone none writer (8 ∷ []) small_pipe.state small_pipe-IsValid.bounded

run-IsValid_example : IsValid (run small_pipe session).system
unfolding open_pair create_pair new_state new_endpoint
run-IsValid_example = run-IsValid small_pipe session small_pipe-IsValid (omega arith)

run-InOrder_example : InOrder small_pipe.state (run small_pipe session)
unfolding open_pair create_pair new_state new_endpoint
run-InOrder_example = run-InOrder small_pipe session small_pipe-IsValid (omega arith)

peer_count-others_example :
    (peer_count reader small_pipe.state
      ≡ (if true then writers small_pipe.ends else readers small_pipe.ends))
    × (unidirectional_peer_count reader small_pipe.state ≡ peer_count reader small_pipe.state)
    × (has_readers small_pipe.state ≡ ltb 0 (readers small_pipe.ends))
    × (has_writers small_pipe.state ≡ ltb 0 (writers small_pipe.ends))
    × (is_connected small_pipe.state ≡ true)
unfolding open_pair create_pair new_state new_endpoint
peer_count-others_example = peer_count-others small_pipe 0 reader small_pipe-IsValid refl
