-- ===== src/Pipes/Tests.antt =====
-- A pipe with a ring of four places.
use hsunix.Base.{ℕ, List, Option, ◌∷◌, true, arith, false, [], some, ◌≡◌, none, length, refl, ◌++◌}
use hsunix.Pipes.{Pipe, pipewrite, Pass, piperead, write_loop, ℤ, pipeclose, put, get, w_data_size}
use hsunix.Ring.Bounds.{IsValid}
use hsunix.Pipes.Passes.{idle_pass, passes_for}
use hsunix.Base.Int.{ℤ, pos, negsuc}
use hsunix.Ring.{put, get, w_data_size, copy_to}
use hsunix.Ring.Fifo.{contents}
use hsunix.Pipes.Stream.{piperead-stream}
use hsunix.Pipes.Closed.{piperead-waits, piperead-loses}

abbrev two_bytes : Pipe
two_bytes = record {
  rflag = true;
  wflag = true;
  rb = record { buf = 7 ∷ 8 ∷ 0 ∷ 0 ∷ []; base_size = 4; idle_size = 2; r_index = 0; w_index = 2 };
  calls = [];
}

two_bytes-IsValid : IsValid two_bytes.rb
two_bytes-IsValid = ground arith

abbrev drained_pipe : Pipe
drained_pipe = record two_bytes {
  rb = record { buf = 7 ∷ 8 ∷ 0 ∷ 0 ∷ []; base_size = 4; idle_size = 4; r_index = 2; w_index = 2 };
}

piperead-stream_example :
    (p' : Pipe) × (piperead (passes_for ((5 ∷ 6 ∷ 9 ∷ []) ∷ [])) 4 two_bytes
      ≡ some (pos 4, 7 ∷ 8 ∷ 5 ∷ 6 ∷ [], p'))
piperead-stream_example =
    piperead-stream ((5 ∷ 6 ∷ 9 ∷ []) ∷ []) 4 4 two_bytes
      (record { valid = two_bytes-IsValid; writers = refl; capacity = refl })
      (omega arith, omega arith, tt) (omega arith) (omega arith)

piperead-waits_example : piperead (idle_pass ∷ idle_pass ∷ []) 3 (pipeclose 1 drained_pipe).1 ≡ none
piperead-waits_example =
    piperead-waits (idle_pass ∷ idle_pass ∷ []) 3 drained_pipe
      (refl, (λ p. refl), (refl, (λ p. refl), tt)) (omega arith) refl

piperead-loses_example :
    (out : List ℕ) × (p' : Pipe) × (piperead (idle_pass ∷ []) 3 (pipeclose 1 two_bytes).1
      ≡ some (negsuc 0, out, p'))
    × (length out ≡ 2)
    × (7 ∷ 8 ∷ [] ≡ out ++ contents p'.rb)
piperead-loses_example =
    piperead-loses idle_pass [] 3 two_bytes two_bytes-IsValid refl (omega arith) (omega arith)

-- A writer of five bytes waits for a reader that empties the ring.
abbrev reader_pass : Pass
reader_pass = record { killed = false; others = λ p. (record p { rb = (get p.rb 4).2 }) }

abbrev answer_of : Option (ℤ × Pipe) → Option (ℤ × List ℕ)
answer_of none = none
answer_of (some (r, p)) = some (r, contents p.rb)

writes_five :
    answer_of
      (pipewrite (idle_pass ∷ reader_pass ∷ idle_pass ∷ []) (1 ∷ 2 ∷ 3 ∷ 4 ∷ 5 ∷ []) drained_pipe)
    ≡ some (pos 5, 5 ∷ [])
unfolding pipewrite write_loop put get w_data_size copy_to
writes_five = refl

-- Without a reader nothing is written.
no_reader :
    answer_of (pipewrite (idle_pass ∷ []) (1 ∷ []) (pipeclose 0 drained_pipe).1)
    ≡ some (negsuc 0, [])
unfolding pipewrite write_loop pipeclose
no_reader = refl
