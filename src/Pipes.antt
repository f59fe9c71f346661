-- ===== src/Pipes.antt =====
-- kernel/src/pipe.c: pipes on the ring buffer. A call that waits is switched out in `do_suspend`; what
-- other code does to the pipe meanwhile, and whether the process was killed, is an argument for each
-- pass of a loop. `none` is a call that still waits when the passes are used up, or an access through
-- a null pointer. A file, its pipe and its buffer are not null, and lengths are below 2 ^ 31.
mod Takes
pub mod Passes
pub mod Stream
pub mod Closed
mod Tests
use hsunix.Base.{
  ℕ, Bool, ◌∷◌, List, Option, if◌then◌else◌, none, some, ◌==◌, false, not, ◌||◌, suc, ◌&&◌, [],
  true, zero, replicate, ◌++◌, length, ◌-◌, drop, ◌+◌,
}
use hsunix.Base.Int.{ℤ, pos, negsuc}
use hsunix.Ring.{Ring, init, w_data_size, r_data_size, put, get}
use hsunix.Ring.{get}

-- The calls of `do_resume` and `do_suspend`, by the flag whose waiting list they are given.
pub data PipeCall : Type 0 where
  resume_readers : PipeCall
  resume_writers : PipeCall
  suspend_reader : PipeCall
  suspend_writer : PipeCall

-- `struct pipe_t`, with the calls made on it, the last one first.
pub record Pipe : Type 0 where
  pub rflag : Bool
  pub wflag : Bool
  pub rb : Ring
  pub calls : List PipeCall

-- What happens in a pass of a loop: was the process killed before it, and what do others do to the
-- pipe if the pass waits?
pub record Pass : Type 0 where
  pub killed : Bool
  pub others : Pipe → Pipe

abbrev pub pipe_buf_size : ℕ
pipe_buf_size = 16

abbrev pub log : PipeCall → Pipe → Pipe
log c p = record p { calls = c ∷ p.calls }

-- The loop of `piperead`, for `left` bytes more: the result, the bytes in the buffer, and the pipe.
pub read_loop : List Pass → ℕ → ℕ → List ℕ → Pipe → Option (ℤ × List ℕ × Pipe)
read_loop [] zero cnt out p = some (pos cnt, out, log resume_writers p)
read_loop [] (suc l) cnt out p = none
read_loop (s ∷ ss) zero cnt out p = some (pos cnt, out, log resume_writers p)
read_loop (s ∷ ss) (suc l) cnt out p = elim s.killed [
  | true ↦ some (negsuc 0, out, p)
  | false ↦ elim (r_data_size p.rb == 0) [
    | true ↦ read_loop ss (suc l) cnt out (s.others (log suspend_reader (log resume_writers p)))
    | false ↦
        let r = get p.rb (suc l) in
        elim p.wflag [
          | false ↦ some (negsuc 0, out ++ r.1, record p { rb = r.2 })
          | true ↦ read_loop ss (suc l - r.0) (cnt + r.0) (out ++ r.1) (record p { rb = r.2 })
        ]
  ]
]

-- `piperead` of n bytes
pub piperead : List Pass → ℕ → Pipe → Option (ℤ × List ℕ × Pipe)
piperead ss zero p = some (negsuc 0, [], p)
piperead ss (suc l) p = read_loop ss (suc l) 0 [] p

-- The loop of `pipewrite`, for the bytes that are left.
pub write_loop : List Pass → List ℕ → ℕ → Pipe → Option (ℤ × Pipe)
write_loop [] [] cnt p = some (pos cnt, log resume_readers p)
write_loop [] (b ∷ bs) cnt p = none
write_loop (s ∷ ss) [] cnt p = some (pos cnt, log resume_readers p)
write_loop (s ∷ ss) (b ∷ bs) cnt p = elim p.rflag [
  | false ↦ some (negsuc 0, p)
  | true ↦ elim s.killed [
    | true ↦ some (negsuc 0, p)
    | false ↦ elim (w_data_size p.rb == 0) [
      | true ↦ write_loop ss (b ∷ bs) cnt (s.others (log suspend_writer (log resume_readers p)))
      | false ↦
          let r = put p.rb (b ∷ bs) (length (b ∷ bs)) in
          write_loop ss (drop r.0 (b ∷ bs)) (cnt + r.0) (record p { rb = r.1 })
    ]
  ]
]

-- `pipewrite`
pub pipewrite : List Pass → List ℕ → Pipe → Option (ℤ × Pipe)
pipewrite ss [] p = some (negsuc 0, p)
pipewrite ss (b ∷ bs) p = write_loop ss (b ∷ bs) 0 p

-- `pipeclose` of a file with the flags `O_WRONLY`, `O_RDONLY` or others: the pipe, and whether its
-- memory is given back.
pub pipeclose : ℕ → Pipe → ℤ × Pipe × Bool
pipeclose flags p =
    let p₁ : Pipe =
      if flags == 1
      then log resume_writers (record p { wflag = false })
      else if flags == 0
      then log resume_readers (record p { rflag = false })
      else p in
    (pos 0, p₁, not (p₁.wflag || p₁.rflag))

-- `pipealloc`, for whether there is memory for the pipe, for its buffer, which is zeroed, and for the
-- two nodes.
pub pipealloc : Bool → Bool → Bool → Bool → Option (ℤ × Option Pipe)
pipealloc false buffer rnode wnode = none
pipealloc true buffer rnode wnode =
    if not (buffer && rnode && wnode)
    then some (negsuc 0, none)
    else elim (init (replicate pipe_buf_size 0) pipe_buf_size) [
      | none ↦ none
      | some rb ↦ some (pos 0, some (record { rflag = true; wflag = true; rb = rb; calls = [] }))
    ]
