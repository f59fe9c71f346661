-- ===== src/Pipes/Passes.antt =====
-- What one pass of the loop of kernel/src/pipe.c:piperead does, for a pipe that others fill.
use hsunix.Base.{
  ℕ, List, false, ◌≡◌, ◌∷◌, suc, ◌++◌, ◌<◌, some, [], length, true, min, ◌≢◌, ◌≤◌, ◌∙◌, ap, arith,
  ◌-◌, refl, ◌+◌, ◌==◌, sym, ap₂, take,
}
use hsunix.Pipes.{
  read_loop, Pass, Pipe, get, put, r_data_size, log, pos, suspend_reader, resume_writers,
}
use hsunix.Ring.{get, put, r_data_size}
use hsunix.Ring.Fetch.{get_takes}
use hsunix.Ring.Bounds.{IsValid}
use hsunix.Ring.Fifo.{contents, length-contents}
use hsunix.Base.Int.{pos}
use hsunix.Ring.State.{base_size-get, base_size-put}
use hsunix.Ring.Bulk.{put_appends}
use hsunix.Pipes.Takes.{take-whole}

-- Others put these bytes into the pipe.
abbrev pub feed : List ℕ → Pipe → Pipe
feed w p = record p { rb = (put p.rb w (length w)).1 }

abbrev pub idle_pass : Pass
idle_pass = record { killed = false; others = λ p. p }

abbrev pub feed_pass : List ℕ → Pass
feed_pass w = record { killed = false; others = feed w }

-- A pass, and two more for each piece that others write.
abbrev pub passes_for : List (List ℕ) → List Pass
passes_for [] = idle_pass ∷ []
passes_for (w ∷ ws) = idle_pass ∷ feed_pass w ∷ passes_for ws

abbrev pub concat : List (List ℕ) → List ℕ
concat [] = []
concat (w ∷ ws) = w ++ concat ws

-- Pieces of a byte at least that fit the empty ring.
abbrev pub AreFitting : ℕ → List (List ℕ) → Type 0
AreFitting size [] = Unit
AreFitting size (w ∷ ws) = (0 < length w) × (length w ≤ size) × AreFitting size ws

pub read_loop-wait :
    (s : Pass) (ss : List Pass) (l cnt : ℕ) (out : List ℕ) (p : Pipe)
    → s.killed ≡ false
    → r_data_size p.rb ≡ 0
    → read_loop (s ∷ ss) (suc l) cnt out p
      ≡ read_loop ss (suc l) cnt out (s.others (log suspend_reader (log resume_writers p)))
unfolding read_loop
read_loop-wait s ss l cnt out p alive empty =
    let none_there : (r_data_size p.rb == 0) ≡ true = ground (arith, empty) in
    rw (alive, read_loop) (rw none_there refl)

pub read_loop-get :
    (s : Pass) (ss : List Pass) (l cnt : ℕ) (out : List ℕ) (p : Pipe)
    → s.killed ≡ false
    → r_data_size p.rb ≢ 0
    → p.wflag ≡ true
    → let r = get p.rb (suc l) in
      read_loop (s ∷ ss) (suc l) cnt out p
      ≡ read_loop ss (suc l - r.0) (cnt + r.0) (out ++ r.1) (record p { rb = r.2 })
unfolding read_loop
read_loop-get s ss l cnt out p alive some_there opened =
    let there : (r_data_size p.rb == 0) ≡ false = ground (arith, some_there) in
    rw (alive, read_loop) (rw there (simp opened))

pub read_loop-zero :
    (ss : List Pass) (cnt : ℕ) (out : List ℕ) (p : Pipe)
    → read_loop ss 0 cnt out p ≡ some (pos cnt, out, log resume_writers p)
unfolding read_loop
read_loop-zero [] cnt out p = refl
read_loop-zero (s ∷ ss) cnt out p = refl

-- A pipe whose writers are there, with a ring as it should be.
pub record IsOpen (p : Pipe) (size : ℕ) : Type 0 where
  pub valid : IsValid p.rb
  pub writers : p.wflag ≡ true
  pub capacity : p.rb.base_size ≡ size

-- An empty pipe after a piece was put in.
pub feed-IsOpen :
    (p : Pipe) (size : ℕ) (w : List ℕ)
    → IsOpen p size
    → contents p.rb ≡ []
    → length w ≤ size
    → IsOpen (feed w p) size × (contents (feed w p).rb ≡ w)
feed-IsOpen p size w o empty fits =
    let room : p.rb.idle_size ≡ size =
      omega (arith, length-contents p.rb, ap length empty, o.valid.idle_in, o.capacity) in
    let (n, all, valid) = put_appends p.rb w (length w) o.valid (omega arith) in
    let whole : (put p.rb w (length w)).0 ≡ length w = omega (arith, n, room, fits) in
    (
      record {
        valid = valid;
        writers = o.writers;
        capacity = base_size-put p.rb w (length w) ∙ o.capacity;
      },
      all ∙ ap₂ (λ c k. c ++ take k w) empty whole ∙ take-whole w,
    )

-- What a pass that finds bytes gets.
pub record Got (p : Pipe) (l : ℕ) (size : ℕ) : Type 0 where
  pub count : (get p.rb (suc l)).0 ≡ min (suc l) (length (contents p.rb))
  pub size_of : length (get p.rb (suc l)).1 ≡ (get p.rb (suc l)).0
  pub split : contents p.rb ≡ (get p.rb (suc l)).1 ++ contents (get p.rb (suc l)).2
  pub still : IsOpen (record p { rb = (get p.rb (suc l)).2 }) size

pub got : (p : Pipe) (l size : ℕ) → IsOpen p size → Got p l size
got p l size o =
    let (n, len, split, valid) = get_takes p.rb (suc l) o.valid in
    record {
      count = n ∙ ap (λ k. min (suc l) k) (sym (length-contents p.rb));
      size_of = len;
      split = split;
      still = record {
        valid = valid;
        writers = o.writers;
        capacity = base_size-get p.rb (suc l) ∙ o.capacity;
      };
    }
