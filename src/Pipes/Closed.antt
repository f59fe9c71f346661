-- ===== src/Pipes/Closed.antt =====
-- kernel/src/pipe.c after the writers have closed their end.
use hsunix.Base.{
  ℕ, List, ◌∷◌, ◌<◌, ◌≡◌, suc, false, arith, length, [], none, ap, some, ◌∙◌, min, zero, ◌++◌, refl,
  ◌==◌, sym,
}
use hsunix.Pipes.{
  read_loop, piperead, pipeclose, Pipe, Pass, r_data_size, log, negsuc, suspend_reader,
  resume_writers, get,
}
use hsunix.Ring.{r_data_size, get}
use hsunix.Ring.Bounds.{IsValid}
use hsunix.Ring.Fifo.{contents, length-contents}
use hsunix.Base.Int.{negsuc}
use hsunix.Ring.State.{r_data_size_lem}
use hsunix.Pipes.Passes.{read_loop-wait}
use hsunix.Ring.Fetch.{get_takes}

-- Passes of a process that is not killed, in which others leave the ring as it is.
abbrev pub AreAlone : List Pass → Type 0
AreAlone [] = Unit
AreAlone (s ∷ ss) = (s.killed ≡ false) × ((p : Pipe) → (s.others p).rb ≡ p.rb) × AreAlone ss

read_loop-empty :
    (ss : List Pass) (l cnt : ℕ) (out : List ℕ) (p : Pipe)
    → AreAlone ss
    → r_data_size p.rb ≡ 0
    → read_loop ss (suc l) cnt out p ≡ none
unfolding read_loop
read_loop-empty [] l cnt out p a e = refl
read_loop-empty (s ∷ ss) l cnt out p (alive, still, a) e =
    let p₁ = s.others (log suspend_reader (log resume_writers p)) in
    let e₁ : r_data_size p₁.rb ≡ 0 =
      ap r_data_size (still (log suspend_reader (log resume_writers p))) ∙ e in
    read_loop-wait s ss l cnt out p alive e ∙ read_loop-empty ss l cnt out p₁ a e₁

ring_kept : (flags : ℕ) (p : Pipe) → (pipeclose flags p).1.rb ≡ p.rb
unfolding pipeclose
ring_kept flags p = ground arith

-- After `pipeclose` of the writing end a reader of at least one byte of an empty pipe never returns,
-- however often it is switched in, when it is not killed and others put nothing into the ring:
-- the loop tests the number of bytes first, and the flag of the writers only after it has got some.
pub piperead-waits :
    (ss : List Pass) (n : ℕ) (p : Pipe)
    → AreAlone ss
    → 0 < n
    → contents p.rb ≡ []
    → piperead ss n (pipeclose 1 p).1 ≡ none
unfolding piperead
piperead-waits ss zero p a some_wanted empty = absurd (omega (arith, some_wanted))
piperead-waits ss (suc l) p a some_wanted empty =
    let none_there : r_data_size (pipeclose 1 p).1.rb ≡ 0 =
      ap r_data_size (ring_kept 1 p) ∙ r_data_size_lem p.rb ∙ ap length empty in
    read_loop-empty ss l 0 [] (pipeclose 1 p).1 a none_there

-- After `pipeclose` of the writing end a reader of at least one byte, in a process that is not killed,
-- gets -1 from a pipe that still holds bytes, though the bytes that it wanted, as many as there are,
-- are taken from the front of the ring and stored in its buffer.
pub piperead-loses :
    (s : Pass) (ss : List Pass) (n : ℕ) (p : Pipe)
    → IsValid p.rb
    → s.killed ≡ false
    → 0 < n
    → 0 < length (contents p.rb)
    → (out : List ℕ) × (p' : Pipe) × (piperead (s ∷ ss) n (pipeclose 1 p).1
        ≡ some (negsuc 0, out, p'))
      × (length out ≡ min n (length (contents p.rb)))
      × (contents p.rb ≡ out ++ contents p'.rb)
unfolding piperead read_loop pipeclose
piperead-loses s ss zero p v alive some_wanted some_bytes = absurd (omega (arith, some_wanted))
piperead-loses s ss (suc l) p v alive some_wanted some_bytes =
    let r = get p.rb (suc l) in
    let (n, len, split, valid) = get_takes p.rb (suc l) v in
    let there : (r_data_size p.rb == 0) ≡ false =
      ground (arith, r_data_size_lem p.rb, some_bytes) in
    (
      r.1,
      record p { wflag = false; rb = r.2; calls = resume_writers ∷ p.calls },
      rw (alive, there) refl,
      len ∙ n ∙ ap (λ k. min (suc l) k) (sym (length-contents p.rb)),
      split,
    )
