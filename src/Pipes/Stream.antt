-- ===== src/Pipes/Stream.antt =====
-- What a reader of kernel/src/pipe.c gets from writers that come in while it waits.
use hsunix.Base.{
  ℕ, List, Option, length, ◌≡◌, suc, [], ◌++◌, ◌+◌, some, ◌<◌, ◌∷◌, ◌≤◌, take, arith, refl, ◌∙◌,
  ◌-◌, ap, ◌≢◌, zero, length-append, append-nil, append_assoc, ap₂, sym, Bool-cases, leb, inl, inr,
  List-cases,
}
use hsunix.Pipes.{
  Pipe, piperead, log, Pass, suspend_reader, ℤ, resume_writers, read_loop, get, r_data_size,
}
use hsunix.Pipes.Passes.{
  IsOpen, AreFitting, concat, passes_for, idle_pass, feed, got, read_loop-zero, feed-IsOpen,
  read_loop-get, read_loop-wait, feed_pass,
}
use hsunix.Base.Int.{ℤ, pos}
use hsunix.Ring.Fifo.{contents}
use hsunix.Ring.{get, r_data_size}
use hsunix.Ring.State.{r_data_size_lem}
use hsunix.Pipes.Takes.{take-front, take-more}

no_bytes : (xs : List ℕ) → length xs ≡ 0 → xs ≡ []
no_bytes [] h = refl
no_bytes (x ∷ xs) h = absurd (omega (arith, h))

-- Of a stream, the bytes that are read and the pipe behind them.
abbrev pub ReadsStream : ℕ → ℕ → List ℕ → List ℕ → Option (ℤ × List ℕ × Pipe) → Type 0
ReadsStream n cnt out stream r = (p' : Pipe) × (r ≡ some (pos (cnt + n), out ++ take n stream, p'))

-- A pass that finds as many bytes as are wanted is the last one.
read_loop-enough :
    (ss : List Pass) (l cnt size : ℕ) (out rest : List ℕ) (p : Pipe)
    → IsOpen p size
    → suc l ≤ length (contents p.rb)
    → ReadsStream
        (suc l)
        cnt
        out
        (contents p.rb ++ rest)
        (read_loop (idle_pass ∷ ss) (suc l) cnt out p)
read_loop-enough ss l cnt size out rest p o h =
    let g = got p l size o in
    let r = get p.rb (suc l) in
    let whole : r.0 ≡ suc l = omega (arith, g.count, h) in
    let there : r_data_size p.rb ≢ 0 = λ e. (omega (arith, e, r_data_size_lem p.rb, h)) in
    let none_left : suc l - r.0 ≡ 0 = omega (arith, whole) in
    let bytes : take (suc l) (contents p.rb ++ rest) ≡ r.1 =
      take-front r.1 (contents p.rb) (contents r.2) rest (suc l) g.split
        (omega (arith, g.size_of, whole)) in
    (
      log resume_writers (record p { rb = r.2 }),
      read_loop-get idle_pass ss l cnt out p refl there o.writers
          ∙ ap (λ k. read_loop ss k (cnt + r.0) (out ++ r.1) (record p { rb = r.2 })) none_left
          ∙ read_loop-zero ss (cnt + r.0) (out ++ r.1) (record p { rb = r.2 })
          ∙ ap₂ (λ k t. some (pos (cnt + k), out ++ t, log resume_writers (record p { rb = r.2 })))
              whole (sym bytes),
    )

-- A pipe after a reader went to sleep.
abbrev waited : Pipe → Pipe
waited p = log suspend_reader (log resume_writers p)

waited-IsOpen : (p : Pipe) (size : ℕ) → IsOpen p size → IsOpen (waited p) size
waited-IsOpen p size o = record { valid = o.valid; writers = o.writers; capacity = o.capacity }

-- The bytes of a pass, and then those of the rest.
stream_joined :
    (out a c d t u : List ℕ) (k n : ℕ)
    → c ≡ a ++ d
    → d ≡ []
    → t ≡ u
    → n ≡ length a + k
    → (out ++ a) ++ take k t ≡ out ++ take n (c ++ u)
stream_joined out a c d t u k n split none_left same count =
    let whole : c ≡ a = split ∙ ap (λ e. a ++ e) none_left ∙ append-nil a in
    append_assoc out a (take k t)
    ∙ ap (λ x. out ++ x)
        (ap (λ x. a ++ take k x) same
          ∙ sym (take-more a u k)
          ∙ ap₂ (λ m x. take m (x ++ u)) (sym count) (sym whole))

-- The three ways of the loop when the wanted bytes come in one more piece at least.
module _ (ws : List (List ℕ)) (w : List ℕ) (l cnt size : ℕ) (out : List ℕ) (p : Pipe)
    (o : IsOpen p size) (fit : AreFitting size (w ∷ ws))
    (h : suc l ≤ length (contents p.rb) + length (w ++ concat ws)) where
  stream_empty :
      contents p.rb ≡ []
      → (let p₁ = feed w (waited (waited p)) in
          ReadsStream
            (suc l)
            cnt
            out
            (contents p₁.rb ++ concat ws)
            (read_loop (passes_for ws) (suc l) cnt out p₁))
      → ReadsStream
          (suc l)
          cnt
          out
          (contents p.rb ++ (w ++ concat ws))
          (read_loop (passes_for (w ∷ ws)) (suc l) cnt out p)
  stream_empty empty (p', e) =
      let p₁ = waited p in
      let (o₂, filled) =
        feed-IsOpen (waited p₁) size w (waited-IsOpen p₁ size (waited-IsOpen p size o)) empty
          fit.1 in
      let none_there : r_data_size p.rb ≡ 0 = r_data_size_lem p.rb ∙ ap length empty in
      (
        p',
        read_loop-wait idle_pass (feed_pass w ∷ passes_for ws) l cnt out p refl none_there
            ∙ read_loop-wait (feed_pass w) (passes_for ws) l cnt out p₁ refl none_there
            ∙ e
            ∙ ap (λ t. some (pos (cnt + suc l), out ++ take (suc l) (t ++ concat ws), p')) filled
            ∙ ap (λ t. some (pos (cnt + suc l), out ++ take (suc l) (t ++ (w ++ concat ws)), p'))
                (sym empty),
      )

  -- The pipe after a pass that takes all its bytes.
  abbrev rest_pipe : Pipe
  rest_pipe = record p { rb = (get p.rb (suc l)).2 }

  abbrev taken_bytes : List ℕ
  taken_bytes = (get p.rb (suc l)).1

  drained : length (contents p.rb) < suc l → contents rest_pipe.rb ≡ []
  drained less =
      let g = got p l size o in
      no_bytes (contents rest_pipe.rb) (
        ground (
          arith,
          less,
          g.count,
          g.size_of,
          ap length g.split,
          length-append taken_bytes (contents rest_pipe.rb),
        ))

  stream_joined_here :
      length (contents p.rb) < suc l
      → (out ++ taken_bytes)
          ++ take
              (suc (l - (get p.rb (suc l)).0))
              (contents (feed w (waited rest_pipe)).rb ++ concat ws)
        ≡ out ++ take (suc l) (contents p.rb ++ (w ++ concat ws))
  stream_joined_here less =
      let g = got p l size o in
      let (o₂, filled) =
        feed-IsOpen (waited rest_pipe) size w (waited-IsOpen rest_pipe size g.still) (drained less)
          fit.1 in
      stream_joined out taken_bytes (contents p.rb) (contents rest_pipe.rb)
        (contents (feed w (waited rest_pipe)).rb ++ concat ws) (w ++ concat ws)
        (suc (l - (get p.rb (suc l)).0)) (suc l) g.split (drained less)
        (ap (λ t. t ++ concat ws) filled) (ground (arith, less, g.count, g.size_of))

  stream_part :
      length (contents p.rb) < suc l
      → contents p.rb ≢ []
      → (let r = get p.rb (suc l) in
          let p₁ = feed w (waited rest_pipe) in
          ReadsStream
            (suc (l - r.0))
            (cnt + r.0)
            (out ++ r.1)
            (contents p₁.rb ++ concat ws)
            (read_loop (passes_for ws) (suc (l - r.0)) (cnt + r.0) (out ++ r.1) p₁))
      → ReadsStream
          (suc l)
          cnt
          out
          (contents p.rb ++ (w ++ concat ws))
          (read_loop (passes_for (w ∷ ws)) (suc l) cnt out p)
  stream_part less some_bytes (p', e) =
      let r = get p.rb (suc l) in
      let g = got p l size o in
      let there : r_data_size p.rb ≢ 0 =
        λ e. (some_bytes (no_bytes (contents p.rb) (omega (arith, e, r_data_size_lem p.rb)))) in
      let left : suc l - r.0 ≡ suc (l - r.0) = ground (arith, less, g.count) in
      let none_there : r_data_size r.2 ≡ 0 = r_data_size_lem r.2 ∙ ap length (drained less) in
      let total : cnt + r.0 + suc (l - r.0) ≡ cnt + suc l = omega (arith, left) in
      (
        p',
        read_loop-get idle_pass (feed_pass w ∷ passes_for ws) l cnt out p refl there o.writers
            ∙ ap (λ k. read_loop (feed_pass w ∷ passes_for ws) k (cnt + r.0) (out ++ r.1) rest_pipe)
                left
            ∙ read_loop-wait (feed_pass w) (passes_for ws) (l - r.0) (cnt + r.0) (out ++ r.1)
                rest_pipe refl none_there
            ∙ e
            ∙ ap₂ (λ (k : ℕ) (t : List ℕ). some (pos k, t, p')) total (stream_joined_here less),
      )

read_loop-stream :
    (ws : List (List ℕ)) (n cnt size : ℕ) (out : List ℕ) (p : Pipe)
    → IsOpen p size
    → AreFitting size ws
    → n ≤ length (contents p.rb) + length (concat ws)
    → ReadsStream n cnt out (contents p.rb ++ concat ws) (read_loop (passes_for ws) n cnt out p)
read_loop-stream ws zero cnt size out p o fit h =
    let same : cnt ≡ cnt + 0 = omega arith in
    (
      log resume_writers p,
      read_loop-zero (passes_for ws) cnt out p
          ∙ ap₂ (λ k t. some (pos k, t, log resume_writers p)) same (sym (append-nil out)),
    )
read_loop-stream [] (suc l) cnt size out p o fit h =
    read_loop-enough [] l cnt size out [] p o (omega (arith, h))
read_loop-stream (w ∷ ws) (suc l) cnt size out p o fit h =
    elim (Bool-cases (leb (suc l) (length (contents p.rb)))) [
      | inl enough ↦
          read_loop-enough (feed_pass w ∷ passes_for ws) l cnt size out (w ++ concat ws) p o
            (ground (arith, enough))
      | inr less ↦ elim (List-cases (contents p.rb)) [
        | inl empty ↦
            let p₁ = waited (waited p) in
            let (o₂, filled) =
              feed-IsOpen p₁ size w (waited-IsOpen (waited p) size (waited-IsOpen p size o)) empty
                fit.1 in
            stream_empty ws w l cnt size out p o fit h empty (
              read_loop-stream ws (suc l) cnt size out (feed w p₁) o₂ fit.2
                (omega (arith, h, ap length empty, ap length filled, length-append w (concat ws))))
        | inr (x, xs, some_bytes) ↦
            let r = get p.rb (suc l) in
            let q = record p { rb = r.2 } in
            let g = got p l size o in
            let few : length (contents p.rb) < suc l = ground (arith, less) in
            let (o₂, filled) =
              feed-IsOpen (waited q) size w (waited-IsOpen q size g.still)
                (drained ws w l cnt size out p o fit h few) fit.1 in
            stream_part ws w l cnt size out p o fit h few
              (λ e. (omega (arith, ap length (sym some_bytes ∙ e))))
              (read_loop-stream ws (suc (l - r.0)) (cnt + r.0) size (out ++ r.1) (feed w (waited q))
                o₂ fit.2
                (ground (arith, h, few, g.count, ap length filled, length-append w (concat ws))))
      ]
    ]

-- A reader of n bytes that finds fewer, or none, sleeps until the writers come and reads on: given
-- that the writers are there, that they put a piece of a byte at least, which fits the ring, each time
-- the reader waits, and that n is not more than what is in the pipe and what they will put, it returns
-- n with the first n bytes of the pipe's contents and the pieces, in this order.
pub piperead-stream :
    (ws : List (List ℕ)) (n size : ℕ) (p : Pipe)
    → IsOpen p size
    → AreFitting size ws
    → 0 < n
    → n ≤ length (contents p.rb) + length (concat ws)
    → (p' : Pipe) × (piperead (passes_for ws) n p
        ≡ some (pos n, take n (contents p.rb ++ concat ws), p'))
unfolding piperead
piperead-stream ws zero size p o fit some_wanted h = absurd (omega (arith, some_wanted))
piperead-stream ws (suc l) size p o fit some_wanted h =
    let (p', e) = read_loop-stream ws (suc l) 0 size [] p o fit h in
    let same : 0 + suc l ≡ suc l = omega arith in
    (p', e ∙ ap (λ k. some (pos k, take (suc l) (contents p.rb ++ concat ws), p')) same)
