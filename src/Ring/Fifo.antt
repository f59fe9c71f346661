-- ===== src/Ring/Fifo.antt =====
-- The single-character operations of kernel/lib/ringbuff.c against a bounded first-in-first-out queue.
use hsunix.Base.{
  ℕ, zero, suc, ◌+◌, ◌-◌, ◌≤◌, ◌<◌, ◌≡◌, ◌≢◌, ◌⊎◌, refl, ap, List, [], ◌∷◌, ◌++◌, Option, none,
  some, arith, length, get_or, set, get_elem?, ◌==◌, if◌then◌else◌,
}
use hsunix.Ring.{Ring, put_char, get_char, wrap}
use hsunix.Ring.Bounds.{IsValid, put_char-IsValid, get_char-IsValid}

get_elem?-eq-get_or : (xs : List ℕ) (i : ℕ) → i < length xs → get_elem? xs i ≡ some (get_or xs i 0)
get_elem?-eq-get_or [] i h = absurd (omega arith)
get_elem?-eq-get_or (x ∷ xs) zero h = refl
get_elem?-eq-get_or (x ∷ xs) (suc i) h = get_elem?-eq-get_or xs i (omega arith)

pub get_or-set :
    (xs : List ℕ) (i j v : ℕ)
    → i < length xs
    → get_or (set xs i v) j 0 ≡ (if i == j then v else get_or xs j 0)
get_or-set [] i j v h = absurd (omega arith)
get_or-set (x ∷ xs) zero zero v h = refl
get_or-set (x ∷ xs) zero (suc j) v h = ground arith
get_or-set (x ∷ xs) (suc i) zero v h = ground arith
get_or-set (x ∷ xs) (suc i) (suc j) v h = ground (arith, get_or-set xs i j v)

-- The n characters stored from index i on.
abbrev pub span : List ℕ → ℕ → ℕ → ℕ → List ℕ
span buf base i zero = []
span buf base i (suc n) = get_or buf i 0 ∷ span buf base (wrap base (i + 1)) n

-- The stored characters, oldest first.
abbrev pub contents : Ring → List ℕ
contents rb = span rb.buf rb.base_size rb.r_index (rb.base_size - rb.idle_size)

length-span : (buf : List ℕ) (base i n : ℕ) → length (span buf base i n) ≡ n
length-span buf base i zero = refl
length-span buf base i (suc n) = ap suc (length-span buf base (wrap base (i + 1)) n)

pub length-contents : (rb : Ring) → length (contents rb) ≡ rb.base_size - rb.idle_size
length-contents rb = length-span rb.buf rb.base_size rb.r_index (rb.base_size - rb.idle_size)

-- A write at the index that ends a span adds a character at its end.
span-set :
    (buf : List ℕ) (base i n w v : ℕ)
    → base ≤ length buf
    → i < base
    → w < base
    → n < base
    → (i + n ≡ w) ⊎ (i + n ≡ w + base)
    → span (set buf w v) base i (suc n) ≡ span buf base i n ++ (v ∷ [])
span-set buf base i zero w v hs hi hw hn e = ground (arith, get_or-set buf w i v)
span-set buf base i (suc n) w v hs hi hw hn e =
    ground (arith, get_or-set buf w i v, span-set buf base (wrap base (i + 1)) n w v)

pub span-suc :
    (buf : List ℕ) (base i n : ℕ)
    → n ≢ 0
    → span buf base i n ≡ get_or buf i 0 ∷ span buf base (wrap base (i + 1)) (n - 1)
span-suc buf base i zero h = absurd (h refl)
span-suc buf base i (suc n) h =
    ap (λ k. get_or buf i 0 ∷ span buf base (wrap base (i + 1)) k) (omega arith)

-- The queue that the buffer promises: at most `cap` characters, oldest first.
unfoldable pub enqueue : ℕ → List ℕ → ℕ → ℕ × List ℕ
enqueue cap q ch = if length q == cap then (0, q) else (1, q ++ (ch ∷ []))

unfoldable pub dequeue : List ℕ → ℕ × Option ℕ × List ℕ
dequeue [] = (0, none, [])
dequeue (c ∷ q) = (1, some c, q)

pub put_char_refines :
    (rb : Ring) (ch : ℕ)
    → IsValid rb
    → let (n, rb') = put_char rb ch in (n, contents rb') ≡ enqueue rb.base_size (contents rb) ch
unfolding put_char enqueue
put_char_refines rb ch v = ground (
  arith,
  length-contents rb,
  span-set rb.buf rb.base_size rb.r_index (rb.base_size - rb.idle_size) rb.w_index ch,
)

pub get_char_refines :
    (rb : Ring)
    → IsValid rb
    → let (n, c, rb') = get_char rb in (n, c, contents rb') ≡ dequeue (contents rb)
unfolding get_char dequeue
get_char_refines rb v = ground (
  arith,
  span-suc rb.buf rb.base_size rb.r_index (rb.base_size - rb.idle_size),
  get_elem?-eq-get_or rb.buf rb.r_index,
)

-- One call of a client, and what it sees of it.
pub data Call : Type 0 where
  put_one : ℕ → Call
  get_one : Call

pub run : Ring → List Call → List (ℕ × Option ℕ)
run rb [] = []
run rb (put_one ch ∷ calls) = let (n, rb') = put_char rb ch in (n, none) ∷ run rb' calls
run rb (get_one ∷ calls) = let (n, c, rb') = get_char rb in (n, c) ∷ run rb' calls

pub run_queue : ℕ → List ℕ → List Call → List (ℕ × Option ℕ)
run_queue cap q [] = []
run_queue cap q (put_one ch ∷ calls) =
    let (n, q') = enqueue cap q ch in (n, none) ∷ run_queue cap q' calls
run_queue cap q (get_one ∷ calls) = let (n, c, q') = dequeue q in (n, c) ∷ run_queue cap q' calls

pub base_size-put_char : (rb : Ring) (ch : ℕ) → (put_char rb ch).1.base_size ≡ rb.base_size
unfolding put_char
base_size-put_char rb ch = ground arith

base_size-get_char : (rb : Ring) → (get_char rb).2.base_size ≡ rb.base_size
unfolding get_char
base_size-get_char rb = ground arith

-- No sequence of single-character calls tells a valid buffer from the bounded queue of its contents.
pub run_refines :
    (rb : Ring) (calls : List Call)
    → IsValid rb
    → run rb calls ≡ run_queue rb.base_size (contents rb) calls
unfolding run run_queue
run_refines rb [] v = refl
run_refines rb (put_one ch ∷ calls) v = ground (
  arith,
  run_refines (put_char rb ch).1 calls (put_char-IsValid rb ch v),
  put_char_refines rb ch v,
  base_size-put_char rb ch,
)
run_refines rb (get_one ∷ calls) v = ground (
  arith,
  run_refines (get_char rb).2 calls (get_char-IsValid rb v),
  get_char_refines rb v,
  base_size-get_char rb,
)
