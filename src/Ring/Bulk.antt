-- ===== src/Ring/Bulk.antt =====
-- `kRingbuf_put` of kernel/lib/ringbuff.c: the block copy against single characters and the queue.
use hsunix.Base.{
  ℕ, zero, suc, ◌+◌, ◌-◌, ◌≤◌, ◌<◌, ◌≡◌, inl, inr, refl, sym, ap, List, [], ◌∷◌, ◌++◌, arith,
  length, take, drop, min, append-nil, append_assoc, Bool-cases, ltb, length-take, length-drop,
}
use hsunix.Ring.{Ring, copy_to, put, put_char, wrap, store_run}
use hsunix.Ring.Bounds.{IsValid, put_char-IsValid}
use hsunix.Ring.Fifo.{contents, put_char_refines, enqueue, length-contents}

-- Character by character, for as many as there are.
pub put_all : Ring → List ℕ → Ring
put_all rb [] = rb
put_all rb (b ∷ bs) = put_all (put_char rb b).1 bs

put_all-append : (rb : Ring) (xs ys : List ℕ) → put_all rb (xs ++ ys) ≡ put_all (put_all rb xs) ys
unfolding put_all
put_all-append rb [] ys = refl
put_all-append rb (x ∷ xs) ys = put_all-append (put_char rb x).1 xs ys

idle_size-put_char : (rb : Ring) (b : ℕ) → (put_char rb b).1.idle_size ≡ rb.idle_size - 1
unfolding put_char
idle_size-put_char rb b = ground arith

put_char-contents :
    (rb : Ring) (b : ℕ)
    → IsValid rb
    → 0 < rb.idle_size
    → contents (put_char rb b).1 ≡ contents rb ++ (b ∷ [])
unfolding enqueue
put_char-contents rb b v h = ground (arith, put_char_refines rb b v, length-contents rb)

put_all-IsValid : (rb : Ring) (bs : List ℕ) → IsValid rb → IsValid (put_all rb bs)
unfolding put_all
put_all-IsValid rb [] v = v
put_all-IsValid rb (b ∷ bs) v = put_all-IsValid (put_char rb b).1 bs (put_char-IsValid rb b v)

put_all-contents :
    (rb : Ring) (bs : List ℕ)
    → IsValid rb
    → length bs ≤ rb.idle_size
    → contents (put_all rb bs) ≡ contents rb ++ bs
unfolding put_all
put_all-contents rb [] v h = sym (append-nil (contents rb))
put_all-contents rb (b ∷ bs) v h = ground (
  arith,
  put_all-contents (put_char rb b).1 bs (put_char-IsValid rb b v),
  put_char-contents rb b v,
  idle_size-put_char rb b,
  append_assoc (contents rb) (b ∷ []) bs,
)

-- A block copy up to the end of the storage is a run of single characters.
put_all-copy :
    (rb : Ring) (bs : List ℕ)
    → rb.w_index < rb.base_size
    → rb.w_index + length bs ≤ rb.base_size
    → length bs ≤ rb.idle_size
    → put_all rb bs ≡ record rb {
      buf = copy_to rb.buf rb.w_index bs;
      w_index = wrap rb.base_size (rb.w_index + length bs);
      idle_size = rb.idle_size - length bs;
    }
unfolding put_all put_char copy_to
put_all-copy rb [] h k l = ground arith
put_all-copy rb (b ∷ []) h k l = ground arith
put_all-copy rb (b ∷ c ∷ bs) h k l = ground (arith, put_all-copy (put_char rb b).1 (c ∷ bs))

take-nil : (n : ℕ) → take {A = ℕ} n [] ≡ []
take-nil zero = refl
take-nil (suc n) = refl

take-split : (m n : ℕ) (xs : List ℕ) → m ≤ n → take n xs ≡ take m xs ++ take (n - m) (drop m xs)
take-split zero n xs h = ap (λ k. take k xs) (omega arith)
take-split (suc m) zero xs h = absurd (omega arith)
take-split (suc m) (suc n) [] h = sym (take-nil (suc n - suc m))
take-split (suc m) (suc n) (x ∷ xs) h = ground (arith, take-split m n xs)

-- The block copies for `n` bytes store what `n` single characters would, split at the end or not.
store_run-put_all :
    (rb : Ring) (src : List ℕ) (n : ℕ)
    → IsValid rb
    → n ≤ length src
    → n ≤ rb.idle_size
    → store_run rb src n (rb.base_size - rb.w_index) ≡ put_all rb (take n src)
store_run-put_all rb src n v h k = elim (Bool-cases (ltb n (rb.base_size - rb.w_index))) [
  | inl short ↦ ground (arith, put_all-copy rb (take n src), length-take n src)
  | inr long ↦
      let m : ℕ = rb.base_size - rb.w_index in
      let rest : List ℕ = take (n - m) (drop m src) in
      let mid : Ring = record rb {
        buf = copy_to rb.buf rb.w_index (take m src);
        w_index = 0;
        idle_size = rb.idle_size - m;
      } in
      ground (
        arith,
        take-split m n src,
        put_all-append rb (take m src) rest,
        put_all-copy rb (take m src),
        put_all-copy mid rest,
        length-take m src,
        length-take (n - m) (drop m src),
        length-drop m src,
      )
]

-- `kRingbuf_put` takes as many bytes as there are and as fit, and stores them exactly as that many
-- calls of `kRingbuf_putChar` would.
pub put-put_all :
    (rb : Ring) (src : List ℕ) (len : ℕ)
    → IsValid rb
    → len ≤ length src
    → put rb src len ≡ (min len rb.idle_size, put_all rb (take (min len rb.idle_size) src))
unfolding put put_all
put-put_all rb src len v h = ground (arith, store_run-put_all rb src (min len rb.idle_size))

-- `kRingbuf_put` on a valid buffer returns the smaller of the request and the free space, appends
-- exactly that many bytes of the source to the contents, in order, and keeps the invariant.
pub put_appends :
    (rb : Ring) (src : List ℕ) (len : ℕ)
    → IsValid rb
    → len ≤ length src
    → let (n, rb') = put rb src len in
      (n ≡ min len rb.idle_size) × (contents rb' ≡ contents rb ++ take n src) × IsValid rb'
put_appends rb src len v h =
    let n : ℕ = min len rb.idle_size in
    rw (put-put_all rb src len v h) (
      refl,
      put_all-contents rb (take n src) v (omega (arith, length-take n src)),
      put_all-IsValid rb (take n src) v,
    )
