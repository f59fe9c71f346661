-- ===== src/Ring/Fetch.antt =====
-- `kRingbuf_get` of kernel/lib/ringbuff.c: the block read against the queue.
use hsunix.Base.{
  ℕ, zero, suc, ◌+◌, ◌-◌, ◌≤◌, ◌<◌, ◌≡◌, inl, inr, refl, List, [], ◌∷◌, ◌++◌, arith, length, drop,
  get_or, min, append_assoc, Bool-cases, ltb, length-take, length-drop, length-append,
}
use hsunix.Ring.{Ring, slice, get, wrap, fetch_run}
use hsunix.Ring.Bounds.{IsValid}
use hsunix.Ring.Fifo.{span, contents}

drop-cons : (xs : List ℕ) (i : ℕ) → i < length xs → drop i xs ≡ get_or xs i 0 ∷ drop (i + 1) xs
drop-cons [] i h = absurd (omega arith)
drop-cons (x ∷ xs) zero h = refl
drop-cons (x ∷ xs) (suc i) h = ground (arith, drop-cons xs i)

-- A span that stays inside the storage for m characters begins with a slice of it.
span-slice :
    (buf : List ℕ) (base i m k : ℕ)
    → base ≤ length buf
    → i < base
    → i + m ≤ base
    → span buf base i (m + k) ≡ slice buf i m ++ span buf base (wrap base (i + m)) k
span-slice buf base i zero k h l e = ground arith
span-slice buf base i (suc zero) k h l e = ground (arith, drop-cons buf i)
span-slice buf base i (suc (suc m)) k h l e =
    let count : suc (suc m) + k ≡ suc (suc m + k) = omega arith in
    let end : i + suc (suc m) ≡ i + 1 + suc m = omega arith in
    rw (count, end, drop-cons buf i (omega arith))
      (ground (arith, span-slice buf base (i + 1) (suc m) k))

-- What a read of n characters hands out, followed by what it leaves, is what was there.
Fetched : Ring → ℕ → List ℕ × Ring → Type 0
Fetched rb n (out, rb') = (contents rb ≡ out ++ contents rb') × (length out ≡ n)

fetch_run-Fetched :
    (rb : Ring) (n : ℕ)
    → IsValid rb
    → n ≤ rb.base_size - rb.idle_size
    → Fetched rb n (fetch_run rb n (rb.base_size - rb.r_index))
unfolding Fetched
fetch_run-Fetched rb n v h = elim (Bool-cases (ltb n (rb.base_size - rb.r_index))) [
  | inl short ↦ ground (
    arith,
    span-slice rb.buf rb.base_size rb.r_index n (rb.base_size - rb.idle_size - n),
    length-take n (drop rb.r_index rb.buf),
    length-drop rb.r_index rb.buf,
  )
  | inr long ↦
      let m : ℕ = rb.base_size - rb.r_index in
      let left : ℕ = rb.base_size - rb.idle_size - n in
      ground (
        arith,
        span-slice rb.buf rb.base_size rb.r_index m (n - m + left),
        span-slice rb.buf rb.base_size 0 (n - m) left,
        length-take m (drop rb.r_index rb.buf),
        length-drop rb.r_index rb.buf,
        length-take (n - m) rb.buf,
        length-append (slice rb.buf rb.r_index m) (slice rb.buf 0 (n - m)),
        append_assoc (slice rb.buf rb.r_index m) (slice rb.buf 0 (n - m))
            (span rb.buf rb.base_size (n - m) left),
      )
]

-- `kRingbuf_get` on a valid buffer returns the smaller of the request and the number of stored
-- bytes, hands out exactly that many bytes, which are the oldest ones in order, leaves the others,
-- and keeps the invariant.
pub get_takes :
    (rb : Ring) (len : ℕ)
    → IsValid rb
    → let (n, out, rb') = get rb len in
      (n ≡ min len (rb.base_size - rb.idle_size))
      × (length out ≡ n)
      × (contents rb ≡ out ++ contents rb')
      × IsValid rb'
unfolding get Fetched
get_takes rb len v = ground (arith, fetch_run-Fetched rb (min len (rb.base_size - rb.idle_size)))
