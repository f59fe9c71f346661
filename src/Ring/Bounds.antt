-- ===== src/Ring/Bounds.antt =====
-- The representation invariant of `ringbuf_t`: every index stays inside the storage.
use hsunix.Base.{
  ℕ, ◌+◌, ◌-◌, ◌≤◌, ◌<◌, ◌≡◌, ◌⊎◌, refl, List, [], ◌∷◌, arith, length, length-set, replicate, set,
}
use hsunix.Ring.{Ring, copy_to, clean, put_char, get_char}

-- The write index is the read index moved on by the number of stored bytes, once round at most.
pub record IsValid (rb : Ring) : Type 0 where
  pub storage : rb.base_size ≤ length rb.buf
  pub idle_in : rb.idle_size ≤ rb.base_size
  pub read_in : rb.r_index < rb.base_size
  pub write_in : rb.w_index < rb.base_size
  pub apart :
      (rb.r_index + (rb.base_size - rb.idle_size) ≡ rb.w_index)
      ⊎ (rb.r_index + (rb.base_size - rb.idle_size) ≡ rb.w_index + rb.base_size)

pub length-copy_to :
    (dst : List ℕ) (at : ℕ) (src : List ℕ) → length (copy_to dst at src) ≡ length dst
unfolding copy_to
length-copy_to dst at [] = refl
length-copy_to dst at (b ∷ src) =
    omega (arith, length-copy_to (set dst at b) (at + 1) src, length-set dst at b)

pub clean-IsValid :
    (rb : Ring) → 0 < rb.base_size → rb.base_size ≤ length rb.buf → IsValid (clean rb)
unfolding clean
clean-IsValid rb h k = ground (arith, length-copy_to rb.buf 0 (replicate rb.base_size 0))

pub put_char-IsValid : (rb : Ring) (ch : ℕ) → IsValid rb → IsValid (put_char rb ch).1
unfolding put_char
put_char-IsValid rb ch v = ground (arith, length-set rb.buf rb.w_index ch)

pub get_char-IsValid : (rb : Ring) → IsValid rb → IsValid (get_char rb).2
unfolding get_char
get_char-IsValid rb v = ground arith
