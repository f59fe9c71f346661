-- ===== src/Ring/Erase.antt =====
-- `kRingbuf_delChar` of kernel/lib/ringbuff.c: taking back the newest character.
use hsunix.Base.{
  ℕ, zero, suc, ◌+◌, ◌-◌, ◌≤◌, ◌<◌, ◌≡◌, ◌≢◌, ◌⊎◌, refl, List, [], ◌∷◌, ◌++◌, arith, length,
  length-set, get_or, set,
}
use hsunix.Base.Int.{pos}
use hsunix.Ring.{Ring, del_char, wrap}
use hsunix.Ring.Bounds.{IsValid}
use hsunix.Ring.Fifo.{span, contents, get_or-set}

-- A span that does not reach index w does not see a write there.
span-set_outside :
    (buf : List ℕ) (base i n w v : ℕ)
    → base ≤ length buf
    → i < base
    → w < base
    → n < base
    → (i + n ≡ w) ⊎ (i + n ≡ w + base)
    → span (set buf w v) base i n ≡ span buf base i n
span-set_outside buf base i zero w v hs hi hw hn e = refl
span-set_outside buf base i (suc n) w v hs hi hw hn e =
    ground (arith, get_or-set buf w i v, span-set_outside buf base (wrap base (i + 1)) n w v)

-- The last character of a span is the one just before the index that ends it.
span-snoc :
    (buf : List ℕ) (base i n w : ℕ)
    → i < base
    → w < base
    → n < base
    → (i + n ≡ w) ⊎ (i + n ≡ w + base)
    → span buf base i (suc n) ≡ span buf base i n ++ (get_or buf w 0 ∷ [])
span-snoc buf base i zero w hi hw hn e = ground arith
span-snoc buf base i (suc n) w hi hw hn e =
    ground (arith, span-snoc buf base (wrap base (i + 1)) n w)

-- On a valid buffer that is neither empty nor full, and whose write index has not just wrapped,
-- `kRingbuf_delChar` returns 1, removes exactly the newest character and keeps the invariant.
pub del_char_newest :
    (rb : Ring)
    → IsValid rb
    → rb.idle_size < rb.base_size
    → rb.r_index ≢ rb.w_index
    → rb.w_index ≢ 0
    → let (n, rb') = del_char rb in
      (n ≡ pos 1)
      × (contents rb ≡ contents rb' ++ (get_or rb.buf (rb.w_index - 1) 0 ∷ []))
      × IsValid rb'
unfolding del_char
del_char_newest rb v h k l = ground (
  arith,
  length-set rb.buf (rb.w_index - 1) 0,
  span-snoc rb.buf rb.base_size rb.r_index (rb.base_size - rb.idle_size - 1) (rb.w_index - 1),
  span-set_outside rb.buf rb.base_size rb.r_index (rb.base_size - rb.idle_size - 1) (rb.w_index - 1)
      0,
)

-- With the write index at 0 the step back goes to `baseSize`, one past the storage.
pub del_char_wrapped :
    (rb : Ring)
    → IsValid rb
    → rb.w_index ≡ 0
    → rb.r_index ≢ 0
    → rb.idle_size < rb.base_size
    → let (n, rb') = del_char rb in (n ≡ pos 1) × (rb'.w_index ≡ rb.base_size) × ¬ IsValid rb'
unfolding del_char
del_char_wrapped rb v h k l = ground arith
