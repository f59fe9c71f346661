-- ===== src/Ring/State.antt =====
-- `kRingbuf_init` and the state queries of kernel/lib/ringbuff.c.
use hsunix.Base.{ℕ, ◌≡◌, ◌≤◌, ◌<◌, List, [], some, arith, length, refl, ◌+◌, ◌-◌, sym}
use hsunix.Ring.{
  Ring, init, clean, put_char, get_char, put_state, get_state, get_length, r_data_size, w_data_size,
  put, get,
}
use hsunix.Ring.Bounds.{IsValid, clean-IsValid}
use hsunix.Ring.Fifo.{contents, length-contents}

contents-clean : (rb : Ring) → contents (clean rb) ≡ []
unfolding clean
contents-clean rb = let e : rb.base_size - rb.base_size ≡ 0 = omega arith in rw e

-- On a buffer of at least the given positive length `kRingbuf_init` gives a valid ring that holds
-- nothing and has that many places.
pub init_empty :
    (buf : List ℕ) (len : ℕ)
    → 0 < len
    → len ≤ length buf
    → (rb : Ring) × (init buf len ≡ some rb)
      × IsValid rb
      × (contents rb ≡ [])
      × (w_data_size rb ≡ len)
unfolding init w_data_size
init_empty buf len h k =
    let raw : Ring = record {
      buf = buf;
      base_size = len;
      idle_size = 0;
      r_index = 0;
      w_index = 0;
    } in
    (clean raw, ground arith, clean-IsValid raw h k, contents-clean raw, refl)

-- The queries agree with what the calls then do: `kRingbuf_putState` and `kRingbuf_getState` are the
-- results of `kRingbuf_putChar` and `kRingbuf_getChar`, and the two lengths are the number of stored
-- bytes and the rest of the places.
pub states_agree :
    (rb : Ring) (ch : ℕ)
    → IsValid rb
    → (put_state rb ≡ (put_char rb ch).0)
      × (get_state rb ≡ (get_char rb).0)
      × (get_length rb ≡ length (contents rb))
      × (r_data_size rb ≡ length (contents rb))
      × (r_data_size rb + w_data_size rb ≡ rb.base_size)
unfolding put_state get_state put_char get_char get_length r_data_size w_data_size
states_agree rb ch v = ground (arith, length-contents rb)

-- Neither `kRingbuf_put` nor `kRingbuf_get` changes the size of the buffer.
pub base_size-put :
    (rb : Ring) (src : List ℕ) (len : ℕ) → (put rb src len).1.base_size ≡ rb.base_size
unfolding put
base_size-put rb src len = ground arith

pub base_size-get : (rb : Ring) (len : ℕ) → (get rb len).2.base_size ≡ rb.base_size
unfolding get
base_size-get rb len = ground arith

pub r_data_size_lem : (rb : Ring) → r_data_size rb ≡ length (contents rb)
unfolding r_data_size
r_data_size_lem rb = sym (length-contents rb)
