-- ===== src/Ring.antt =====
-- kernel/lib/ringbuff.c: the circular character buffer under pipes and the console.
-- A `ringbuf_t *` is the value of the structure; an operation returns its `int` and the new value.
-- Lengths are the non-negative `int`s that every caller passes. `ErrPrint` on a null pointer
-- stops the process for good; a value is never null.
pub mod Bounds
pub mod Fifo
pub mod Bulk
pub mod Fetch
pub mod Erase
pub mod State
mod Tests
use hsunix.Base.{
  ℕ, zero, suc, ◌+◌, ◌-◌, List, [], ◌∷◌, ◌++◌, Option, none, some, ltb, leb, ◌==◌, ◌||◌,
  if◌then◌else◌, get_elem?, set, take, drop, replicate,
}
use hsunix.Base.Int.{ℤ, pos, negsuc}

-- `ringbuf_t`
pub record Ring : Type 0 where
  pub buf : List ℕ
  pub base_size : ℕ
  pub idle_size : ℕ
  pub r_index : ℕ
  pub w_index : ℕ

-- `kmemcpy(&dst[at], src, n)` for a `src` of n bytes in another object, byte by byte.
unfoldable pub copy_to : List ℕ → ℕ → List ℕ → List ℕ
copy_to dst at [] = dst
copy_to dst at (b ∷ src) = copy_to (set dst at b) (at + 1) src

-- The n bytes that `kmemcpy(…, &src[at], n)` reads.
abbrev pub slice : List ℕ → ℕ → ℕ → List ℕ
slice src at n = take n (drop at src)

-- `kRingbuf_clean`
pub clean : Ring → Ring
clean rb = record rb {
  buf = copy_to rb.buf 0 (replicate rb.base_size 0);
  idle_size = rb.base_size;
  r_index = 0;
  w_index = 0;
}

-- `kRingbuf_init`; a length of 0 does not come back (`ErrPrint`).
pub init : List ℕ → ℕ → Option Ring
unfolding clean
init buf len =
    if len == 0
    then none
    else some
        (clean (record { buf = buf; base_size = len; idle_size = 0; r_index = 0; w_index = 0 }))

-- The two ways in which `kRingbuf_put` stores `len` bytes, `margin` bytes before the end.
abbrev pub store_run : Ring → List ℕ → ℕ → ℕ → Ring
store_run rb src len margin =
    if ltb len margin
    then record rb {
      buf = copy_to rb.buf rb.w_index (slice src 0 len);
      w_index = rb.w_index + len;
      idle_size = rb.idle_size - len;
    }
    else record rb {
      buf =
          copy_to (copy_to rb.buf rb.w_index (slice src 0 margin)) 0
            (slice src margin (len - margin));
      w_index = len - margin;
      idle_size = rb.idle_size - len;
    }

abbrev pub clip : ℕ → ℕ → ℕ
clip bound len = if ltb bound len then bound else len

-- `kRingbuf_put`
unfoldable pub put : Ring → List ℕ → ℕ → ℕ × Ring
put rb src len = if len == 0 || rb.idle_size == 0 then (0, rb) else (
  clip rb.idle_size len,
  store_run rb src (clip rb.idle_size len) (rb.base_size - rb.w_index),
)

-- The two ways in which `kRingbuf_get` fetches `len` bytes: what it writes to the caller's buffer,
-- and the ring.
abbrev pub fetch_run : Ring → ℕ → ℕ → List ℕ × Ring
fetch_run rb len margin =
    if ltb len margin
    then (
      slice rb.buf rb.r_index len,
      record rb { r_index = rb.r_index + len; idle_size = rb.idle_size + len },
    )
    else (
      slice rb.buf rb.r_index margin ++ slice rb.buf 0 (len - margin),
      record rb { r_index = len - margin; idle_size = rb.idle_size + len },
    )

-- `kRingbuf_get`: the count, the bytes written to the caller's buffer, and the ring.
unfoldable pub get : Ring → ℕ → ℕ × List ℕ × Ring
get rb len =
    if len == 0 || rb.idle_size == rb.base_size
    then (0, [], rb)
    else let n = clip (rb.base_size - rb.idle_size) len in
      let run = fetch_run rb n (rb.base_size - rb.r_index) in (n, run.0, run.1)

-- "若是数组写到了头，则从数组头继续开始": an index that reaches the end starts over.
abbrev pub wrap : ℕ → ℕ → ℕ
wrap base i = if base == i then 0 else i

-- `kRingbuf_putChar`
pub put_char : Ring → ℕ → ℕ × Ring
put_char rb ch = if rb.idle_size == 0 then (0, rb) else (
  1,
  record rb {
    buf = set rb.buf rb.w_index ch;
    idle_size = rb.idle_size - 1;
    w_index = wrap rb.base_size (rb.w_index + 1);
  },
)

-- `kRingbuf_getChar`; the option is what is stored through `ch`.
pub get_char : Ring → ℕ × Option ℕ × Ring
get_char rb = if rb.idle_size == rb.base_size then (0, none, rb) else (
  1,
  get_elem? rb.buf rb.r_index,
  record rb { idle_size = rb.idle_size + 1; r_index = wrap rb.base_size (rb.r_index + 1) },
)

-- `kRingbuf_delChar`
pub del_char : Ring → ℤ × Ring
del_char rb =
    if leb rb.base_size rb.idle_size || rb.r_index == rb.w_index
    then (negsuc 0, rb)
    else let w = if rb.w_index == 0 then rb.base_size else rb.w_index - 1 in
      (pos 1, record rb { w_index = w; idle_size = rb.idle_size + 1; buf = set rb.buf w 0 })

-- `kRingbuf_putState`
pub put_state : Ring → ℕ
put_state rb = if rb.idle_size == 0 then 0 else 1

-- `kRingbuf_getState`
pub get_state : Ring → ℕ
get_state rb = if rb.idle_size == rb.base_size then 0 else 1

-- `kRingbuf_getLength`, and `KRingbuf_rDataSize`, which differs only in the interrupt masking.
pub get_length : Ring → ℕ
get_length rb = rb.base_size - rb.idle_size

pub r_data_size : Ring → ℕ
r_data_size rb = rb.base_size - rb.idle_size

-- `KRingbuf_wDataSize`
unfoldable pub w_data_size : Ring → ℕ
w_data_size rb = rb.idle_size
