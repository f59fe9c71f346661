-- ===== src/Cstr/Move.antt =====
-- `kmemset`, `kmemmove` and `kmemcpy` of kernel/lib/string.c, address by address.
use hsunix.Base.{ℕ, zero, suc, ◌+◌, ◌-◌, ◌%◌, ◌≤◌, ◌≡◌, ◌⊎◌, arith, ltb, leb, ◌&&◌, if◌then◌else◌}
use hsunix.Cstr.{Memory, store, kmemset, kmemmove, kmemcpy, copy_up, copy_down}

-- The memory after n bytes have moved at once from src to dst.
abbrev pub moved : Memory → ℕ → ℕ → ℕ → Memory
moved m dst src n a = if leb dst a && ltb a (dst + n) then m (src + (a - dst)) else m a

copy_up-moved :
    (m : Memory) (dst src n a : ℕ)
    → (dst ≤ src) ⊎ (src + n ≤ dst)
    → copy_up m dst src n a ≡ moved m dst src n a
unfolding copy_up
copy_up-moved m dst src zero a h = ground arith
copy_up-moved m dst src (suc n) a h =
    ground (arith, copy_up-moved (store m dst (m src)) (dst + 1) (src + 1) n a)

copy_down-moved :
    (m : Memory) (dst src n a : ℕ) → (src ≤ dst) → copy_down m dst src n a ≡ moved m dst src n a
unfolding copy_down
copy_down-moved m dst src zero a h = ground arith
copy_down-moved m dst src (suc n) a h =
    ground (arith, copy_down-moved (store m (dst + n) (m (src + n))) dst src n a)

-- However the two regions overlap, `kmemmove` leaves at each address of the destination the byte
-- that the source held before the call, and every other address as it was.
pub kmemmove-moved : (m : Memory) (dst src n a : ℕ) → kmemmove m dst src n a ≡ moved m dst src n a
unfolding kmemmove
kmemmove-moved m dst src n a =
    ground (arith, copy_up-moved m dst src n a, copy_down-moved m dst src n a)

-- `kmemcpy` chooses its direction by another test and still agrees with `kmemmove` at every
-- address, for regions that overlap too.
pub kmemcpy-kmemmove :
    (m : Memory) (dst src n a : ℕ) → kmemcpy m dst src n a ≡ kmemmove m dst src n a
unfolding kmemcpy
kmemcpy-kmemmove m dst src n a = ground (
  arith,
  copy_up-moved m dst src n a,
  copy_down-moved m dst src n a,
  kmemmove-moved m dst src n a,
)

-- `kmemset` puts the low byte of its value at the n addresses from s on and nowhere else.
pub kmemset-fills :
    (m : Memory) (s c n a : ℕ)
    → kmemset m s c n a ≡ (if leb s a && ltb a (s + n) then c % 256 else m a)
unfolding kmemset
kmemset-fills m s c zero a = ground arith
kmemset-fills m s c (suc n) a = ground (arith, kmemset-fills (store m s (c % 256)) (s + 1) c n a)
