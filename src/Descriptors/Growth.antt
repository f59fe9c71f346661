-- ===== src/Descriptors/Growth.antt =====
-- What kernel/fs/virtual_fs/fs_fd.c does at the end of the table.
use hsunix.Base.{
  ℕ, ◌+◌, ◌≡◌, ◌<◌, arith, List, [], ◌∷◌, none, some, true, length, refl, get_elem?, replicate, suc,
  ◌≤◌, ◌*◌, ◌-◌, zero, ◌%◌, ◌/◌, ap,
}
use hsunix.Base.Int.{pos}
use hsunix.Descriptors.{Table, Files, fd_alloc, fd_get, fd_free, free_slot, copy_bytes}
use hsunix.Descriptors.Slots.{IsSized, NoNull}

get_elem?-end : (tab : List ℕ) → get_elem? tab (length tab) ≡ none
get_elem?-end [] = refl
get_elem?-end (f ∷ tab) = get_elem?-end tab

-- The number behind the last entry passes the guards of `fd_get` and `fd_free`, and both read behind
-- the end of the table.
pub fd_get-at_end :
    (t : Table) (m : Files)
    → IsSized t
    → (fd_get (pos t.cnt) t ≡ none) × (fd_free (pos t.cnt) t m ≡ none)
unfolding fd_get fd_free
fd_get-at_end t m z = ground (arith, z, get_elem?-end t.tab)

full : (i : ℕ) (tab : List ℕ) → NoNull tab → free_slot i tab ≡ none
unfolding free_slot
full i [] h = refl
full i (f ∷ tab) h = ground (arith, full (i + 1) tab)

-- A copy of n bytes leaves alone every word from the byte n on.
copy_bytes-behind :
    (n i : ℕ) (dst src : List ℕ) → n ≤ 8 * i → get_elem? (copy_bytes n dst src) i ≡ get_elem? dst i
unfolding copy_bytes
copy_bytes-behind n i [] src h = refl
copy_bytes-behind n i (d ∷ dst) [] h = refl
copy_bytes-behind n zero (d ∷ dst) (s ∷ src) h =
    let e : n ≡ 0 = omega (arith, h) in
    let kept : s % 1 + d / 1 * 1 ≡ d = omega arith in rw e (ap some kept)
copy_bytes-behind n (suc i) (d ∷ dst) (s ∷ src) h =
    ground (arith, copy_bytes-behind (n - 8) i dst src)

get-replicate : (n i : ℕ) → i < n → get_elem? (replicate {A = ℕ} n 0) i ≡ some 0
get-replicate zero i h = absurd (omega (arith, h))
get-replicate (suc n) zero h = refl
get-replicate (suc n) (suc i) h = get-replicate n i (omega (arith, h))

-- A full table grows by five entries, but the new file is stored behind the end of the old table,
-- and only as many bytes are copied as the old table has entries: the number that `fd_alloc` returns
-- and every old number from an eighth of the count on lead to the null pointer.
pub fd_alloc-forgets :
    (file fd : ℕ) (t : Table)
    → IsSized t
    → NoNull t.tab
    → t.cnt ≤ 8 * fd
    → fd ≤ t.cnt
    → let s = fd_alloc true file t in
      (s.fd ≡ pos t.cnt) × (s.stray ≡ some file) × (fd_get (pos fd) s.table ≡ some 0)
unfolding fd_alloc fd_get
fd_alloc-forgets file fd t z h l b = ground (
  arith,
  full 0 t.tab h,
  copy_bytes-behind t.cnt fd (replicate (t.cnt + 5) 0) t.tab l,
  get-replicate (t.cnt + 5) fd,
)
