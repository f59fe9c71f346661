-- ===== src/Descriptors.antt =====
-- kernel/fs/virtual_fs/fs_fd.c with `file_free` of kernel/fs/virtual_fs/fs_file.c: the descriptor
-- table of a process. A `struct File *` is a number, 0 the null pointer; the table is a list of such
-- words, and a read behind its end is a fault, `none`.
pub mod Slots
pub mod Growth
mod Tests
use hsunix.Base.{
  ℕ, zero, suc, ◌+◌, ◌-◌, ◌*◌, ◌/◌, ◌%◌, ◌^◌, List, [], ◌∷◌, Option, none, some, Bool, true, false,
  ltb, ◌==◌, ◌||◌, not, if◌then◌else◌, get_elem?, set, replicate,
}
use hsunix.Base.Int.{ℤ, pos, negsuc}

-- `fdTab` and `fdCnt` of the running process.
pub record Table : Type 0 where
  pub tab : List ℕ
  pub cnt : ℕ

-- `magic` and `ref` of the files in memory.
pub record File : Type 0 where
  pub magic : ℕ
  pub ref : ℕ

abbrev pub file_magic : ℕ
file_magic = 0xfe5a

abbrev pub Files : Type 0
Files = ℕ → File

-- `file_free`: a file that is still referred to stays.
pub file_free : ℕ → Files → Files
file_free file m q =
    if file == 0 || not ((m file).magic == file_magic) || not ((m file).ref == 0)
    then m q
    else if file == q
    then record (m q) { magic = 0 }
    else m q

-- The loop of `fd_alloc`: the first null entry, for entries from the number i on.
pub free_slot : ℕ → List ℕ → Option ℕ
free_slot i [] = none
free_slot i (f ∷ tab) = let rest = free_slot (i + 1) tab in if f == 0 then some i else rest

-- `kmemcpy(dst, src, n)` of n bytes between 64-bit words, the bytes of a word from the low end on.
pub copy_bytes : ℕ → List ℕ → List ℕ → List ℕ
copy_bytes n [] src = []
copy_bytes n (d ∷ dst) [] = d ∷ dst
copy_bytes n (d ∷ dst) (s ∷ src) =
    let rest = s ∷ copy_bytes (n - 8) dst src in
    if ltb n 8 then (s % 2 ^ (8 * n) + d / 2 ^ (8 * n) * 2 ^ (8 * n)) ∷ dst else rest

-- How `fd_alloc` ends: the number, what it stored behind the end of the old table if it did, and
-- the table.
pub record Slot : Type 0 where
  pub fd : ℤ
  pub stray : Option ℕ
  pub table : Table

-- `fd_alloc`, for the pointer that `file_alloc` gives; `room` says whether `kalloc` finds a larger
-- table, which it gives zeroed.
pub fd_alloc : Bool → ℕ → Table → Slot
unfolding free_slot copy_bytes
fd_alloc room file t = elim (free_slot 0 t.tab) [
  | some i ↦ record { fd = pos i; stray = none; table = record t { tab = set t.tab i file } }
  | none ↦
      if room
      then record {
        fd = pos t.cnt;
        stray = some file;
        table = record { tab = copy_bytes t.cnt (replicate (t.cnt + 5) 0) t.tab; cnt = t.cnt + 5 };
      }
      else record { fd = negsuc 0; stray = none; table = t }
]

-- `fd_get`: the pointer, null if the guard refuses the number.
pub fd_get : ℤ → Table → Option ℕ
fd_get (negsuc n) t = some 0
fd_get (pos fd) t = if ltb t.cnt fd then some 0 else get_elem? t.tab fd

-- `fd_free`
pub fd_free : ℤ → Table → Files → Option (Table × Files)
unfolding file_free
fd_free (negsuc n) t m = some (t, m)
fd_free (pos fd) t m = if ltb t.cnt fd then some (t, m) else elim (get_elem? t.tab fd) [
  | none ↦ none
  | some file ↦ some (record t { tab = set t.tab fd 0 }, file_free file m)
]

-- `fd_copy`: one more in a 32-bit count, or null.
pub fd_copy : ℕ → Files → ℕ × Files
fd_copy file m =
    if file == 0 || not ((m file).magic == file_magic) || (m file).ref == 0
    then (0, m)
    else (file, λ q. if file == q then record (m q) { ref = ((m q).ref + 1) % 2 ^ 32 } else m q)
