-- ===== src/Descriptors/Slots.antt =====
-- The numbers that kernel/fs/virtual_fs/fs_fd.c gives out.
use hsunix.Base.{
  ℕ, ◌+◌, ◌≡◌, ◌≢◌, arith, List, [], ◌∷◌, ◌++◌, some, length, refl, get_elem?, set, Bool, ap, ◌<◌,
}
use hsunix.Base.Int.{pos}
use hsunix.Descriptors.{Table, Files, file_free, free_slot, fd_alloc, fd_get, fd_free}

-- The table has as many entries as its count says.
abbrev pub IsSized : Table → Type 0
IsSized t = length t.tab ≡ t.cnt

abbrev pub NoNull : List ℕ → Type 0
NoNull [] = Unit
NoNull (f ∷ fs) = (f ≢ 0) × NoNull fs

free_slot-first :
    (i : ℕ) (pre post : List ℕ)
    → NoNull pre
    → free_slot i (pre ++ (0 ∷ post)) ≡ some (i + length pre)
unfolding free_slot
free_slot-first i [] post h = ground arith
free_slot-first i (f ∷ pre) post h = ground (arith, free_slot-first (i + 1) pre post)

set-middle :
    (x y : ℕ) (pre post : List ℕ) → set (pre ++ (x ∷ post)) (length pre) y ≡ pre ++ (y ∷ post)
set-middle x y [] post = refl
set-middle x y (f ∷ pre) post = ap (λ xs. f ∷ xs) (set-middle x y pre post)

get-middle : (x : ℕ) (pre post : List ℕ) → get_elem? (pre ++ (x ∷ post)) (length pre) ≡ some x
get-middle x [] post = refl
get-middle x (f ∷ pre) post = get-middle x pre post

length-middle :
    (x : ℕ) (pre post : List ℕ) → length (pre ++ (x ∷ post)) ≡ length pre + length post + 1
length-middle x [] post = omega arith
length-middle x (f ∷ pre) post = ground (arith, length-middle x pre post)

-- With a free entry `fd_alloc` gives the lowest free number and puts the new file there, touching no
-- other entry; then `fd_get` of the number gives that file, and `fd_free` of it gives the table of
-- before back and frees the file.
pub fd_alloc-lowest :
    (room : Bool) (file : ℕ) (t : Table) (m : Files) (pre post : List ℕ)
    → IsSized t
    → t.tab ≡ pre ++ (0 ∷ post)
    → NoNull pre
    → let s = fd_alloc room file t in
      (s.fd ≡ pos (length pre))
      × (s.table.tab ≡ pre ++ (file ∷ post))
      × (fd_get s.fd s.table ≡ some file)
      × (fd_free s.fd s.table m ≡ some (t, file_free file m))
unfolding fd_alloc fd_get fd_free
fd_alloc-lowest room file t m pre post z e h =
    let inside : length pre < t.cnt = ground (arith, z, e, length-middle 0 pre post) in
    ground (
      arith,
      e,
      inside,
      free_slot-first 0 pre post h,
      set-middle 0 file pre post,
      set-middle file 0 pre post,
      get-middle file pre post,
    )
