-- ===== src/Inodes/Content.antt =====
-- `dinode_read` of kernel/fs/disk_fs/dfs_inode.c against the bytes of the file.
use hsunix.Base.{
  ℕ, zero, suc, ◌+◌, ◌-◌, ◌*◌, ◌/◌, ◌%◌, ◌^◌, ◌≡◌, ◌≢◌, ◌<◌, ◌≤◌, arith, List, [], ◌∷◌, ◌++◌, some,
  true, false, ltb, min, if◌then◌else◌, get_or, take, drop, length, refl, ap, ◌∙◌, sym,
  append_assoc, append-nil, suc-cases, ap₂, Bool-cases, ◌||◌, inl, inr,
}
use hsunix.DiskCache.{Buf, Cache, bsize}
use hsunix.Blocks.Borrow.{free-ready}
use hsunix.Blocks.{Sb, Inode, bmap}
use hsunix.Blocks.Borrow.{borrow-ready}
use hsunix.DiskCache.Lent.{IsReady}
use hsunix.Blocks.Lookup.{block_of, bmap-there}
use hsunix.Inodes.{part, read_blocks, dinode_read}

-- So many bytes of a file from an offset on.
abbrev pub file_bytes : (ℕ → List ℕ) → Inode → ℕ → ℕ → List ℕ
file_bytes disk n off zero = []
file_bytes disk n off (suc l) =
    get_or (disk (block_of disk n (off / bsize))) (off % bsize) 0 ∷ file_bytes disk n (suc off) l

-- Every block of the file is on the disk, and blocks are whole.
pub record IsWhole (disk : ℕ → List ℕ) (n : Inode) : Type 0 where
  pub there : (i : ℕ) → i * bsize < n.size → block_of disk n i ≢ 0
  pub full : (b : ℕ) → length (disk b) ≡ bsize

drop-next :
    (d : List ℕ) (o m : ℕ)
    → o < length d
    → take (suc m) (drop o d) ≡ get_or d o 0 ∷ take m (drop (suc o) d)
drop-next [] o m h = elim h [ ]
drop-next (x ∷ d) zero m h = refl
drop-next (x ∷ d) (suc o) m h = drop-next d o m (omega (arith, h))

module _ (disk : ℕ → List ℕ) (n : Inode) where
  file_bytes-split :
      (l m off : ℕ)
      → file_bytes disk n off (m + l) ≡ file_bytes disk n off m ++ file_bytes disk n (off + m) l
  file_bytes-split l zero off =
      let a : 0 + l ≡ l = omega arith in let b : off + 0 ≡ off = omega arith in rw (a, b) refl
  file_bytes-split l (suc m) off =
      let a : suc m + l ≡ suc (m + l) = omega arith in
      let b : off + suc m ≡ suc off + m = omega arith in
      rw (a, b)
        (ap (λ t. get_or (disk (block_of disk n (off / bsize))) (off % bsize) 0 ∷ t)
          (file_bytes-split l m (suc off)))

  -- A piece of one block.
  piece-file_bytes :
      (m off : ℕ)
      → ((b : ℕ) → length (disk b) ≡ bsize)
      → off % bsize + m ≤ bsize
      → take m (drop (off % bsize) (disk (block_of disk n (off / bsize)))) ≡ file_bytes disk n off m
  piece-file_bytes zero off full h = refl
  piece-file_bytes (suc zero) off full h =
      drop-next (disk (block_of disk n (off / bsize))) (off % bsize) 0
        (rw (full (block_of disk n (off / bsize))) (omega arith))
  piece-file_bytes (suc (suc m)) off full h =
      let d : List ℕ = disk (block_of disk n (off / bsize)) in
      let block : suc off / bsize ≡ off / bsize = omega (arith, h) in
      let place : suc off % bsize ≡ suc (off % bsize) = omega (arith, h) in
      let rest = piece-file_bytes (suc m) (suc off) full (omega (arith, h)) in
      let there = ap₂ (λ b o. take (suc m) (drop o (disk (block_of disk n b)))) block place in
      drop-next d (off % bsize) (suc m) (rw (full (block_of disk n (off / bsize))) (omega arith))
      ∙ ap (λ t. get_or d (off % bsize) 0 ∷ t) (sym there ∙ rest)

module _ (a : ℕ) (bs : List Buf) (sb : Sb) (n : Inode) (c : Cache) (q : IsReady a bs c)
    (whole : IsWhole c.disk n) where
  read_blocks-next :
      (f off l : ℕ) (out : List ℕ)
      → off + suc l ≤ n.size
      → read_blocks (suc f) sb n off (suc l) out c
        ≡ read_blocks f sb n
            (off + part off (suc l))
            (suc l - part off (suc l))
            (out ++ file_bytes c.disk n off (part off (suc l)))
            c
  unfolding read_blocks
  read_blocks-next f off l out h =
      let i = off / bsize in
      let (b, e) = suc-cases (block_of c.disk n i) (whole.there i (omega (arith, h))) in
      let found : bmap sb n i c ≡ some (suc b, n, c) =
        bmap-there a bs sb n c q i (whole.there i (omega (arith, h)))
        ∙ ap (λ x. some (x, n, c)) e in
      let bytes : take (part off (suc l)) (drop (off % bsize) (c.disk (suc b)))
          ≡ file_bytes c.disk n off (part off (suc l)) =
        ap (λ x. take (part off (suc l)) (drop (off % bsize) (c.disk x))) (sym e)
        ∙ piece-file_bytes c.disk n (part off (suc l)) off whole.full (omega arith) in
      rw (found, read_blocks)
        (rw (borrow-ready (suc b) a bs c q) (
          ap₂
            (λ x y.
              read_blocks f sb n (off + part off (suc l)) (suc l - part off (suc l)) (out ++ x) y)
            bytes (free-ready (suc b) a bs c q)))

  read_blocks-file_bytes :
      (f off l : ℕ) (out : List ℕ)
      → l < f
      → off + l ≤ n.size
      → read_blocks f sb n off l out c ≡ some (out ++ file_bytes c.disk n off l, n, c)
  unfolding read_blocks
  read_blocks-file_bytes zero off l out h b = absurd (omega (arith, h))
  read_blocks-file_bytes (suc f) off zero out h b = rw (append-nil out) refl
  read_blocks-file_bytes (suc f) off (suc l) out h b =
      let m : ℕ = part off (suc l) in
      let sum : m + (suc l - m) ≡ suc l = omega arith in
      let rest =
        read_blocks-file_bytes f (off + m) (suc l - m) (out ++ file_bytes c.disk n off m)
          (omega (arith, h)) (omega (arith, b)) in
      read_blocks-next f off l out b
      ∙ rest
      ∙ ap (λ t. some (t, n, c))
          (append_assoc out (file_bytes c.disk n off m) (file_bytes c.disk n (off + m) (suc l - m))
            ∙ ap (λ t. out ++ t) (sym (file_bytes-split c.disk n (suc l - m) m off))
            ∙ ap (λ k. out ++ file_bytes c.disk n off k) sum)

  dinode_read-inside :
      (off len : ℕ)
      → off ≤ n.size
      → off + len < 2 ^ 32
      → dinode_read sb n off len c ≡ some (file_bytes c.disk n off (min len (n.size - off)), n, c)
  unfolding dinode_read
  dinode_read-inside off len h small =
      let sum : (off + len) % 2 ^ 32 ≡ off + len = omega (arith, small) in
      let fits : (ltb n.size off || ltb (off + len) off) ≡ false = ground (arith, h) in
      let bytes : (if ltb n.size (off + len) then n.size - off else len) ≡ min len (n.size - off) =
        ground (arith, h) in
      rw (sum, dinode_read)
        (rw fits (
          rw bytes (
            read_blocks-file_bytes (suc (min len (n.size - off))) off (min len (n.size - off)) []
              (omega arith) (omega (arith, h)))))

-- `dinode_read` of a file whose blocks are on the disk gives the bytes of the file from the offset on,
-- as many as are asked for and as the file has; none behind the end of the file, and none where the
-- end of the range is no `uint`. Neither the inode nor the buffers nor the disk change. The buffers are
-- sound (those in use are of different blocks and numbers, valid, and hold what the disk holds, with
-- fewer than 2^31 users each), and the first idle one is blank and of no block; offset and length are
-- each below 2^32.
pub dinode_read_lem :
    (a : ℕ) (bs : List Buf) (sb : Sb) (n : Inode) (c : Cache) (off len : ℕ)
    → IsReady a bs c
    → IsWhole c.disk n
    → off < 2 ^ 32
    → len < 2 ^ 32
    → dinode_read sb n off len c
      ≡ some (
        if ltb (off + len) (2 ^ 32) then file_bytes c.disk n off (min len (n.size - off)) else [],
        n,
        c,
      )
unfolding dinode_read
dinode_read_lem a bs sb n c off len q whole h k = elim (Bool-cases (ltb (off + len) (2 ^ 32))) [
  | inl small ↦ elim (Bool-cases (ltb n.size off)) [
    | inl behind ↦
        let nothing : min len (n.size - off) ≡ 0 = ground (arith, behind) in
        rw (small, nothing) (rw (behind, dinode_read) refl)
    | inr inside ↦ rw small (
        dinode_read-inside a bs sb n c q whole off len (ground (arith, inside))
          (ground (arith, small)))
  ]
  | inr large ↦
      let wraps : ltb ((off + len) % 2 ^ 32) off ≡ true = ground (arith, large, h, k) in
      let stops : (ltb n.size off || ltb ((off + len) % 2 ^ 32) off) ≡ true =
        ground (arith, wraps) in
      rw large (rw (stops, dinode_read) refl)
]
