-- ===== src/Inodes/Write.antt =====
-- `dinode_write` of kernel/fs/disk_fs/dfs_inode.c on the bytes of the file.
use hsunix.Base.{
  ℕ, ◌+◌, ◌-◌, ◌*◌, ◌/◌, ◌%◌, ◌≡◌, ◌≢◌, ◌<◌, ◌≤◌, arith, List, false, leb, ltb, ◌&&◌, if◌then◌else◌,
  get_or, take, length, refl, drop, sym, ◌∙◌, suc, some, suc-cases, length-drop, zero, ap, ap₂, ◌^◌,
  ◌||◌, true,
}
use hsunix.DiskCache.{bsize, io_write, Buf, Cache}
use hsunix.Blocks.{Inode, Sb, bmap}
use hsunix.Blocks.Lookup.{block_of, bmap-there}
use hsunix.Inodes.{
  put_run, write_blocks, part, dinode_flush, iblock_of, dinode_write, write_size, put_inode, iplace,
}
use hsunix.Inodes.Content.{IsWhole}
use hsunix.DiskCache.Sound.{stored, IsSound}
use hsunix.DiskCache.Lent.{IsReady, IsReady-stored, lent, lent-disk, IsReady-lent}
use hsunix.DiskCache.Pool.{holds}
use hsunix.Blocks.Borrow.{borrow-ready, give_back-ready, flush-ready}
use hsunix.Base.Int.{pos, negsuc}
use hsunix.Inodes.Update.{
  byte_of, IsApart, Written, Written-none, Written-piece, Written-IsWhole, Written-IsApart,
  Written-then,
}

module _ (a : ℕ) (bs : List Buf) (sb : Sb) (n : Inode) where
  -- The buffers after a piece of the source is written.
  abbrev put_piece : ℕ → ℕ → List ℕ → Cache → Cache
  put_piece off m src c =
      let b : ℕ = block_of c.disk n (off / bsize) in
      stored b (put_run (c.disk b) (off % bsize) (take m src)) c

  write_blocks-next :
      (f off l tot : ℕ) (src : List ℕ) (c : Cache)
      → IsReady a bs c
      → IsWhole c.disk n
      → off + suc l ≤ n.size
      → write_blocks (suc f) sb n src off (suc l) tot c
        ≡ write_blocks f sb n
            (drop (part off (suc l)) src)
            (off + part off (suc l))
            (suc l - part off (suc l))
            (tot + part off (suc l))
            (put_piece off (part off (suc l)) src c)
  unfolding write_blocks
  write_blocks-next f off l tot src c q whole h =
      let i = off / bsize in
      let m : ℕ = part off (suc l) in
      let (b, e) = suc-cases (block_of c.disk n i) (whole.there i (omega (arith, h))) in
      let found : bmap sb n i c ≡ some (suc b, n, c) =
        bmap-there a bs sb n c q i (whole.there i (omega (arith, h)))
        ∙ ap (λ x. some (x, n, c)) e in
      rw (found, write_blocks)
        (rw (borrow-ready (suc b) a bs c q) (
          ap (write_blocks f sb n (drop m src) (off + m) (suc l - m) (tot + m)) (
            give_back-ready (suc b) a bs c q (put_run (c.disk (suc b)) (off % bsize) (take m src))
            ∙ ap (λ x. stored x (put_run (c.disk x) (off % bsize) (take m src)) c) (sym e))))

  write_blocks_lem :
      (f off l tot : ℕ) (src : List ℕ) (c : Cache)
      → l < f
      → off + l ≤ n.size
      → l ≤ length src
      → IsReady a bs c
      → IsWhole c.disk n
      → IsApart c.disk n
      → (c' : Cache) × (write_blocks f sb n src off l tot c ≡ some (tot + l, off + l, n, c'))
        × IsReady a bs c'
        × Written c.disk c'.disk n src off l
  unfolding write_blocks
  write_blocks_lem zero off l tot src c h b g q whole apart = absurd (omega (arith, h))
  write_blocks_lem (suc f) off zero tot src c h b g q whole apart =
      (c, ground arith, q, Written-none c.disk n whole apart src off)
  write_blocks_lem (suc f) off (suc l) tot src c h b g q whole apart =
      let m : ℕ = part off (suc l) in
      let at : ℕ = block_of c.disk n (off / bsize) in
      let d = put_run (c.disk at) (off % bsize) (take m src) in
      let c₁ : Cache = put_piece off m src c in
      let one : Written c.disk c₁.disk n src off m =
        Written-piece c.disk n whole apart src off m (omega (arith, b)) (omega arith) (omega arith)
          (omega (arith, g)) in
      let (c', run, q', rest) =
        write_blocks_lem f (off + m) (suc l - m) (tot + m) (drop m src) c₁ (omega (arith, h))
          (omega (arith, b)) (omega (arith, g, length-drop m src)) (IsReady-stored at a bs c d q)
          (Written-IsWhole c.disk c₁.disk n src off m one whole)
          (Written-IsApart c.disk c₁.disk n src off m one apart) in
      (
        c',
        write_blocks-next f off l tot src c q whole b
            ∙ run
            ∙ ap₂ (λ x y. some (x, y, n, c')) (omega arith) (omega arith),
        q',
        Written-then c.disk c₁.disk n src off m one c'.disk (suc l) (omega arith) rest,
      )

  -- The buffers after the inode is written: the buffer of its block stays taken.
  abbrev pub flushed : Cache → Cache
  flushed c =
      let ib : ℕ = iblock_of n sb in
      lent ib a bs (stored ib (put_inode (c.disk ib) (iplace n.inum) n) c)

  pub flush_lem : (c : Cache) → IsReady a bs c → dinode_flush sb n c ≡ some (flushed c)
  unfolding dinode_flush
  flush_lem c q =
      let ib = iblock_of n sb in
      rw (borrow-ready ib a bs c q, dinode_flush)
        (ap some (flush-ready ib a bs c q (put_inode (c.disk ib) (iplace n.inum) n)))

  flushed-disk :
      (c : Cache)
      → (flushed c).disk
        ≡ io_write (iblock_of n sb) (put_inode (c.disk (iblock_of n sb)) (iplace n.inum) n) c.disk
  flushed-disk c =
      lent-disk (iblock_of n sb) a bs
        (stored (iblock_of n sb) (put_inode (c.disk (iblock_of n sb)) (iplace n.inum) n) c)

  -- The inode's own block is no block of the file.
  bytes-flush :
      (disk : ℕ → List ℕ) (d : List ℕ)
      → ((i : ℕ) → i * bsize < n.size → block_of disk n i ≢ iblock_of n sb)
      → n.ex_addr ≢ iblock_of n sb
      → (k : ℕ) → k < n.size
      → byte_of (io_write (iblock_of n sb) d disk) n k ≡ byte_of disk n k
  bytes-flush disk d away extra k h = ground (arith, away (k / bsize) (omega (arith, h)), extra)

  dinode_write-run :
      (src : List ℕ) (off len : ℕ) (c c' : Cache)
      → n.size ≤ 268 * 1024
      → off + len ≤ n.size
      → write_blocks (suc len) sb n src off len 0 c ≡ some (0 + len, off + len, n, c')
      → IsReady a bs c'
      → dinode_write sb n src off len c ≡ some (pos len, n, flushed c')
  unfolding dinode_write write_size
  dinode_write-run src off len c c' max inside run q =
      let sum : (off + len) % 2 ^ 32 ≡ off + len = omega (arith, max, inside) in
      let fits : (ltb n.size off || ltb (off + len) off) ≡ false = ground (arith, inside) in
      let short : ltb 274432 (off + len) ≡ false = ground (arith, max, inside) in
      let grown : ltb n.size (off + len) ≡ false = ground (arith, inside) in
      let count : 0 + len ≡ len = omega arith in
      rw (sum, dinode_write)
        (rw fits (
          rw short
            (rw run (rw (grown, write_size) (rw (flush_lem c' q) (rw (count, grown) refl))))))

-- `dinode_write` inside a file whose blocks are on the disk, each once and none of them the block of
-- its inode or of its block numbers: all bytes are written, the inode stays as it is, each byte of the
-- file in the range is that of the source and each other byte what it was. The buffers are sound before
-- and after: those in use are of different blocks and numbers, valid, and hold what the disk holds, with
-- fewer than 2^31 users each, and one more afterwards. Before, the first idle buffer is blank and of no
-- block; afterwards a buffer of the inode's block is in use.
pub dinode_write_lem :
    (a : ℕ) (bs : List Buf) (sb : Sb) (n : Inode) (c : Cache) (src : List ℕ) (off len : ℕ)
    → IsReady a bs c
    → IsWhole c.disk n
    → IsApart c.disk n
    → ((i : ℕ) → i * bsize < n.size → block_of c.disk n i ≢ iblock_of n sb)
    → n.ex_addr ≢ iblock_of n sb
    → n.size ≤ 268 * 1024
    → off + len ≤ n.size
    → len ≤ length src
    → (c' : Cache) × (dinode_write sb n src off len c ≡ some (pos len, n, c'))
      × ((k : ℕ)
          → k < n.size
          → byte_of c'.disk n k ≡ (
              if leb off k && ltb k (off + len)
              then get_or src (k - off) 0
              else byte_of c.disk n k))
      × IsSound (2 ^ 31 + 1) c'.disk c'.cached
      × (holds (iblock_of n sb) c'.cached ≡ true)
dinode_write_lem a bs sb n c src off len q whole apart away extra max inside given =
    let (c₁, run, q₁, w) =
      write_blocks_lem a bs sb n (suc len) off len 0 src c (omega arith) inside given q whole
        apart in
    let ib = iblock_of n sb in
    let d = put_inode (c₁.disk ib) (iplace n.inum) n in
    let ready : IsReady a bs (stored ib d c₁) = IsReady-stored ib a bs c₁ d q₁ in
    let left = IsReady-lent ib a bs (stored ib d c₁) ready in
    (
      flushed a bs sb n c₁,
      dinode_write-run a bs sb n src off len c c₁ max inside run q₁,
      λ k h.
          ap (λ disk. byte_of disk n k) (flushed-disk a bs sb n c₁)
          ∙ bytes-flush a bs sb n c₁.disk d (λ i l e. away i l (sym (w.same_blocks i) ∙ e)) extra k
              h
          ∙ w.bytes k h,
      left.0,
      left.1,
    )

-- Behind the end of a file nothing is written.
pub dinode_write-refused :
    (sb : Sb) (n : Inode) (src : List ℕ) (off len : ℕ) (c : Cache)
    → n.size < off
    → dinode_write sb n src off len c ≡ some (negsuc 0, n, c)
unfolding dinode_write
dinode_write-refused sb n src off len c h =
    let e : (ltb n.size off || ltb ((off + len) % 2 ^ 32) off) ≡ true = ground (arith, h) in
    rw (e, dinode_write) refl
