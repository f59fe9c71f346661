-- ===== src/DiskFiles/Reads.antt =====
-- Reading and writing an open file by kernel/fs/disk_fs/dfs_fs.c.
use hsunix.Base.{
  ◌≤◌, ℕ, ◌≡◌, List, suc, Option, refl, ◌<◌, some, ◌^◌, ◌≤◌, min, ◌+◌, ◌-◌, length, ◌%◌, ◌∷◌, arith,
  ltb, true, ◌∙◌, ap, zero, [],
}
use hsunix.Blocks.{Sb, Inode}
use hsunix.DiskFiles.{
  with_node, DfsFile, Disk, live, own, on_node, dfs_read, read_len, NodeRef, dinode_read, pos,
  with_node, dfs_write, dinode_write, as_uint,
}
use hsunix.DiskPaths.{Disk, own, NodeRef}
use hsunix.RamFs.Files.{read_len}
use hsunix.DiskCache.{Buf}
use hsunix.DiskCache.Lent.{IsReady}
use hsunix.Inodes.Content.{IsWhole, file_bytes, dinode_read_lem}
use hsunix.Inodes.{dinode_read, dinode_write}
use hsunix.Base.Int.{pos, ℤ, negsuc}
use hsunix.Inodes.Write.{dinode_write-refused}

module _ (sb : Sb) (n : Inode) (file : DfsFile) (s : Disk)
    (here : file.inode.target ≡ live (own n)) where
  on_node-own :
      {A : Type 0} (missing : A) (f : NodeRef → Inode → Option A)
      → on_node file s missing f ≡ f (own n) n
  unfolding on_node
  on_node-own missing f = rw (here, on_node) refl

  dfs_read-done :
      (k len : ℕ) (out : List ℕ)
      → read_len n.size file.off (suc k) ≡ len
      → dinode_read sb n file.off len s.cache ≡ some (out, n, s.cache)
      → dfs_read sb file (suc k) s
        ≡ some
            (pos len, out, record (with_node file (own n) n) { off = (file.off + len) % 2 ^ 32 }, s)
  unfolding dfs_read
  dfs_read-done k len out e r = on_node-own (negsuc 0, [], file, s) _ ∙ rw e (rw r (rw e refl))

  -- `dfs_read` of at least a byte of an open file whose blocks are on the disk, from an offset in the file: it returns how
  -- many bytes it got, as many as are asked for and as the file has, gives these bytes of the file, and
  -- moves the offset behind them. The disk and the buffers stay as they are. File and count are smaller
  -- than 2^31 bytes; the buffers are sound (those in use are of different blocks and numbers, valid, and
  -- hold what the disk holds, with fewer than 2^31 users each), and the first idle one is blank and of no
  -- block.
  pub dfs_read_lem :
      (a : ℕ) (bs : List Buf) (count : ℕ)
      → IsReady a bs s.cache
      → IsWhole s.cache.disk n
      → n.size < 2 ^ 31
      → file.off ≤ n.size
      → 0 < count
      → count < 2 ^ 31
      → let m = min count (n.size - file.off) in
        dfs_read sb file count s
        ≡ some (
          pos m,
          file_bytes s.cache.disk n file.off m,
          record (with_node file (own n) n) { off = file.off + m },
          s,
        )
  unfolding read_len
  dfs_read_lem a bs zero q whole fits inside some_wanted small = absurd (omega (arith, some_wanted))
  dfs_read_lem a bs (suc k) q whole fits inside some_wanted small =
      let m = min (suc k) (n.size - file.off) in
      let len : read_len n.size file.off (suc k) ≡ m = ground arith in
      let same : min m (n.size - file.off) ≡ m = ground arith in
      let sum : (file.off + m) % 2 ^ 32 ≡ file.off + m = ground arith in
      let no_wrap : ltb (file.off + m) (2 ^ 32) ≡ true = ground arith in
      let out : dinode_read sb n file.off m s.cache
          ≡ some (file_bytes s.cache.disk n file.off m, n, s.cache) =
        dinode_read_lem a bs sb n s.cache file.off m q whole (omega (arith, fits, inside))
          (ground arith)
        ∙ rw (no_wrap, same) refl in
      dfs_read-done k m (file_bytes s.cache.disk n file.off m) len out
      ∙ ap
          (λ o. some (
            pos m,
            file_bytes s.cache.disk n file.off m,
            record (with_node file (own n) n) { off = o },
            s,
          ))
          sum

dfs_write-done :
    (sb : Sb) (n : Inode) (file : DfsFile) (s : Disk)
    → file.inode.target ≡ live (own n)
    → (b : ℕ) (bs : List ℕ) (r : ℤ)
    → dinode_write sb n (b ∷ bs) file.off (length (b ∷ bs)) s.cache ≡ some (r, n, s.cache)
    → dfs_write sb file (b ∷ bs) s
      ≡ some (r, record (with_node file (own n) n) { off = (file.off + as_uint r) % 2 ^ 32 }, s)
unfolding dfs_write
dfs_write-done sb n file s here b bs r e =
    on_node-own sb n file s here (negsuc 0, file, s) _ ∙ rw e refl

-- A write behind the end of the file is refused with -1, for at least a byte and offsets and lengths
-- whose sums are below 2 ^ 32; but `dfs_write` adds that -1 to the offset of the file, which then
-- stands a byte further back. Nothing is written.
pub dfs_write-rewinds :
    (sb : Sb) (n : Inode) (file : DfsFile) (s : Disk) (b : ℕ) (bs : List ℕ)
    → file.inode.target ≡ live (own n)
    → n.size < file.off
    → file.off + length (b ∷ bs) < 2 ^ 32
    → dfs_write sb file (b ∷ bs) s
      ≡ some (negsuc 0, record (with_node file (own n) n) { off = file.off - 1 }, s)
dfs_write-rewinds sb n file s b bs here behind small =
    dfs_write-done sb n file s here b bs (negsuc 0)
      (dinode_write-refused sb n (b ∷ bs) file.off (length (b ∷ bs)) s.cache behind)
    ∙ ap (λ o. some (negsuc 0, record (with_node file (own n) n) { off = o }, s)) (ground arith)
