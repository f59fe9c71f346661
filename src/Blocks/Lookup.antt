-- ===== src/Blocks/Lookup.antt =====
-- `bmap` of kernel/fs/disk_fs/dfs_priv.c for a block that the inode has.
use hsunix.Base.{
  ℕ, ◌-◌, ◌*◌, ◌≡◌, ◌≢◌, arith, List, some, false, ltb, ◌==◌, not, if◌then◌else◌, get_or,
  Bool-cases, inl, inr, ap, ◌&&◌,
}
use hsunix.DiskCache.{Buf, Cache}
use hsunix.Blocks.Borrow.{free-ready}
use hsunix.Blocks.{Sb, Inode, ndirect, nindirect, word_at, bmap, bmap_indirect, bmap_entry}
use hsunix.Blocks.Borrow.{borrow-ready}
use hsunix.DiskCache.Lent.{IsReady}

-- The number of block i of an inode, 0 for none.
abbrev pub block_of : (ℕ → List ℕ) → Inode → ℕ → ℕ
block_of disk n i =
    if ltb i ndirect
    then get_or n.addrs i 0
    else if ltb (i - ndirect) nindirect && not (n.ex_addr == 0)
    then word_at (disk n.ex_addr) (4 * (i - ndirect))
    else 0

module _ (a : ℕ) (bs : List Buf) (sb : Sb) (n : Inode) (c : Cache) (q : IsReady a bs c) where
  bmap_indirect-there :
      (x j : ℕ)
      → word_at (c.disk x) (4 * j) ≢ 0
      → bmap_indirect sb j x c ≡ some (word_at (c.disk x) (4 * j), c)
  unfolding bmap_indirect bmap_entry
  bmap_indirect-there x j h =
      let there : (word_at (c.disk x) (4 * j) == 0) ≡ false = ground (arith, h) in
      rw (borrow-ready x a bs c q, bmap_indirect)
        (rw there (ap (λ d. some (word_at (c.disk x) (4 * j), d)) (free-ready x a bs c q)))

  -- `bmap` finds a block that is there, and changes nothing.
  pub bmap-there :
      (i : ℕ) → block_of c.disk n i ≢ 0 → bmap sb n i c ≡ some (block_of c.disk n i, n, c)
  unfolding bmap
  bmap-there i h = elim (Bool-cases (ltb i ndirect)) [
    | inl direct ↦ ground (arith, h, direct)
    | inr far ↦ ground (arith, h, far, bmap_indirect-there n.ex_addr (i - ndirect))
  ]
