-- ===== src/Inodes/Reload.antt =====
-- `dinode_alloc` of kernel/fs/disk_fs/dfs_inode.c after `dinode_flush`.
use hsunix.Base.{
  ℕ, zero, suc, ◌≡◌, ◌≢◌, arith, List, some, length, ap, ap₂, ◌<◌, ◌^◌, ◌%◌, ◌∙◌, refl, ◌+◌,
}
use hsunix.DiskCache.{Buf, Cache, bsize, dbuf_free}
use hsunix.Blocks.{Sb, Inode, borrow}
use hsunix.Blocks.Borrow.{borrow-lent}
use hsunix.DiskCache.Sound.{stored}
use hsunix.DiskCache.Lent.{
  IsReady, IsReady-stored, IsReady-again, lent, lent_at, lent-disk, dbuf_free-lent,
}
use hsunix.Inodes.{iblock, iblock_of, iplace, inode_at, put_inode, dinode_flush, dinode_alloc}
use hsunix.Inodes.Codec.{IsInode, inode_at-put_inode}
use hsunix.Inodes.Write.{flush_lem}

dinode_alloc-reads :
    (raw : Inode) (sb : Sb) (k p : ℕ) (d : List ℕ) (c c₁ : Cache)
    → k ≢ 0
    → borrow (iblock k sb) c ≡ some (p, d, c₁)
    → dinode_alloc (some raw) sb k c
      ≡ (some (record (inode_at d (iplace k)) { inum = k % 2 ^ 16 }), dbuf_free p c₁)
unfolding dinode_alloc
dinode_alloc-reads raw sb zero p d c c₁ z e = absurd (z refl)
dinode_alloc-reads raw sb (suc k) p d c c₁ z e = rw (e, dinode_alloc) refl

-- An inode with a number from 1 to 32767 that `dinode_flush` wrote is what `dinode_alloc` reads by its
-- number, whatever the memory that it gets held before, and the read leaves the buffers as the write
-- did. The buffers are sound before (those in use are of different blocks and numbers, valid, and hold
-- what the disk holds, with fewer than 2^31 users each), and the first idle one is blank and of no
-- block.
pub dinode_alloc-dinode_flush :
    (a : ℕ) (bs : List Buf) (sb : Sb) (n raw : Inode) (c : Cache)
    → IsReady a bs c
    → length (c.disk (iblock n.inum sb)) ≡ bsize
    → IsInode n
    → n.inum ≢ 0
    → n.inum < 32768
    → (c' : Cache) × (dinode_flush sb n c ≡ some c')
      × (dinode_alloc (some raw) sb n.inum c' ≡ (some n, c'))
dinode_alloc-dinode_flush a bs sb n raw c q full fits z small =
    let ib = iblock n.inum sb in
    let at : iblock_of n sb ≡ ib = ground (arith, small) in
    let number : n.inum % 2 ^ 16 ≡ n.inum = omega (arith, small) in
    let d = put_inode (c.disk ib) (iplace n.inum) n in
    let now : Cache = stored ib d c in
    let ready : IsReady a bs now = IsReady-stored ib a bs c d q in
    let again = IsReady-again ib a bs now ready in
    let read : (lent ib a bs now).disk ib ≡ d =
      ap (λ disk. disk ib) (lent-disk ib a bs now) ∙ ground arith in
    let same : inode_at d (iplace n.inum) ≡ n =
      inode_at-put_inode (c.disk ib) (iplace n.inum) n (rw full (omega arith)) fits in
    (
      lent ib a bs now,
      flush_lem a bs sb n c q
          ∙ ap (λ b. some (lent b a bs (stored b (put_inode (c.disk b) (iplace n.inum) n) c))) at,
      dinode_alloc-reads raw sb n.inum (lent_at ib a (lent ib a bs now))
            ((lent ib a bs now).disk ib) (lent ib a bs now) (lent ib a bs (lent ib a bs now)) z
            (borrow-lent (2 ^ 31 + 1) (omega arith) ib a bs (lent ib a bs now) again)
          ∙ ap₂ (λ x y. (some (record (inode_at x (iplace n.inum)) { inum = n.inum % 2 ^ 16 }), y))
              read (dbuf_free-lent (2 ^ 31 + 1) (omega arith) ib a bs (lent ib a bs now) again)
          ∙ ap₂ (λ x y. (some (record x { inum = y }), lent ib a bs now)) same number,
    )
