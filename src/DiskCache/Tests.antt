-- ===== src/DiskCache/Tests.antt =====
-- Runs of the claims on kernel/fs/disk_fs/dfs_iobuf.c.
use hsunix.Base.{ℕ, List, [], ◌∷◌, arith, true, refl}
use hsunix.DiskCache.{Buf, Cache, blank, dbuf_free, dbuf_alloc, buf_of, use_block, buf_at}
use hsunix.DiskCache.Pool.{
  IsCached, here, next, write, release, write_at, Reach-IsCached, take, CanUse,
}

abbrev platter : ℕ → List ℕ
platter n = n ∷ 1 ∷ []

-- Two users hold block 5; one buffer is idle.
abbrev in_use : Buf
in_use = record { at = 100; bytes = 5 ∷ 1 ∷ []; ref = 2; blknum = 5; valid = true }

abbrev cache : Cache
cache = record { idle = blank 200 ∷ []; cached = in_use ∷ []; disk = platter }

-- Block 5 gets a user more and block 6 a buffer.
abbrev shared : Cache
shared = (dbuf_alloc 5 cache).1

abbrev both : Cache
both = (dbuf_alloc 6 shared).1

-- Block 5 gets new bytes and loses a user.
abbrev written : Cache
written = write_at 100 (9 ∷ 9 ∷ []) both

can_share : CanUse 5 cache.cached
unfolding buf_of
can_share b e = ground (arith, e)

can_take : CanUse 6 shared.cached
unfolding dbuf_alloc buf_of use_block
can_take b e = absurd (cc)

Reach-IsCached_example : IsCached (dbuf_free 100 written).disk (dbuf_free 100 written).cached
unfolding dbuf_alloc buf_of use_block buf_at
Reach-IsCached_example = Reach-IsCached (ground arith) (
    next
      (next (next (next here (take 5 cache can_share)) (take 6 shared can_take))
        (write 100 (9 ∷ 9 ∷ []) both refl))
      (release 100 written))
