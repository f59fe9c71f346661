-- ===== src/DiskCache/Serve.antt =====
-- What `dbuf_alloc` and `dbuf_free` of kernel/fs/disk_fs/dfs_iobuf.c give their callers.
use hsunix.Base.{
  ℕ, ◌≡◌, arith, List, [], ◌∷◌, Option, none, some, false, refl, ◌⊎◌, inl, inr, Option-cases,
  List-cases, true,
}
use hsunix.DiskCache.{Buf, Cache, dbuf_alloc, dbuf_free, buf_of, blank}
use hsunix.DiskCache.Pool.{holds, IsCached, buf_of-found, buf_of-holds}

-- The ways in which a call can end: no buffer, or one with the content of the block.
abbrev pub IsServed : ℕ → Cache → Option ℕ → Cache → Type 0
IsServed n c p c' =
    ((p ≡ none) × (c' ≡ c) × (holds n c.cached ≡ false) × (c.idle ≡ []))
    ⊎ ((b : Buf) × (p ≡ some b.at)
        × (buf_of n c'.cached ≡ some b)
        × (b.bytes ≡ c.disk n)
        × (c'.disk ≡ c.disk))

-- On buffers that agree with the disk, `dbuf_alloc` gives the one buffer of the block, with the
-- bytes that the disk has; only if no buffer holds the block and none is idle does it give null,
-- and then it changes nothing. The disk stays as it is.
pub dbuf_alloc-IsServed :
    (n : ℕ) (c : Cache)
    → IsCached c.disk c.cached
    → IsServed n c (dbuf_alloc n c).0 (dbuf_alloc n c).1
unfolding dbuf_alloc
dbuf_alloc-IsServed n c h = elim (Option-cases (buf_of n c.cached)) [
  | inl miss ↦ elim (List-cases c.idle) [
    | inl empty ↦ inl (ground (arith, miss, empty, buf_of-holds n c.cached miss))
    | inr (b, bs, e) ↦
        let fresh : buf_of n (dbuf_alloc n c).1.cached
            ≡ some (record b { ref = 1; blknum = n; valid = true; bytes = c.disk n }) =
          rw (miss, e, dbuf_alloc) (unfold buf_of in ground arith) in
        inr (
          record b { ref = 1; blknum = n; valid = true; bytes = c.disk n },
          ground (arith, miss, e),
          fresh,
          refl,
          ground (arith, miss, e),
        )
  ]
  | inr (b, hit) ↦
      let (d, r, i, j) = buf_of-found c.disk n c.cached b hit h in
      inr (d, ground (arith, hit, i), ground (arith, hit, r), j, ground (arith, hit))
]

-- A block that no buffer holds is allocated and released again: the buffers, their order and the
-- disk are as they were, the idle buffer that served being blank before.
pub dbuf_free-dbuf_alloc :
    (n a : ℕ) (bs : List Buf) (c : Cache)
    → buf_of n c.cached ≡ none
    → c.idle ≡ blank a ∷ bs
    → (dbuf_alloc n c).0 ≡ some a × (dbuf_free a (dbuf_alloc n c).1 ≡ c)
unfolding dbuf_alloc dbuf_free
dbuf_free-dbuf_alloc n a bs c miss e = ground (arith, miss, e)
