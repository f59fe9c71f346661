-- ===== src/DiskCache/Held.antt =====
-- An idle buffer of kernel/fs/disk_fs/dfs_iobuf.c that one caller takes, changes, flushes and frees.
use hsunix.Base.{ℕ, ◌≡◌, arith, List, [], ◌∷◌, none, some, false, true, Bool, ◌==◌, ◌||◌, refl}
use hsunix.DiskCache.{
  Buf, Cache, buf_at, change_at, drop_at, dbuf_alloc, dbuf_flush, dbuf_free, buf_of, blank,
  io_write,
}

-- A buffer with the number a is among those in use.
abbrev pub stands : ℕ → List Buf → Bool
stands a [] = false
stands a (b ∷ bs) = (b.at == a) || stands a bs

-- Block n has no buffer, and buffer a, blank and in front of the idle ones, is free to take it.
abbrev pub IsFree : ℕ → ℕ → List Buf → Cache → Type 0
IsFree n a bs c = (buf_of n c.cached ≡ none) × (c.idle ≡ blank a ∷ bs) × (stands a c.cached ≡ false)

-- The buffers while a holds block n with the bytes d.
abbrev pub holding : ℕ → ℕ → List Buf → List ℕ → Cache → Cache
holding n a bs d c = record {
  idle = bs;
  cached = record { at = a; bytes = d; ref = 1; blknum = n; valid = true } ∷ c.cached;
  disk = c.disk;
}

module _ (n a : ℕ) (bs : List Buf) (c : Cache) (room : IsFree n a bs c) where
  pub dbuf_alloc-holding : dbuf_alloc n c ≡ (some a, holding n a bs (c.disk n) c)
  unfolding dbuf_alloc
  dbuf_alloc-holding = rw (room.0, room.1, dbuf_alloc) refl

  pub dbuf_free-holding : (d : List ℕ) → dbuf_free a (holding n a bs d c) ≡ c
  unfolding dbuf_free buf_at drop_at
  dbuf_free-holding d = ground (arith, room.1)

pub buf_at-holding :
    (n a : ℕ) (bs : List Buf) (d : List ℕ) (c : Cache)
    → buf_at a (holding n a bs d c).cached
      ≡ some (record { at = a; bytes = d; ref = 1; blknum = n; valid = true })
unfolding buf_at
buf_at-holding n a bs d c = ground arith

pub change_at-holding :
    (n a : ℕ) (bs : List Buf) (d e : List ℕ) (c : Cache)
    → change_at a (λ b. record b { bytes = e }) (holding n a bs d c).cached
      ≡ (holding n a bs e c).cached
unfolding change_at
change_at-holding n a bs d e c = ground arith

pub dbuf_flush-holding :
    (n a : ℕ) (bs : List Buf) (d : List ℕ) (c : Cache)
    → dbuf_flush a (holding n a bs d c) ≡ holding n a bs d (record c { disk = io_write n d c.disk })
unfolding dbuf_flush buf_at
dbuf_flush-holding n a bs d c = ground arith
