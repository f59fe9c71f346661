-- ===== src/Blocks/Release.antt =====
-- `dbmap_free` of kernel/fs/disk_fs/dfs_priv.c after `dbmap_alloc`.
use hsunix.Base.{
  ℕ, ◌+◌, ◌-◌, ◌/◌, ◌%◌, ◌^◌, ◌≡◌, ◌<◌, arith, List, some, Bool, true, false, ◌==◌, if◌then◌else◌,
  get_or, replicate, Bool-cases, inl, inr, ap, length, ◌≢◌, length-replicate, length-set,
}
use hsunix.DiskCache.{Buf, Cache, bsize, io_write}
use hsunix.Blocks.{Sb, bblock, bit_of, set_bit, dbmap_alloc, dbmap_free, clear_bit}
use hsunix.Blocks.Borrow.{borrow-ready, give_back-ready}
use hsunix.Blocks.Bits.{is_used, set_bit-bit_of, sub_bit, get_or-set}
use hsunix.DiskCache.Sound.{stored}
use hsunix.DiskCache.Lent.{IsReady, IsReady-stored}
use hsunix.Blocks.Bitmap.{dbmap_alloc_lem}

clear_bit-bit_of :
    (d : List ℕ) (i j : ℕ)
    → i / 8 < length d
    → bit_of d i ≡ true
    → bit_of (clear_bit d i) j ≡ (if j == i then false else bit_of d j)
clear_bit-bit_of d i j l h = ground (
  arith,
  get_or-set d (i / 8) (j / 8) (get_or d (i / 8) 0 - 2 ^ (i % 8)) l,
  sub_bit (get_or d (i / 8) 0) (i % 8) (j % 8) h,
)

-- The bitmap after block b was marked or freed.
module _ (sb : Sb) (disk : ℕ → List ℕ) (b : ℕ) (whole : (n : ℕ) → length (disk n) ≡ bsize) where
  in_block : b % 8192 / 8 < length (disk (bblock b sb))
  in_block = rw (whole (bblock b sb)) (omega arith)

  -- The bit of a block in the bitmap where only the block of b's bit changed.
  changed-is_used :
      (d : List ℕ) (v : Bool)
      → ((j : ℕ) → bit_of d j ≡ (if j == b % 8192 then v else bit_of (disk (bblock b sb)) j))
      → (k : ℕ)
      → is_used sb (io_write (bblock b sb) d disk) k ≡ (if k == b then v else is_used sb disk k)
  changed-is_used d v h k = elim (Bool-cases (k / 8192 == b / 8192)) [
    | inl same ↦
        let block : bblock k sb ≡ bblock b sb = ground (arith, same) in
        rw block (ground (arith, h (k % 8192), same))
    | inr other ↦
        let block : bblock k sb ≢ bblock b sb = ground (arith, other) in
        ground (arith, block, other)
  ]

  marked-is_used :
      is_used sb disk b ≡ false
      → (k : ℕ)
      → is_used sb (io_write (bblock b sb) (set_bit (disk (bblock b sb)) (b % 8192)) disk) k
        ≡ (if k == b then true else is_used sb disk k)
  marked-is_used free =
      changed-is_used (set_bit (disk (bblock b sb)) (b % 8192)) true
        (λ j. set_bit-bit_of (disk (bblock b sb)) (b % 8192) j in_block free)

  cleared-is_used :
      is_used sb disk b ≡ true
      → (k : ℕ)
      → is_used sb (io_write (bblock b sb) (clear_bit (disk (bblock b sb)) (b % 8192)) disk) k
        ≡ (if k == b then false else is_used sb disk k)
  cleared-is_used used =
      changed-is_used (clear_bit (disk (bblock b sb)) (b % 8192)) false
        (λ j. clear_bit-bit_of (disk (bblock b sb)) (b % 8192) j in_block used)

-- `dbmap_free`: a block in use is marked free, and of one that is not the call does not come back.
module _ (a : ℕ) (bs : List Buf) (sb : Sb) (n : ℕ) (c : Cache) (q : IsReady a bs c) where
  dbmap_free-used :
      is_used sb c.disk n ≡ true
      → dbmap_free sb n c
        ≡ some (stored (bblock n sb) (clear_bit (c.disk (bblock n sb)) (n % 8192)) c)
  unfolding dbmap_free
  dbmap_free-used h =
      let at = bblock n sb in
      rw (borrow-ready at a bs c q, dbmap_free)
        (rw h (ap some (give_back-ready at a bs c q (clear_bit (c.disk at) (n % 8192)))))

-- The disk after block b, no block of the bitmap, was taken.
module _ (a : ℕ) (bs : List Buf) (sb : Sb) (b : ℕ) (c : Cache) (q : IsReady a bs c)
    (whole : (n : ℕ) → length (c.disk n) ≡ bsize) (apart : (k : ℕ) → k < sb.size → bblock k sb ≢ b)
    (small : b < sb.size) (free : is_used sb c.disk b ≡ false) where
  abbrev marked : ℕ → List ℕ
  marked = io_write (bblock b sb) (set_bit (c.disk (bblock b sb)) (b % 8192)) c.disk

  abbrev granted : ℕ → List ℕ
  granted = io_write b (replicate bsize 0) marked

  abbrev after : Cache
  after =
      stored b (replicate bsize 0)
        (stored (bblock b sb) (set_bit (c.disk (bblock b sb)) (b % 8192)) c)

  after-IsReady : IsReady a bs after
  after-IsReady =
      let d = set_bit (c.disk (bblock b sb)) (b % 8192) in
      IsReady-stored b a bs (stored (bblock b sb) d c) (replicate bsize 0)
        (IsReady-stored (bblock b sb) a bs c d q)

  granted-whole : (n : ℕ) → length (granted n) ≡ bsize
  granted-whole n =
      let i = b % 8192 in
      let d = c.disk (bblock b sb) in
      ground (
        arith,
        whole n,
        whole (bblock b sb),
        length-replicate {A = ℕ} bsize 0,
        length-set d (i / 8) (get_or d (i / 8) 0 + 2 ^ (i % 8)),
      )

  granted-is_used :
      (k : ℕ) → k < sb.size → is_used sb granted k ≡ (if k == b then true else is_used sb c.disk k)
  granted-is_used k l = ground (arith, apart k l, marked-is_used sb c.disk b whole free k)

  freed :
      (c'' : Cache) × (dbmap_free sb b after ≡ some c'')
      × ((k : ℕ) → k < sb.size → is_used sb c''.disk k ≡ is_used sb c.disk k)
  freed =
      let used : is_used sb granted b ≡ true = ground (arith, granted-is_used b small) in
      (
        stored (bblock b sb) (clear_bit (granted (bblock b sb)) (b % 8192)) after,
        dbmap_free-used a bs sb b after after-IsReady used,
        λ k l.
            ground
              (arith, cleared-is_used sb granted b granted-whole used k, granted-is_used k l, free),
      )

-- The block that `dbmap_alloc` gave, for sound buffers with an idle one, which is no block of the bitmap, is given back by `dbmap_free`,
-- and the bitmap says of every block of the disk what it said before; in between it says of that
-- block alone that it is in use, and the block holds zeros.
pub dbmap_free-dbmap_alloc :
    (a : ℕ) (bs : List Buf) (sb : Sb) (b : ℕ) (c c' : Cache)
    → IsReady a bs c
    → ((n : ℕ) → length (c.disk n) ≡ bsize)
    → ((k : ℕ) → k < sb.size → bblock k sb ≢ b)
    → dbmap_alloc sb c ≡ some (b, c')
    → b ≢ 0
    → (c'.disk b ≡ replicate bsize 0)
      × ((k : ℕ)
          → k < sb.size
          → is_used sb c'.disk k ≡ (if k == b then true else is_used sb c.disk k))
      × ((c'' : Cache) × (dbmap_free sb b c' ≡ some c'')
          × ((k : ℕ) → k < sb.size → is_used sb c''.disk k ≡ is_used sb c.disk k))
dbmap_free-dbmap_alloc a bs sb b c c' q whole apart run z =
    elim (rw run at (dbmap_alloc_lem a bs sb c q)) [
      | inl (none_left, r, all) ↦ absurd (z none_left)
      | inr (small, free, lowest, e) ↦ rw e (
        ground arith,
        granted-is_used a bs sb b c q whole apart small free,
        freed a bs sb b c q whole apart small free,
      )
    ]
