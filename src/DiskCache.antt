-- ===== src/DiskCache.antt =====
-- kernel/fs/disk_fs/dfs_iobuf.c: the buffers between the disk file system and the disk.
-- A `struct disk_buf *` is the number `at` of its buffer; no buffer has the number of the null
-- pointer. The disk, `virtio_disk_io`, is a function from block numbers to contents.
pub mod Pool
pub mod Serve
pub mod Held
pub mod Sound
pub mod Lent
mod Tests
use hsunix.Base.{
  ℕ, zero, suc, ◌+◌, ◌-◌, ◌%◌, ◌^◌, List, [], ◌∷◌, Option, none, some, Bool, true, false, ◌==◌,
  if◌then◌else◌, replicate, ◌++◌,
}

-- `struct disk_buf`; `bytes` is its `data`.
pub record Buf : Type 0 where
  pub at : ℕ
  pub bytes : List ℕ
  pub ref : ℕ
  pub blknum : ℕ
  pub valid : Bool

-- `gBufIdleList` and `gBufDataList`, front first, and the disk.
pub record Cache : Type 0 where
  pub idle : List Buf
  pub cached : List Buf
  pub disk : ℕ → List ℕ

abbrev pub bsize : ℕ
bsize = 1024

-- A buffer without a block.
abbrev pub blank : ℕ → Buf
blank at = record { at = at; bytes = replicate bsize 0; ref = 0; blknum = 0; valid = false }

-- `init_diskbuf`, for what each of the 20 calls of `kalloc` gives.
pub init_each : List (Option ℕ) → List Buf → List Buf
init_each [] bufs = bufs
init_each (none ∷ rooms) bufs = init_each rooms bufs
init_each (some at ∷ rooms) bufs = init_each rooms (blank at ∷ bufs)

pub init_diskbuf : List (Option ℕ) → (ℕ → List ℕ) → Cache
unfolding init_each
init_diskbuf rooms disk = record { idle = init_each rooms []; cached = []; disk = disk }

-- The first buffer with a number, and its change.
pub buf_at : ℕ → List Buf → Option Buf
buf_at p [] = none
buf_at p (b ∷ bs) = let rest = buf_at p bs in if b.at == p then some b else rest

pub change_at : ℕ → (Buf → Buf) → List Buf → List Buf
change_at p f [] = []
change_at p f (b ∷ bs) = let rest = b ∷ change_at p f bs in if b.at == p then f b ∷ bs else rest

pub drop_at : ℕ → List Buf → List Buf
drop_at p [] = []
drop_at p (b ∷ bs) = let rest = b ∷ drop_at p bs in if b.at == p then bs else rest

-- `virtio_disk_io(blknum, data, io_write)`
abbrev pub io_write : ℕ → List ℕ → (ℕ → List ℕ) → ℕ → List ℕ
io_write n d disk m = if n == m then d else disk m

-- `dbuf_flush`
pub dbuf_flush : ℕ → Cache → Cache
unfolding buf_at
dbuf_flush p c = elim (buf_at p (c.cached ++ c.idle)) [
  | none ↦ c
  | some b ↦ record c { disk = io_write b.blknum b.bytes c.disk }
]

-- "缓冲区内是否有磁盘块的数据": a buffer that is not valid is read from the disk.
abbrev pub load : (ℕ → List ℕ) → Buf → Buf
load disk b = if b.valid then b else record b { bytes = disk b.blknum; valid = true }

-- The first buffer of a block, and the list with one user more of it.
pub buf_of : ℕ → List Buf → Option Buf
buf_of n [] = none
buf_of n (b ∷ bs) = let rest = buf_of n bs in if b.blknum == n then some b else rest

pub use_block : (ℕ → List ℕ) → ℕ → List Buf → List Buf
use_block disk n [] = []
use_block disk n (b ∷ bs) =
    let rest = b ∷ use_block disk n bs in
    if b.blknum == n then load disk (record b { ref = (b.ref + 1) % 2 ^ 32 }) ∷ bs else rest

-- `dbuf_alloc`: the buffer, or null if the block has none and no buffer is idle.
pub dbuf_alloc : ℕ → Cache → Option ℕ × Cache
unfolding buf_of use_block
dbuf_alloc n c = elim (buf_of n c.cached) [
  | some b ↦ (some b.at, record c { cached = use_block c.disk n c.cached })
  | none ↦ elim c.idle [
    | [] ↦ (none, c)
    | b ∷ bs ↦ (
      some b.at,
      record c {
        idle = bs;
        cached = load c.disk (record b { ref = 1; blknum = n; valid = false }) ∷ c.cached;
      },
    )
  ]
]

-- `dbuf_free`: the last user's buffer goes back to the idle ones, blank.
pub dbuf_free : ℕ → Cache → Cache
unfolding buf_at change_at drop_at
dbuf_free p c = elim (buf_at p c.cached) [
  | none ↦ c
  | some b ↦
      if b.ref == 0
      then c
      else if b.ref == 1
      then record c { idle = blank p ∷ c.idle; cached = drop_at p c.cached }
      else record c { cached = change_at p (λ b. record b { ref = b.ref - 1 }) c.cached }
]

-- `dbuf_get` and `dbuf_put`: a 32-bit count.
abbrev pub recount : ℕ → (ℕ → ℕ) → Cache → Cache
recount p f c = record c {
  idle = change_at p (λ b. record b { ref = f b.ref }) c.idle;
  cached = change_at p (λ b. record b { ref = f b.ref }) c.cached;
}

pub dbuf_get : ℕ → Cache → Cache
unfolding change_at
dbuf_get p c = recount p (λ n. (n + 1) % 2 ^ 32) c

pub dbuf_put : ℕ → Cache → Cache
unfolding change_at
dbuf_put p c = recount p (λ n. (n + (2 ^ 32 - 1)) % 2 ^ 32) c
