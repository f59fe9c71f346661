-- ===== src/Blocks.antt =====
-- kernel/fs/disk_fs/dfs_priv.c: the blocks of the disk and their bitmap, on the buffers of
-- DiskCache. `none` is a call that does not come back: `ErrPrint`, or an access through the null
-- pointer that `dbuf_alloc` returns when no buffer is left. A block is a list of bytes.
pub mod Borrow
pub mod Bits
pub mod Bitmap
pub mod Release
pub mod Lookup
mod Tests
use hsunix.Base.{
  ℕ, zero, suc, ◌+◌, ◌-◌, ◌*◌, ◌/◌, ◌%◌, ◌^◌, List, [], Option, none, some, Bool, true, false, ltb,
  ◌==◌, not, min, if◌then◌else◌, get_or, set, replicate,
}
use hsunix.DiskCache.{Cache, bsize, buf_at, change_at, dbuf_alloc, dbuf_flush, dbuf_free}

-- `struct disk_sb`, as far as it is used.
pub record Sb : Type 0 where
  pub size : ℕ
  pub ninodes : ℕ
  pub inodestart : ℕ
  pub bmapstart : ℕ

-- `BBLOCK`
abbrev pub bblock : ℕ → Sb → ℕ
bblock b sb = b / (bsize * 8) + sb.bmapstart

-- `buf->data` of a buffer that is in use.
pub bytes_of : ℕ → Cache → List ℕ
bytes_of p c = elim (buf_at p c.cached) [ none ↦ [] | some b ↦ b.bytes ]

pub put_bytes : ℕ → List ℕ → Cache → Cache
put_bytes p d c = record c { cached = change_at p (λ b. record b { bytes = d }) c.cached }

-- `buf = dbuf_alloc(n)` with the access to `buf->data` behind it: the buffer and its bytes.
pub borrow : ℕ → Cache → Option (ℕ × List ℕ × Cache)
borrow n c =
    let r = dbuf_alloc n c in elim (r.0) [ none ↦ none | some p ↦ some (p, bytes_of p r.1, r.1) ]

-- The new bytes of a buffer, `dbuf_flush(buf)` and `dbuf_free(buf)`.
pub give_back : ℕ → List ℕ → Cache → Cache
give_back p d c = dbuf_free p (dbuf_flush p (put_bytes p d c))

-- Bit k of a byte, `x >> k & 1`.
pub bit_at : ℕ → ℕ → Bool
bit_at x zero = x % 2 == 1
bit_at x (suc k) = bit_at (x / 2) k

-- The bit of entry bi in a block of the bitmap, its setting where it is clear and its clearing
-- where it is set.
abbrev pub bit_of : List ℕ → ℕ → Bool
bit_of d bi = bit_at (get_or d (bi / 8) 0) (bi % 8)

abbrev pub set_bit : List ℕ → ℕ → List ℕ
set_bit d bi = set d (bi / 8) (get_or d (bi / 8) 0 + 2 ^ (bi % 8))

abbrev pub clear_bit : List ℕ → ℕ → List ℕ
clear_bit d bi = set d (bi / 8) (get_or d (bi / 8) 0 - 2 ^ (bi % 8))

-- `dblk_zero`: without a buffer nothing happens.
pub dblk_zero : ℕ → Cache → Cache
dblk_zero n c = elim (borrow n c) [
  | none ↦ c
  | some (p, d, c₁) ↦ give_back p (replicate bsize 0) c₁
]

-- The inner loop of `dbmap_alloc`: the first clear bit of so many from bi on.
pub first_clear : ℕ → ℕ → List ℕ → Option ℕ
first_clear zero bi d = none
first_clear (suc n) bi d = elim (bit_of d bi) [ true ↦ first_clear n (bi + 1) d | false ↦ some bi ]

-- The outer loop, for as many blocks of the bitmap as there are, from `blknum` on.
pub alloc_from : ℕ → Sb → ℕ → Cache → Option (ℕ × Cache)
alloc_from zero sb blknum c = some (0, c)
alloc_from (suc n) sb blknum c = elim (borrow (bblock blknum sb) c) [
  | none ↦ none
  | some (p, d, c₁) ↦ elim (first_clear (min (bsize * 8) (sb.size - blknum)) 0 d) [
    | none ↦ alloc_from n sb (blknum + bsize * 8) (dbuf_free p c₁)
    | some bi ↦ some (blknum + bi, dblk_zero (blknum + bi) (give_back p (set_bit d bi) c₁))
  ]
]

-- `dbmap_alloc`: the number of a block, or 0.
pub dbmap_alloc : Sb → Cache → Option (ℕ × Cache)
dbmap_alloc sb c = alloc_from ((sb.size + 8191) / (bsize * 8)) sb 0 c

-- `dbmap_free`
pub dbmap_free : Sb → ℕ → Cache → Option Cache
dbmap_free sb n c = elim (borrow (bblock n sb) c) [
  | none ↦ none
  | some (p, d, c₁) ↦
      let bi : ℕ = n % (bsize * 8) in
      if not (bit_of d bi) then none else some (give_back p (clear_bit d bi) c₁)
]

-- `struct disk_inode`; a `short` is its 16 bits as a number without sign.
pub record Inode : Type 0 where
  pub kind : ℕ
  pub major : ℕ
  pub minor : ℕ
  pub inum : ℕ
  pub size : ℕ
  pub addrs : List ℕ
  pub ex_addr : ℕ

-- `NDIRECT` and `NINDIRECT`
abbrev pub ndirect : ℕ
ndirect = 12

abbrev pub nindirect : ℕ
nindirect = 256

-- Entry j of a block of block numbers, `((uint *)buf->data)[j]`.
abbrev pub word_at : List ℕ → ℕ → ℕ
word_at d i =
    get_or d i 0
    + 256 * get_or d (i + 1) 0
    + 65536 * get_or d (i + 2) 0
    + 16777216 * get_or d (i + 3) 0

abbrev pub put_word : List ℕ → ℕ → ℕ → List ℕ
put_word d i w =
    set (set (set (set d i (w % 256)) (i + 1) (w / 256 % 256)) (i + 2) (w / 65536 % 256)) (i + 3)
      (w / 16777216 % 256)

-- The end of `bmap` for an entry of the block of block numbers, which is read.
pub bmap_entry : Sb → ℕ → ℕ → List ℕ → Cache → Option (ℕ × Cache)
bmap_entry sb bn p d c =
    if not (word_at d (4 * bn) == 0)
    then some (word_at d (4 * bn), dbuf_free p c)
    else elim (dbmap_alloc sb c) [
      | none ↦ none
      | some (zero, c₁) ↦ some (0, dbuf_free p c₁)
      | some (suc a, c₁) ↦ some (suc a, give_back p (put_word d (4 * bn) (suc a)) c₁)
    ]

-- `bmap` for an entry of the block of block numbers at `addr`.
pub bmap_indirect : Sb → ℕ → ℕ → Cache → Option (ℕ × Cache)
bmap_indirect sb bn addr c = elim (borrow addr c) [
  | none ↦ none
  | some (p, d, c₁) ↦ bmap_entry sb bn p d c₁
]

-- `bmap`: the number of block bn of an inode, or 0, with the inode and the buffers after it.
pub bmap : Sb → Inode → ℕ → Cache → Option (ℕ × Inode × Cache)
bmap sb dnode bn c =
    if ltb bn ndirect
    then if not (get_or dnode.addrs bn 0 == 0)
      then some (get_or dnode.addrs bn 0, dnode, c)
      else elim (dbmap_alloc sb c) [
        | none ↦ none
        | some (zero, c₁) ↦ some (0, dnode, c₁)
        | some (suc a, c₁) ↦ some (suc a, record dnode { addrs = set dnode.addrs bn (suc a) }, c₁)
      ]
    else if ltb (bn - ndirect) nindirect
    then if not (dnode.ex_addr == 0)
      then elim (bmap_indirect sb (bn - ndirect) dnode.ex_addr c) [
        | none ↦ none
        | some (a, c₁) ↦ some (a, dnode, c₁)
      ]
      else elim (dbmap_alloc sb c) [
        | none ↦ none
        | some (zero, c₁) ↦ some (0, dnode, c₁)
        | some (suc x, c₁) ↦ elim (bmap_indirect sb (bn - ndirect) (suc x) c₁) [
          | none ↦ none
          | some (a, c₂) ↦ some (a, record dnode { ex_addr = suc x }, c₂)
        ]
      ]
    else none
