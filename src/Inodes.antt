-- ===== src/Inodes.antt =====
-- kernel/fs/disk_fs/dfs_inode.c: the inodes on the disk and the bytes of files. `none` is a call that
-- does not come back: `ErrPrint`, or an access through the null pointer that `dbuf_alloc` returns
-- when no buffer is left.
pub mod Content
pub mod Runs
pub mod Update
pub mod Write
pub mod Codec
pub mod Reload
mod Tests
use hsunix.Base.{
  ℕ, zero, suc, ◌+◌, ◌-◌, ◌*◌, ◌/◌, ◌%◌, ◌^◌, List, [], ◌∷◌, ◌++◌, Option, none, some, true, false,
  ltb, ◌==◌, ◌||◌, min, if◌then◌else◌, get_or, set, take, drop, replicate,
}
use hsunix.Base.Int.{ℤ, pos, negsuc}
use hsunix.DiskCache.{Cache, bsize, dbuf_flush, dbuf_free}
use hsunix.Blocks.{
  Sb, Inode, ndirect, nindirect, word_at, put_word, borrow, give_back, put_bytes, dbmap_free, bmap,
}

-- `IBLOCK`, and the place of an inode in its block.
abbrev pub iblock : ℕ → Sb → ℕ
iblock i sb = i / 16 + sb.inodestart

abbrev pub iplace : ℕ → ℕ
iplace i = i % 16 * 64

-- `IBLOCK(dnode->inum, sb)` for the `short` in an inode, which is negative from 32768 on: the sum of 64
-- bits is cut to the `uint` of `dbuf_alloc`. The place in the block is that of the 16 bits.
abbrev pub iblock_of : Inode → Sb → ℕ
iblock_of n sb =
    if ltb n.inum 32768 then iblock n.inum sb else (iblock n.inum sb + 2 ^ 32 - 4096) % 2 ^ 32

-- A `short` in a block.
abbrev pub half_at : List ℕ → ℕ → ℕ
half_at d i = get_or d i 0 + 256 * get_or d (i + 1) 0

abbrev pub put_half : List ℕ → ℕ → ℕ → List ℕ
put_half d i w = set (set d i (w % 256)) (i + 1) (w / 256 % 256)

-- So many words of a block from a place on.
abbrev pub words_at : ℕ → List ℕ → ℕ → List ℕ
words_at zero d i = []
words_at (suc n) d i = word_at d i ∷ words_at n d (i + 4)

abbrev pub put_words : List ℕ → ℕ → List ℕ → List ℕ
put_words d i [] = d
put_words d i (w ∷ ws) = put_words (put_word d i w) (i + 4) ws

-- The `struct disk_inode` at a place of a block.
abbrev pub inode_at : List ℕ → ℕ → Inode
inode_at d i = record {
  kind = half_at d i;
  major = half_at d (i + 2);
  minor = half_at d (i + 4);
  inum = half_at d (i + 6);
  size = word_at d (i + 8);
  addrs = words_at ndirect d (i + 12);
  ex_addr = word_at d (i + 60);
}

abbrev pub put_inode : List ℕ → ℕ → Inode → List ℕ
put_inode d i n =
    put_word
      (put_words
        (put_word
          (put_half (put_half (put_half (put_half d i n.kind) (i + 2) n.major) (i + 4) n.minor)
            (i + 6) n.inum)
          (i + 8) n.size)
        (i + 12) n.addrs)
      (i + 60) n.ex_addr

-- An inode of zeros.
abbrev pub blank_inode : Inode
blank_inode = record {
  kind = 0;
  major = 0;
  minor = 0;
  inum = 0;
  size = 0;
  addrs = replicate ndirect 0;
  ex_addr = 0;
}

-- `dinode_flush`: the buffer stays taken.
pub dinode_flush : Sb → Inode → Cache → Option Cache
dinode_flush sb dnode c = elim (borrow (iblock_of dnode sb) c) [
  | none ↦ none
  | some (p, d, c₁) ↦ some (dbuf_flush p (put_bytes p (put_inode d (iplace dnode.inum) dnode) c₁))
]

-- `dinode_alloc`, for what memory `kalloc` gives: null or an inode of whatever it held.
pub dinode_alloc : Option Inode → Sb → ℕ → Cache → Option Inode × Cache
dinode_alloc none sb inum c = (none, c)
dinode_alloc (some raw) sb zero c = (some raw, c)
dinode_alloc (some raw) sb (suc i) c = elim (borrow (iblock (suc i) sb) c) [
  | none ↦ (none, c)
  | some (p, d, c₁) ↦
      (some (record (inode_at d (iplace (suc i))) { inum = suc i % 2 ^ 16 }), dbuf_free p c₁)
]

-- The loop of `dinode_get`, for as many inodes as are left.
pub get_from : ℕ → Sb → ℕ → ℕ → Cache → Option (ℤ × Cache)
get_from zero sb inum kind c = some (negsuc 0, c)
get_from (suc n) sb inum kind c = elim (borrow (iblock inum sb) c) [
  | none ↦ none
  | some (p, d, c₁) ↦ elim (half_at d (iplace inum) == 0) [
    | true ↦ some (
      pos inum,
      give_back p (put_inode d (iplace inum) (record blank_inode { kind = kind; inum = inum })) c₁,
    )
    | false ↦ get_from n sb (inum + 1) kind (dbuf_free p c₁)
  ]
]

-- `dinode_get`
pub dinode_get : Sb → ℕ → Cache → Option (ℤ × Cache)
dinode_get sb kind c = get_from (sb.ninodes - 1) sb 1 kind c

-- `dbmap_free` of every block number in a list that is not 0.
pub free_each : Sb → List ℕ → Cache → Option Cache
free_each sb [] c = some c
free_each sb (zero ∷ bs) c = free_each sb bs c
free_each sb (suc b ∷ bs) c = elim (dbmap_free sb (suc b) c) [
  | none ↦ none
  | some c₁ ↦ free_each sb bs c₁
]

-- "处理最后一个磁盘块的释放"
pub free_extra : Sb → ℕ → Cache → Option Cache
free_extra sb zero c = some c
free_extra sb (suc x) c = elim (borrow (suc x) c) [
  | none ↦ none
  | some (p, d, c₁) ↦ elim (free_each sb (words_at nindirect d 0) c₁) [
    | none ↦ none
    | some c₂ ↦ dbmap_free sb (suc x) (dbuf_free p c₂)
  ]
]

-- An inode without blocks.
abbrev pub emptied : Inode → Inode
emptied dnode = record dnode { size = 0; addrs = replicate ndirect 0; ex_addr = 0 }

-- `dinode_clear_single`
pub dinode_clear_single : Sb → Inode → Cache → Option (Inode × Cache)
dinode_clear_single sb dnode c = elim (free_each sb dnode.addrs c) [
  | none ↦ none
  | some c₁ ↦ elim (free_extra sb dnode.ex_addr c₁) [
    | none ↦ none
    | some c₂ ↦ elim (dinode_flush sb (emptied dnode) c₂) [
      | none ↦ none
      | some c₃ ↦ some (emptied dnode, c₃)
    ]
  ]
]

-- `dinode_put`
pub dinode_put : Sb → Inode → Cache → Option Cache
dinode_put sb dnode c = elim (dinode_clear_single sb dnode c) [
  | none ↦ none
  | some (n, c₁) ↦ elim (borrow (iblock_of dnode sb) c₁) [
    | none ↦ none
    | some (p, d, c₂) ↦ some (give_back p (put_inode d (iplace dnode.inum) blank_inode) c₂)
  ]
]

-- The bytes of a round: to the end of the block, and no more than are left.
abbrev pub part : ℕ → ℕ → ℕ
part off left = min left (bsize - off % bsize)

-- The loop of `dinode_read` on fuel, for `left` bytes more; `out` is what was copied to `dst`.
pub read_blocks : ℕ → Sb → Inode → ℕ → ℕ → List ℕ → Cache → Option (List ℕ × Inode × Cache)
read_blocks zero sb dnode off left out c = none
read_blocks (suc f) sb dnode off zero out c = some (out, dnode, c)
read_blocks (suc f) sb dnode off (suc l) out c = elim (bmap sb dnode (off / bsize) c) [
  | none ↦ none
  | some (zero, n, c₁) ↦ some (out, n, c₁)
  | some (suc a, n, c₁) ↦ elim (borrow (suc a) c₁) [
    | none ↦ none
    | some (p, d, c₂) ↦
        let m : ℕ = part off (suc l) in
        read_blocks f sb n (off + m) (suc l - m) (out ++ take m (drop (off % bsize) d))
          (dbuf_free p c₂)
  ]
]

-- `dinode_read`: what it puts at `dst`, whose length it returns. The sums are those of `uint`.
pub dinode_read : Sb → Inode → ℕ → ℕ → Cache → Option (List ℕ × Inode × Cache)
dinode_read sb dnode off n c =
    if ltb dnode.size off || ltb ((off + n) % 2 ^ 32) off
    then some ([], dnode, c)
    else let m : ℕ = if ltb dnode.size ((off + n) % 2 ^ 32) then dnode.size - off else n in
      read_blocks (suc m) sb dnode off m [] c

-- `kmemmove(buf->data + i, src, m)`
abbrev pub put_run : List ℕ → ℕ → List ℕ → List ℕ
put_run d i [] = d
put_run d i (s ∷ ss) = put_run (set d i s) (i + 1) ss

-- The loop of `dinode_write` on fuel: how many bytes were written, and the offset behind them.
pub write_blocks : ℕ → Sb → Inode → List ℕ → ℕ → ℕ → ℕ → Cache → Option (ℕ × ℕ × Inode × Cache)
write_blocks zero sb dnode src off left tot c = none
write_blocks (suc f) sb dnode src off zero tot c = some (tot, off, dnode, c)
write_blocks (suc f) sb dnode src off (suc l) tot c = elim (bmap sb dnode (off / bsize) c) [
  | none ↦ none
  | some (zero, n, c₁) ↦ some (tot, off, n, c₁)
  | some (suc a, n, c₁) ↦ elim (borrow (suc a) c₁) [
    | none ↦ none
    | some (p, d, c₂) ↦
        let m : ℕ = part off (suc l) in
        write_blocks f sb n (drop m src) (off + m) (suc l - m) (tot + m)
          (give_back p (put_run d (off % bsize) (take m src)) c₂)
  ]
]

-- The end of `dinode_write`: the size grows to the offset, and the inode is flushed.
pub write_size : Sb → ℕ × ℕ × Inode × Cache → Option (ℤ × Inode × Cache)
write_size sb (tot, off, n, c) =
    let n' : Inode = if ltb n.size off then record n { size = off } else n in
    elim (dinode_flush sb n' c) [ none ↦ none | some c₁ ↦ some (pos tot, n', c₁) ]

-- `dinode_write`, for the n bytes at `src`.
pub dinode_write : Sb → Inode → List ℕ → ℕ → ℕ → Cache → Option (ℤ × Inode × Cache)
dinode_write sb dnode src off n c =
    if ltb dnode.size off || ltb ((off + n) % 2 ^ 32) off
    then some (negsuc 0, dnode, c)
    else if ltb ((ndirect + nindirect) * bsize) ((off + n) % 2 ^ 32)
    then some (negsuc 0, dnode, c)
    else elim (write_blocks (suc n) sb dnode src off n 0 c) [
      | none ↦ none
      | some r ↦ write_size sb r
    ]

-- `dinode_getroot`, for the root that is known already and what memory `kalloc` gives.
pub dinode_getroot : Option Inode → Option Inode → Sb → Cache → Option (Option Inode × Cache)
dinode_getroot (some root) room sb c = some (some root, c)
dinode_getroot none none sb c = some (none, c)
dinode_getroot none (some raw) sb c = elim (borrow (iblock 1 sb) c) [
  | none ↦ none
  | some (p, d, c₁) ↦ some (some (inode_at d (iplace 1)), dbuf_free p c₁)
]
