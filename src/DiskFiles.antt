-- ===== src/DiskFiles.antt =====
-- kernel/fs/disk_fs/dfs_fs.c: the operations of the disk file system on its inodes and directories. A
-- file, an inode, a path and a device are not null. `none` is a call that does not come back, an access
-- through a null or a freed pointer, or a loop whose fuel is used up. Memory that a call gets is an
-- argument.
pub mod Reads
pub mod Operations
pub mod Listing
mod Tests
use hsunix.Base.{
  ℕ, zero, suc, ◌+◌, List, [], ◌∷◌, Option, none, some, true, false, ltb, ◌==◌, if◌then◌else◌,
  length, ◌^◌, not, ◌-◌, ◌%◌,
}
use hsunix.Base.Int.{ℤ, pos, negsuc}
use hsunix.Blocks.{Sb, Inode}
use hsunix.DiskPaths.{NodeRef, Disk, node_of, own, at_root, settle_node}
use hsunix.RamFs.Files.{
  Seek, seek_set, read_len, is_append, seek_cur, seek_end, is_trunc, seek_other,
}
use hsunix.DiskCache.{Cache}
use hsunix.Inodes.{dinode_write, dinode_flush, dinode_read, dinode_alloc}
use hsunix.Descriptors.{file_magic}

-- `inode->data`: null, an inode, or memory that was given back.
pub data Target : Type 0 where
  nowhere : Target
  live : NodeRef → Target
  freed : Target

-- `struct Inode`, as far as it is used.
pub record DfsInode : Type 0 where
  pub kind : ℕ
  pub flags : ℕ
  pub mode : ℕ
  pub size : ℕ
  pub target : Target

-- `struct File`, with its inode.
pub record DfsFile : Type 0 where
  pub magic : ℕ
  pub off : ℕ
  pub inode : DfsInode

-- `DISK_FILE`, `O_RDWR` and `S_IRWXU`
abbrev pub disk_file : ℕ
disk_file = 2

abbrev pub o_rdwr : ℕ
o_rdwr = 2

abbrev pub s_irwxu : ℕ
s_irwxu = 0x700

-- The file with another inode behind its pointer.
abbrev pub with_node : DfsFile → NodeRef → Inode → DfsFile
with_node file at_root n = file
with_node file (own m) n = record file { inode = record file.inode { target = live (own n) } }

-- `node = inode->data` and the test for null, for the functions that go on with the inode.
pub on_node : {A : Type 0} → DfsFile → Disk → A → (NodeRef → Inode → Option A) → Option A
on_node file s missing f = elim file.inode.target [
  | nowhere ↦ some missing
  | live r ↦ f r (node_of r s)
  | freed ↦ none
]

-- What `dfs_open` makes of the file and its inode, which was read from the disk.
pub open_node : DfsFile → NodeRef → Inode → Cache → Disk → ℤ × DfsFile × Disk
open_node file r n c s = elim (is_append file.inode.flags) [
  | true ↦ (
    pos 0,
    record (with_node file r n) {
      off = n.size;
      inode = record (with_node file r n).inode { size = n.size };
    },
    settle_node r n c s,
  )
  | false ↦
      let m : Inode = if is_trunc file.inode.flags then record n { size = 0 } else n in
      (
        pos 0,
        record (with_node file r m) {
          off = 0;
          inode = record (with_node file r m).inode { size = m.size };
        },
        settle_node r m c s,
      )
]

-- A `short` as a `uint`.
abbrev pub as_inum : ℕ → ℕ
as_inum i = if ltb i 32768 then i else i + 2 ^ 32 - 65536

-- `dfs_open`
pub dfs_open : Option Inode → Sb → DfsFile → Disk → Option (ℤ × DfsFile × Disk)
dfs_open room sb file s =
    if not (file.magic == file_magic)
    then some (negsuc 0, file, s)
    else on_node file s (negsuc 0, file, s)
        (λ r n.
          let t = dinode_alloc room sb (as_inum n.inum) s.cache in
          elim (t.0) [
            | none ↦ some (negsuc 0, file, record s { cache = t.1 })
            | some temp ↦ some (open_node file r temp t.1 s)
          ])

-- `dfs_flush` and `dfs_close`, which do the same.
pub dfs_flush : Sb → DfsFile → Disk → Option (ℤ × Disk)
dfs_flush sb file s =
    on_node file s (negsuc 0, s)
      (λ r n. elim (dinode_flush sb n s.cache) [
        | none ↦ none
        | some c ↦ some (pos 0, record s { cache = c })
      ])

pub dfs_close : Sb → DfsFile → Disk → Option (ℤ × Disk)
dfs_close sb file s =
    on_node file s (negsuc 0, s)
      (λ r n. elim (dinode_flush sb n s.cache) [
        | none ↦ none
        | some c ↦ some (pos 0, record s { cache = c })
      ])

-- `dfs_read` of `count` bytes: the result, the bytes put into `buf`, the file and the state.
pub dfs_read : Sb → DfsFile → ℕ → Disk → Option (ℤ × List ℕ × DfsFile × Disk)
dfs_read sb file zero s = some (negsuc 0, [], file, s)
dfs_read sb file (suc k) s =
    on_node file s (negsuc 0, [], file, s)
      (λ r n.
        let len : ℕ = read_len n.size file.off (suc k) in
        elim (dinode_read sb n file.off len s.cache) [
          | none ↦ none
          | some (out, m, c) ↦ some (
            pos len,
            out,
            record (with_node file r m) { off = (file.off + len) % 2 ^ 32 },
            settle_node r m c s,
          )
        ])

-- The result of `dinode_write` as the `uint` that `dfs_write` keeps it in.
abbrev pub as_uint : ℤ → ℕ
as_uint (pos n) = n
as_uint (negsuc n) = 2 ^ 32 - suc n

-- `dfs_write` of the bytes of `buf`.
pub dfs_write : Sb → DfsFile → List ℕ → Disk → Option (ℤ × DfsFile × Disk)
dfs_write sb file [] s = some (negsuc 0, file, s)
dfs_write sb file (b ∷ bs) s =
    on_node file s (negsuc 0, file, s)
      (λ r n. elim (dinode_write sb n (b ∷ bs) file.off (length (b ∷ bs)) s.cache) [
        | none ↦ none
        | some (count, m, c) ↦ some (
          count,
          record (with_node file r m) { off = (file.off + as_uint count) % 2 ^ 32 },
          settle_node r m c s,
        )
      ])

-- `dfs_lseek`
pub dfs_lseek : DfsFile → ℕ → Seek → Disk → Option (ℤ × DfsFile)
dfs_lseek file offs how s =
    on_node file s (negsuc 0, file)
      (λ r n. elim how [
        | seek_set ↦
            if ltb offs file.inode.size
            then some (pos offs, record file { off = offs })
            else some (negsuc 0, file)
        | seek_cur ↦
            let at : ℕ = (file.off + offs) % 2 ^ 32 in
            if ltb at file.inode.size then some (pos at, file) else some (negsuc 0, file)
        | seek_end ↦ some (pos n.size, record file { off = n.size })
        | seek_other ↦ some (negsuc 0, file)
      ])
