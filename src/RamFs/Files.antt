-- ===== src/RamFs/Files.antt =====
-- kernel/fs/ram_fs/fs_ramfs.c: the operations on an open file.
pub mod Bytes
pub mod Pieces
use hsunix.Base.{
  false, ℕ, Bool, List, none, ◌/◌, Option, if◌then◌else◌, some, leb, ◌%◌, ◌+◌, length, ◌==◌, ◌∷◌,
  ◌&&◌, not, take, ltb, [], ◌^◌, drop, suc, ◌*◌, replicate, zero, true,
}
use hsunix.RamFs.{
  VfsInode, Ramfs, inode_dir, inode_file, ramfs_magic, ramfs_path_mat, put_node, minus32,
  ramfs_name_len, RamNode,
}
use hsunix.Base.Int.{ℤ, negsuc, pos}
use hsunix.Descriptors.{file_magic}
use hsunix.PathName.{path_getlast}
use hsunix.Inodes.{put_run}
use hsunix.Cstr.{kstrcpy}

-- `struct File`, with its inode.
pub record VfsFile : Type 0 where
  pub magic : ℕ
  pub off : ℕ
  pub inode : VfsInode

-- The bits `O_APPEND` and `O_TRUNC` of the flags.
abbrev pub is_append : ℕ → Bool
is_append flags = flags / 0x2000 % 2 == 1

abbrev pub is_trunc : ℕ → Bool
is_trunc flags = flags / 0x1000 % 2 == 1

-- `ramfs_open`
pub ramfs_open : VfsFile → Ramfs → Option (ℤ × VfsFile × Ramfs)
ramfs_open file fs =
    if not (file.magic == file_magic) then some (negsuc 0, file, fs) else elim file.inode.target [
      | none ↦ some (negsuc 0, file, fs)
      | some a ↦ elim (fs.nodes a) [
        | none ↦ none
        | some n ↦
            if is_append file.inode.flags
            then some (
              pos 0,
              record file { off = n.size; inode = record file.inode { size = n.size } },
              fs,
            )
            else if is_trunc file.inode.flags
            then some (
              pos 0,
              record file { off = 0; inode = record file.inode { size = 0 } },
              put_node a (some (record n { bytes = none; size = 0 })) fs,
            )
            else some
                (pos 0, record file { off = 0; inode = record file.inode { size = n.size } }, fs)
      ]
    ]

-- `kmemcpy` of so many bytes from a place of an object.
abbrev pub bytes_from : List ℕ → ℕ → ℕ → Option (List ℕ)
bytes_from d off n = if leb (off + n) (length d) then some (take n (drop off d)) else none

-- "确认文件实际可读写的长度"
unfoldable pub read_len : ℕ → ℕ → ℕ → ℕ
read_len size off count = if ltb (minus32 size off) count then minus32 size off else count

-- `ramfs_read` of `count` bytes: the result, the bytes put into `buf`, and the file.
pub ramfs_read : VfsFile → ℕ → Ramfs → Option (ℤ × List ℕ × VfsFile)
ramfs_read file zero fs = some (negsuc 0, [], file)
ramfs_read file (suc k) fs = elim file.inode.target [
  | none ↦ some (negsuc 0, [], file)
  | some a ↦ elim (fs.nodes a) [
    | none ↦ none
    | some n ↦ elim n.bytes [
      | none ↦ some (negsuc 0, [], file)
      | some d ↦
          let len : ℕ = read_len n.size file.off (suc k) in
          elim (bytes_from d file.off len) [
            | none ↦ none
            | some out ↦ some (pos len, out, record file { off = (file.off + len) % 2 ^ 32 })
          ]
    ]
  ]
]

-- The node with `count` bytes more, and the size of the file system; without room the copy goes
-- through a null pointer.
pub grow_node : Bool → ℕ → RamNode → Option RamNode
grow_node room count n =
    let size : ℕ = n.size + count in
    if room && ltb size 4096
    then some (record n {
      bytes =
          some
            (put_run (replicate size 0) 0 (take n.size (elim n.bytes [ none ↦ [] | some d ↦ d ])));
      size = size;
    })
    else none

-- The copy into a node, and what else `ramfs_write` changes.
pub store_bytes : ℕ → RamNode → List ℕ → VfsFile → Ramfs → Option (ℤ × VfsFile × Ramfs)
store_bytes a n buf file fs = elim n.bytes [
  | none ↦ none
  | some d ↦
      if leb (file.off + length buf) (length d)
      then some (
        pos (length buf),
        record file { off = (file.off + length buf) % 2 ^ 32 },
        put_node a (some (record n { bytes = some (put_run d file.off buf) })) fs,
      )
      else none
]

-- `ramfs_write` from "当写入的数据大于文件大小时" on.
pub write_node : Bool → ℕ → RamNode → List ℕ → VfsFile → Ramfs → Option (ℤ × VfsFile × Ramfs)
write_node room a n buf file fs = elim (ltb (minus32 n.size file.off) (length buf)) [
  | false ↦ store_bytes a n buf file fs
  | true ↦ elim (grow_node room (length buf) n) [
    | none ↦ none
    | some n₁ ↦
        store_bytes a n₁ buf (record file { inode = record file.inode { size = n₁.size } })
          (record fs { size = (fs.size + length buf) % 2 ^ 32 })
  ]
]

-- `ramfs_write` of the bytes of `buf`; `room` says whether `kalloc` finds memory.
pub ramfs_write : Bool → VfsFile → List ℕ → Ramfs → Option (ℤ × VfsFile × Ramfs)
ramfs_write room file [] fs = some (negsuc 0, file, fs)
ramfs_write room file (b ∷ bs) fs = elim file.inode.target [
  | none ↦ some (negsuc 0, file, fs)
  | some a ↦ elim (fs.nodes a) [
    | none ↦ none
    | some n ↦ elim (fs.magic == ramfs_magic) [
      | false ↦ some (negsuc 0, file, fs)
      | true ↦ write_node room a n (b ∷ bs) file fs
    ]
  ]
]

-- `SEEK_SET`, `SEEK_CUR`, `SEEK_END`, and the others that are refused.
pub data Seek : Type 0 where
  seek_set : Seek
  seek_cur : Seek
  seek_end : Seek
  seek_other : Seek

-- `ramfs_lseek`
pub ramfs_lseek : VfsFile → ℕ → Seek → Ramfs → Option (ℤ × VfsFile)
ramfs_lseek file offs how fs = elim file.inode.target [
  | none ↦ some (negsuc 0, file)
  | some a ↦ elim (fs.nodes a) [
    | none ↦ none
    | some n ↦ elim how [
      | seek_set ↦
          if ltb offs file.inode.size
          then some (pos offs, record file { off = offs })
          else some (negsuc 0, file)
      | seek_cur ↦
          let at : ℕ = (file.off + offs) % 2 ^ 32 in
          if ltb at file.inode.size then some (pos at, file) else some (negsuc 0, file)
      | seek_end ↦ some (pos n.size, record file { off = n.size })
      | seek_other ↦ some (negsuc 0, file)
    ]
  ]
]

-- `struct dirent`
pub record DirentInfo : Type 0 where
  pub kind : ℕ
  pub namelen : ℕ
  pub objsize : ℕ
  pub datasize : ℕ
  pub name : List ℕ

abbrev pub sizeof_dirent : ℕ
sizeof_dirent = 144

abbrev pub info_of : RamNode → DirentInfo
info_of n = record {
  kind = if n.is_dir then inode_dir else inode_file;
  namelen = length n.name;
  objsize = sizeof_dirent;
  datasize = n.size;
  name = n.name;
}

-- The loop of `ramfs_getdents`: the entries from `off` up to `end`, and the offset behind them.
pub list_children : List ℕ → ℕ → ℕ → ℕ → (ℕ → Option RamNode) → Option (List DirentInfo × ℕ)
list_children [] idx off end ns = some ([], off)
list_children (a ∷ more) idx off end ns = elim (ns a) [
  | none ↦ none
  | some n ↦
      let shown : Bool = leb off idx in
      let off₁ : ℕ = if shown then off + 1 else off in
      elim (if leb end (idx + 1)
        then some ([], off₁)
        else list_children more (idx + 1) off₁ end ns) [
          | none ↦ none
          | some (es, o) ↦ some (if shown then info_of n ∷ es else es, o)
        ]
]

-- `ramfs_getdents` into `count` bytes: the result, the entries, and the file.
pub ramfs_getdents : VfsFile → ℕ → Ramfs → Option (ℤ × List DirentInfo × VfsFile)
ramfs_getdents file count fs = elim file.inode.target [
  | none ↦ some (negsuc 0, [], file)
  | some a ↦ elim (fs.nodes a) [
    | none ↦ none
    | some n ↦
        let num : ℕ = count / sizeof_dirent in
        if num == 0
        then some (negsuc 0, [], file)
        else elim (list_children n.sub 0 file.off (file.off + num) fs.nodes) [
          | none ↦ none
          | some (es, off) ↦ some (pos (length es * sizeof_dirent), es, record file { off = off })
        ]
  ]
]

-- `struct stat`, and `ramfs_stat` for the name of the file system.
pub record Stat : Type 0 where
  pub is_dir : Bool
  pub size : ℕ
  pub name : List ℕ
  pub fsname : List ℕ

pub ramfs_stat : List ℕ → VfsFile → Ramfs → Option (ℤ × Option Stat)
ramfs_stat fsname file fs = elim file.inode.target [
  | none ↦ some (negsuc 0, none)
  | some a ↦ elim (fs.nodes a) [
    | none ↦ none
    | some n ↦
        some (
          pos 0,
          some (record { is_dir = n.is_dir; size = n.size; name = n.name; fsname = fsname }),
        )
  ]
]

-- `ramfs_rename`, for the inode of the old item and the paths of both: the result, the path of the
-- old item, and the nodes.
pub ramfs_rename : VfsInode → List ℕ → List ℕ → Ramfs → Option (ℤ × List ℕ × Ramfs)
ramfs_rename inode old_path new_path fs = elim inode.target [
  | none ↦ some (negsuc 0, old_path, fs)
  | some a ↦ elim (fs.nodes a) [
    | none ↦ none
    | some n ↦ elim (path_getlast new_path) [
      | none ↦ none
      | some (dir, name) ↦
          elim (ltb (length dir) ramfs_path_mat && ltb (length name) ramfs_name_len) [
            | false ↦ none
            | true ↦ elim name [
              | [] ↦ some (negsuc 0, old_path, fs)
              | c ∷ w ↦ elim (kstrcpy old_path new_path) [
                | none ↦ none
                | some p ↦ some (pos 0, p, put_node a (some (record n { name = c ∷ w })) fs)
              ]
            ]
          ]
    ]
  ]
]
