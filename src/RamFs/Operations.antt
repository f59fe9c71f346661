-- ===== src/RamFs/Operations.antt =====
-- kernel/fs/ram_fs/fs_ramfs.c: the operations of the file system on its nodes.
pub mod Create
pub mod Unlink
use hsunix.Base.{
  ℕ, zero, suc, ◌+◌, ◌-◌, ◌%◌, ◌^◌, List, [], ◌∷◌, ◌++◌, Option, none, some, Bool, true, false, ltb,
  ◌==◌, ◌||◌, not, if◌then◌else◌, length, ◌/◌, ◌&&◌,
}
use hsunix.Base.Int.{ℤ, pos, negsuc}
use hsunix.Cstr.{kstrcmp}
use hsunix.Cstr.Terminated.{cstr}
use hsunix.PathName.{skip_slashes, path_getfirst, path_getlast}
use hsunix.Proc.{remove}
use mathlib.Core.Option
use hsunix.RamFs.{
  Ramfs, RamNode, VfsInode, ramfs_magic, blank_node, unlist, ramsb_size, put_node, path_getnode,
  ramfs_path_mat, inode_file, ramnode_size, minus32, ramfs_name_len, inode_dir,
}

-- `_free_ramfs_node`
pub free_ramfs_node : ℕ → Ramfs → Option Ramfs
free_ramfs_node a fs = elim (fs.magic == ramfs_magic) [
  | false ↦ some fs
  | true ↦ elim (fs.nodes a) [
    | none ↦ none
    | some n ↦ some (record (put_node a none (unlist a fs)) {
      size = minus32 fs.size (if n.is_dir then ramnode_size else ramnode_size + n.size);
    })
  ]
]

-- The loop of `_free_sublist`, for the call of itself on a directory.
pub free_subs : (ℕ → Ramfs → Option Ramfs) → List ℕ → Ramfs → Option Ramfs
free_subs inner [] fs = some fs
free_subs inner (a ∷ more) fs = elim (fs.nodes a) [
  | none ↦ none
  | some n ↦ elim (if n.is_dir then inner a fs else some fs) [
    | none ↦ none
    | some fs₁ ↦ elim (free_ramfs_node a fs₁) [ none ↦ none | some fs₂ ↦ free_subs inner more fs₂ ]
  ]
]

-- `_free_sublist`, on fuel for the depth of the tree.
pub free_sublist : ℕ → ℕ → Ramfs → Option Ramfs
free_sublist zero a fs = none
free_sublist (suc f) a fs = elim (fs.magic == ramfs_magic) [
  | false ↦ some fs
  | true ↦ elim (fs.nodes a) [ none ↦ none | some n ↦ free_subs (free_sublist f) n.sub fs ]
]

-- `ramfs_mount`, for whether `kalloc` finds room: the result and what `fsdev->data` points to.
pub ramfs_mount : Bool → Option Ramfs → ℕ → ℤ × Option Ramfs
ramfs_mount false fsdata flag = (negsuc 0, fsdata)
ramfs_mount true fsdata flag =
    let root : RamNode = record blank_node { is_dir = true; name = 47 ∷ [] } in
    (
      pos 0,
      some (record {
        magic = ramfs_magic;
        size = ramsb_size;
        flag = flag;
        nodes = λ b. if b == 0 then some root else none;
      }),
    )

-- `ramfs_unmount`: the result, what `fsdev->data` points to, and the nodes that are left in memory.
pub ramfs_unmount : Option Ramfs → Option (ℤ × Option Ramfs × (ℕ → Option RamNode))
ramfs_unmount none = some (negsuc 0, none, λ b. none)
ramfs_unmount (some fs) = elim (fs.magic == ramfs_magic) [
  | false ↦ some (negsuc 0, some fs, fs.nodes)
  | true ↦ elim (free_sublist 1 0 (record fs { magic = 0 })) [
    | none ↦ none
    | some fs₁ ↦ some (pos 0, none, fs₁.nodes)
  ]
]

-- `struct statfs`, and `ramfs_statfs` for the name of the file system.
pub record Statfs : Type 0 where
  pub name : List ℕ
  pub f_total : ℕ
  pub f_bsize : ℕ
  pub f_block : ℕ
  pub f_bfree : ℕ

pub ramfs_statfs : List ℕ → Option Ramfs → ℤ × Option Statfs
ramfs_statfs name none = (negsuc 0, none)
ramfs_statfs name (some fs) = if not (fs.magic == ramfs_magic) then (negsuc 0, none) else (
  pos 0,
  some (record {
    name = name;
    f_total = fs.size;
    f_bsize = 512;
    f_block = (fs.size + 511) % 2 ^ 32 / 512;
    f_bfree = 1;
  }),
)

-- `ramfs_unlink`, for the inode of a live item, on fuel for the depth of the tree.
pub ramfs_unlink : ℕ → VfsInode → Ramfs → Option (ℤ × Ramfs)
ramfs_unlink f inode fs = elim inode.target [
  | none ↦ some (negsuc 0, fs)
  | some a ↦ elim (fs.nodes a) [
    | none ↦ none
    | some n ↦ elim (if n.is_dir then free_sublist f a (unlist a fs) else some (unlist a fs)) [
      | none ↦ none
      | some fs₁ ↦ elim (free_ramfs_node a fs₁) [ none ↦ none | some fs₂ ↦ some (pos 0, fs₂) ]
    ]
  ]
]

-- `ramfs_lookup`
pub ramfs_lookup : Option Ramfs → VfsInode → List ℕ → Option (ℤ × VfsInode)
ramfs_lookup none inode path = some (negsuc 0, inode)
ramfs_lookup (some fs) inode path = elim (fs.magic == ramfs_magic) [
  | false ↦ some (negsuc 0, inode)
  | true ↦ elim (path_getnode fs path) [
    | none ↦ none
    | some none ↦ some (negsuc 0, inode)
    | some (some a) ↦ elim (fs.nodes a) [
      | none ↦ none
      | some n ↦ some (
        pos 0,
        record {
          kind = if n.is_dir then inode_dir else inode_file;
          flags = n.flags;
          mode = n.mode;
          size = n.size;
          target = some a;
        },
      )
    ]
  ]
]

-- The end of `ramfs_create`: the new node at `a` under the directory at `p`.
pub add_node : ℕ → ℕ → RamNode → VfsInode → List ℕ → Ramfs → Ramfs × VfsInode
add_node a p parent inode name fs =
    let node : RamNode = record blank_node {
      is_dir = not (inode.kind == inode_file);
      name = name;
      flags = inode.flags;
      mode = inode.mode;
    } in
    (
      record (put_node p
          (some (record parent { size = (parent.size + 1) % 2 ^ 32; sub = parent.sub ++ (a ∷ []) }))
          (put_node a (some node) fs)) { size = (fs.size + ramnode_size) % 2 ^ 32 },
      record inode { target = some a; size = 0 },
    )

-- `ramfs_create`, for the address that `kalloc` gives; memory of a call that fails stays lost.
pub ramfs_create : Option ℕ → Ramfs → VfsInode → List ℕ → Option (ℤ × Ramfs × VfsInode)
ramfs_create room fs inode path = elim (fs.magic == ramfs_magic) [
  | false ↦ some (negsuc 0, fs, inode)
  | true ↦ elim room [
    | none ↦ some (negsuc 0, fs, inode)
    | some a ↦ elim (path_getlast path) [
      | none ↦ none
      | some (dir, name) ↦
          elim (ltb (length dir) ramfs_path_mat && ltb (length name) ramfs_name_len) [
            | false ↦ none
            | true ↦ elim (path_getnode fs (cstr dir [])) [
              | none ↦ none
              | some none ↦ some (negsuc 0, fs, inode)
              | some (some p) ↦ elim (fs.nodes p) [
                | none ↦ none
                | some parent ↦
                    if parent.is_dir
                    then (let r = add_node a p parent inode name fs in some (pos 0, r.0, r.1))
                    else some (negsuc 0, fs, inode)
              ]
            ]
          ]
    ]
  ]
]

-- `ramfs_free`
pub ramfs_free : Option Ramfs → VfsInode → ℤ × VfsInode
ramfs_free none inode = (negsuc 0, inode)
ramfs_free (some fs) inode =
    if not (fs.magic == ramfs_magic)
    then (negsuc 0, inode)
    else (pos 0, record inode { target = none })
