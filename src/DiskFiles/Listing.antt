-- ===== src/DiskFiles/Listing.antt =====
-- kernel/fs/disk_fs/dfs_fs.c: `dfs_stat`, `dfs_rename` and `dfs_getdents`.
use hsunix.Base.{
  ◌*◌, ℕ, Bool, Option, List, leb, none, some, suc, false, if◌then◌else◌, ltb, [], ◌==◌, ◌/◌, ◌∷◌,
  ◌+◌, true, not, ◌||◌, ◌++◌, zero, ◌%◌, ◌^◌, length, ◌*◌,
}
use hsunix.DiskPaths.{
  Room, NodeRef, Disk, disk_path_getlast, dinode_path, node_of, settle_node, dinode_parent,
}
use hsunix.DiskFiles.{
  DfsFile, NodeRef, Disk, Cache, ℤ, node_of, settle_node, on_node, dinode_alloc, disk_file,
}
use hsunix.Blocks.{Sb, Inode}
use hsunix.DiskCache.{Cache}
use hsunix.RamFs.Files.{DirentInfo, Stat, sizeof_dirent}
use hsunix.Cstr.{kstrlen, kstrcpy}
use hsunix.Base.Int.{ℤ, negsuc, pos}
use hsunix.Entries.{
  ddir_rename, name_of, ddir_get, ddir_put, read_entry, inum_of, disk_dir, dirent_size,
}
use hsunix.Inodes.{dinode_alloc, put_run}
use hsunix.RamFs.{inode_dir, inode_file}
use hsunix.PathName.{text_of}

-- `dfs_stat`, for the name of the file system and the path of the item. Of an inode that is neither a
-- directory nor a file the code leaves the type as it was; `is_dir` is then that of `other`.
pub dfs_stat : Bool → List ℕ → List ℕ → DfsFile → Disk → Option (ℤ × Option Stat)
dfs_stat other fsname path file s =
    on_node file s (negsuc 0, none)
      (λ r n. elim (disk_path_getlast path) [
        | none ↦ none
        | some name ↦
            let is_dir : Bool =
              if n.kind == disk_dir then true else if n.kind == disk_file then false else other in
            some (
              pos 0,
              some (record { is_dir = is_dir; size = n.size; name = name; fsname = fsname }),
            )
      ])

-- `ddir_rename` and `ddir_put` of the entry that `dfs_rename` found.
pub rename_entry : List ℕ → Sb → NodeRef → Inode → List ℕ → List ℕ → Cache → Disk → Option Disk
rename_entry raw sb parent n dir new_name c s = elim (ddir_rename raw sb n dir new_name c) [
  | none ↦ none
  | some (done, d, n₁, c₁) ↦ elim (ddir_put raw sb n₁ d false c₁) [
    | none ↦ none
    | some (given, d₁, n₂, c₂) ↦ some (settle_node parent n₂ c₂ s)
  ]
]

-- The part of `dfs_rename` behind the names: without a parent or an entry nothing is changed.
pub rename_in : Room → Sb → Option NodeRef → List ℕ → List ℕ → Disk → Option Disk
rename_in room sb none old_name new_name s = some s
rename_in room sb (some parent) old_name new_name s =
    elim (ddir_get room.entry_room sb (node_of parent s) old_name s.cache) [
      | none ↦ none
      | some (none, n, c) ↦ some (settle_node parent n c s)
      | some (some dir, n, c) ↦ rename_entry room.raw sb parent n dir new_name c s
    ]

-- `dfs_rename`: the result, the path of the old item, and the state.
pub dfs_rename :
    (ℕ → Room) → Room → List ℕ → Sb → List ℕ → List ℕ → Disk → Option (ℤ × List ℕ × Disk)
dfs_rename rooms room raw sb old_path new_path s = elim (disk_path_getlast old_path) [
  | none ↦ none
  | some [] ↦ some (negsuc 0, old_path, s)
  | some (x ∷ xs) ↦ elim (disk_path_getlast new_path) [
    | none ↦ none
    | some [] ↦ some (negsuc 0, old_path, s)
    | some (y ∷ ys) ↦
        elim (dinode_parent rooms sb old_path (put_run raw 0 ((x ∷ xs) ++ (0 ∷ []))) s) [
          | none ↦ none
          | some (parent, old_name, s₁) ↦
              elim (rename_in room sb parent old_name ((y ∷ ys) ++ (0 ∷ [])) s₁) [
                | none ↦ none
                | some s₂ ↦ elim (kstrcpy old_path new_path) [
                  | none ↦ none
                  | some p ↦ some (pos 0, p, s₂)
                ]
              ]
        ]
  ]
]

-- The entry of `dirp` for an entry of the directory and its inode.
pub dirent_for : List ℕ → Inode → Option DirentInfo
dirent_for dir temp = elim (kstrlen (name_of dir)) [
  | none ↦ none
  | some len ↦ some (record {
    kind = if temp.kind == disk_dir then inode_dir else inode_file;
    namelen = len;
    objsize = sizeof_dirent;
    datasize = temp.size;
    name = text_of (name_of dir);
  })
]

-- An entry that is used: it is listed where its number is not below the offset of the file.
pub list_entry : Option Inode → Sb → List ℕ → ℕ → ℕ → Cache → Option (List DirentInfo × ℕ × Cache)
list_entry room sb dir idx off c = elim (leb off idx) [
  | false ↦ some ([], off, c)
  | true ↦
      let r = dinode_alloc room sb (inum_of dir) c in
      elim (r.0) [
        | none ↦ none
        | some temp ↦ elim (dirent_for dir temp) [
          | none ↦ none
          | some e ↦ some (e ∷ [], off + 1, r.1)
        ]
      ]
]

-- The loop of `dfs_getdents` on fuel, from the place `at` of the directory on, for the entry `idx` and
-- the offset `off` of the file; `dir` holds the bytes of the entry before. The entries that it lists,
-- the offset, the inode and the buffers.
pub list_entries :
    ℕ
    → (ℕ → Option Inode)
    → Sb
    → Inode
    → ℕ
    → ℕ
    → ℕ
    → ℕ
    → List ℕ
    → Cache
    → Option (List DirentInfo × ℕ × Inode × Cache)
list_entries zero rooms sb node at idx off end dir c = none
list_entries (suc f) rooms sb node at idx off end dir c = elim (ltb at node.size) [
  | false ↦ some ([], off, node, c)
  | true ↦ elim (read_entry sb node at dir c) [
    | none ↦ none
    | some (whole, dir₁, n, c₁) ↦ elim (inum_of dir₁ == 0) [
      | true ↦ list_entries f rooms sb n (at + dirent_size) idx off end dir₁ c₁
      | false ↦ elim (list_entry (rooms f) sb dir₁ idx off c₁) [
        | none ↦ none
        | some (es, off₁, c₂) ↦ elim (leb end (idx + 1)) [
          | true ↦ some (es, off₁, n, c₂)
          | false ↦ elim (list_entries f rooms sb n (at + dirent_size) (idx + 1) off₁ end dir₁ c₂) [
            | none ↦ none
            | some (rest, off₂, m, c₃) ↦ some (es ++ rest, off₂, m, c₃)
          ]
        ]
      ]
    ]
  ]
]

-- `dfs_getdents` of `count` bytes, for the path of the item: the result, the entries, the file and
-- the state. The fuel is more than there are entries.
pub dfs_getdents :
    (ℕ → Room)
    → (ℕ → Option Inode)
    → List ℕ
    → List ℕ
    → Sb
    → DfsFile
    → List ℕ
    → ℕ
    → Disk
    → Option (ℤ × List DirentInfo × DfsFile × Disk)
dfs_getdents rooms nodes raw own_raw sb file path count s = elim (dinode_path rooms sb path raw s) [
  | none ↦ none
  | some (none, name, s₁) ↦ some (negsuc 0, [], file, s₁)
  | some (some r, name, s₁) ↦
      let node = node_of r s₁ in
      let num : ℕ = count / sizeof_dirent in
      if not (node.kind == disk_dir) || num == 0
      then some (negsuc 0, [], file, s₁)
      else elim (list_entries (suc (suc (node.size / dirent_size))) nodes sb node 0 0 file.off
          ((file.off + num) % 2 ^ 32) own_raw s₁.cache) [
            | none ↦ none
            | some (es, off, n, c) ↦ some (
              pos (length es * sizeof_dirent),
              es,
              record file { off = off },
              settle_node r n c s₁,
            )
          ]
]
