-- ===== src/DiskFiles/Operations.antt =====
-- kernel/fs/disk_fs/dfs_fs.c: the operations on the file system and on paths. The buffer for a name, of
-- 16 bytes, is an argument with what it holds.
use hsunix.Base.{
  ℕ, Option, List, get_or, if◌then◌else◌, ◌==◌, none, some, ◌||◌, not, true, false, ◌∷◌, [], ◌+◌,
  ◌%◌, ◌^◌, ◌/◌,
}
use hsunix.DiskFiles.{
  freed, nowhere, live, NodeRef, Sb, ℤ, Target, Cache, DfsInode, Disk, own, node_of, dinode_alloc,
  settle_node, o_rdwr, disk_file, s_irwxu, as_uint,
}
use hsunix.Inodes.{emptied, dinode_put, dinode_alloc, dinode_getroot, dinode_get}
use hsunix.Blocks.{Sb, Inode}
use hsunix.DiskPaths.{
  NodeRef, Room, Disk, dsb_put, dsb_get, dinode_parent, own, node_of, settle_node, dinode_release,
}
use hsunix.DiskCache.{Cache}
use hsunix.Base.Int.{ℤ, negsuc, pos}
use hsunix.RamFs.Operations.{Statfs}
use hsunix.Entries.{ddir_get, disk_dir, ddir_create, inum_of, ddir_put}
use hsunix.RamFs.{inode_file, inode_dir}
use hsunix.Base.Maybe.{◌>>=◌}

-- The fields of the super block that the inodes and the bitmap use.
abbrev pub sb_of : List ℕ → Sb
sb_of words = record {
  size = get_or words 1 0;
  ninodes = get_or words 3 0;
  inodestart = get_or words 6 0;
  bmapstart = get_or words 7 0;
}

-- `dfs_mount`, for `root_node`: the data of the device, the super block, the root and the buffers.
-- Without a super block `dinode_getroot` goes through a null pointer, unless it has the root.
pub dfs_mount :
    Option (List ℕ)
    → Option Inode
    → Option (List ℕ)
    → Option Inode
    → Cache
    → Option (ℤ × Option (List ℕ) × Option (List ℕ) × Option Inode × Cache)
dfs_mount room node_room superblock root c =
    let r = dsb_get room superblock c in
    elim (r.1) [
      | none ↦ elim root [
        | none ↦ elim node_room [ none ↦ some (pos 0, r.0, none, none, r.2) | some raw ↦ none ]
        | some n ↦ some (pos 0, r.0, none, some n, r.2)
      ]
      | some words ↦ elim (dinode_getroot root node_room (sb_of words) r.2) [
        | none ↦ none
        | some (n, c₁) ↦ some (pos 0, r.0, some words, n, c₁)
      ]
    ]

-- `dfs_unmount`: the data of the device is cleared, and the super block is written.
pub dfs_unmount : Option (List ℕ) → Cache → Option (ℤ × Option (List ℕ) × Cache)
dfs_unmount superblock c = elim (dsb_put superblock c) [
  | none ↦ none
  | some c₁ ↦ some (pos 0, none, c₁)
]

-- `DFS_MAGIC`
abbrev pub dfs_magic : ℕ
dfs_magic = 0x10203040

-- `dfs_statfs`, for the words of the super block that the device has: the magic number and the size
-- are the first two. The name is "diskfs".
pub dfs_statfs : Option (List ℕ) → ℤ × Option Statfs
dfs_statfs none = (negsuc 0, none)
dfs_statfs (some words) = if not (get_or words 0 0 == dfs_magic) then (negsuc 0, none) else (
  pos 0,
  some (record {
    name = 100 ∷ 105 ∷ 115 ∷ 107 ∷ 102 ∷ 115 ∷ [];
    f_total = get_or words 1 0;
    f_bsize = 512;
    f_block = (get_or words 1 0 + 511) % 2 ^ 32 / 512;
    f_bfree = 1;
  }),
)

-- `dfs_lookup` from the inode that it finds on.
abbrev pub joined_to : NodeRef → Inode → DfsInode
joined_to r n = record {
  kind = if n.kind == disk_dir then inode_dir else inode_file;
  flags = o_rdwr;
  mode = s_irwxu;
  size = n.size;
  target = live r;
}

-- The part of `dfs_lookup` for a path that is not the mount point.
pub lookup_entry : Room → Sb → NodeRef → List ℕ → DfsInode → Disk → Option (ℤ × DfsInode × Disk)
lookup_entry room sb parent name inode s =
    elim (ddir_get room.entry_room sb (node_of parent s) name s.cache) [
      | none ↦ none
      | some (none, n, c) ↦ some (negsuc 0, inode, settle_node parent n c s)
      | some (some dir, n, c) ↦
          let r = dinode_alloc room.node sb (inum_of dir) c in
          elim (ddir_put room.raw sb n dir false r.1) [
            | none ↦ none
            | some (given, d, n₁, c₁) ↦ elim (r.0) [
              | none ↦ some (negsuc 0, inode, settle_node parent n₁ c₁ s)
              | some m ↦ some (pos 0, joined_to (own m) m, settle_node parent n₁ c₁ s)
            ]
          ]
    ]

-- `dfs_lookup`
pub dfs_lookup :
    (ℕ → Room) → Room → List ℕ → Sb → DfsInode → List ℕ → Disk → Option (ℤ × DfsInode × Disk)
dfs_lookup rooms room raw sb inode path s = elim (dinode_parent rooms sb path raw s) [
  | none ↦ none
  | some (none, name, s₁) ↦ some (negsuc 0, inode, s₁)
  | some (some parent, name, s₁) ↦ elim (get_or name 0 0 == 0) [
    | true ↦ some (pos 0, joined_to parent (node_of parent s₁), s₁)
    | false ↦ lookup_entry room sb parent name inode s₁
  ]
]

-- The number of an inode that `dinode_get` gives for the kind of an inode; `other` is what `inum`
-- holds where the kind is neither.
pub create_inum : ℕ → Sb → ℕ → Cache → Option (ℕ × Cache)
create_inum other sb kind c =
    if kind == inode_file
    then (dinode_get sb disk_file c >>= λ (r : ℤ × Cache). some (as_uint r.0, r.1))
    else if kind == inode_dir
    then (dinode_get sb disk_dir c >>= λ (r : ℤ × Cache). some (as_uint r.0, r.1))
    else some (other, c)

-- The end of `dfs_create`: the entry, and where there is none the put of the new inode, through a
-- null pointer where it got no memory.
pub create_entry :
    List ℕ
    → List ℕ
    → Sb
    → NodeRef
    → List ℕ
    → ℕ
    → Option Inode
    → DfsInode
    → Cache
    → Disk
    → Option (ℤ × DfsInode × Disk)
create_entry raw own_raw sb parent name inum node inode c s =
    let target : Target = elim node [ none ↦ nowhere | some n ↦ live (own n) ] in
    elim (ddir_create raw own_raw sb (node_of parent s) name inum c) [
      | none ↦ none
      | some (pos k, n, c₁) ↦
          some (pos 0, record inode { target = target; size = 0 }, settle_node parent n c₁ s)
      | some (negsuc k, n, c₁) ↦ elim node [
        | none ↦
            some (pos 0, record inode { target = nowhere; size = 0 }, settle_node parent n c₁ s)
        | some m ↦ elim (dinode_put sb m c₁) [
          | none ↦ none
          | some c₂ ↦
              some (pos 0, record inode { target = freed; size = 0 }, settle_node parent n c₂ s)
        ]
      ]
    ]

-- `dfs_create`, for what memory it gets and what the local entries hold.
pub dfs_create :
    (ℕ → Room)
    → Room
    → List ℕ
    → ℕ
    → List ℕ
    → Sb
    → DfsInode
    → List ℕ
    → Disk
    → Option (ℤ × DfsInode × Disk)
dfs_create rooms room own_raw other raw sb inode path s = elim (dinode_parent rooms sb path raw s) [
  | none ↦ none
  | some (none, name, s₁) ↦ some (negsuc 0, inode, s₁)
  | some (some parent, name, s₁) ↦
      if get_or name 0 0 == 0 || not ((node_of parent s₁).kind == disk_dir)
      then some (negsuc 0, inode, s₁)
      else elim (create_inum other sb inode.kind s₁.cache) [
        | none ↦ none
        | some (inum, c) ↦
            let r = dinode_alloc room.node sb inum c in
            create_entry room.raw own_raw sb parent name inum (r.0) inode (r.1) s₁
      ]
]

-- The part of `dfs_unlink` for the inode of the entry.
pub unlink_node :
    ℕ
    → (ℕ → Option Inode)
    → List ℕ
    → Sb
    → NodeRef
    → Inode
    → List ℕ
    → Inode
    → Cache
    → Disk
    → Option (ℤ × Disk)
unlink_node fuel nodes raw sb parent n dir t c s =
    elim (if t.kind == disk_dir then dinode_release fuel nodes sb t c else some (true, t, c)) [
      | none ↦ none
      | some (done, t₁, c₁) ↦ elim (dinode_put sb t₁ c₁) [
        | none ↦ none
        | some c₂ ↦ elim (ddir_put raw sb n dir true c₂) [
          | none ↦ none
          | some (given, d, n₁, c₃) ↦ some (pos 0, settle_node parent n₁ c₃ s)
        ]
      ]
    ]

-- `dfs_unlink`, for a live item with the path.
pub dfs_unlink :
    ℕ → (ℕ → Option Inode) → (ℕ → Room) → Room → List ℕ → Sb → List ℕ → Disk → Option (ℤ × Disk)
dfs_unlink fuel nodes rooms room raw sb path s = elim (dinode_parent rooms sb path raw s) [
  | none ↦ none
  | some (none, name, s₁) ↦ some (negsuc 0, s₁)
  | some (some parent, name, s₁) ↦
      elim (ddir_get room.entry_room sb (node_of parent s₁) name s₁.cache) [
        | none ↦ none
        | some (none, n, c) ↦ none
        | some (some dir, n, c) ↦
            let r = dinode_alloc room.node sb (inum_of dir) c in
            elim (r.0) [
              | none ↦ none
              | some t ↦ unlink_node fuel nodes room.raw sb parent n dir t (r.1) s₁
            ]
      ]
]

-- `dfs_free`
pub dfs_free : Sb → Target → Disk → Option (ℤ × Disk)
dfs_free sb nowhere s = some (negsuc 0, s)
dfs_free sb freed s = none
dfs_free sb (live r) s = elim (dinode_put sb (node_of r s) s.cache) [
  | none ↦ none
  | some c ↦ some (pos 0, settle_node r (emptied (node_of r s)) c s)
]
