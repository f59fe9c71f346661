-- ===== src/DiskPaths.antt =====
-- kernel/fs/disk_fs/dfs_inode.c and dfs_priv.c: the walk along a path to an inode, the release of what
-- a directory holds, and the super block. `root_node` and the super block are not null in the walk. A
-- path is the bytes from its pointer to the end of its object. `none` is a call that does not come back
-- or a read past the end of a path, and in `dinode_release` also fuel that is used up.
pub mod Rounds
pub mod Names
pub mod SuperBlock
mod Tests
use hsunix.Base.{
  ℕ, zero, suc, ◌+◌, List, [], ◌∷◌, ◌++◌, Option, none, some, Bool, true, false, ltb, leb, ◌==◌,
  if◌then◌else◌, take, length, set,
}
use hsunix.DiskCache.{Cache, dbuf_free}
use hsunix.PathName.{path_getlast, skip_slashes, copy_name}
use hsunix.Blocks.{Inode, Sb, borrow, give_back}
use hsunix.Inodes.{put_run, words_at, dinode_clear_single, dinode_alloc, put_words}
use hsunix.Entries.{ddir_put, disk_dir, read_entry, ddir_get, inum_of, dirent_size}

-- The super block in memory, `struct disk_sb` as its eight words, by `dsb_get`: the result, the global
-- `superblock` and the buffers, for what memory `kalloc` gives.
pub dsb_get : Option (List ℕ) → Option (List ℕ) → Cache → Option (List ℕ) × Option (List ℕ) × Cache
dsb_get room (some words) c = (some words, some words, c)
dsb_get none none c = (none, none, c)
dsb_get (some raw) none c = elim (borrow 1 c) [
  | none ↦ (none, some raw, c)
  | some (p, d, c₁) ↦ (some (words_at 8 d 0), some (words_at 8 d 0), dbuf_free p c₁)
]

-- `dsb_put`
pub dsb_put : Option (List ℕ) → Cache → Option Cache
dsb_put none c = some c
dsb_put (some words) c = elim (borrow 1 c) [
  | none ↦ none
  | some (p, d, c₁) ↦ some (give_back p (put_words d 0 words) c₁)
]

-- "将元素的名字写入 name 参数": a name of 14 bytes or more is cut, without a terminator.
pub put_name : List ℕ → List ℕ → List ℕ
put_name str name =
    if leb 14 (length str) then put_run name 0 (take 14 str) else put_run name 0 (str ++ (0 ∷ []))

-- `disk_path_getfirst`: the rest of the path, or null, and the bytes of `name`.
pub disk_path_getfirst : List ℕ → List ℕ → Option (Option (List ℕ) × List ℕ)
disk_path_getfirst path name = elim (skip_slashes path) [
  | none ↦ none
  | some [] ↦ none
  | some (zero ∷ ptr) ↦ some (none, name)
  | some (suc c ∷ ptr) ↦ elim (copy_name (suc c ∷ ptr)) [
    | none ↦ none
    | some (str, rest) ↦ elim (skip_slashes rest) [
      | none ↦ none
      | some path₁ ↦ some (some path₁, put_name str name)
    ]
  ]
]

-- `disk_path_getlast`: the text that it writes to `name`.
pub disk_path_getlast : List ℕ → Option (List ℕ)
disk_path_getlast path = elim (path_getlast path) [ none ↦ none | some (parent, name) ↦ some name ]

-- The file system in memory: `root_node` and the buffers.
pub record Disk : Type 0 where
  pub root : Inode
  pub cache : Cache

-- A pointer to an inode: `root_node`, or one with memory of its own.
pub data NodeRef : Type 0 where
  at_root : NodeRef
  own : Inode → NodeRef

abbrev pub node_of : NodeRef → Disk → Inode
node_of at_root s = s.root
node_of (own n) s = n

-- The state after a call changed the inode behind a pointer.
abbrev pub settle_node : NodeRef → Inode → Cache → Disk → Disk
settle_node at_root n c s = record { root = n; cache = c }
settle_node (own m) n c s = record s { cache = c }

-- What a round finds in memory: room for an entry and for an inode, and the bytes that the local entry
-- of `ddir_check` holds.
pub record Room : Type 0 where
  pub entry_room : Option (List ℕ)
  pub node : Option Inode
  pub raw : List ℕ

-- `ddir_put(node, olddir, FALSE)` of the next node; without an old entry nothing happens.
pub put_old : Room → Sb → Option (List ℕ) → Inode → Cache → Option (Inode × Cache)
put_old room sb none n c = some (n, c)
put_old room sb (some dir) n c = elim (ddir_put room.raw sb n dir false c) [
  | none ↦ none
  | some (freed, d, n₁, c₁) ↦ some (n₁, c₁)
]

-- "获取目录项中指定名字的 inode": the entry with the name, its inode, and the put of the old entry;
-- null where there is none.
pub next_node :
    Room → Sb → NodeRef → Option (List ℕ) → List ℕ → Disk → Option (Option (Inode × List ℕ) × Disk)
next_node room sb node olddir name s =
    elim (ddir_get room.entry_room sb (node_of node s) name s.cache) [
      | none ↦ none
      | some (none, n, c) ↦ some (none, settle_node node n c s)
      | some (some dir, n, c) ↦
          let s₁ = settle_node node n c s in
          let r = dinode_alloc room.node sb (inum_of dir) c in
          elim (r.0) [
            | none ↦ some (none, record s₁ { cache = r.1 })
            | some next ↦ elim (put_old room sb olddir next r.1) [
              | none ↦ none
              | some (n₁, c₁) ↦ some (some (n₁, dir), record s₁ { cache = c₁ })
            ]
          ]
    ]

-- How a round ends: the loop returns, or goes on from a node with the entry of that node.
pub data WalkStep : Type 0 where
  stop : Option NodeRef → List ℕ → Disk → WalkStep
  go : Inode → List ℕ → List ℕ → List ℕ → Disk → WalkStep

-- The end of a round, which goes into the directory.
pub into_entry : Room → Sb → NodeRef → Option (List ℕ) → List ℕ → List ℕ → Disk → Option WalkStep
into_entry room sb node dir path name s = elim (next_node room sb node dir name s) [
  | none ↦ none
  | some (none, s₁) ↦ some (stop none name s₁)
  | some (some (n, dir₁), s₁) ↦ some (go n dir₁ path name s₁)
]

-- Is the test of the code for the end of the path true? `dinode_parent` looks at the rest of the path,
-- `dinode_path` at the name.
pub at_end : Bool → List ℕ → List ℕ → Bool
at_end true [] name = false
at_end true (c ∷ path) name = c == 0
at_end false path [] = false
at_end false path (c ∷ name) = c == 0

-- A round of the loop of `dinode_parent` (true) or `dinode_path` (false).
pub walk_round :
    Bool → Room → Sb → NodeRef → Option (List ℕ) → List ℕ → List ℕ → Disk → Option WalkStep
walk_round parent room sb node dir path name s = elim (disk_path_getfirst path name) [
  | none ↦ none
  | some (none, name₁) ↦ some (stop (some node) name₁ s)
  | some (some path₁, name₁) ↦ elim ((node_of node s).kind == disk_dir) [
    | false ↦ some (stop none name₁ s)
    | true ↦ elim (at_end parent path₁ name₁) [
      | true ↦ some (stop (some node) name₁ s)
      | false ↦ into_entry room sb node dir path₁ name₁ s
    ]
  ]
]

-- How the loop ends in so many rounds: it has not returned yet, a round does not come back, or it
-- returns the inode or null, with the bytes of `name` and the state.
pub data Walked : Type 0 where
  unfinished : Walked
  fault : Walked
  returned : Option NodeRef → List ℕ → Disk → Walked

-- The loop, for so many rounds; round i finds `rooms i` in memory.
pub walk_rounds :
    ℕ → Bool → (ℕ → Room) → ℕ → Sb → NodeRef → Option (List ℕ) → List ℕ → List ℕ → Disk → Walked
walk_rounds zero parent rooms i sb node dir path name s = unfinished
walk_rounds (suc f) parent rooms i sb node dir path name s =
    elim (walk_round parent (rooms i) sb node dir path name s) [
      | none ↦ fault
      | some (stop r name₁ s₁) ↦ returned r name₁ s₁
      | some (go n dir₁ path₁ name₁ s₁) ↦
          walk_rounds f parent rooms (i + 1) sb (own n) (some dir₁) path₁ name₁ s₁
    ]

-- "处理获取文件系统挂载路径的情况", and the loop.
pub walk_from : Bool → (ℕ → Room) → Sb → List ℕ → List ℕ → Disk → Walked
walk_from parent rooms sb path name s = elim (skip_slashes path) [
  | none ↦ fault
  | some [] ↦ fault
  | some (zero ∷ tmp_path) ↦ returned (some at_root) (set name 0 0) s
  | some (suc c ∷ tmp_path) ↦
      walk_rounds (suc (length path)) parent rooms 0 sb at_root none path name s
]

-- What a call gives its caller; the rounds of `walk_from` are enough.
abbrev pub result_of : Walked → Option (Option NodeRef × List ℕ × Disk)
result_of unfinished = none
result_of fault = none
result_of (returned r name s) = some (r, name, s)

-- `dinode_parent`: the inode or null, the bytes of `name`, and the state.
pub dinode_parent :
    (ℕ → Room) → Sb → List ℕ → List ℕ → Disk → Option (Option NodeRef × List ℕ × Disk)
dinode_parent rooms sb path name s = result_of (walk_from true rooms sb path name s)

-- `dinode_path`
pub dinode_path : (ℕ → Room) → Sb → List ℕ → List ℕ → Disk → Option (Option NodeRef × List ℕ × Disk)
dinode_path rooms sb path name s = result_of (walk_from false rooms sb path name s)

-- What `dinode_release` makes of the inode of an entry: its own entries are released, where it is a
-- directory, by `sub`, and then its blocks.
pub release_node :
    (Inode → Cache → Option (Bool × Inode × Cache)) → Sb → Inode → Cache → Option (Bool × Cache)
release_node sub sb t c = elim (if t.kind == disk_dir then sub t c else some (true, t, c)) [
  | none ↦ none
  | some (false, t₁, c₁) ↦ some (false, c₁)
  | some (true, t₁, c₁) ↦ elim (dinode_clear_single sb t₁ c₁) [
    | none ↦ none
    | some (t₂, c₂) ↦ some (true, c₂)
  ]
]

-- The loop of `dinode_release` from an offset, and the calls of itself, on fuel; false for -1. An
-- inode of fuel f has the memory `rooms f`.
pub release_from : ℕ → (ℕ → Option Inode) → Sb → Inode → ℕ → Cache → Option (Bool × Inode × Cache)
release_from zero rooms sb dnode off c = none
release_from (suc f) rooms sb dnode off c =
    let sub = λ (t : Inode) (c' : Cache). release_from f rooms sb t 0 c' in
    elim (ltb off dnode.size) [
      | false ↦ some (true, dnode, c)
      | true ↦ elim (read_entry sb dnode off [] c) [
        | none ↦ none
        | some (false, dir, n, c₁) ↦ some (false, n, c₁)
        | some (true, dir, n, c₁) ↦
            let r = dinode_alloc (rooms f) sb (inum_of dir) c₁ in
            elim (r.0) [
              | none ↦ some (false, n, r.1)
              | some t ↦ elim (release_node sub sb t r.1) [
                | none ↦ none
                | some (false, c₂) ↦ some (false, n, c₂)
                | some (true, c₂) ↦ release_from f rooms sb n (off + dirent_size) c₂
              ]
            ]
      ]
    ]

-- `dinode_release`
pub dinode_release : ℕ → (ℕ → Option Inode) → Sb → Inode → Cache → Option (Bool × Inode × Cache)
dinode_release fuel rooms sb dnode c = release_from fuel rooms sb dnode 0 c
