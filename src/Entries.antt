-- ===== src/Entries.antt =====
-- kernel/fs/disk_fs/dfs_dirent.c: the entries of a directory on the disk. An entry in memory is its 16
-- bytes. A node, an entry or a name that is null ends each function at once; here they are given.
-- `none` is a call that does not come back, or an access past the end of a name.
pub mod Check
pub mod Names
mod Tests
use hsunix.Base.{
  ℕ, List, Option, Bool, drop, none, if◌then◌else◌, some, ◌==◌, suc, length, replicate, ◌/◌, ltb,
  false, ◌++◌, ◌+◌, true, zero,
}
use hsunix.DiskCache.{Cache}
use hsunix.Blocks.{Sb, Inode}
use hsunix.Inodes.{dinode_read, dinode_write, half_at, put_half, put_run}
use hsunix.Cstr.{kstrcpy, kstrcmp}
use hsunix.Base.Int.{ℤ, negsuc, pos}

-- `DISK_DIR`
abbrev pub disk_dir : ℕ
disk_dir = 1

-- `sizeof(struct disk_dirent)`
abbrev pub dirent_size : ℕ
dirent_size = 16

-- `dir->inum` and `dir->name`
abbrev pub inum_of : List ℕ → ℕ
inum_of dir = half_at dir 0

abbrev pub name_of : List ℕ → List ℕ
name_of dir = drop 2 dir

-- Is an entry used, and does it have the name?
pub has_name : List ℕ → List ℕ → Option Bool
has_name name dir = elim (inum_of dir == 0) [
  | true ↦ some false
  | false ↦ elim (kstrcmp name (name_of dir)) [
    | none ↦ none
    | some (pos zero) ↦ some true
    | some (pos (suc d)) ↦ some false
    | some (negsuc d) ↦ some false
  ]
]

-- `dinode_read` of the entry at an offset into `dir`: was it read whole, and the bytes of `dir` then.
pub read_entry : Sb → Inode → ℕ → List ℕ → Cache → Option (Bool × List ℕ × Inode × Cache)
read_entry sb dnode off dir c = elim (dinode_read sb dnode off dirent_size c) [
  | none ↦ none
  | some (out, n, c₁) ↦ some (length out == dirent_size, out ++ drop (length out) dir, n, c₁)
]

-- The loop over the entries for a name on fuel: the offset where it was found, and the last bytes
-- of `dir`.
pub scan_entries :
    ℕ → Sb → Inode → List ℕ → ℕ → List ℕ → Cache → Option (Option ℕ × List ℕ × Inode × Cache)
scan_entries zero sb dnode name off dir c = none
scan_entries (suc f) sb dnode name off dir c = elim (ltb off dnode.size) [
  | false ↦ some (none, dir, dnode, c)
  | true ↦ elim (read_entry sb dnode off dir c) [
    | none ↦ none
    | some (false, dir₁, n, c₁) ↦ some (none, dir₁, n, c₁)
    | some (true, dir₁, n, c₁) ↦ elim (has_name name dir₁) [
      | none ↦ none
      | some true ↦ some (some off, dir₁, n, c₁)
      | some false ↦ scan_entries f sb n name (off + dirent_size) dir₁ c₁
    ]
  ]
]

-- The loop from the start; the fuel is more than there are entries.
pub find_entry : Sb → Inode → List ℕ → List ℕ → Cache → Option (Option ℕ × List ℕ × Inode × Cache)
find_entry sb dnode name dir c =
    if dnode.kind == disk_dir
    then scan_entries (suc (suc (dnode.size / dirent_size))) sb dnode name 0 dir c
    else some (none, dir, dnode, c)

-- `ddir_read`: the result, the bytes of `dir`, the node and the buffers.
pub ddir_read : Sb → Inode → List ℕ → List ℕ → Cache → Option (ℤ × List ℕ × Inode × Cache)
ddir_read sb dnode dir name c = elim (find_entry sb dnode name dir c) [
  | none ↦ none
  | some (none, dir₁, n, c₁) ↦ some (negsuc 0, dir₁, n, c₁)
  | some (some off, dir₁, n, c₁) ↦ some (pos 0, dir₁, n, c₁)
]

-- `ddir_check`, for the bytes that its local entry held.
pub ddir_check : List ℕ → Sb → Inode → List ℕ → Cache → Option (ℤ × Inode × Cache)
ddir_check raw sb dnode name c = elim (find_entry sb dnode name raw c) [
  | none ↦ none
  | some (none, dir, n, c₁) ↦ some (negsuc 0, n, c₁)
  | some (some off, dir, n, c₁) ↦ some (pos off, n, c₁)
]

-- `ddir_get`, for what memory `kalloc` gives; memory that is not returned is not given back.
pub ddir_get :
    Option (List ℕ) → Sb → Inode → List ℕ → Cache → Option (Option (List ℕ) × Inode × Cache)
ddir_get none sb dnode name c = some (none, dnode, c)
ddir_get (some raw) sb dnode name c = elim (find_entry sb dnode name raw c) [
  | none ↦ none
  | some (none, dir, n, c₁) ↦ some (none, n, c₁)
  | some (some off, dir, n, c₁) ↦ some (some dir, n, c₁)
]

-- The loop of `ddir_create` on fuel: the offset of a free entry or of the end, or no offset where an
-- entry is not read whole.
pub free_entry : ℕ → Sb → Inode → ℕ → List ℕ → Cache → Option (Option ℕ × List ℕ × Inode × Cache)
free_entry zero sb dnode off dir c = none
free_entry (suc f) sb dnode off dir c = elim (ltb off dnode.size) [
  | false ↦ some (some off, dir, dnode, c)
  | true ↦ elim (read_entry sb dnode off dir c) [
    | none ↦ none
    | some (false, dir₁, n, c₁) ↦ some (none, dir₁, n, c₁)
    | some (true, dir₁, n, c₁) ↦ elim (inum_of dir₁ == 0) [
      | true ↦ some (some off, dir₁, n, c₁)
      | false ↦ free_entry f sb n (off + dirent_size) dir₁ c₁
    ]
  ]
]

-- `kstrcpy(dir->name, name)`
abbrev pub named : List ℕ → List ℕ → Option (List ℕ)
named dir name = elim (kstrcpy (name_of dir) name) [ none ↦ none | some s ↦ some (put_run dir 2 s) ]

-- The end of `ddir_create`: the entry is written.
pub write_entry : Sb → Inode → List ℕ → ℕ → Cache → Option (ℤ × Inode × Cache)
write_entry sb dnode dir off c = elim (dinode_write sb dnode dir off dirent_size c) [
  | none ↦ none
  | some (negsuc k, n, c₁) ↦ some (negsuc 0, n, c₁)
  | some (pos k, n, c₁) ↦ some (if k == dirent_size then pos 0 else negsuc 0, n, c₁)
]

-- `ddir_create`, for the bytes that the local entries of `ddir_check` and of itself held.
pub ddir_create : List ℕ → List ℕ → Sb → Inode → List ℕ → ℕ → Cache → Option (ℤ × Inode × Cache)
ddir_create raw own sb dnode name inum c = elim (ddir_check raw sb dnode name c) [
  | none ↦ none
  | some (pos k, n, c₁) ↦ some (negsuc 0, n, c₁)
  | some (negsuc k, n, c₁) ↦ elim (free_entry (suc (suc (n.size / dirent_size))) sb n 0 own c₁) [
    | none ↦ none
    | some (none, dir, n₁, c₂) ↦ some (negsuc 0, n₁, c₂)
    | some (some off, dir, n₁, c₂) ↦ elim (named dir name) [
      | none ↦ none
      | some d ↦ write_entry sb n₁ (put_half d 0 inum) off c₂
    ]
  ]
]

-- What `ddir_put`, `ddir_flush` and `ddir_rename` share: the bytes that `change` makes of an entry
-- are written where the entry with its name stands; false where there is none.
pub replace_entry :
    (List ℕ → Option (List ℕ))
    → List ℕ
    → Sb
    → Inode
    → List ℕ
    → Cache
    → Option (Bool × List ℕ × Inode × Cache)
replace_entry change raw sb dnode dir c = elim (ddir_check raw sb dnode (name_of dir) c) [
  | none ↦ none
  | some (negsuc k, n, c₁) ↦ some (false, dir, n, c₁)
  | some (pos off, n, c₁) ↦ elim (change dir) [
    | none ↦ none
    | some d ↦ elim (dinode_write sb n d off dirent_size c₁) [
      | none ↦ none
      | some (r, n₁, c₂) ↦ some (true, d, n₁, c₂)
    ]
  ]
]

-- `ddir_put`: true where the memory of the entry is given back.
pub ddir_put : List ℕ → Sb → Inode → List ℕ → Bool → Cache → Option (Bool × List ℕ × Inode × Cache)
ddir_put raw sb dnode dir clear c =
    replace_entry (λ d. some (if clear then replicate dirent_size 0 else d)) raw sb dnode dir c

-- `ddir_flush`
pub ddir_flush : List ℕ → Sb → Inode → List ℕ → Cache → Option (Bool × List ℕ × Inode × Cache)
ddir_flush raw sb dnode dir c = replace_entry some raw sb dnode dir c

-- `ddir_rename`
pub ddir_rename :
    List ℕ → Sb → Inode → List ℕ → List ℕ → Cache → Option (Bool × List ℕ × Inode × Cache)
ddir_rename raw sb dnode dir name c = replace_entry (λ d. named d name) raw sb dnode dir c
