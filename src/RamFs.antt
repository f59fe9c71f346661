-- ===== src/RamFs.antt =====
-- kernel/fs/ram_fs/fs_ramfs.c: the memory file system and its tree of nodes. A node is known by its address, the root by 0; a name is the text before its
-- terminator. `none` is a call that does not come back: an access through a null pointer, to a node
-- that is not there, or past the end of an object. What memory `kalloc` gives is an argument; it is
-- zeroed. Pointers to a file, an inode, an item or a path are not null.
pub mod Files
pub mod Walk
pub mod Names
pub mod Keep
pub mod Paths
pub mod Operations
mod Tests
use hsunix.Base.{
  ℕ, zero, suc, ◌+◌, ◌-◌, ◌%◌, ◌^◌, List, [], ◌∷◌, ◌++◌, Option, none, some, Bool, true, false, ltb,
  ◌==◌, ◌||◌, not, if◌then◌else◌, length, ◌/◌, ◌&&◌,
}
use hsunix.Base.Int.{ℤ, pos, negsuc}
use hsunix.Cstr.{kstrcmp}
use hsunix.Cstr.Terminated.{cstr}
use hsunix.PathName.{skip_slashes, path_getfirst, path_getlast}
use hsunix.Proc.{remove}
use mathlib.Core.Option

-- `struct ramfs_node`; `bytes` is what `data` points to, and `sub` the nodes linked in `sublist`.
pub record RamNode : Type 0 where
  pub is_dir : Bool
  pub name : List ℕ
  pub flags : ℕ
  pub mode : ℕ
  pub bytes : Option (List ℕ)
  pub size : ℕ
  pub sub : List ℕ

-- `struct ramfs_sb` with the nodes in memory.
pub record Ramfs : Type 0 where
  pub magic : ℕ
  pub size : ℕ
  pub flag : ℕ
  pub nodes : ℕ → Option RamNode

-- `struct Inode`, as far as it is used: `target` is the address in its `data`.
pub record VfsInode : Type 0 where
  pub kind : ℕ
  pub flags : ℕ
  pub mode : ℕ
  pub size : ℕ
  pub target : Option ℕ

abbrev pub ramfs_magic : ℕ
ramfs_magic = 0xff05

abbrev pub ramfs_name_len : ℕ
ramfs_name_len = 32

abbrev pub ramfs_path_mat : ℕ
ramfs_path_mat = 256

-- `sizeof(struct ramfs_node)` and `sizeof(struct ramfs_sb)`
abbrev pub ramnode_size : ℕ
ramnode_size = 104

abbrev pub ramsb_size : ℕ
ramsb_size = 136

-- `INODE_FILE` and `INODE_DIR`
abbrev pub inode_file : ℕ
inode_file = 1

abbrev pub inode_dir : ℕ
inode_dir = 2

-- `_alloc_ramfs_node`
abbrev pub blank_node : RamNode
blank_node = record {
  is_dir = false;
  name = [];
  flags = 0;
  mode = 0;
  bytes = none;
  size = 0;
  sub = [];
}

abbrev pub put_node : ℕ → Option RamNode → Ramfs → Ramfs
put_node a n fs = record fs { nodes = λ b. if a == b then n else fs.nodes b }

-- `list_del_init(&node->siblist)`: the node is in no list of children.
abbrev pub unlist : ℕ → Ramfs → Ramfs
unlist a fs = record fs {
  nodes = λ b. Option.map (λ (n : RamNode). record n { sub = remove a n.sub }) (fs.nodes b);
}

-- Subtraction of `uint`.
abbrev pub minus32 : ℕ → ℕ → ℕ
minus32 a b = (a + 2 ^ 32 - b) % 2 ^ 32

-- What a comparison of names decides: a child is found, or the search goes on with the rest.
abbrev pub matched : Option ℤ → ℕ → Option (Option ℕ) → Option (Option ℕ)
matched none a rest = none
matched (some (pos zero)) a rest = some (some a)
matched (some (pos (suc d))) a rest = rest
matched (some (negsuc d)) a rest = rest

-- The loop of `_path_getnode` over the children of a directory: the first with the name, or null.
pub find_child : List ℕ → List ℕ → (ℕ → Option RamNode) → Option (Option ℕ)
find_child [] name ns = some none
find_child (a ∷ more) name ns = elim (ns a) [
  | none ↦ none
  | some n ↦ matched (kstrcmp (cstr n.name []) (cstr name [])) a (find_child more name ns)
]

-- "遍历目录节点下的所有子对象", from a name and the rest of the path on.
pub enter :
    (ℕ → List ℕ → Option (Option ℕ))
    → RamNode
    → List ℕ
    → List ℕ
    → (ℕ → Option RamNode)
    → Option (Option ℕ)
enter next n [] rest ns = some none
enter next n (c ∷ name) rest ns = elim (ltb (length (c ∷ name)) ramfs_name_len) [
  | false ↦ none
  | true ↦ elim (find_child n.sub (c ∷ name) ns) [
    | none ↦ none
    | some none ↦ some none
    | some (some b) ↦ next b rest
  ]
]

-- The loop of `_path_getnode` on fuel: the node, or null.
pub walk_path : ℕ → (ℕ → Option RamNode) → ℕ → List ℕ → Option (Option ℕ)
walk_path zero ns a path = none
walk_path (suc f) ns a [] = none
walk_path (suc f) ns a (zero ∷ path) = some (some a)
walk_path (suc f) ns a (suc c ∷ path) = elim (ns a) [
  | none ↦ none
  | some n ↦ elim n.is_dir [
    | false ↦ some none
    | true ↦ elim (path_getfirst (suc c ∷ path)) [
      | none ↦ none
      | some (name, rest) ↦ enter (walk_path f ns) n name rest ns
    ]
  ]
]

-- `_path_getnode`; a round takes a byte of the path at least.
pub path_getnode : Ramfs → List ℕ → Option (Option ℕ)
path_getnode fs path = elim (skip_slashes path) [
  | none ↦ none
  | some [] ↦ none
  | some (zero ∷ p) ↦ some (some 0)
  | some (suc c ∷ p) ↦ walk_path (suc (length path)) fs.nodes 0 path
]
