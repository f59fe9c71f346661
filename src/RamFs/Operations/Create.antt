-- ===== src/RamFs/Operations/Create.antt =====
-- `ramfs_create` of kernel/fs/ram_fs/fs_ramfs.c, and the lookup behind it.
use hsunix.Base.{
  ℕ, Option, List, ◌≡◌, none, some, [], ◌∷◌, ◌++◌, refl, inl, inr, ◌∙◌, sym, ap, true, Bool-cases,
  ◌≢◌, arith, ◌==◌, not, append-nil, false, ◌+◌, ◌%◌, ◌^◌, length, ◌<◌, if◌then◌else◌, ltb, ◌&&◌,
}
use hsunix.RamFs.{
  find_child, RamNode, VfsInode, Ramfs, inode_file, blank_node, path_getnode, ramfs_magic,
  inode_dir,
}
use hsunix.RamFs.Operations.{add_node, ramfs_create, ramfs_lookup}
use hsunix.Base.Int.{pos}
use hsunix.Cstr.Terminated.{Lacks, cstr}
use hsunix.RamFs.Walk.{follow, AreShort, path_getnode-follow}
use hsunix.PathName.First.{AreNames, names, joined}
use hsunix.PathName.Scan.{IsName}
use hsunix.PathName.{path_getlast}
use hsunix.PathName.Last.{parent_of}
use hsunix.RamFs.Keep.{
  Keeps, follow-kept, find_child-append, find_child-kept, find_child_self, follow-append,
}
use hsunix.RamFs.Paths.{AreNames-last, AreShort-last, names-last, getlast-joined, getnode-parent}

-- Memory with the node at `a` and its parent after `ramfs_create`.
module _ (a p : ℕ) (parent : RamNode) (inode : VfsInode) (name : List ℕ) (fs : Ramfs)
    (fresh : fs.nodes a ≡ none) (there : fs.nodes p ≡ some parent) where
  abbrev pub added : ℕ → Option RamNode
  added = (add_node a p parent inode name fs).0.nodes

  -- `a` is not yet the address of a node.
  pub a-new : a ≢ p
  a-new e = let gone : fs.nodes p ≡ none = ap fs.nodes (sym e) ∙ fresh in cc

  pub added-parent :
      (m : RamNode) × (added p ≡ some m)
      × (m.name ≡ parent.name)
      × (m.is_dir ≡ parent.is_dir)
      × (m.sub ≡ parent.sub ++ (a ∷ []))
  unfolding add_node
  added-parent =
      let same : (p == p) ≡ true = ground arith in
      (
        record parent { size = (parent.size + 1) % 2 ^ 32; sub = parent.sub ++ (a ∷ []) },
        rw same refl,
        refl,
        refl,
        refl,
      )

  pub added-node :
      (m : RamNode) × (added a ≡ some m)
      × (m.name ≡ name)
      × (m.is_dir ≡ not (inode.kind == inode_file))
      × (m.flags ≡ inode.flags)
      × (m.mode ≡ inode.mode)
      × (m.size ≡ 0)
  unfolding add_node
  added-node =
      let same : (a == a) ≡ true = ground arith in
      let other : (p == a) ≡ false = ground (arith, a-new) in
      (
        record blank_node {
          is_dir = not (inode.kind == inode_file);
          name = name;
          flags = inode.flags;
          mode = inode.mode;
        },
        rw other (rw same refl),
        refl,
        refl,
        refl,
        refl,
        refl,
      )

  pub added-other : (b : ℕ) → b ≢ a → b ≢ p → added b ≡ fs.nodes b
  unfolding add_node
  added-other b x y =
      let not_p : (p == b) ≡ false = ground (arith, y) in
      let not_a : (a == b) ≡ false = ground (arith, x) in rw not_p (rw not_a refl)

  added-Keeps : Keeps fs.nodes added
  added-Keeps b n old = elim (Bool-cases (p == b)) [
    | inl parent_too ↦
        let e : p ≡ b = ground (arith, parent_too) in
        let same : parent ≡ n = ground (arith, ap fs.nodes e) in
        let (m, at, text, kind, sub) = added-parent in
        (
          m,
          a ∷ [],
          ap added (sym e) ∙ at,
          text ∙ ap (λ t. t.name) same,
          kind ∙ ap (λ t. t.is_dir) same,
          sub ∙ ap (λ t. t.sub ++ (a ∷ [])) same,
        )
    | inr other ↦
        let not_p : b ≢ p = ground (arith, other) in
        let not_a : b ≢ a = λ e. (let gone : fs.nodes b ≡ none = ap fs.nodes e ∙ fresh in cc) in
        (n, [], added-other b not_a not_p ∙ old, refl, refl, sym (append-nil n.sub))
  ]

  -- The new node is found under its directory.
  added-follow :
      (names : List (List ℕ))
      → Lacks 0 name
      → follow fs.nodes 0 names ≡ some (some p)
      → parent.is_dir ≡ true
      → find_child parent.sub name fs.nodes ≡ some none
      → follow added 0 (names ++ (name ∷ [])) ≡ some (some a)
  added-follow names lacks way dir unused =
      let (m, at, text, kind, sub) = added-parent in
      let (n, here, its_name, kind₁, flags, mode, size) = added-node in
      let kept_way = follow-kept fs.nodes added added-Keeps names 0 p way in
      let found : find_child m.sub name added ≡ some (some a) =
        ap (λ t. find_child t name added) sub
        ∙ find_child-append added parent.sub (a ∷ []) name
            (find_child-kept fs.nodes added added-Keeps parent.sub name none unused)
        ∙ find_child_self added name a n lacks here its_name in
      follow-append added names name 0 p a m kept_way at (kind ∙ dir) found

-- `ramfs_create` and `ramfs_lookup` where every step succeeds.
pub ramfs_create-adds :
    (a p : ℕ) (parent : RamNode) (fs : Ramfs) (inode : VfsInode) (path d c : List ℕ)
    → fs.magic ≡ ramfs_magic
    → path_getlast path ≡ some (d, c)
    → length d < 256
    → length c < 32
    → path_getnode fs (cstr d []) ≡ some (some p)
    → fs.nodes p ≡ some parent
    → parent.is_dir ≡ true
    → ramfs_create (some a) fs inode path
      ≡ some (pos 0, (add_node a p parent inode c fs).0, (add_node a p parent inode c fs).1)
unfolding ramfs_create
ramfs_create-adds a p parent fs inode path d c live split long short way there dir =
    let ok : (fs.magic == 0xff05) ≡ true = ground (arith, live) in
    let fits : (ltb (length d) 256 && ltb (length c) 32) ≡ true = ground (arith, long, short) in
    rw (ok, ramfs_create) (rw split (rw fits (rw way (rw there (rw dir refl)))))

ramfs_lookup-finds :
    (a : ℕ) (n : RamNode) (fs : Ramfs) (inode : VfsInode) (path : List ℕ)
    → fs.magic ≡ ramfs_magic
    → path_getnode fs path ≡ some (some a)
    → fs.nodes a ≡ some n
    → ramfs_lookup (some fs) inode path
      ≡ some (
        pos 0,
        record {
          kind = if n.is_dir then inode_dir else inode_file;
          flags = n.flags;
          mode = n.mode;
          size = n.size;
          target = some a;
        },
      )
unfolding ramfs_lookup
ramfs_lookup-finds a n fs inode path live way there =
    let ok : (fs.magic == 0xff05) ≡ true = ground (arith, live) in
    rw (ok, ramfs_lookup) (rw way (rw there refl))

pub parent-short :
    (cs : List (ℕ × List ℕ)) → length (joined cs []) < 256 → length (parent_of (joined cs [])) < 256
parent-short [] h = omega arith
parent-short ((k, c) ∷ cs) h = h

-- The inode after a lookup of a node that was just made for an inode.
abbrev pub looked_up : ℕ → VfsInode → VfsInode
looked_up a inode = record {
  kind = if not (inode.kind == inode_file) then inode_dir else inode_file;
  flags = inode.flags;
  mode = inode.mode;
  size = 0;
  target = some a;
}

-- `ramfs_create`, at an address where no node is, for a name that the directory in front of it does
-- not have yet, makes a node; a lookup of the same path then gives that node, with the kind, the flags
-- and the mode of the inode that was created, and empty. Every walk that led to a node before leads to
-- it still.
pub ramfs_lookup-ramfs_create :
    (a p : ℕ) (parent : RamNode) (fs : Ramfs) (inode other : VfsInode) (cs : List (ℕ × List ℕ))
    (c r : List ℕ)
    → fs.magic ≡ ramfs_magic
    → fs.nodes a ≡ none
    → AreNames cs
    → AreShort cs
    → IsName c
    → length c < 32
    → length (joined cs []) < 256
    → follow fs.nodes 0 (names cs) ≡ some (some p)
    → fs.nodes p ≡ some parent
    → parent.is_dir ≡ true
    → find_child parent.sub c fs.nodes ≡ some none
    → (fs' : Ramfs) × (inode' : VfsInode) × (ramfs_create
          (some a)
          fs
          inode
          (joined (cs ++ ((0, c) ∷ [])) (0 ∷ r))
        ≡ some (pos 0, fs', inode'))
      × (ramfs_lookup (some fs') other (joined (cs ++ ((0, c) ∷ [])) (0 ∷ r))
          ≡ some (pos 0, looked_up a inode))
      × ((ns : List (List ℕ)) (x q : ℕ)
          → follow fs.nodes x ns ≡ some (some q)
          → follow fs'.nodes x ns ≡ some (some q))
ramfs_lookup-ramfs_create a p parent fs inode other cs c r live fresh h s k l long way there dir
      unused =
    let new = add_node a p parent inode c fs in
    let (m, here, text, kind, flags, mode, size) = added-node a p parent inode c fs fresh there in
    let found : path_getnode new.0 (joined (cs ++ ((0, c) ∷ [])) (0 ∷ r)) ≡ some (some a) =
      path_getnode-follow new.0 (cs ++ ((0, c) ∷ [])) r (AreNames-last cs c h k)
        (AreShort-last cs c s l)
      ∙ ap (follow new.0.nodes 0) (names-last cs c)
      ∙ added-follow a p parent inode c fs fresh there (names cs) k.no_zero way dir unused in
    let magic : new.0.magic ≡ ramfs_magic = unfold add_node in live in
    let created_lookup : ramfs_lookup (some new.0) other (joined (cs ++ ((0, c) ∷ [])) (0 ∷ r))
        ≡ some (pos 0, looked_up a inode) =
      ramfs_lookup-finds a m new.0 other (joined (cs ++ ((0, c) ∷ [])) (0 ∷ r)) magic found here
      ∙ (rw kind (rw flags (rw mode (rw size refl)))) in
    (
      new.0,
      new.1,
      ramfs_create-adds a p parent fs inode (joined (cs ++ ((0, c) ∷ [])) (0 ∷ r))
          (parent_of (joined cs [])) c live (getlast-joined cs c r h k) (parent-short cs long) l
          (getnode-parent fs cs h s ∙ way) there dir,
      created_lookup,
      λ ns x q w.
          follow-kept fs.nodes new.0.nodes (added-Keeps a p parent inode c fs fresh there) ns x q w,
    )
