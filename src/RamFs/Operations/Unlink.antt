-- ===== src/RamFs/Operations/Unlink.antt =====
-- Taking nodes out of the memory file system of kernel/fs/ram_fs/fs_ramfs.c.
use hsunix.Base.{
  ℕ, List, Option, ◌≡◌, some, ◌++◌, ◌∷◌, false, none, [], ◌==◌, refl, true, arith, ◌+◌, ◌∙◌, ap,
  ◌<◌, append-nil, ◌^◌, length, ◌%◌, ◌≢◌, Bool-cases, inl, sym, inr,
}
use hsunix.RamFs.{
  remove, RamNode, Ramfs, VfsInode, ramfs_magic, pos, put_node, unlist, minus32, ramnode_size,
  inode_file,
}
use hsunix.RamFs.Operations.{
  ramfs_unlink, ramfs_unmount, free_ramfs_node, free_sublist, ramfs_create, add_node,
}
use hsunix.Proc.{remove}
use hsunix.Base.Int.{pos}
use hsunix.PathName.First.{AreNames, joined, names}
use hsunix.RamFs.Walk.{AreShort, follow}
use hsunix.PathName.Scan.{IsName}
use hsunix.RamFs.Operations.Create.{a-new, added-node, ramfs_create-adds, added-other, parent-short}
use hsunix.PathName.Last.{parent_of}
use hsunix.RamFs.Paths.{getlast-joined, getnode-parent}
use mathlib.Core.Option

-- `ramfs_unmount` reports success and forgets the super block, and gives none of the nodes of the file
-- system back: its `_free_sublist` refuses the magic number that was cleared in front of it.
pub ramfs_unmount-leaks :
    (fs : Ramfs) → fs.magic ≡ ramfs_magic → ramfs_unmount (some fs) ≡ some (pos 0, none, fs.nodes)
unfolding ramfs_unmount free_sublist
ramfs_unmount-leaks fs live =
    let ok : (fs.magic == 0xff05) ≡ true = ground (arith, live) in rw (ok, ramfs_unmount) refl

-- No list of children holds the address.
abbrev pub IsLoose : ℕ → (ℕ → Option RamNode) → Type 0
IsLoose a ns = (b : ℕ) (n : RamNode) → ns b ≡ some n → remove a n.sub ≡ n.sub

remove-append : (a : ℕ) (bs cs : List ℕ) → remove a (bs ++ cs) ≡ remove a bs ++ remove a cs
remove-append a [] cs = refl
remove-append a (b ∷ bs) cs = ground (arith, remove-append a bs cs)

remove-last : (a : ℕ) (bs : List ℕ) → remove a bs ≡ bs → remove a (bs ++ (a ∷ [])) ≡ bs
remove-last a bs h =
    let same : (a == a) ≡ true = ground arith in
    remove-append a bs (a ∷ []) ∙ rw same (append-nil (remove a bs)) ∙ h

twice_unlisted :
    (a : ℕ) (o : Option RamNode)
    → ((n : RamNode) → o ≡ some n → remove a n.sub ≡ n.sub)
    → Option.map
        (λ (n : RamNode). record n { sub = remove a n.sub })
        (Option.map (λ (n : RamNode). record n { sub = remove a n.sub }) o)
      ≡ o
twice_unlisted a none h = refl
twice_unlisted a (some n) h =
    ap (λ l. some (record n { sub = l })) (ap (remove a) (h n refl) ∙ h n refl)

-- `ramfs_unlink` of a file, whatever is linked to it.
unlink-file :
    (f a : ℕ) (n : RamNode) (inode : VfsInode) (fs : Ramfs)
    → fs.magic ≡ ramfs_magic
    → inode.target ≡ some a
    → fs.nodes a ≡ some n
    → n.is_dir ≡ false
    → ramfs_unlink f inode fs
      ≡ some (
        pos 0,
        record (put_node a none (unlist a (unlist a fs))) {
          size = minus32 fs.size (ramnode_size + n.size);
        },
      )
unfolding ramfs_unlink free_ramfs_node
unlink-file f a n inode fs live at there file =
    let ok : (fs.magic == 0xff05) ≡ true = ground (arith, live) in
    rw (at, ramfs_unlink) (rw there (rw file (rw ok (rw there (rw file refl)))))

-- Memory after a node was made and taken out again.
module _ (a p : ℕ) (parent : RamNode) (inode : VfsInode) (name : List ℕ) (fs : Ramfs)
    (fresh : fs.nodes a ≡ none) (loose : IsLoose a fs.nodes)
    (there : fs.nodes p ≡ some parent) where
  abbrev pub taken_out : ℕ → Option RamNode
  taken_out = (put_node a none (unlist a (unlist a (add_node a p parent inode name fs).0))).nodes

  taken_out-parent : taken_out p ≡ some (record parent { size = (parent.size + 1) % 2 ^ 32 })
  unfolding add_node
  taken_out-parent =
      let same : (p == p) ≡ true = ground arith in
      let other : (a == p) ≡ false = ground (arith, a-new a p parent inode name fs fresh there) in
      let children : remove a (remove a (parent.sub ++ (a ∷ []))) ≡ parent.sub =
        ap (remove a) (remove-last a parent.sub (loose p parent there)) ∙ loose p parent there in
      rw other (
        rw same
          (ap (λ l. some (record parent { size = (parent.size + 1) % 2 ^ 32; sub = l })) children))

  taken_out-other : (b : ℕ) → b ≢ p → taken_out b ≡ fs.nodes b
  taken_out-other b h = elim (Bool-cases (a == b)) [
    | inl itself ↦ let e : a ≡ b = ground (arith, itself) in rw itself (sym fresh ∙ ap fs.nodes e)
    | inr other ↦
        let not_a : b ≢ a = ground (arith, other) in
        rw other (
          ap
            (λ o.
              Option.map (λ (n : RamNode). record n { sub = remove a n.sub })
                (Option.map (λ (n : RamNode). record n { sub = remove a n.sub }) o))
            (added-other a p parent inode name fs fresh there b not_a h)
          ∙ twice_unlisted a (fs.nodes b) (loose b))
  ]

-- A file that is created and then unlinked is gone: every address but that of its directory holds what
-- it held before, so does the directory but for its size, which stays one higher, and the size of the
-- file system is the old one.
pub ramfs_unlink-ramfs_create :
    (f a p : ℕ) (parent : RamNode) (fs : Ramfs) (inode : VfsInode) (cs : List (ℕ × List ℕ))
    (c r : List ℕ)
    → fs.magic ≡ ramfs_magic
    → fs.size < 2 ^ 32
    → fs.nodes a ≡ none
    → IsLoose a fs.nodes
    → inode.kind ≡ inode_file
    → AreNames cs
    → AreShort cs
    → IsName c
    → length c < 32
    → length (joined cs []) < 256
    → follow fs.nodes 0 (names cs) ≡ some (some p)
    → fs.nodes p ≡ some parent
    → parent.is_dir ≡ true
    → (fs' : Ramfs) × (inode' : VfsInode) × (fs'' : Ramfs) × (ramfs_create
          (some a)
          fs
          inode
          (joined (cs ++ ((0, c) ∷ [])) (0 ∷ r))
        ≡ some (pos 0, fs', inode'))
      × (ramfs_unlink f inode' fs' ≡ some (pos 0, fs''))
      × (fs''.size ≡ fs.size)
      × (fs''.nodes p ≡ some (record parent { size = (parent.size + 1) % 2 ^ 32 }))
      × ((b : ℕ) → b ≢ p → fs''.nodes b ≡ fs.nodes b)
ramfs_unlink-ramfs_create f a p parent fs inode cs c r live small fresh loose kind h s k l long way
      there dir =
    let new = add_node a p parent inode c fs in
    let (m, here, text, m_kind, flags, mode, size) = added-node a p parent inode c fs fresh there in
    let is_file : m.is_dir ≡ false = ground (arith, m_kind, kind) in
    let magic : new.0.magic ≡ ramfs_magic = unfold add_node in live in
    let at : new.1.target ≡ some a = unfold add_node in refl in
    let used : new.0.size ≡ (fs.size + 104) % 2 ^ 32 = unfold add_node in refl in
    (
      new.0,
      new.1,
      record (put_node a none (unlist a (unlist a new.0))) {
        size = minus32 new.0.size (ramnode_size + m.size);
      },
      ramfs_create-adds a p parent fs inode (joined (cs ++ ((0, c) ∷ [])) (0 ∷ r))
          (parent_of (joined cs [])) c live (getlast-joined cs c r h k) (parent-short cs long) l
          (getnode-parent fs cs h s ∙ way) there dir,
      unlink-file f a m new.1 new.0 magic at here is_file,
      omega (arith, used, size, small),
      taken_out-parent a p parent inode c fs fresh loose there,
      taken_out-other a p parent inode c fs fresh loose there,
    )
