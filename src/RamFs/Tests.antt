-- ===== src/RamFs/Tests.antt =====
-- A memory file system with the directory /d and the file /d/f of three bytes.
use hsunix.Base.{
  ℕ, Option, ◌∷◌, some, suc, true, ◌≡◌, [], zero, none, refl, arith, ap, ◌≢◌, sym, ◌∙◌, List,
}
use hsunix.RamFs.Operations.Unlink.{IsLoose, ramfs_unlink-ramfs_create}
use hsunix.RamFs.Walk.{follow}
use hsunix.RamFs.Names.{AreTexts, walk_names, path_getnode-walk_names}
use hsunix.Cstr.Terminated.{Lacks}
use mathlib.Core.Path.{subst}
use hsunix.RamFs.{
  Ramfs, path_getnode, VfsInode, RamNode, find_child, inode_file, ramfs_magic, blank_node,
}
use hsunix.RamFs.Operations.{ramfs_create, ramfs_lookup, ramfs_unlink}
use hsunix.RamFs.Files.{VfsFile, ramfs_write, ramfs_read}
use hsunix.PathName.Scan.{IsName}
use hsunix.Cstr.{kstrcmp}
use hsunix.Proc.{remove}
use hsunix.Base.Int.{pos}
use hsunix.RamFs.Files.Bytes.{WrittenTo, ramfs_read-ramfs_write}
use hsunix.RamFs.Operations.Create.{looked_up, ramfs_lookup-ramfs_create}

abbrev root : RamNode
root = record blank_node { is_dir = true; name = 47 ∷ []; sub = 1 ∷ [] }

abbrev dir_d : RamNode
dir_d = record blank_node { is_dir = true; name = 100 ∷ []; size = 1; sub = 2 ∷ [] }

abbrev file_f : RamNode
file_f = record blank_node { name = 102 ∷ []; bytes = some (1 ∷ 2 ∷ 3 ∷ []); size = 3 }

abbrev memory : ℕ → Option RamNode
memory zero = some root
memory (suc zero) = some dir_d
memory (suc (suc zero)) = some file_f
memory (suc (suc (suc b))) = none

abbrev ram : Ramfs
ram = record { magic = ramfs_magic; size = 347; flag = 0; nodes = memory }

abbrev new_file : VfsInode
new_file = record { kind = inode_file; flags = 2; mode = 7; size = 0; target = none }

d-IsName : IsName (100 ∷ [])
d-IsName = record { nonempty = λ e. cc; no_slash = omega arith; no_zero = omega arith }

g-IsName : IsName (103 ∷ [])
g-IsName = record { nonempty = λ e. cc; no_slash = omega arith; no_zero = omega arith }

f-IsName : IsName (102 ∷ [])
f-IsName = record { nonempty = λ e. cc; no_slash = omega arith; no_zero = omega arith }

way_d : follow memory 0 ((100 ∷ []) ∷ []) ≡ some (some 1)
unfolding follow find_child kstrcmp
way_d = refl

no_g : find_child (2 ∷ []) (103 ∷ []) memory ≡ some none
unfolding find_child kstrcmp
no_g = refl

text_of_name : (m n : RamNode) → some m ≡ some n → Lacks 0 m.name → Lacks 0 n.name
text_of_name m n e h = let same : m ≡ n = ground (arith, e) in subst (λ t. Lacks 0 t.name) same h

memory-AreTexts : AreTexts memory
memory-AreTexts zero n e = text_of_name root n e (omega arith)
memory-AreTexts (suc zero) n e = text_of_name dir_d n e (omega arith)
memory-AreTexts (suc (suc zero)) n e = text_of_name file_f n e (omega arith)
memory-AreTexts (suc (suc (suc b))) n e = cc

path_getnode-walk_names_example :
    path_getnode ram (47 ∷ 100 ∷ 47 ∷ 47 ∷ 102 ∷ 0 ∷ [])
    ≡ walk_names memory 0 ((100 ∷ []) ∷ (102 ∷ []) ∷ [])
path_getnode-walk_names_example =
    path_getnode-walk_names ram ((0, 100 ∷ []) ∷ (1, 102 ∷ []) ∷ []) [] memory-AreTexts
      (d-IsName, (f-IsName, tt)) (omega arith)

found_f : follow memory 0 ((100 ∷ []) ∷ (102 ∷ []) ∷ []) ≡ some (some 2)
unfolding follow find_child kstrcmp
found_f = refl

ramfs_lookup-ramfs_create_example :
    (fs' : Ramfs) × (inode' : VfsInode) × (ramfs_create
        (some 3)
        ram
        new_file
        (47 ∷ 100 ∷ 47 ∷ 103 ∷ 0 ∷ [])
      ≡ some (pos 0, fs', inode'))
    × (ramfs_lookup (some fs') new_file (47 ∷ 100 ∷ 47 ∷ 103 ∷ 0 ∷ [])
        ≡ some (pos 0, looked_up 3 new_file))
    × ((ns : List (List ℕ)) (x q : ℕ)
        → follow memory x ns ≡ some (some q)
        → follow fs'.nodes x ns ≡ some (some q))
ramfs_lookup-ramfs_create_example =
    ramfs_lookup-ramfs_create 3 1 dir_d ram new_file new_file ((0, 100 ∷ []) ∷ []) (103 ∷ []) []
      refl refl (d-IsName, tt) (omega arith) g-IsName (omega arith) (omega arith) way_d refl refl
      no_g

loose_of : (m n : RamNode) → some m ≡ some n → remove 3 m.sub ≡ m.sub → remove 3 n.sub ≡ n.sub
loose_of m n e h =
    let same : m ≡ n = ground (arith, e) in
    ap (λ t. remove 3 t.sub) (sym same) ∙ h ∙ ap (λ t. t.sub) same

memory-IsLoose : IsLoose 3 memory
memory-IsLoose zero n e = loose_of root n e refl
memory-IsLoose (suc zero) n e = loose_of dir_d n e refl
memory-IsLoose (suc (suc zero)) n e = loose_of file_f n e refl
memory-IsLoose (suc (suc (suc b))) n e = cc

ramfs_unlink-ramfs_create_example :
    (fs' : Ramfs) × (inode' : VfsInode) × (fs'' : Ramfs) × (ramfs_create
        (some 3)
        ram
        new_file
        (47 ∷ 100 ∷ 47 ∷ 103 ∷ 0 ∷ [])
      ≡ some (pos 0, fs', inode'))
    × (ramfs_unlink 1 inode' fs' ≡ some (pos 0, fs''))
    × (fs''.size ≡ 347)
    × (fs''.nodes 1 ≡ some (record dir_d { size = 2 }))
    × ((b : ℕ) → b ≢ 1 → fs''.nodes b ≡ memory b)
ramfs_unlink-ramfs_create_example =
    ramfs_unlink-ramfs_create 1 3 1 dir_d ram new_file ((0, 100 ∷ []) ∷ []) (103 ∷ []) [] refl
      (omega arith) refl memory-IsLoose refl (d-IsName, tt) (omega arith) g-IsName (omega arith)
      (omega arith) way_d refl refl

abbrev opened : VfsFile
opened = record { magic = 0xfe5a; off = 2; inode = record new_file { size = 3; target = some 2 } }

ramfs_read-ramfs_write_example :
    (file' : VfsFile) × (fs' : Ramfs) × (m : RamNode) × (ramfs_write true opened (8 ∷ 9 ∷ []) ram
      ≡ some (pos 2, file', fs'))
    × (fs'.nodes 2 ≡ some m)
    × WrittenTo file_f m 2 (8 ∷ 9 ∷ [])
    × (ramfs_read (record file' { off = 2 }) 2 fs' ≡ some (pos 2, 8 ∷ 9 ∷ [], file'))
ramfs_read-ramfs_write_example =
    ramfs_read-ramfs_write 2 8 (9 ∷ []) opened ram file_f refl refl refl refl (omega arith)
      (omega arith)
