-- ===== src/RamFs/Files/Pieces.antt =====
-- Reading and storing inside a file of kernel/fs/ram_fs/fs_ramfs.c.
use hsunix.Base.{
  ℕ, List, ◌+◌, length, ◌≤◌, ◌≡◌, some, take, replicate, [], drop, ◌∙◌, length-replicate, ◌∷◌, suc,
  arith, zero, ap, ◌<◌, ◌-◌, ◌^◌, refl, leb, true, ◌%◌,
}
use hsunix.RamFs.Files.{VfsFile, ramfs_read, store_bytes, read_len}
use hsunix.RamFs.{RamNode, Ramfs, put_node, minus32}
use hsunix.Inodes.{put_run}
use hsunix.Inodes.Runs.{length-put_run, put_run-next, put_run-suc}
use hsunix.Base.Int.{pos}

pub length-grown : (d : List ℕ) (n : ℕ) → length (put_run (replicate n 0) 0 d) ≡ n
length-grown d n = length-put_run d (replicate n 0) 0 ∙ length-replicate n 0

take-put_run : (buf d : List ℕ) → length buf ≤ length d → take (length buf) (put_run d 0 buf) ≡ buf
take-put_run [] d h = refl
take-put_run (b ∷ buf) [] h = absurd (omega (arith, h))
take-put_run (b ∷ buf) (x ∷ d) h =
    rw (put_run-next buf d b x) (ap (λ l. b ∷ l) (take-put_run buf d (omega (arith, h))))

pub take-drop-put_run :
    (buf d : List ℕ) (i : ℕ)
    → i + length buf ≤ length d
    → take (length buf) (drop i (put_run d i buf)) ≡ buf
take-drop-put_run buf d zero h = take-put_run buf d (omega (arith, h))
take-drop-put_run [] [] (suc i) h = refl
take-drop-put_run (b ∷ buf) [] (suc i) h = absurd (omega (arith, h))
take-drop-put_run buf (x ∷ d) (suc i) h =
    rw (put_run-suc buf d i x) (take-drop-put_run buf d i (omega (arith, h)))

read_len-inside :
    (size off count : ℕ) → off + count ≤ size → size < 2 ^ 32 → read_len size off count ≡ count
unfolding read_len
read_len-inside size off count inside small =
    let left : minus32 size off ≡ size - off = omega (arith, inside, small) in
    rw (left, read_len) (ground (arith, inside))

-- Reading at an offset inside a file.
pub ramfs_read-inside :
    (a k : ℕ) (file : VfsFile) (fs : Ramfs) (n : RamNode) (d : List ℕ)
    → file.inode.target ≡ some a
    → fs.nodes a ≡ some n
    → n.bytes ≡ some d
    → length d ≡ n.size
    → file.off + suc k ≤ n.size
    → n.size < 2 ^ 32
    → ramfs_read file (suc k) fs
      ≡ some (pos (suc k), take (suc k) (drop file.off d), record file { off = file.off + suc k })
unfolding ramfs_read
ramfs_read-inside a k file fs n d at there bytes full inside small =
    let fits : leb (file.off + suc k) (length d) ≡ true = ground (arith, inside, full) in
    let off : (file.off + suc k) % 2 ^ 32 ≡ file.off + suc k = omega (arith, inside, small) in
    let len = read_len-inside n.size file.off (suc k) inside small in
    simp (at, ramfs_read) (rw there (rw bytes (rw len (rw fits (rw len (rw off refl))))))

-- The copy into a node with room.
pub store_bytes-fits :
    (a : ℕ) (n : RamNode) (d buf : List ℕ) (file : VfsFile) (fs : Ramfs)
    → n.bytes ≡ some d
    → length d ≡ n.size
    → file.off + length buf ≤ n.size
    → n.size < 2 ^ 32
    → store_bytes a n buf file fs
      ≡ some (
        pos (length buf),
        record file { off = file.off + length buf },
        put_node a (some (record n { bytes = some (put_run d file.off buf) })) fs,
      )
unfolding store_bytes
store_bytes-fits a n d buf file fs bytes full inside small =
    let fits : leb (file.off + length buf) (length d) ≡ true = ground (arith, inside, full) in
    let off : (file.off + length buf) % 2 ^ 32 ≡ file.off + length buf =
      omega (arith, inside, small) in
    rw (bytes, store_bytes) (rw fits (rw off refl))
