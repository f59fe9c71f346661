-- ===== src/RamFs/Files/Bytes.antt =====
-- Writing and reading back in kernel/fs/ram_fs/fs_ramfs.c.
use hsunix.Base.{
  ℕ, List, ◌+◌, length, ◌≤◌, none, ◌≡◌, some, take, replicate, [], ◌∙◌, length-replicate, ◌∷◌, suc,
  if◌then◌else◌, arith, zero, ltb, ap, ◌<◌, ◌-◌, ◌^◌, refl, leb, false, true, ◌%◌, ◌==◌, get_or,
  ◌&&◌, Bool-cases, inl, inr, Option, Option-cases, sym,
}
use hsunix.RamFs.Files.{VfsFile, ramfs_read, store_bytes, ramfs_write, grow_node, write_node}
use hsunix.RamFs.{RamNode, Ramfs, put_node, minus32, ramfs_magic}
use hsunix.Inodes.{put_run}
use hsunix.Inodes.Runs.{length-put_run, get_or-put_run}
use hsunix.Base.Int.{pos}
use hsunix.RamFs.Files.Pieces.{ramfs_read-inside, length-grown, store_bytes-fits, take-drop-put_run}

-- The memory of a file holds its size and no more.
abbrev pub IsFilled : RamNode → Type 0
IsFilled n = length (elim n.bytes [ none ↦ [] | some d ↦ d ]) ≡ n.size

ramfs_write-node :
    (a b : ℕ) (bs : List ℕ) (file : VfsFile) (fs : Ramfs) (n : RamNode)
    → file.inode.target ≡ some a
    → fs.nodes a ≡ some n
    → fs.magic ≡ ramfs_magic
    → ramfs_write true file (b ∷ bs) fs ≡ write_node true a n (b ∷ bs) file fs
unfolding ramfs_write
ramfs_write-node a b bs file fs n at there live =
    let ok : (fs.magic == 0xff05) ≡ true = ground (arith, live) in
    simp (at, ramfs_write) (rw there (rw ok refl))

-- Where the bytes fit in the file, and where they do not.
write_node-fits :
    (a : ℕ) (buf : List ℕ) (file : VfsFile) (fs : Ramfs) (n : RamNode)
    → file.off ≤ n.size
    → n.size < 2 ^ 32
    → ltb (n.size - file.off) (length buf) ≡ false
    → write_node true a n buf file fs ≡ store_bytes a n buf file fs
unfolding write_node
write_node-fits a buf file fs n inside small fits =
    let left : minus32 n.size file.off ≡ n.size - file.off = omega (arith, inside, small) in
    rw (left, write_node) (rw fits refl)

write_node-grows :
    (a : ℕ) (buf : List ℕ) (file : VfsFile) (fs : Ramfs) (n m : RamNode)
    → file.off ≤ n.size
    → n.size < 2 ^ 32
    → ltb (n.size - file.off) (length buf) ≡ true
    → grow_node true (length buf) n ≡ some m
    → write_node true a n buf file fs
      ≡ store_bytes a m buf
          (record file { inode = record file.inode { size = m.size } })
          (record fs { size = (fs.size + length buf) % 2 ^ 32 })
unfolding write_node
write_node-grows a buf file fs n m inside small over grown =
    let left : minus32 n.size file.off ≡ n.size - file.off = omega (arith, inside, small) in
    rw (left, write_node) (rw over (rw grown refl))

abbrev pub data_of : RamNode → List ℕ
data_of n = elim n.bytes [ none ↦ [] | some d ↦ d ]

-- The node with so many zero bytes more.
abbrev grown : ℕ → RamNode → RamNode
grown count n = record n {
  bytes = some (put_run (replicate (n.size + count) 0) 0 (take n.size (data_of n)));
  size = n.size + count;
}

grow_node-grown :
    (count : ℕ) (n : RamNode)
    → n.size + count < 4096
    → grow_node true count n ≡ some (grown count n)
unfolding grow_node
grow_node-grown count n h =
    let fits : ltb (n.size + count) 4096 ≡ true = ground (arith, h) in rw (fits, grow_node) refl

get_or-replicate : (n k : ℕ) → get_or (replicate {A = ℕ} n 0) k 0 ≡ 0
get_or-replicate zero k = refl
get_or-replicate (suc n) zero = refl
get_or-replicate (suc n) (suc k) = get_or-replicate n k

get_or-behind : (d : List ℕ) (k : ℕ) → length d ≤ k → get_or d k 0 ≡ 0
get_or-behind [] k h = refl
get_or-behind (x ∷ d) zero h = absurd (omega (arith, h))
get_or-behind (x ∷ d) (suc k) h = get_or-behind d k (omega (arith, h))

take-all : (d : List ℕ) (n : ℕ) → length d ≡ n → take n d ≡ d
take-all [] zero h = refl
take-all [] (suc n) h = refl
take-all (x ∷ d) zero h = absurd (omega (arith, h))
take-all (x ∷ d) (suc n) h = ap (λ l. x ∷ l) (take-all d n (omega (arith, h)))

-- The bytes of a grown node: the old ones, then zeros.
get_or-grown :
    (d : List ℕ) (n m k : ℕ)
    → length d ≡ n
    → get_or (put_run (replicate (n + m) 0) 0 (take n d)) k 0 ≡ get_or d k 0
get_or-grown d n m k h = rw (take-all d n h) (
    ground (
      arith,
      get_or-put_run d (replicate (n + m) 0) 0 k,
      length-replicate {A = ℕ} (n + m) 0,
      get_or-replicate (n + m) k,
      get_or-behind d k,
    ))

-- What `ramfs_write` of `buf` leaves: a node as long as it says, whose bytes are those of `buf` in the
-- range, zero behind the old end, and else what they were.
pub record WrittenTo (n m : RamNode) (off : ℕ) (buf : List ℕ) : Type 0 where
  pub filled : length (data_of m) ≡ m.size
  pub new_size : m.size ≡ (if ltb (n.size - off) (length buf) then n.size + length buf else n.size)
  pub new_bytes :
      (k : ℕ)
      → k < m.size
      → get_or (data_of m) k 0 ≡ (
          if leb off k && ltb k (off + length buf)
          then get_or buf (k - off) 0
          else get_or (data_of n) k 0)

module _ (a b : ℕ) (bs : List ℕ) (file : VfsFile) (fs : Ramfs) (n m : RamNode) (d : List ℕ)
    (at : file.inode.target ≡ some a) (bytes : m.bytes ≡ some d) (full : length d ≡ m.size)
    (inside : file.off + length (b ∷ bs) ≤ m.size) (small : m.size < 4096) where
  abbrev pub stored : RamNode
  stored = record m { bytes = some (put_run d file.off (b ∷ bs)) }

  stored-there : (put_node a (some stored) fs).nodes a ≡ some stored
  stored-there = let same : (a == a) ≡ true = ground arith in rw same refl

  length-stored : length (put_run d file.off (b ∷ bs)) ≡ m.size
  length-stored = length-put_run (b ∷ bs) d file.off ∙ full

  read_stored :
      ramfs_read file (length (b ∷ bs)) (put_node a (some stored) fs)
      ≡ some (pos (length (b ∷ bs)), b ∷ bs, record file { off = file.off + length (b ∷ bs) })
  read_stored =
      ramfs_read-inside a (length bs) file (put_node a (some stored) fs) stored
        (put_run d file.off (b ∷ bs)) at stored-there refl length-stored inside
        (omega (arith, small))
      ∙ ap
          (λ (t : List ℕ).
            some (pos (length (b ∷ bs)), t, record file { off = file.off + length (b ∷ bs) }))
          (take-drop-put_run (b ∷ bs) d file.off (omega (arith, inside, full)))

  stored-WrittenTo :
      m.size
        ≡ (if ltb (n.size - file.off) (length (b ∷ bs)) then n.size + length (b ∷ bs) else n.size)
      → ((k : ℕ) → get_or d k 0 ≡ get_or (data_of n) k 0)
      → WrittenTo n stored file.off (b ∷ bs)
  stored-WrittenTo size old = record {
    filled = length-stored;
    new_size = size;
    new_bytes = λ k h.
        get_or-put_run (b ∷ bs) d file.off k (omega (arith, inside, full))
        ∙ ap
            (λ (t : ℕ).
              if leb file.off k && ltb k (file.off + length (b ∷ bs))
              then get_or (b ∷ bs) (k - file.off) 0
              else t)
            (old k);
  }

module _ (a b : ℕ) (bs : List ℕ) (file : VfsFile) (fs : Ramfs) (n : RamNode)
    (at : file.inode.target ≡ some a) (there : fs.nodes a ≡ some n) (live : fs.magic ≡ ramfs_magic)
    (full : length (data_of n) ≡ n.size) (inside : file.off ≤ n.size)
    (small : n.size + length (b ∷ bs) < 4096) where
  -- The outcome of a write whose bytes read back.
  abbrev ReadsBack : Type 0
  ReadsBack =
      (file' : VfsFile) × (fs' : Ramfs) × (m : RamNode) × (ramfs_write true file (b ∷ bs) fs
        ≡ some (pos (length (b ∷ bs)), file', fs'))
      × (fs'.nodes a ≡ some m)
      × WrittenTo n m file.off (b ∷ bs)
      × (ramfs_read (record file' { off = file.off }) (length (b ∷ bs)) fs'
          ≡ some (pos (length (b ∷ bs)), b ∷ bs, file'))

  no_bytes : n.bytes ≡ none → ltb (n.size - file.off) (length (b ∷ bs)) ≡ false → ⊥
  no_bytes empty fits =
      let nothing : 0 ≡ n.size =
        ap (λ (o : Option (List ℕ)). length (elim o [ none ↦ [] | some d ↦ d ])) (sym empty)
        ∙ full in
      ground (arith, fits, nothing)

  written_fits :
      (d : List ℕ)
      → n.bytes ≡ some d
      → ltb (n.size - file.off) (length (b ∷ bs)) ≡ false
      → ReadsBack
  written_fits d bytes fits =
      let same_data : data_of n ≡ d =
        ap (λ (o : Option (List ℕ)). elim o [ none ↦ [] | some d' ↦ d' ]) bytes in
      let whole : length d ≡ n.size = ap length (sym same_data) ∙ full in
      let room : file.off + length (b ∷ bs) ≤ n.size = ground (arith, fits, inside) in
      let limit : n.size < 4096 = omega (arith, small) in
      (
        record file { off = file.off + length (b ∷ bs) },
        put_node a (some (stored a b bs file fs n n d at bytes whole room limit)) fs,
        stored a b bs file fs n n d at bytes whole room limit,
        ramfs_write-node a b bs file fs n at there live
            ∙ write_node-fits a (b ∷ bs) file fs n inside (omega (arith, limit)) fits
            ∙ store_bytes-fits a n d (b ∷ bs) file fs bytes whole room (omega (arith, limit)),
        stored-there a b bs file fs n n d at bytes whole room limit,
        stored-WrittenTo a b bs file fs n n d at bytes whole room limit (rw fits refl)
            (λ k. ap (λ t. get_or t k 0) (sym same_data)),
        read_stored a b bs file fs n n d at bytes whole room limit,
      )

  written_over : ltb (n.size - file.off) (length (b ∷ bs)) ≡ true → ReadsBack
  written_over over =
      let m = grown (length (b ∷ bs)) n in
      let d = put_run (replicate (n.size + length (b ∷ bs)) 0) 0 (take n.size (data_of n)) in
      let file₁ = record file { inode = record file.inode { size = m.size } } in
      let fs₁ = record fs { size = (fs.size + length (b ∷ bs)) % 2 ^ 32 } in
      let whole : length d ≡ m.size = length-grown (take n.size (data_of n)) m.size in
      let room : file.off + length (b ∷ bs) ≤ m.size = omega (arith, inside) in
      (
        record file₁ { off = file.off + length (b ∷ bs) },
        put_node a (some (stored a b bs file₁ fs₁ n m d at refl whole room small)) fs₁,
        stored a b bs file₁ fs₁ n m d at refl whole room small,
        ramfs_write-node a b bs file fs n at there live
            ∙ write_node-grows a (b ∷ bs) file fs n m inside (omega (arith, small)) over
                (grow_node-grown (length (b ∷ bs)) n small)
            ∙ store_bytes-fits a m d (b ∷ bs) file₁ fs₁ refl whole room (omega (arith, small)),
        stored-there a b bs file₁ fs₁ n m d at refl whole room small,
        stored-WrittenTo a b bs file₁ fs₁ n m d at refl whole room small (rw over refl)
            (λ k. get_or-grown (data_of n) n.size (length (b ∷ bs)) k full),
        read_stored a b bs file₁ fs₁ n m d at refl whole room small,
      )

-- `ramfs_write`, where memory is left, at an offset inside a file of less than 4096 bytes with the new
-- ones, writes all bytes; the same number read back from there are those bytes, and the offset is then
-- again where the write left it. The file is as long as before if they fit; and else longer by their
-- number, however few of them stand behind the old end, with zeros at its end.
pub ramfs_read-ramfs_write :
    (a b : ℕ) (bs : List ℕ) (file : VfsFile) (fs : Ramfs) (n : RamNode)
    → file.inode.target ≡ some a
    → fs.nodes a ≡ some n
    → fs.magic ≡ ramfs_magic
    → length (data_of n) ≡ n.size
    → file.off ≤ n.size
    → n.size + length (b ∷ bs) < 4096
    → (file' : VfsFile) × (fs' : Ramfs) × (m : RamNode) × (ramfs_write true file (b ∷ bs) fs
        ≡ some (pos (length (b ∷ bs)), file', fs'))
      × (fs'.nodes a ≡ some m)
      × WrittenTo n m file.off (b ∷ bs)
      × (ramfs_read (record file' { off = file.off }) (length (b ∷ bs)) fs'
          ≡ some (pos (length (b ∷ bs)), b ∷ bs, file'))
ramfs_read-ramfs_write a b bs file fs n at there live full inside small =
    elim (Bool-cases (ltb (n.size - file.off) (length (b ∷ bs)))) [
      | inl over ↦ written_over a b bs file fs n at there live full inside small over
      | inr fits ↦ elim (Option-cases n.bytes) [
        | inl empty ↦ absurd (no_bytes a b bs file fs n at there live full inside small empty fits)
        | inr (d, bytes) ↦
            written_fits a b bs file fs n at there live full inside small d bytes fits
      ]
    ]
