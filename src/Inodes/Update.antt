-- ===== src/Inodes/Update.antt =====
-- Pieces of kernel/fs/disk_fs/dfs_inode.c's `dinode_write` on the bytes of the file.
use hsunix.Base.{
  ℕ, ◌+◌, ◌-◌, ◌*◌, ◌/◌, ◌%◌, ◌≡◌, ◌≢◌, ◌<◌, ◌≤◌, arith, List, false, leb, ltb, ◌&&◌, ◌==◌,
  if◌then◌else◌, get_or, take, length, refl, length-take, Bool-cases, inl, inr, drop, sym, ◌∙◌, ap,
}
use hsunix.DiskCache.{bsize, io_write}
use hsunix.Blocks.{Inode}
use hsunix.Blocks.Lookup.{block_of}
use hsunix.Inodes.{put_run}
use hsunix.Inodes.Content.{IsWhole}
use hsunix.Inodes.Runs.{length-put_run, get_or-put_run, get_or-take, get_or-drop}

-- Byte k of a file.
abbrev pub byte_of : (ℕ → List ℕ) → Inode → ℕ → ℕ
byte_of disk n k = get_or (disk (block_of disk n (k / bsize))) (k % bsize) 0

-- No block of the file stands twice in it, nor is one its block of block numbers.
pub record IsApart (disk : ℕ → List ℕ) (n : Inode) : Type 0 where
  pub once :
      (i j : ℕ)
      → i * bsize < n.size
      → j * bsize < n.size
      → block_of disk n i ≡ block_of disk n j
      → i ≡ j
  pub plain : (i : ℕ) → i * bsize < n.size → block_of disk n i ≢ n.ex_addr

-- The disk D after the first l bytes of src were written to the file from off on.
pub record Written (disk D : ℕ → List ℕ) (n : Inode) (src : List ℕ) (off l : ℕ) : Type 0 where
  pub same_blocks : (i : ℕ) → block_of D n i ≡ block_of disk n i
  pub whole_blocks : (b : ℕ) → length (D b) ≡ bsize
  pub bytes :
      (k : ℕ)
      → k < n.size
      → byte_of D n k
        ≡ (if leb off k && ltb k (off + l) then get_or src (k - off) 0 else byte_of disk n k)
  pub others : (b : ℕ) → ((i : ℕ) → i * bsize < n.size → block_of disk n i ≢ b) → D b ≡ disk b

module _ (disk : ℕ → List ℕ) (n : Inode) (whole : IsWhole disk n) (apart : IsApart disk n) where
  pub Written-none : (src : List ℕ) (off : ℕ) → Written disk disk n src off 0
  Written-none src off = record {
    same_blocks = λ i. refl;
    whole_blocks = whole.full;
    bytes = λ k h. ground arith;
    others = λ b h. refl;
  }

  -- One piece in one block.
  module _ (src : List ℕ) (off m : ℕ) (inside : off + m ≤ n.size) (some_bytes : 0 < m)
      (fits : off % bsize + m ≤ bsize) (given : m ≤ length src) where
    abbrev pub target : ℕ
    target = block_of disk n (off / bsize)

    abbrev pub piece : ℕ → List ℕ
    piece = io_write target (put_run (disk target) (off % bsize) (take m src)) disk

    target-plain : target ≢ n.ex_addr
    target-plain = apart.plain (off / bsize) (omega (arith, inside, some_bytes))

    piece-block_of : (i : ℕ) → block_of piece n i ≡ block_of disk n i
    piece-block_of i = ground (arith, target-plain)

    length-piece : length (take m src) ≡ m
    length-piece = omega (arith, length-take m src, given)

    in_target :
        (j : ℕ)
        → get_or (put_run (disk target) (off % bsize) (take m src)) j 0 ≡ (
            if leb (off % bsize) j && ltb j (off % bsize + m)
            then get_or src (j - off % bsize) 0
            else get_or (disk target) j 0)
    in_target j = ground (
      arith,
      get_or-put_run (take m src) (disk target) (off % bsize) j,
      length-piece,
      whole.full target,
      fits,
      get_or-take m (j - off % bsize) src,
    )

    same_block :
        (k : ℕ)
        → k / bsize ≡ off / bsize
        → (leb (off % bsize) (k % bsize) && ltb (k % bsize) (off % bsize + m)
            ≡ (leb off k && ltb k (off + m)))
          × (off ≤ k → k % bsize - off % bsize ≡ k - off)
    same_block k e = (ground (arith, e), λ l. omega (arith, e, l))

    other_block :
        (k : ℕ)
        → k < n.size
        → k / bsize ≢ off / bsize
        → (block_of disk n (k / bsize) ≢ target) × ((leb off k && ltb k (off + m)) ≡ false)
    other_block k h e = (
      λ q. e (
          apart.once (k / bsize) (off / bsize) (omega (arith, h))
            (omega (arith, inside, some_bytes)) q),
      ground (arith, e, fits),
    )

    piece-bytes :
        (k : ℕ)
        → k < n.size
        → byte_of piece n k
          ≡ (if leb off k && ltb k (off + m) then get_or src (k - off) 0 else byte_of disk n k)
    piece-bytes k h = elim (Bool-cases (k / bsize == off / bsize)) [
      | inl e ↦
          let same : k / bsize ≡ off / bsize = ground (arith, e) in
          let (range, from) = same_block k same in
          rw (piece-block_of (k / bsize))
            (rw same (ground (arith, in_target (k % bsize), range, from)))
      | inr e ↦
          let (block, range) = other_block k h (ground (arith, e)) in
          rw (piece-block_of (k / bsize)) (ground (arith, block, range))
    ]

    pub Written-piece : Written disk piece n src off m
    Written-piece = record {
      same_blocks = piece-block_of;
      whole_blocks = λ b. ground (
        arith,
        whole.full b,
        whole.full target,
        length-put_run (take m src) (disk target) (off % bsize),
      );
      bytes = piece-bytes;
      others = λ b h. ground (arith, h (off / bsize) (omega (arith, inside, some_bytes)));
    }

module _ (disk D : ℕ → List ℕ) (n : Inode) (src : List ℕ) (off m : ℕ)
    (first : Written disk D n src off m) where
  pub Written-IsWhole : IsWhole disk n → IsWhole D n
  Written-IsWhole whole = record {
    there = λ i h. rw (first.same_blocks i) (whole.there i h);
    full = first.whole_blocks;
  }

  pub Written-IsApart : IsApart disk n → IsApart D n
  Written-IsApart apart = record {
    once = λ i j h k e. apart.once i j h k (sym (first.same_blocks i) ∙ e ∙ first.same_blocks j);
    plain = λ i h. rw (first.same_blocks i) (apart.plain i h);
  }

  later : (k : ℕ) → off + m ≤ k → get_or (drop m src) (k - (off + m)) 0 ≡ get_or src (k - off) 0
  later k h =
      let at : m + (k - (off + m)) ≡ k - off = omega (arith, h) in
      get_or-drop m (k - (off + m)) src ∙ ap (λ j. get_or src j 0) at

  pub Written-then :
      (E : ℕ → List ℕ) (l : ℕ)
      → m ≤ l
      → Written D E n (drop m src) (off + m) (l - m)
      → Written disk E n src off l
  Written-then E l h rest = record {
    same_blocks = λ i. rest.same_blocks i ∙ first.same_blocks i;
    whole_blocks = rest.whole_blocks;
    bytes = λ k small. ground (arith, rest.bytes k small, first.bytes k small, later k, h);
    others = λ b away.
        rest.others b (λ i l q. away i l (sym (first.same_blocks i) ∙ q)) ∙ first.others b away;
  }
