-- ===== src/DiskCache/Pool.antt =====
-- The buffers of kernel/fs/disk_fs/dfs_iobuf.c over any sequence of operations: each block has one
-- buffer at most, and a buffer holds what the disk holds.
use hsunix.Base.{
  ℕ, ◌+◌, ◌≡◌, ◌<◌, arith, List, [], ◌∷◌, none, some, Bool, true, false, ◌==◌, ◌||◌, refl, ◌-◌, ◌^◌,
  Bool-cases, Option-cases, ◌++◌, inl, inr, ◌%◌, List-cases,
}
use hsunix.DiskCache.{
  Buf, Cache, buf_at, change_at, drop_at, dbuf_flush, dbuf_alloc, dbuf_free, buf_of, use_block,
  io_write,
}
use mathlib.Core.Logic.{inl}

-- Some buffer of the list holds the block.
abbrev pub holds : ℕ → List Buf → Bool
holds n [] = false
holds n (b ∷ bs) = (b.blknum == n) || holds n bs

-- No two buffers hold one block; each is in use, valid, and holds what the disk holds.
abbrev pub IsCached : (ℕ → List ℕ) → List Buf → Type 0
IsCached disk [] = Unit
IsCached disk (b ∷ bs) =
    (holds b.blknum bs ≡ false)
    × (0 < b.ref)
    × (b.valid ≡ true)
    × (b.bytes ≡ disk b.blknum)
    × IsCached disk bs

-- `buf_of` finds a buffer exactly of the blocks that the list holds.
pub holds-use_block :
    (disk : ℕ → List ℕ) (m n : ℕ) (bs : List Buf) → holds m (use_block disk n bs) ≡ holds m bs
unfolding use_block
holds-use_block disk m n [] = refl
holds-use_block disk m n (b ∷ bs) = ground (arith, holds-use_block disk m n bs)

-- The count of users of the block's buffer, if it has one, does not wrap.
abbrev pub CanUse : ℕ → List Buf → Type 0
CanUse n bs = (b : Buf) → buf_of n bs ≡ some b → b.ref + 1 < 2 ^ 32

use_block-IsCached :
    (disk : ℕ → List ℕ) (n : ℕ) (bs : List Buf)
    → CanUse n bs
    → IsCached disk bs
    → IsCached disk (use_block disk n bs)
unfolding use_block buf_of
use_block-IsCached disk n [] r h = tt
use_block-IsCached disk n (b ∷ bs) r h = elim (Bool-cases (b.blknum == n)) [
  | inl hit ↦ ground (arith, hit, h, r b)
  | inr miss ↦
      let rest = use_block-IsCached disk n bs (λ d e. r d (ground (arith, e, miss))) h.4 in
      ground (arith, miss, h, rest, holds-use_block disk b.blknum n bs)
]

pub buf_of-holds : (n : ℕ) (bs : List Buf) → buf_of n bs ≡ none → holds n bs ≡ false
unfolding buf_of
buf_of-holds n [] h = refl
buf_of-holds n (b ∷ bs) h = ground (arith, buf_of-holds n bs)

-- The buffer of a block that has one, before and after one user more.
pub buf_of-found :
    (disk : ℕ → List ℕ) (n : ℕ) (bs : List Buf) (b : Buf)
    → buf_of n bs ≡ some b
    → IsCached disk bs
    → (c : Buf) × (buf_of n (use_block disk n bs) ≡ some c) × (c.at ≡ b.at) × (c.bytes ≡ disk n)
unfolding buf_of use_block
buf_of-found disk n [] b e h = absurd (cc)
buf_of-found disk n (d ∷ bs) b e h = elim (Bool-cases (d.blknum == n)) [
  | inl hit ↦ (
    record d { ref = (d.ref + 1) % 2 ^ 32 },
    ground (arith, hit, h),
    ground (arith, hit, e),
    ground (arith, hit, h),
  )
  | inr miss ↦
      let (c, r, i, j) = buf_of-found disk n bs b (ground (arith, miss, e)) h.4 in
      (c, ground (arith, miss, r), i, j)
]

-- A buffer that is no longer there holds nothing: the others hold what they held.
holds-drop_at : (p m : ℕ) (bs : List Buf) → holds m bs ≡ false → holds m (drop_at p bs) ≡ false
unfolding drop_at
holds-drop_at p m [] h = refl
holds-drop_at p m (b ∷ bs) h = ground (arith, holds-drop_at p m bs)

drop_at-IsCached :
    (disk : ℕ → List ℕ) (p : ℕ) (bs : List Buf) → IsCached disk bs → IsCached disk (drop_at p bs)
unfolding drop_at
drop_at-IsCached disk p [] h = tt
drop_at-IsCached disk p (b ∷ bs) h =
    ground (arith, drop_at-IsCached disk p bs, holds-drop_at p b.blknum bs)

-- One user less of the buffer at p, which has more than one.
abbrev leave_one : Buf → Buf
leave_one b = record b { ref = b.ref - 1 }

holds-leave_one : (p m : ℕ) (bs : List Buf) → holds m (change_at p leave_one bs) ≡ holds m bs
unfolding change_at
holds-leave_one p m [] = refl
holds-leave_one p m (b ∷ bs) = ground (arith, holds-leave_one p m bs)

leave_one-IsCached :
    (disk : ℕ → List ℕ) (p : ℕ) (bs : List Buf) (b : Buf)
    → buf_at p bs ≡ some b
    → 1 < b.ref
    → IsCached disk bs
    → IsCached disk (change_at p leave_one bs)
unfolding change_at buf_at
leave_one-IsCached disk p [] b e l h = tt
leave_one-IsCached disk p (d ∷ bs) b e l h =
    ground (arith, leave_one-IsCached disk p bs b, holds-leave_one p d.blknum bs)

holds-buf_at : (p : ℕ) (bs : List Buf) (b : Buf) → buf_at p bs ≡ some b → holds b.blknum bs ≡ true
unfolding buf_at
holds-buf_at p [] b e = absurd (cc)
holds-buf_at p (d ∷ bs) b e = ground (arith, holds-buf_at p bs b)

-- Writing a block that no buffer of the list holds.
io_write-IsCached :
    (disk : ℕ → List ℕ) (n : ℕ) (d : List ℕ) (bs : List Buf)
    → holds n bs ≡ false
    → IsCached disk bs
    → IsCached (io_write n d disk) bs
io_write-IsCached disk n d [] a h = tt
io_write-IsCached disk n d (b ∷ bs) a h = ground (arith, io_write-IsCached disk n d bs)

-- A client's new content of a buffer.
abbrev fill : List ℕ → Buf → Buf
fill d b = record b { bytes = d }

holds-fill : (p m : ℕ) (d : List ℕ) (bs : List Buf) → holds m (change_at p (fill d) bs) ≡ holds m bs
unfolding change_at
holds-fill p m d [] = refl
holds-fill p m d (b ∷ bs) = ground (arith, holds-fill p m d bs)

fill-IsCached :
    (disk : ℕ → List ℕ) (p : ℕ) (d : List ℕ) (bs : List Buf) (b : Buf)
    → buf_at p bs ≡ some b
    → IsCached disk bs
    → IsCached (io_write b.blknum d disk) (change_at p (fill d) bs)
unfolding change_at buf_at
fill-IsCached disk p d [] b e h = tt
fill-IsCached disk p d (c ∷ bs) b e h = elim (Bool-cases (c.at == p)) [
  | inl hit ↦ ground (arith, hit, h, e, io_write-IsCached disk c.blknum d bs)
  | inr miss ↦
      let there : buf_at p bs ≡ some b = ground (arith, miss, e) in
      ground (
        arith,
        miss,
        h,
        holds-buf_at p bs b there,
        holds-fill p c.blknum d bs,
        fill-IsCached disk p d bs b there,
      )
]

buf_at-fill :
    (p : ℕ) (d : List ℕ) (bs is : List Buf) (b : Buf)
    → buf_at p bs ≡ some b
    → buf_at p (change_at p (fill d) bs ++ is) ≡ some (fill d b)
unfolding change_at buf_at
buf_at-fill p d [] is b e = absurd (cc)
buf_at-fill p d (c ∷ bs) is b e = ground (arith, buf_at-fill p d bs is b)

-- New content for a buffer in use, and `dbuf_flush`.
abbrev pub write_at : ℕ → List ℕ → Cache → Cache
write_at p d c = dbuf_flush p (record c { cached = change_at p (fill d) c.cached })

write_at-run :
    (p : ℕ) (d : List ℕ) (c : Cache) (b : Buf)
    → buf_at p c.cached ≡ some b
    → write_at p d c
      ≡ record c { cached = change_at p (fill d) c.cached; disk = io_write b.blknum d c.disk }
unfolding dbuf_flush
write_at-run p d c b e = ground (arith, buf_at-fill p d c.cached c.idle b e)

-- What the file system does with its buffers, in any order: an allocation while the count of users
-- does not wrap, a release, and new content with its flush.
pub data Step : Cache → Cache → Type 0 where
  take : (n : ℕ) (c : Cache) → CanUse n c.cached → Step c (dbuf_alloc n c).1
  release : (p : ℕ) (c : Cache) → Step c (dbuf_free p c)
  write :
      (p : ℕ) (d : List ℕ) (c : Cache) {b : Buf}
      → buf_at p c.cached ≡ some b
      → Step c (write_at p d c)

pub data Reach (c : Cache) : Cache → Type 0 where
  here : Reach c c
  next : {c₁ c₂ : Cache} → Reach c c₁ → Step c₁ c₂ → Reach c c₂

take-IsCached :
    (n : ℕ) (c : Cache)
    → CanUse n c.cached
    → IsCached c.disk c.cached
    → IsCached (dbuf_alloc n c).1.disk (dbuf_alloc n c).1.cached
unfolding dbuf_alloc
take-IsCached n c r h = elim (Option-cases (buf_of n c.cached)) [
  | inl miss ↦ elim (List-cases c.idle) [
    | inl empty ↦ rw (miss, empty, dbuf_alloc) h
    | inr (b, bs, e) ↦
        rw (miss, e, dbuf_alloc) (buf_of-holds n c.cached miss, omega arith, refl, refl, h)
  ]
  | inr (b, hit) ↦ rw (hit, dbuf_alloc) (use_block-IsCached c.disk n c.cached r h)
]

release-IsCached :
    (p : ℕ) (c : Cache)
    → IsCached c.disk c.cached
    → IsCached (dbuf_free p c).disk (dbuf_free p c).cached
unfolding dbuf_free
release-IsCached p c h = elim (Option-cases (buf_at p c.cached)) [
  | inl none_there ↦ rw (none_there, dbuf_free) h
  | inr (b, e) ↦ elim (Bool-cases (b.ref == 0)) [
    | inl unused ↦ rw (e, unused, dbuf_free) h
    | inr used ↦ elim (Bool-cases (b.ref == 1)) [
      | inl last ↦ rw (e, used, last, dbuf_free) (drop_at-IsCached c.disk p c.cached h)
      | inr more ↦
          rw (e, used, more, dbuf_free)
            (leave_one-IsCached c.disk p c.cached b e (ground (arith, used, more)) h)
    ]
  ]
]

Step-IsCached : {c c' : Cache} → Step c c' → IsCached c.disk c.cached → IsCached c'.disk c'.cached
Step-IsCached (take n c r) h = take-IsCached n c r h
Step-IsCached (release p c) h = release-IsCached p c h
Step-IsCached (write p d c {b} e) h =
    rw (write_at-run p d c b e) (fill-IsCached c.disk p d c.cached b e h)

-- After any sequence of allocations, releases and writes, each allocation made only while the count of
-- users of the block's buffer is below 2^32 - 1, and each write new content for a buffer in use with
-- its flush in one step, no two buffers hold one block, and each buffer that holds one is in use,
-- valid, and has the bytes that the disk has, if that was so before.
pub Reach-IsCached :
    {c c' : Cache} → IsCached c.disk c.cached → Reach c c' → IsCached c'.disk c'.cached
Reach-IsCached h here = h
Reach-IsCached h (next r s) = Step-IsCached s (Reach-IsCached h r)
