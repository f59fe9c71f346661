-- ===== src/DiskCache/Sound.antt =====
-- Sound buffers of kernel/fs/disk_fs/dfs_iobuf.c, and their lists while one is used or filled.
use hsunix.Base.{
  ℕ, ◌+◌, ◌-◌, ◌^◌, ◌<◌, ◌≡◌, arith, List, [], ◌∷◌, none, some, true, false, ◌==◌, ◌++◌, inl, inr,
  refl, if◌then◌else◌, Bool-cases,
}
use hsunix.DiskCache.{Buf, Cache, buf_at, change_at, buf_of, use_block, io_write}
use hsunix.DiskCache.Pool.{holds, holds-use_block}
use hsunix.DiskCache.Held.{stands}

-- The buffers in use are of different blocks and have different numbers; each has fewer than `top`
-- users, is valid, and holds what the disk holds.
abbrev pub IsSound : ℕ → (ℕ → List ℕ) → List Buf → Type 0
IsSound top disk [] = Unit
IsSound top disk (b ∷ bs) =
    (holds b.blknum bs ≡ false)
    × (stands b.at bs ≡ false)
    × (0 < b.ref)
    × (b.ref < top)
    × (b.valid ≡ true)
    × (b.bytes ≡ disk b.blknum)
    × IsSound top disk bs

-- The buffers with new bytes for a block.
abbrev pub refill : ℕ → List ℕ → List Buf → List Buf
refill n e [] = []
refill n e (b ∷ bs) = (if b.blknum == n then record b { bytes = e } else b) ∷ refill n e bs

-- The buffers and the disk with new bytes for a block.
abbrev pub stored : ℕ → List ℕ → Cache → Cache
stored n e c = record c { disk = io_write n e c.disk; cached = refill n e c.cached }

holds-refill : (n m : ℕ) (e : List ℕ) (bs : List Buf) → holds m (refill n e bs) ≡ holds m bs
holds-refill n m e [] = refl
holds-refill n m e (b ∷ bs) = ground (arith, holds-refill n m e bs)

pub stands-refill : (n a : ℕ) (e : List ℕ) (bs : List Buf) → stands a (refill n e bs) ≡ stands a bs
stands-refill n a e [] = refl
stands-refill n a e (b ∷ bs) = ground (arith, stands-refill n a e bs)

pub IsSound-refill :
    (top n : ℕ) (e : List ℕ) (disk : ℕ → List ℕ) (bs : List Buf)
    → IsSound top disk bs
    → IsSound top (io_write n e disk) (refill n e bs)
IsSound-refill top n e disk [] h = tt
IsSound-refill top n e disk (b ∷ bs) h = ground (
  arith,
  h,
  holds-refill n b.blknum e bs,
  stands-refill n b.at e bs,
  IsSound-refill top n e disk bs h.6,
)

pub refill-none : (n : ℕ) (e : List ℕ) (bs : List Buf) → buf_of n bs ≡ none → refill n e bs ≡ bs
unfolding buf_of
refill-none n e [] h = refl
refill-none n e (b ∷ bs) h = ground (arith, h, refill-none n e bs)

refill-not_held : (n : ℕ) (e : List ℕ) (bs : List Buf) → holds n bs ≡ false → refill n e bs ≡ bs
refill-not_held n e [] h = refl
refill-not_held n e (b ∷ bs) h = ground (arith, h, refill-not_held n e bs)

pub buf_of-refill-none :
    (n : ℕ) (e : List ℕ) (bs : List Buf) → buf_of n bs ≡ none → buf_of n (refill n e bs) ≡ none
unfolding buf_of
buf_of-refill-none n e [] h = refl
buf_of-refill-none n e (b ∷ bs) h = ground (arith, h, buf_of-refill-none n e bs)

pub buf_of-refill :
    (n : ℕ) (e : List ℕ) (bs : List Buf) (b : Buf)
    → buf_of n bs ≡ some b
    → buf_of n (refill n e bs) ≡ some (record b { bytes = e })
unfolding buf_of
buf_of-refill n e [] b h = absurd (cc)
buf_of-refill n e (d ∷ bs) b h = ground (arith, h, buf_of-refill n e bs b)

buf_of-stands : (n : ℕ) (bs : List Buf) (b : Buf) → buf_of n bs ≡ some b → stands b.at bs ≡ true
unfolding buf_of
buf_of-stands n [] b h = absurd (cc)
buf_of-stands n (d ∷ bs) b h = ground (arith, h, buf_of-stands n bs b)

-- A buffer that is used once more.
abbrev pub more_used : Buf → Buf
more_used b = record b { ref = b.ref + 1 }

stands-use : (d : ℕ → List ℕ) (n a : ℕ) (bs : List Buf) → stands a (use_block d n bs) ≡ stands a bs
unfolding use_block
stands-use d n a [] = refl
stands-use d n a (b ∷ bs) = ground (arith, stands-use d n a bs)

pub IsSound-more :
    (top : ℕ) (disk : ℕ → List ℕ) (bs : List Buf) → IsSound top disk bs → IsSound (top + 1) disk bs
IsSound-more top disk [] s = tt
IsSound-more top disk (b ∷ bs) s = ground (arith, s, IsSound-more top disk bs s.6)

pub buf_at-append :
    (p : ℕ) (bs is : List Buf) (b : Buf) → buf_at p bs ≡ some b → buf_at p (bs ++ is) ≡ some b
unfolding buf_at
buf_at-append p [] is b e = absurd (cc)
buf_at-append p (c ∷ bs) is b e = ground (arith, e, buf_at-append p bs is b)

module _ (top : ℕ) (small : top < 2 ^ 32) (n : ℕ) (disk d : ℕ → List ℕ) where
  pub buf_at-use :
      (bs : List Buf) (b : Buf)
      → IsSound top disk bs
      → buf_of n bs ≡ some b
      → (buf_at b.at (use_block d n bs) ≡ some (more_used b))
        × (b.bytes ≡ disk n)
        × (b.blknum ≡ n)
        × (0 < b.ref)
  unfolding buf_at use_block buf_of
  buf_at-use [] b s h = absurd (cc)
  buf_at-use (x ∷ bs) b s h = elim (Bool-cases (x.blknum == n)) [
    | inl hit ↦ ground (arith, hit, h, s, small)
    | inr miss ↦
        let there : buf_of n bs ≡ some b = ground (arith, h, miss) in
        ground (arith, miss, s, buf_of-stands n bs b there, buf_at-use bs b s.6 there)
  ]

  pub change_at-use :
      (bs : List Buf) (b : Buf)
      → IsSound top disk bs
      → buf_of n bs ≡ some b
      → change_at b.at (λ x. record x { ref = x.ref - 1 }) (use_block d n bs) ≡ bs
  unfolding change_at use_block buf_of
  change_at-use [] b s h = absurd (cc)
  change_at-use (x ∷ bs) b s h = elim (Bool-cases (x.blknum == n)) [
    | inl hit ↦ ground (arith, hit, h, s, small)
    | inr miss ↦
        let there : buf_of n bs ≡ some b = ground (arith, h, miss) in
        ground (arith, miss, s, buf_of-stands n bs b there, change_at-use bs b s.6 there)
  ]

  pub fill-use :
      (d' : ℕ → List ℕ) (e : List ℕ) (bs : List Buf) (b : Buf)
      → IsSound top disk bs
      → buf_of n bs ≡ some b
      → change_at b.at (λ x. record x { bytes = e }) (use_block d n bs)
        ≡ use_block d' n (refill n e bs)
  unfolding change_at use_block buf_of
  fill-use d' e [] b s h = absurd (cc)
  fill-use d' e (x ∷ bs) b s h = elim (Bool-cases (x.blknum == n)) [
    | inl hit ↦ ground (arith, hit, h, s, refill-not_held n e bs)
    | inr miss ↦
        let there : buf_of n bs ≡ some b = ground (arith, h, miss) in
        ground (arith, miss, s, buf_of-stands n bs b there, fill-use d' e bs b s.6 there)
  ]

  pub IsSound-use :
      (bs : List Buf) → IsSound top disk bs → IsSound (top + 1) disk (use_block d n bs)
  unfolding use_block
  IsSound-use [] s = tt
  IsSound-use (x ∷ bs) s = elim (Bool-cases (x.blknum == n)) [
    | inl hit ↦ ground (arith, hit, s, small, IsSound-more top disk bs s.6)
    | inr miss ↦ ground (
      arith,
      miss,
      s,
      small,
      IsSound-use bs s.6,
      holds-use_block d x.blknum n bs,
      stands-use d n x.at bs,
    )
  ]
