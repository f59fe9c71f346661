-- ===== src/Inodes/Tests.antt =====
-- A file of two blocks, and its inode, at a concrete disk.
use hsunix.Base.{
  ℕ, zero, suc, ◌*◌, ◌≡◌, ◌≢◌, ◌<◌, ◌-◌, ◌+◌, ◌^◌, true, arith, List, [], ◌∷◌, some, leb, ltb, ◌&&◌,
  if◌then◌else◌, replicate, refl, get_or, length-replicate,
}
use hsunix.Base.Int.{pos}
use hsunix.DiskCache.{Buf, Cache, blank, bsize}
use hsunix.Blocks.{Sb, Inode}
use hsunix.DiskCache.Sound.{IsSound}
use hsunix.DiskCache.Lent.{IsReady}
use hsunix.DiskCache.Pool.{holds}
use hsunix.Inodes.{dinode_read, dinode_write, dinode_flush, dinode_alloc, blank_inode}
use hsunix.Inodes.Content.{IsWhole, file_bytes, dinode_read_lem}
use hsunix.Inodes.Update.{IsApart, byte_of}
use hsunix.Inodes.Write.{dinode_write_lem}
use hsunix.Inodes.Codec.{IsInode}
use hsunix.Inodes.Reload.{dinode_alloc-dinode_flush}
use hsunix.Blocks.Lookup.{block_of}

abbrev sb : Sb
sb = record { size = 100; ninodes = 16; inodestart = 2; bmapstart = 1 }

abbrev two_blocks : Inode
two_blocks = record {
  kind = 2;
  major = 0;
  minor = 0;
  inum = 3;
  size = 1500;
  addrs = 10 ∷ 11 ∷ replicate 10 0;
  ex_addr = 0;
}

abbrev numbered : ℕ → List ℕ
numbered n = replicate bsize n

-- A buffer of the block of the inode is in use, as an earlier `dinode_flush` leaves it.
abbrev kept : Buf
kept = record { at = 9; bytes = replicate bsize 2; ref = 1; blknum = 2; valid = true }

abbrev ready : Cache
ready = record { idle = blank 1 ∷ blank 2 ∷ []; cached = kept ∷ []; disk = numbered }

ready-IsReady : IsReady 1 (blank 2 ∷ []) ready
ready-IsReady = ((refl, refl, omega arith, omega arith, refl, refl, tt), refl, refl)

two_blocks-IsWhole : IsWhole numbered two_blocks
two_blocks-IsWhole = record { there = there; full = λ b. length-replicate bsize b }
  where
    there : (i : ℕ) → i * bsize < 1500 → block_of numbered two_blocks i ≢ 0
    there zero h = ground arith
    there (suc zero) h = ground arith
    there (suc (suc i)) h = absurd (omega (arith, h))

two_blocks-IsApart : IsApart numbered two_blocks
two_blocks-IsApart = record { once = once; plain = plain }
  where
    once :
        (i j : ℕ)
        → i * bsize < 1500
        → j * bsize < 1500
        → block_of numbered two_blocks i ≡ block_of numbered two_blocks j
        → i ≡ j
    once zero zero h k e = refl
    once zero (suc zero) h k e = absurd (omega (arith, e))
    once (suc zero) zero h k e = absurd (omega (arith, e))
    once (suc zero) (suc zero) h k e = refl
    once (suc (suc i)) j h k e = absurd (omega (arith, h))
    once zero (suc (suc j)) h k e = absurd (omega (arith, k))
    once (suc zero) (suc (suc j)) h k e = absurd (omega (arith, k))

    plain : (i : ℕ) → i * bsize < 1500 → block_of numbered two_blocks i ≢ 0
    plain zero h = ground arith
    plain (suc zero) h = ground arith
    plain (suc (suc i)) h = absurd (omega (arith, h))

away : (i : ℕ) → i * bsize < 1500 → block_of numbered two_blocks i ≢ 2
away zero h = ground arith
away (suc zero) h = ground arith
away (suc (suc i)) h = absurd (omega (arith, h))

dinode_read_lem_example :
    dinode_read sb two_blocks 1000 5000 ready
    ≡ some (file_bytes numbered two_blocks 1000 500, two_blocks, ready)
dinode_read_lem_example =
    dinode_read_lem 1 (blank 2 ∷ []) sb two_blocks ready 1000 5000 ready-IsReady two_blocks-IsWhole
      (omega arith) (omega arith)

dinode_write_lem_example :
    (c' : Cache) × (dinode_write sb two_blocks (7 ∷ 8 ∷ 9 ∷ []) 1022 3 ready
      ≡ some (pos 3, two_blocks, c'))
    × ((k : ℕ)
        → k < 1500
        → byte_of c'.disk two_blocks k ≡ (
            if leb 1022 k && ltb k 1025
            then get_or (7 ∷ 8 ∷ 9 ∷ []) (k - 1022) 0
            else byte_of numbered two_blocks k))
    × IsSound (2 ^ 31 + 1) c'.disk c'.cached
    × (holds 2 c'.cached ≡ true)
dinode_write_lem_example =
    dinode_write_lem 1 (blank 2 ∷ []) sb two_blocks ready (7 ∷ 8 ∷ 9 ∷ []) 1022 3 ready-IsReady
      two_blocks-IsWhole two_blocks-IsApart away (omega arith) (omega arith) (omega arith)
      (omega arith)

two_blocks-IsInode : IsInode two_blocks
two_blocks-IsInode = record {
  halves = omega arith;
  sizes = omega arith;
  twelve = refl;
  words = omega arith;
}

dinode_alloc-dinode_flush_example :
    (c' : Cache) × (dinode_flush sb two_blocks ready ≡ some c')
    × (dinode_alloc (some blank_inode) sb 3 c' ≡ (some two_blocks, c'))
dinode_alloc-dinode_flush_example =
    dinode_alloc-dinode_flush 1 (blank 2 ∷ []) sb two_blocks blank_inode ready ready-IsReady
      (length-replicate {A = ℕ} bsize 2) two_blocks-IsInode (omega arith) (omega arith)
