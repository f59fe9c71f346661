-- ===== src/Entries/Tests.antt =====
-- A directory of two entries at a concrete disk.
use hsunix.Base.{
  ℕ, List, ◌*◌, ◌∷◌, ◌++◌, replicate, [], ◌<◌, ◌≢◌, arith, refl, suc, ap, ◌+◌, length-replicate,
  zero,
}
use hsunix.Entries.Check.{CheckEnd, ddir_check_lem}
use hsunix.Blocks.{Sb, Inode}
use hsunix.Entries.{ddir_check}
use hsunix.DiskCache.{Cache, blank, bsize}
use hsunix.DiskCache.Lent.{IsReady}
use hsunix.Inodes.Content.{IsWhole}
use hsunix.Blocks.Lookup.{block_of}

abbrev sb : Sb
sb = record { size = 100; ninodes = 16; inodestart = 2; bmapstart = 1 }

-- "a" and "b", for the inodes 5 and 6.
abbrev entry_a : List ℕ
entry_a = 5 ∷ 0 ∷ 97 ∷ replicate 13 0

abbrev entry_b : List ℕ
entry_b = 6 ∷ 0 ∷ 98 ∷ replicate 13 0

abbrev directory : Inode
directory = record {
  kind = 1;
  major = 0;
  minor = 0;
  inum = 3;
  size = 32;
  addrs = 10 ∷ replicate 11 0;
  ex_addr = 0;
}

abbrev listed : ℕ → List ℕ
listed n = entry_a ++ (entry_b ++ replicate 992 0)

abbrev ready : Cache
ready = record { idle = blank 1 ∷ blank 2 ∷ []; cached = []; disk = listed }

ready-IsReady : IsReady 1 (blank 2 ∷ []) ready
ready-IsReady = (tt, refl, refl)

directory-IsWhole : IsWhole listed directory
directory-IsWhole = record {
  there = there;
  full = λ b. ap (λ k. 32 + k) (length-replicate {A = ℕ} 992 0);
}
  where
    there : (i : ℕ) → i * bsize < 32 → block_of listed directory i ≢ 0
    there zero h = ground arith
    there (suc i) h = absurd (omega (arith, h))

ddir_check_lem_example :
    CheckEnd ready directory
      (98 ∷ [])
      (ddir_check (replicate 16 9) sb directory (98 ∷ 0 ∷ []) ready)
ddir_check_lem_example =
    ddir_check_lem 1 (blank 2 ∷ []) sb directory ready (replicate 16 9) (98 ∷ []) [] ready-IsReady
      directory-IsWhole (ground arith) (omega arith) (omega arith) refl refl
