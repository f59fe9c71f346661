-- ===== src/DiskFiles/Tests.antt =====
-- An open file of 20 bytes on a concrete disk.
use hsunix.Base.{
  ℕ, List, ◌*◌, ◌≡◌, ◌∷◌, [], some, replicate, ◌<◌, arith, ◌≢◌, suc, refl, ap, ◌+◌,
  length-replicate, zero,
}
use hsunix.Blocks.{Inode, Sb}
use hsunix.DiskFiles.{dfs_write, dfs_read, DfsFile, live, own, negsuc, pos}
use hsunix.Inodes.Content.{IsWhole}
use hsunix.DiskPaths.{Disk, own}
use hsunix.DiskCache.Lent.{IsReady}
use hsunix.DiskCache.{blank, bsize}
use hsunix.Base.Int.{negsuc, pos}
use hsunix.DiskFiles.Reads.{dfs_write-rewinds, dfs_read_lem}
use hsunix.Blocks.Lookup.{block_of}

abbrev sb : Sb
sb = record { size = 100; ninodes = 16; inodestart = 2; bmapstart = 1 }

abbrev data_node : Inode
data_node = record {
  kind = 2;
  major = 0;
  minor = 0;
  inum = 3;
  size = 20;
  addrs = 10 ∷ replicate 11 0;
  ex_addr = 0;
}

abbrev bytes_on_disk : ℕ → List ℕ
bytes_on_disk b = 5 ∷ 6 ∷ 7 ∷ replicate 1021 0

abbrev mounted : Disk
mounted = record {
  root = data_node;
  cache = record { idle = blank 1 ∷ blank 2 ∷ []; cached = []; disk = bytes_on_disk };
}

abbrev open_at : ℕ → DfsFile
open_at off = record {
  magic = 0xfe5a;
  off = off;
  inode = record { kind = 2; flags = 2; mode = 0x700; size = 20; target = live (own data_node) };
}

mounted-IsReady : IsReady 1 (blank 2 ∷ []) mounted.cache
mounted-IsReady = (tt, refl, refl)

data_node-IsWhole : IsWhole bytes_on_disk data_node
data_node-IsWhole = record {
  there = there;
  full = λ b. ap (λ k. 3 + k) (length-replicate {A = ℕ} 1021 0);
}
  where
    there : (i : ℕ) → i * bsize < 20 → block_of bytes_on_disk data_node i ≢ 0
    there zero h = ground arith
    there (suc i) h = absurd (omega (arith, h))

dfs_read_lem_example :
    dfs_read sb (open_at 1) 2 mounted ≡ some (pos 2, 6 ∷ 7 ∷ [], open_at 3, mounted)
dfs_read_lem_example =
    dfs_read_lem sb data_node (open_at 1) mounted refl 1 (blank 2 ∷ []) 2 mounted-IsReady
      data_node-IsWhole (omega arith) (omega arith) (omega arith) (omega arith)

dfs_write-rewinds_example :
    dfs_write sb (open_at 30) (1 ∷ 2 ∷ []) mounted ≡ some (negsuc 0, open_at 29, mounted)
dfs_write-rewinds_example =
    dfs_write-rewinds sb data_node (open_at 30) mounted 1 (2 ∷ []) refl (omega arith) (omega arith)
