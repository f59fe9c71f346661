-- ===== src/DiskPaths/Tests.antt =====
-- Paths on a concrete root directory.
use hsunix.Base.{
  ◌≢◌, ℕ, List, replicate, true, ◌∷◌, none, some, [], arith, ◌≡◌, ap, length, length-replicate,
  refl,
}
use hsunix.Blocks.{Inode, Sb}
use hsunix.DiskPaths.{
  Disk, Room, walk_rounds, walk_from, unfinished, dsb_put, disk_path_getfirst, at_root, dsb_get,
}
use hsunix.DiskCache.{Cache, blank}
use hsunix.DiskCache.Lent.{IsReady}
use hsunix.PathName.Scan.{IsName}
use hsunix.DiskPaths.Rounds.{walk_rounds-enough}
use hsunix.PathName.{text_of}
use hsunix.DiskPaths.Names.{disk_path_getfirst_lem}
use hsunix.DiskPaths.SuperBlock.{dsb_get-dsb_put}

abbrev sb : Sb
sb = record { size = 100; ninodes = 16; inodestart = 2; bmapstart = 1 }

abbrev root_dir : Inode
root_dir = record {
  kind = 1;
  major = 0;
  minor = 0;
  inum = 1;
  size = 0;
  addrs = replicate 12 0;
  ex_addr = 0;
}

abbrev zeros : Cache
zeros = record { idle = blank 1 ∷ blank 2 ∷ []; cached = []; disk = λ n. replicate 1024 0 }

zeros-IsReady : IsReady 1 (blank 2 ∷ []) zeros
zeros-IsReady = (tt, refl, refl)

abbrev mounted : Disk
mounted = record { root = root_dir; cache = zeros }

abbrev no_room : ℕ → Room
no_room i = record { entry_room = none; node = none; raw = replicate 16 0 }

ab-IsName : IsName (97 ∷ 98 ∷ [])
ab-IsName = record {
  nonempty = λ e. (omega (arith, ap length e));
  no_slash = (omega arith, (omega arith, tt));
  no_zero = (omega arith, (omega arith, tt));
}

-- A buffer for a name that holds sevens.
abbrev sevens : List ℕ
sevens = replicate 16 7

disk_path_getfirst_lem_example :
    (name : List ℕ) × (disk_path_getfirst (47 ∷ 97 ∷ 98 ∷ 47 ∷ 47 ∷ 99 ∷ 0 ∷ []) sevens
      ≡ some (some (99 ∷ 0 ∷ []), name))
    × (text_of name ≡ 97 ∷ 98 ∷ [])
disk_path_getfirst_lem_example =
    disk_path_getfirst_lem 1 1 (97 ∷ 98 ∷ []) (99 ∷ 0 ∷ []) sevens ab-IsName
      (λ e. (omega (arith, e))) (omega arith)

walk_rounds-enough_example :
    (walk_rounds 6 true no_room 0 sb at_root none (47 ∷ 97 ∷ 47 ∷ 98 ∷ 0 ∷ []) sevens mounted
      ≢ unfinished)
    × (walk_rounds 6 true no_room 0 sb at_root none (47 ∷ 97 ∷ 47 ∷ 98 ∷ 0 ∷ []) sevens mounted
        ≡ walk_rounds 9 true no_room 0 sb at_root none (47 ∷ 97 ∷ 47 ∷ 98 ∷ 0 ∷ []) sevens mounted)
    × (walk_from true no_room sb (47 ∷ 97 ∷ 47 ∷ 98 ∷ 0 ∷ []) sevens mounted ≢ unfinished)
walk_rounds-enough_example =
    walk_rounds-enough true no_room sb 6 9 0 at_root none (47 ∷ 97 ∷ 47 ∷ 98 ∷ 0 ∷ []) sevens
      mounted (omega arith) (omega arith)

abbrev eight_words : List ℕ
eight_words = 0x10203040 ∷ 1000 ∷ 954 ∷ 200 ∷ 30 ∷ 2 ∷ 32 ∷ 45 ∷ []

dsb_get-dsb_put_example :
    (c' : Cache) × (dsb_put (some eight_words) zeros ≡ some c')
    × (dsb_get (some []) none c' ≡ (some eight_words, some eight_words, c'))
dsb_get-dsb_put_example =
    dsb_get-dsb_put 1 (blank 2 ∷ []) eight_words [] zeros zeros-IsReady
      (length-replicate {A = ℕ} 1024 0) refl
      (
        omega arith,
        (
          omega arith,
          (
            omega arith,
            (omega arith, (omega arith, (omega arith, (omega arith, (omega arith, tt))))),
          ),
        ),
      )
