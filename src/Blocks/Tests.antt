-- ===== src/Blocks/Tests.antt =====
-- The bitmap at a concrete disk.
use hsunix.Base.{
  ℕ, ◌≡◌, arith, List, [], ◌∷◌, some, if◌then◌else◌, ◌==◌, replicate, length, refl, Bool-cases, inl,
  inr,
}
use hsunix.DiskCache.{Cache, blank, bsize}
use hsunix.Blocks.{Sb, dbmap_alloc, first_clear, bit_at}
use hsunix.DiskCache.Lent.{IsReady}
use hsunix.Blocks.Bitmap.{Granted, dbmap_alloc_lem, alloc_from-take, taken, search}

-- A disk of a hundred blocks, of which the first four are in use; its bitmap is block 1.
abbrev sb : Sb
sb = record { size = 100; ninodes = 16; inodestart = 2; bmapstart = 1 }

abbrev small_disk : ℕ → List ℕ
small_disk n = if n == 1 then 15 ∷ replicate 1023 0 else replicate 1024 0

abbrev ready : Cache
ready = record { idle = blank 1 ∷ blank 2 ∷ []; cached = []; disk = small_disk }

ready-IsReady : IsReady 1 (blank 2 ∷ []) ready
ready-IsReady = (tt, refl, refl)

small_disk-full : (n : ℕ) → length (small_disk n) ≡ bsize
small_disk-full n = elim (Bool-cases (n == 1)) [ inl e ↦ rw e refl | inr e ↦ rw e refl ]

dbmap_alloc_lem_example : Granted sb ready (dbmap_alloc sb ready)
dbmap_alloc_lem_example = dbmap_alloc_lem 1 (blank 2 ∷ []) sb ready ready-IsReady

found : search 1 (blank 2 ∷ []) sb ready ready-IsReady 0 ≡ some 4
unfolding first_clear bit_at
found = refl

granted : dbmap_alloc sb ready ≡ some (4, taken 1 (blank 2 ∷ []) sb ready ready-IsReady 4)
unfolding dbmap_alloc
granted = alloc_from-take 1 (blank 2 ∷ []) sb ready ready-IsReady 0 0 4 found (omega arith)

abbrev after : Cache
after = taken 1 (blank 2 ∷ []) sb ready ready-IsReady 4
