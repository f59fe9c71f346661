-- ===== src/CharDev/Tests.antt =====
-- Chains with two regions of the major number 3.
use hsunix.Base.{◌∷◌, if◌then◌else◌, true, arith, ◌==◌, [], ◌≡◌, inr, some, refl}
use hsunix.CharDev.Order.{Registered, IsSorted, Fits, insert_region_lem}
use hsunix.CharDev.{insert_region, Region, Chardevs, put_chain, register_chrdev_region}
use hsunix.CharDev.Pieces.{Returns, register_chrdev_region-ends}

abbrev low : Region
low = record { major = 3; baseminor = 0; minorct = 4; name = 7; cdev = 0 }

abbrev high : Region
high = record { major = 3; baseminor = 8; minorct = 4; name = 7; cdev = 0 }

abbrev two_regions : Chardevs
two_regions j = if 3 == j then low ∷ high ∷ [] else []

two_regions-IsSorted : IsSorted (low ∷ high ∷ [])
two_regions-IsSorted = ((inr (refl, omega arith), tt), (tt, tt))

two_regions-Fits : Fits (low ∷ high ∷ [])
two_regions-Fits = (omega arith, (omega arith, tt))

abbrev between : Region
between = record { major = 3; baseminor = 4; minorct = 9; name = 5; cdev = 0 }

insert_region_lem_example :
    Registered between (low ∷ high ∷ []) (insert_region between (low ∷ high ∷ []))
insert_region_lem_example =
    insert_region_lem between (low ∷ high ∷ []) two_regions-IsSorted two_regions-Fits

-- A region that reaches into the next one is taken.
overlap_taken : insert_region between (low ∷ high ∷ []) ≡ some (low ∷ between ∷ high ∷ [])
unfolding insert_region
overlap_taken = refl

abbrev three_regions : Chardevs
three_regions = put_chain 3 (low ∷ between ∷ high ∷ []) two_regions

register_chrdev_region-ends_example :
    Returns (register_chrdev_region 4 (λ n. true) 0x1ffffe 3 5 two_regions)
register_chrdev_region-ends_example =
    register_chrdev_region-ends (λ n. true) 0x1ffffe 3 5 two_regions (omega arith)

-- A region at the end of the 32-bit numbers: its computed end wraps, and one that begins below it is put
-- behind it.
abbrev wrapping : Region
wrapping = record { major = 3; baseminor = 0xfffffff0; minorct = 0x20; name = 7; cdev = 0 }

abbrev below : Region
below = record { major = 3; baseminor = 0x20; minorct = 4; name = 5; cdev = 0 }

wrapping_passed : insert_region below (wrapping ∷ []) ≡ some (wrapping ∷ below ∷ [])
unfolding insert_region
wrapping_passed = refl
