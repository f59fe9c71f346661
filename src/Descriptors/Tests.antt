-- ===== src/Descriptors/Tests.antt =====
-- Runs of the claims on kernel/fs/virtual_fs/fs_fd.c.
use hsunix.Base.{◌≡◌, [], ◌∷◌, arith, some, false, refl}
use hsunix.Base.Int.{pos}
use hsunix.Descriptors.{Table, Files, fd_alloc, fd_get, fd_free, file_free, file_magic}
use hsunix.Descriptors.Slots.{fd_alloc-lowest}

abbrev files : Files
files q = record { magic = file_magic; ref = 0 }

abbrev table : Table
table = record { tab = 700 ∷ 0 ∷ 720 ∷ 0 ∷ []; cnt = 4 }

abbrev full_table : Table
full_table = record { tab = 700 ∷ 710 ∷ 720 ∷ 730 ∷ []; cnt = 4 }

fd_alloc-lowest_example :
    ((fd_alloc false 990 table).fd ≡ pos 1)
    × ((fd_alloc false 990 table).table.tab ≡ 700 ∷ 990 ∷ 720 ∷ 0 ∷ [])
    × (fd_get (fd_alloc false 990 table).fd (fd_alloc false 990 table).table ≡ some 990)
    × (fd_free (fd_alloc false 990 table).fd (fd_alloc false 990 table).table files
        ≡ some (table, file_free 990 files))
fd_alloc-lowest_example =
    fd_alloc-lowest false 990 table files (700 ∷ []) (720 ∷ 0 ∷ []) refl refl (ground arith)
