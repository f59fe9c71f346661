-- ===== src/Kmem/Bytes.antt =====
-- Which bytes the free blocks of kernel/lib/phymem.c own.
use hsunix.Base.{ℕ, ◌+◌, List, [], ◌∷◌, if◌then◌else◌, leb, ◌&&◌, ltb}
use hsunix.Kmem.{Block, block, Kmem, pg_size}

-- 1 if the byte x lies in the block, and the number of blocks in which it lies.
abbrev pub inside : Block → ℕ → ℕ
inside b x = if leb b.addr x && ltb x (b.addr + b.size) then 1 else 0

abbrev pub owned : List Block → ℕ → ℕ
owned [] x = 0
owned (b ∷ bs) x = inside b x + owned bs x

abbrev pub page_bytes : List ℕ → ℕ → ℕ
page_bytes [] x = 0
page_bytes (pa ∷ ps) x = inside (block pa pg_size) x + page_bytes ps x

-- How often x is free, in a block or in a page.
abbrev pub free_bytes : Kmem → ℕ → ℕ
free_bytes k x = owned k.free.blocks x + page_bytes k.pages x
