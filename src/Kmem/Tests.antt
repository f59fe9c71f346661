-- ===== src/Kmem/Tests.antt =====
-- Runs of the claims on kernel/lib/phymem.c.
use hsunix.Base.{ℕ, ◌+◌, ◌≡◌, [], ◌∷◌, arith, refl, ◌≢◌, some, ◌-◌}
use hsunix.Kmem.{Free, Kmem, free_of, block, kfree, kalloc, given, mark, Nodes}
use hsunix.Kmem.Pages.{init_kmem, pg_round_up, phys_stop, init_kmem-bytes}
use hsunix.Kmem.Bytes.{free_bytes, inside, owned}
use hsunix.Kmem.Give.{kfree-owned}
use hsunix.Kmem.Take.{kalloc-Handed, Handed}
use hsunix.Kmem.Serve.{kalloc-serves}

abbrev no_nodes : Nodes
no_nodes a = record { magic = 0; blk_num = 0 }

-- Two free blocks around an object of 64 bytes at 8292.
abbrev around : Free
around = free_of (block 8192 100 ∷ block 8356 200 ∷ []) (mark 8292 64 no_nodes)

kfree-owned_example :
    owned (kfree 8316 around).blocks 8300 ≡ inside (block 8292 64) 8300 + owned around.blocks 8300
kfree-owned_example = kfree-owned 8316 around 8300 (ground arith, refl, ground arith)

abbrev one_page : Kmem
one_page = record { pages = 8192 ∷ []; free = free_of [] no_nodes }

kalloc-serves_example :
    (p : ℕ) × (k' : Kmem) × (kalloc 100 one_page ≡ given p k')
    × (p ≢ 0)
    × Handed 100 one_page p k'
    × (k'.pages ≡ [])
kalloc-serves_example =
    kalloc-serves 100 one_page 8192 [] (omega arith) (omega arith) tt refl (omega arith)

abbrev after_100 : Kmem
after_100 = record {
  pages = [];
  free = free_of (block 8316 3972 ∷ []) (mark 8192 124 (mark 8316 3972 (mark 8192 4096 no_nodes)));
}

run_100 : kalloc 100 one_page ≡ given 8216 after_100
unfolding kalloc kfree
run_100 = refl

kalloc-Handed_example : Handed 100 one_page 8216 after_100
kalloc-Handed_example =
    kalloc-Handed 100 one_page 8216 after_100 (omega arith) (omega arith) tt run_100

-- The same blocks, and an object that touches the first from below.
abbrev under : Free
under = record around { nodes = mark 8128 64 no_nodes }

init_kmem-bytes_example :
    (k : Kmem) × (init_kmem 0x80020010 no_nodes ≡ some k)
    × (free_bytes k 0x80021000
        ≡ inside (block (pg_round_up 0x80020010) (phys_stop - pg_round_up 0x80020010)) 0x80021000)
init_kmem-bytes_example = init_kmem-bytes 0x80020010 no_nodes 0x80021000 (omega arith) (omega arith)
