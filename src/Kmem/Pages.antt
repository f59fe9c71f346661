-- ===== src/Kmem/Pages.antt =====
-- The free pages of kernel/lib/phymem.c: `alloc_page`, `free_page` and the start of the memory.
-- `end` is the end of the kernel image, a symbol of the linker. (What the routines write into a free
-- page besides its place in the list is never read.)
use hsunix.Base.{
  ℕ, zero, suc, ◌+◌, ◌-◌, ◌*◌, ◌/◌, ◌%◌, ◌≡◌, ◌≤◌, ◌<◌, arith, List, [], ◌∷◌, Option, none, some,
  ltb, leb, ◌==◌, ◌||◌, not, if◌then◌else◌, refl, false, Bool-cases, inl, inr,
}
use hsunix.Kmem.{block, Nodes, free_of, Kmem, mark, kfree, node_size, pg_size}
use hsunix.Kmem.Bytes.{inside, page_bytes, free_bytes}
use hsunix.Kmem.Take.{page-kfree}
use hsunix.Kmem.Give.{owned-give}

-- `PHYSTOP`
abbrev pub phys_stop : ℕ
phys_stop = 0x88000000

-- `alloc_page`: a page, or null.
pub alloc_page : List ℕ → ℕ × List ℕ
alloc_page [] = (0, [])
alloc_page (pa ∷ ps) = (pa, ps)

-- `free_page`
unfoldable pub free_page : ℕ → ℕ → List ℕ → List ℕ
free_page end pa ps =
    if not (pa % pg_size == 0) || ltb phys_stop pa || ltb pa end then ps else pa ∷ ps

-- `PGROUNDUP`
abbrev pub pg_round_up : ℕ → ℕ
pg_round_up sz = (sz + (pg_size - 1)) / pg_size * pg_size

-- The loop of `phyPageFormat`, on fuel.
pub format_from : ℕ → ℕ → ℕ → ℕ → List ℕ → Option (List ℕ)
unfolding free_page
format_from zero end pa pa_end ps = none
format_from (suc f) end pa pa_end ps =
    let rest = format_from f end (pa + pg_size) pa_end (free_page end pa ps) in
    if leb (pa + pg_size) pa_end then rest else some ps

-- `phyPageFormat`: one round for each page, and one more.
pub phy_page_format : ℕ → ℕ → ℕ → Option (List ℕ)
unfolding format_from
phy_page_format end pa_start pa_end =
    if pa_start == 0 || pa_end == 0
    then some []
    else format_from (suc ((pa_end - pg_round_up pa_start) / pg_size)) end (pg_round_up pa_start)
        pa_end []

-- `smallMemFormat`, for what is in memory.
pub small_mem_format : Nodes → List ℕ → Kmem
small_mem_format m [] = record { pages = []; free = free_of [] m }
small_mem_format m (pa ∷ ps) = record {
  pages = ps;
  free = kfree (pa + node_size) (free_of [] (mark pa pg_size m));
}

-- `init_kmem`
pub init_kmem : ℕ → Nodes → Option Kmem
unfolding phy_page_format small_mem_format
init_kmem end m = elim (phy_page_format end end phys_stop) [
  | none ↦ none
  | some ps ↦ some (small_mem_format m ps)
]

-- What `alloc_page` gives can be given back: a page of the memory behind the image returns to the
-- front of the list, so that the same page is given next.
pub free_page-alloc_page :
    (end pa : ℕ) (ps : List ℕ)
    → pa % pg_size ≡ 0
    → end ≤ pa
    → pa ≤ phys_stop
    → free_page end (alloc_page (pa ∷ ps)).0 (alloc_page (pa ∷ ps)).1 ≡ pa ∷ ps
unfolding alloc_page free_page
free_page-alloc_page end pa ps h l b = ground (arith, h)

-- A page that ends in the memory goes to the front of the list.
free_page-keeps :
    (end pa : ℕ) (ps : List ℕ)
    → pa % pg_size ≡ 0
    → end ≤ pa
    → pa + pg_size ≤ phys_stop
    → free_page end pa ps ≡ pa ∷ ps
unfolding free_page
free_page-keeps end pa ps h l b = ground (arith, h)

no_page_left :
    (pa pa_end : ℕ)
    → pa % pg_size ≡ 0
    → pa_end % pg_size ≡ 0
    → pa ≤ pa_end
    → pa_end < pa + pg_size
    → pa ≡ pa_end
no_page_left pa pa_end h i l g = omega (arith, h, i, l, g)

format_from-bytes :
    (f end pa pa_end : ℕ) (ps : List ℕ) (x : ℕ)
    → pa % pg_size ≡ 0
    → pa_end % pg_size ≡ 0
    → end ≤ pa
    → pa ≤ pa_end
    → pa_end ≤ phys_stop
    → pa_end ≤ pa + f * pg_size
    → (ps' : List ℕ) × (format_from (suc f) end pa pa_end ps ≡ some ps')
      × (page_bytes ps' x ≡ inside (block pa (pa_end - pa)) x + page_bytes ps x)
unfolding format_from
format_from-bytes zero end pa pa_end ps x h i e l b g =
    let same : pa ≡ pa_end = omega (arith, l, g) in
    let last : leb (pa + pg_size) pa_end ≡ false = ground (arith, same) in
    (ps, rw last refl, ground (arith, same))
format_from-bytes (suc f) end pa pa_end ps x h i e l b g =
    elim (Bool-cases (leb (pa + pg_size) pa_end)) [
      | inl more ↦
          let room : pa + pg_size ≤ pa_end = ground (arith, more) in
          let (ps', r, q) =
            format_from-bytes f end (pa + pg_size) pa_end (free_page end pa ps) x (omega (arith, h))
              i (omega (arith, e)) room b (omega (arith, g)) in
          let kept : free_page end pa ps ≡ pa ∷ ps =
            free_page-keeps end pa ps h e (omega (arith, room, b)) in
          let joined : inside (block pa (pa_end - pa)) x
              ≡ inside (block pa pg_size) x
                + inside (block (pa + pg_size) (pa_end - (pa + pg_size))) x =
            ground (arith, room) in
          (ps', rw more r, ground (arith, q, kept, joined))
      | inr last ↦
          let same : pa ≡ pa_end = no_page_left pa pa_end h i l (ground (arith, last)) in
          (ps, rw last refl, ground (arith, same))
    ]

pg_round_up-bounds :
    (sz : ℕ)
    → (pg_round_up sz % pg_size ≡ 0) × (sz ≤ pg_round_up sz) × (pg_round_up sz < sz + pg_size)
pg_round_up-bounds sz = (omega arith, omega arith, omega arith)

small_mem_format-bytes :
    (m : Nodes) (ps : List ℕ) (x : ℕ) → free_bytes (small_mem_format m ps) x ≡ page_bytes ps x
unfolding small_mem_format
small_mem_format-bytes m [] x = refl
small_mem_format-bytes m (pa ∷ ps) x =
    ground
      (arith, page-kfree pa (free_of [] m), owned-give (block pa pg_size) [] (mark pa pg_size m) x)

-- `init_kmem` always comes back, whatever is in memory; then every byte from the first page boundary
-- behind the kernel image to the end of the memory is free exactly once, and no other byte is.
pub init_kmem-bytes :
    (end : ℕ) (m : Nodes) (x : ℕ)
    → 0 < end
    → pg_round_up end ≤ phys_stop
    → (k : Kmem) × (init_kmem end m ≡ some k)
      × (free_bytes k x ≡ inside (block (pg_round_up end) (phys_stop - pg_round_up end)) x)
unfolding init_kmem phy_page_format
init_kmem-bytes end m x h b =
    let pa : ℕ = pg_round_up end in
    let n : ℕ = (phys_stop - pa) / pg_size in
    let (aligned, above, near) = pg_round_up-bounds end in
    let (ps, r, q) =
      format_from-bytes n end pa phys_stop [] x aligned (omega arith) above b (omega arith)
        (omega (arith, aligned, b)) in
    (small_mem_format m ps, ground (arith, r), ground (arith, q, small_mem_format-bytes m ps x))
