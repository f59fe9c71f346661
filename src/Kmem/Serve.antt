-- ===== src/Kmem/Serve.antt =====
-- When `kalloc` of kernel/lib/phymem.c has an object to give.
use hsunix.Base.{
  ℕ, ◌+◌, ◌≡◌, List, [], ◌∷◌, arith, some, none, ◌≤◌, Bool, leb, ltb, ◌<◌, true, false, ◌||◌, refl,
  Bool-cases, if◌then◌else◌, ◌-◌, inl, inr, ◌≢◌,
}
use hsunix.Kmem.Marks.{AllMarked}
use hsunix.Kmem.Take.{Handed, kalloc-Handed}
use hsunix.Kmem.{
  Block, block, Nodes, Free, Kmem, give, give_one, give_behind, join_next, join_prev, kfree,
  take_first, search_blocks, kalloc, given, node_size, pg_size, mark, length_blocks, header_taken,
  free_of, behind,
}

-- Some block has n bytes.
abbrev pub fits : ℕ → List Block → Bool
fits n [] = false
fits n (b ∷ bs) = leb n b.size || fits n bs

fits-join_prev :
    (n : ℕ) (c o : Block) (r : List Block) (m : Nodes)
    → n ≤ o.size
    → fits n (join_prev c o r m).blocks ≡ true
unfolding join_prev
fits-join_prev n c o r m h = ground arith

fits-join_next :
    (n : ℕ) (o : Block) (r : List Block) (m : Nodes) → n ≤ o.size → n ≤ (join_next o r m).0.size
unfolding join_next
fits-join_next n o [] m h = h
fits-join_next n o (d ∷ r) m h = ground arith

fits-give_behind :
    (n : ℕ) (o c : Block) (r : List Block) (m : Nodes)
    → n ≤ o.size
    → fits n (give_behind o c r m).blocks ≡ true
unfolding give_behind
fits-give_behind n o c [] m h = fits-join_prev n c o [] m h
fits-give_behind n o c (d ∷ r) m h = elim (Bool-cases (ltb o.addr d.addr)) [
  | inl low ↦ rw low (fits-join_prev n c _ _ _ (fits-join_next n o (d ∷ r) m h))
  | inr high ↦ rw high (ground (arith, fits-give_behind n o d r m h))
]

fits-give :
    (n : ℕ) (o : Block) (bs : List Block) (m : Nodes)
    → n ≤ o.size
    → fits n (give o bs m).blocks ≡ true
unfolding give give_one
fits-give n o [] m h = ground arith
fits-give n o (c ∷ []) m h = ground arith
fits-give n o (c ∷ d ∷ r) m h = fits-give_behind n o c (d ∷ r) m h

take_first-fits :
    (n : ℕ) (bs : List Block) (m : Nodes)
    → fits n bs ≡ true
    → (t : Block) × (f : Free) × (take_first n bs m ≡ some (t, f))
unfolding take_first
take_first-fits n [] m h = absurd (cc)
take_first-fits n (b ∷ bs) m h = elim (Bool-cases (leb n b.size)) [
  | inl large ↦ elim (Bool-cases (ltb b.size (n + node_size + 1))) [
    | inl whole ↦ (b, free_of bs m, rw (large, whole) refl)
    | inr cut ↦ (
      block b.addr n,
      free_of (block (b.addr + n) (b.size - n) ∷ bs)
          (mark b.addr n (mark (b.addr + n) (b.size - n) m)),
      rw (large, cut) refl,
    )
  ]
  | inr small ↦
      let (t, f, e) = take_first-fits n bs m (ground arith) in (t, behind b f, rw (small, e) refl)
]

take_first-misfit :
    (n : ℕ) (bs : List Block) (m : Nodes) → fits n bs ≡ false → take_first n bs m ≡ none
unfolding take_first
take_first-misfit n [] m h = refl
take_first-misfit n (b ∷ bs) m h = ground (arith, take_first-misfit n bs m)

search-fits :
    (n : ℕ) (ps : List ℕ) (f : Free)
    → fits n f.blocks ≡ true
    → (p : ℕ) × (f' : Free) × (search_blocks n ps f ≡ given p (record { pages = ps; free = f' }))
unfolding search_blocks
search-fits n [] f h =
    let (t, f', e) = take_first-fits n f.blocks f.nodes h in
    (t.addr + node_size, f', rw (e, search_blocks) refl)
search-fits n (pa ∷ ps) f h =
    let (t, f', e) = take_first-fits n f.blocks f.nodes h in
    (t.addr + node_size, f', rw (e, search_blocks) refl)

page-fits :
    (n pa : ℕ) (f : Free)
    → n ≤ pg_size
    → fits n (kfree (pa + node_size) (record f { nodes = mark pa pg_size f.nodes })).blocks ≡ true
unfolding kfree
page-fits n pa f h =
    let e : pa + 24 - 24 ≡ pa = omega arith in
    rw e (ground (arith, fits-give n (block pa pg_size) f.blocks (mark pa pg_size f.nodes) h))

kalloc-gives :
    (size : ℕ) (k : Kmem) (pa : ℕ) (ps : List ℕ)
    → 0 < size
    → size + node_size ≤ pg_size
    → k.pages ≡ pa ∷ ps
    → length_blocks k.free.blocks < size + node_size
    → (p : ℕ) × (f : Free) × (kalloc size k
        ≡ given p (record {
          pages = if fits (size + node_size) k.free.blocks then pa ∷ ps else ps;
          free = f;
        }))
unfolding kalloc
kalloc-gives size k pa ps h l e b = elim (Bool-cases (fits (size + node_size) k.free.blocks)) [
  | inl large ↦
      let (p, f, r) = search-fits (size + node_size) (pa ∷ ps) k.free large in
      (p, f, ground (arith, r, large))
  | inr none_fits ↦
      let (p, f, r) =
        search-fits (size + node_size) ps
          (kfree (pa + node_size) (record k.free { nodes = mark pa pg_size k.free.nodes }))
          (page-fits (size + node_size) pa k.free l) in
      (p, f, ground (arith, r, none_fits, take_first-misfit _ k.free.blocks k.free.nodes none_fits))
]

-- With a free page left and fewer free blocks than the bytes of the request and a node, and where the
-- node of each free block has the magic number and the size of the block, `kalloc` gives an object for
-- every size from 1 to a page less a node: it is no null pointer, but lies behind the node of a block
-- that was free with all its bytes, at least those asked for. It uses no page if some free block is
-- large enough and one page if none is.
pub kalloc-serves :
    (size : ℕ) (k : Kmem) (pa : ℕ) (ps : List ℕ)
    → 0 < size
    → size + node_size ≤ pg_size
    → AllMarked 0 k.free.blocks k.free.nodes
    → k.pages ≡ pa ∷ ps
    → length_blocks k.free.blocks < size + node_size
    → (p : ℕ) × (k' : Kmem) × (kalloc size k ≡ given p k')
      × (p ≢ 0)
      × Handed size k p k'
      × (k'.pages ≡ (if fits (size + node_size) k.free.blocks then pa ∷ ps else ps))
kalloc-serves size k pa ps h l a e b =
    let (p, f, run) = kalloc-gives size k pa ps h l e b in
    let k' : Kmem = record {
      pages = if fits (size + node_size) k.free.blocks then pa ∷ ps else ps;
      free = f;
    } in
    let handed = kalloc-Handed size k p k' h (omega (arith, l)) a run in
    (p, k', run, (λ z. omega (arith, z, handed.1)), handed, refl)

search-misfit :
    (n : ℕ) (ps : List ℕ) (f : Free)
    → fits n f.blocks ≡ false
    → n ≤ length_blocks f.blocks
    → search_blocks n ps f ≡ header_taken
unfolding search_blocks
search-misfit n [] f h b = ground (arith, take_first-misfit n f.blocks f.nodes h)
search-misfit n (pa ∷ ps) f h b = ground (arith, take_first-misfit n f.blocks f.nodes h)

-- If no block is large enough and there are as many free blocks as bytes are asked for with a node,
-- the search takes the header of the list for a block.
pub kalloc-takes_header :
    (size : ℕ) (k : Kmem)
    → 0 < size
    → size < pg_size
    → fits (size + node_size) k.free.blocks ≡ false
    → size + node_size ≤ length_blocks k.free.blocks
    → kalloc size k ≡ header_taken
unfolding kalloc
kalloc-takes_header size k h l n b =
    ground (arith, search-misfit (size + node_size) k.pages k.free n b)
