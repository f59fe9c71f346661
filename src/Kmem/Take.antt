-- ===== src/Kmem/Take.antt =====
-- `kalloc` of kernel/lib/phymem.c: what it hands out was free, and when it hands out something.
use hsunix.Base.{
  ℕ, ◌+◌, ◌≡◌, List, [], ◌∷◌, arith, some, ◌-◌, ◌≤◌, Option, Bool-cases, leb, inl, none, ltb, refl,
  inr, ◌⊎◌, ◌<◌, ap, sym, ◌∙◌,
}
use hsunix.Kmem.{
  Block, block, Nodes, Free, Kmem, give, kfree, take_first, search_blocks, kalloc, given, node_size,
  pg_size, mark, pass, length_blocks,
}
use hsunix.Kmem.Bytes.{inside, owned, free_bytes}
use hsunix.Kmem.Give.{owned-give, inside-join}
use hsunix.Kmem.Marks.{
  IsMarked, AllMarked, AllSmall, AllMarked-weaken, take_first-AllSmall, give-AllMarked,
}

-- A block of at least n bytes, at most a node more, is taken out of the free blocks, and its node says
-- how many bytes it has.
Taken : ℕ → List Block → Block → Free → Type 0
Taken n bs t f =
    (n ≤ t.size)
    × (t.size ≤ n + node_size)
    × ((x : ℕ) → owned bs x ≡ inside t x + owned f.blocks x)
    × IsMarked f.nodes t

pass-Taken :
    (n : ℕ) (b : Block) (bs : List Block) (o : Option (Block × Free)) (t : Block) (f : Free)
    → ((t' : Block) (f' : Free) → o ≡ some (t', f') → Taken n bs t' f')
    → pass b o ≡ some (t, f)
    → Taken n (b ∷ bs) t f
unfolding Taken
pass-Taken n b bs none t f h e = absurd (cc)
pass-Taken n b bs (some (t', f')) t f h e =
    let (l, u, w, m) = h t' f' refl in
    (ground (arith, e, l), ground (arith, e, u), λ x. ground (arith, e, w x), ground (arith, e, m))

take_first-Taken :
    (n : ℕ) (bs : List Block) (m : Nodes) (t : Block) (f : Free)
    → AllMarked n bs m
    → take_first n bs m ≡ some (t, f)
    → Taken n bs t f
unfolding take_first Taken
take_first-Taken n [] m t f a e = absurd (cc)
take_first-Taken n (b ∷ bs) m t f a e = elim (Bool-cases (leb n b.size)) [
  | inl fits ↦ elim (Bool-cases (ltb b.size (n + node_size + 1))) [
    | inl whole ↦
        let marked = a.0 (ground (arith, fits)) in
        (
          ground (arith, e, fits, whole),
          ground (arith, e, fits, whole),
          λ x. ground (arith, e, fits, whole),
          ground (arith, e, fits, whole, marked),
        )
    | inr cut ↦ (
      ground (arith, e, fits, cut),
      ground (arith, e, fits, cut),
      λ x. ground (arith, e, fits, cut, inside-join b.addr n (b.size - n) x),
      ground (arith, e, fits, cut),
    )
  ]
  | inr small ↦
      pass-Taken n b bs (take_first n bs m) t f (λ t' f' r. take_first-Taken n bs m t' f' a.1 r)
        (rw small at e)
]

-- `kfree` of a page that has just been given a node.
pub page-kfree :
    (pa : ℕ) (f : Free)
    → kfree (pa + node_size) (record f { nodes = mark pa pg_size f.nodes })
      ≡ give (block pa pg_size) f.blocks (mark pa pg_size f.nodes)
unfolding kfree
page-kfree pa f = let e : pa + 24 - 24 ≡ pa = omega arith in rw e (ground arith)

-- What a successful call hands out: one block t, at whose node the object begins, which was free with
-- all its bytes and whose node says its size, as `kfree` reads it.
abbrev pub Handed : ℕ → Kmem → ℕ → Kmem → Type 0
Handed size k p k' =
    (t : Block) × (p ≡ t.addr + node_size)
    × (size + node_size ≤ t.size)
    × (t.size ≤ size + node_size + node_size)
    × ((x : ℕ) → free_bytes k x ≡ inside t x + free_bytes k' x)
    × IsMarked k'.free.nodes t

take-cases :
    (o : Option (Block × Free)) → (o ≡ none) ⊎ ((t : Block) × (f : Free) × (o ≡ some (t, f)))
take-cases none = inl refl
take-cases (some (t, f)) = inr (t, f, refl)

-- A call that ends with a block taken from the free ones.
found-Handed :
    (size : ℕ) (ps : List ℕ) (f : Free) (t : Block) (f' : Free) (p : ℕ) (k' : Kmem)
    → AllMarked (size + node_size) f.blocks f.nodes
    → take_first (size + node_size) f.blocks f.nodes ≡ some (t, f')
    → given (t.addr + node_size) (record { pages = ps; free = f' }) ≡ given p k'
    → Handed size (record { pages = ps; free = f }) p k'
unfolding Taken
found-Handed size ps f t f' p k' a r e =
    let h = take_first-Taken (size + node_size) f.blocks f.nodes t f' a r in
    (t, ground arith, h.0, h.1, λ x. ground (arith, h.2 x, e), ground (arith, e, h.3))

-- A page that becomes a block is as free as it was.
page-Handed :
    (size pa : ℕ) (ps : List ℕ) (f : Free) (p : ℕ) (k' : Kmem)
    → Handed size
        (record { pages = ps; free = give (block pa pg_size) f.blocks (mark pa pg_size f.nodes) })
        p
        k'
    → Handed size (record { pages = pa ∷ ps; free = f }) p k'
page-Handed size pa ps f p k' (t, a, b, c, d, m) = (
  t,
  a,
  b,
  c,
  λ x. ground (arith, d x, owned-give (block pa pg_size) f.blocks (mark pa pg_size f.nodes) x),
  m,
)

-- The blocks after a page is given back, where all were too small before.
page-AllMarked :
    (n pa : ℕ) (f : Free)
    → AllSmall n f.blocks
    → AllMarked n
        (give (block pa pg_size) f.blocks (mark pa pg_size f.nodes)).blocks
        (give (block pa pg_size) f.blocks (mark pa pg_size f.nodes)).nodes
page-AllMarked n pa f h =
    give-AllMarked n (block pa pg_size) f.blocks (mark pa pg_size f.nodes) h (ground arith)

search_blocks-Handed :
    (size : ℕ) (ps : List ℕ) (f : Free) (p : ℕ) (k' : Kmem)
    → AllMarked (size + node_size) f.blocks f.nodes
    → search_blocks (size + node_size) ps f ≡ given p k'
    → Handed size (record { pages = ps; free = f }) p k'
unfolding search_blocks
search_blocks-Handed size [] f p k' a e =
    elim (take-cases (take_first (size + node_size) f.blocks f.nodes)) [
      | inl r ↦ absurd (ground (arith, r))
      | inr (t, f', r) ↦ found-Handed size [] f t f' p k' a r (rw (r, search_blocks) at e)
    ]
search_blocks-Handed size (pa ∷ ps) f p k' a e =
    elim (take-cases (take_first (size + node_size) f.blocks f.nodes)) [
      | inl r ↦ elim (Bool-cases (leb (size + node_size) (length_blocks f.blocks))) [
        | inl bad ↦ absurd (ground (arith, r, bad))
        | inr fine ↦ page-Handed size pa ps f p k' (
            search_blocks-Handed size ps
              (give (block pa pg_size) f.blocks (mark pa pg_size f.nodes)) p k'
              (page-AllMarked (size + node_size) pa f
                (take_first-AllSmall (size + node_size) f.blocks f.nodes r))
              (ap (search_blocks (size + node_size) ps) (sym (page-kfree pa f))
                ∙ rw (r, fine, search_blocks) at e))
      ]
      | inr (t, f', r) ↦ found-Handed size (pa ∷ ps) f t f' p k' a r (rw (r, search_blocks) at e)
    ]

-- A successful `kalloc` of a request within bounds, where the node of each free block has the magic
-- number and the size of the block, hands out an object behind the node of one block of at least the
-- bytes asked for and a node, and at most a node more; the free bytes of blocks and pages are those of
-- before less all bytes of that block; and its node has the magic number and its size, which `kfree`
-- will read.
pub kalloc-Handed :
    (size : ℕ) (k : Kmem) (p : ℕ) (k' : Kmem)
    → 0 < size
    → size < pg_size
    → AllMarked 0 k.free.blocks k.free.nodes
    → kalloc size k ≡ given p k'
    → Handed size k p k'
unfolding kalloc
kalloc-Handed size k p k' h l a e =
    search_blocks-Handed size k.pages k.free p k'
      (AllMarked-weaken (size + node_size) k.free.blocks k.free.nodes a) (ground (arith, e))
