-- ===== src/Kmem/Order.antt =====
-- The order of the free blocks of kernel/lib/phymem.c, and where `kfree` loses it.
use hsunix.Base.{ℕ, ◌+◌, ◌≡◌, List, [], ◌∷◌, arith, ◌≤◌, ◌<◌, ◌⊎◌, Bool-cases, ltb, inl, inr, refl}
use hsunix.Kmem.{Block, Nodes, Free, give, give_one, give_behind, join_next, join_prev, kfree}
use hsunix.Kmem.Give.{IsLive, object}

-- No block is empty and each ends below the start of the next: in order, and no two touch.
abbrev pub IsOrdered : List Block → Type 0
IsOrdered [] = Unit
IsOrdered (b ∷ []) = 0 < b.size
IsOrdered (b ∷ c ∷ r) = (0 < b.size) × (b.addr + b.size < c.addr) × IsOrdered (c ∷ r)

-- The block shares no byte with any of the list.
abbrev pub IsClear : Block → List Block → Type 0
IsClear o [] = Unit
IsClear o (b ∷ bs) = ((o.addr + o.size ≤ b.addr) ⊎ (b.addr + b.size ≤ o.addr)) × IsClear o bs

-- Where `kfree` finds the place of a block: one block at most, or the first one below it.
abbrev pub IsAbove : Block → List Block → Type 0
IsAbove o [] = Unit
IsAbove o (b ∷ []) = Unit
IsAbove o (b ∷ c ∷ r) = b.addr < o.addr

-- The start of the first block.
abbrev pub StartsAt : ℕ → List Block → Type 0
StartsAt a [] = ⊥
StartsAt a (b ∷ bs) = b.addr ≡ a

cons-IsOrdered :
    (c : Block) (a : ℕ) (bs : List Block)
    → 0 < c.size
    → c.addr + c.size < a
    → StartsAt a bs
    → IsOrdered bs
    → IsOrdered (c ∷ bs)
cons-IsOrdered c a [] p l h s = p
cons-IsOrdered c a (b ∷ bs) p l h s = (p, omega (arith, h, l), s)

-- The block o with what is behind it, as `join_next` leaves them.
join_next-IsOrdered :
    (o n : Block) (r : List Block) (m : Nodes)
    → 0 < o.size
    → o.addr < n.addr
    → IsOrdered (n ∷ r)
    → IsClear o (n ∷ r)
    → let (o', r', m') = join_next o (n ∷ r) m in
      (o'.addr ≡ o.addr) × (0 < o'.size) × IsOrdered (o' ∷ r')
unfolding join_next
join_next-IsOrdered o n [] m p l s q = ground arith
join_next-IsOrdered o n (d ∷ r) m p l s q = ground arith

join_prev-IsOrdered :
    (c o : Block) (r : List Block) (m : Nodes)
    → 0 < c.size
    → c.addr + c.size ≤ o.addr
    → IsOrdered (o ∷ r)
    → IsOrdered (join_prev c o r m).blocks × StartsAt c.addr (join_prev c o r m).blocks
unfolding join_prev
join_prev-IsOrdered c o [] m p l s = ground arith
join_prev-IsOrdered c o (n ∷ r) m p l s = ground arith

head_size : (c : Block) (r : List Block) → IsOrdered (c ∷ r) → 0 < c.size
head_size c [] s = s
head_size c (n ∷ r) s = s.0

give_behind-IsOrdered :
    (o c : Block) (r : List Block) (m : Nodes)
    → 0 < o.size
    → c.addr < o.addr
    → IsOrdered (c ∷ r)
    → IsClear o (c ∷ r)
    → IsOrdered (give_behind o c r m).blocks × StartsAt c.addr (give_behind o c r m).blocks
unfolding give_behind join_prev join_next
give_behind-IsOrdered o c [] m p l s q = join_prev-IsOrdered c o [] m s (ground arith) p
give_behind-IsOrdered o c (n ∷ r) m p l s q = elim (Bool-cases (ltb o.addr n.addr)) [
  | inl low ↦
      let (e, t, v) = join_next-IsOrdered o n r m p (ground arith) s.2 q.1 in
      rw low (join_prev-IsOrdered c _ _ _ s.0 (ground (arith, e)) v)
  | inr high ↦
      let above : n.addr < o.addr = ground (arith, head_size n r s.2) in
      let (v, t) = give_behind-IsOrdered o n r m p above s.2 q.1 in
      rw high (cons-IsOrdered c n.addr _ s.0 s.1 t v, refl)
]

give-IsOrdered :
    (o : Block) (bs : List Block) (m : Nodes)
    → 0 < o.size
    → IsAbove o bs
    → IsOrdered bs
    → IsClear o bs
    → IsOrdered (give o bs m).blocks
unfolding give give_one
give-IsOrdered o [] m p l s q = p
give-IsOrdered o (c ∷ []) m p l s q = ground arith
give-IsOrdered o (c ∷ n ∷ r) m p l s q = (give_behind-IsOrdered o c (n ∷ r) m p l s q).0

-- `kfree` of a live object keeps the free blocks in order, apart and fully merged, if they were, its
-- block shares no byte with a free one, and either there is at most one free block or the object
-- lies above the first.
pub kfree-IsOrdered :
    (obj : ℕ) (f : Free)
    → IsLive f obj
    → IsAbove (object obj f) f.blocks
    → IsClear (object obj f) f.blocks
    → IsOrdered f.blocks
    → IsOrdered (kfree obj f).blocks
unfolding kfree
kfree-IsOrdered obj f v a q s =
    ground (arith, v, give-IsOrdered (object obj f) f.blocks f.nodes (ground (arith, v)) a s q)

below :
    (o c n : Block) (r : List Block) (m : Nodes)
    → 0 < o.size
    → IsOrdered (c ∷ n ∷ r)
    → o.addr + o.size ≤ c.addr
    → (give o (c ∷ n ∷ r) m).blocks ≡ c ∷ o ∷ n ∷ r
unfolding give give_behind join_next join_prev
below o c n r m p s l = ground arith

-- With two free blocks or more, `kfree` of a live object that lies below them all puts its block
-- behind the first and merges it with none, not even with the first that it may touch: the blocks
-- are out of order.
pub kfree-below :
    (obj : ℕ) (f : Free) (c n : Block) (r : List Block)
    → IsLive f obj
    → f.blocks ≡ c ∷ n ∷ r
    → IsOrdered f.blocks
    → (object obj f).addr + (object obj f).size ≤ c.addr
    → ((kfree obj f).blocks ≡ c ∷ object obj f ∷ n ∷ r) × ¬ IsOrdered (kfree obj f).blocks
unfolding kfree
kfree-below obj f c n r v e s l =
    let o = object obj f in
    let placed : (kfree obj f).blocks ≡ c ∷ o ∷ n ∷ r =
      ground (arith, v, e, below o c n r f.nodes (ground (arith, v)) (rw e at s) l) in
    (placed, λ h. let bad : IsOrdered (c ∷ o ∷ n ∷ r) = rw placed at h in omega (arith, bad.1, l))
