-- ===== src/Kmem/Give.antt =====
-- `kfree` of kernel/lib/phymem.c gives back exactly the bytes of the object, whatever it merges.
use hsunix.Base.{ℕ, ◌+◌, ◌≡◌, List, [], ◌∷◌, arith, refl, ◌-◌, ◌⊎◌, ◌≢◌, Bool-cases, ltb, inl, inr}
use hsunix.Kmem.{
  Block, block, Nodes, give_one, join_next, join_prev, give_behind, give, Free, kfree, node_size,
  ksmn_magic,
}
use hsunix.Kmem.Bytes.{inside, owned}

-- Two blocks that touch own together what the merged block owns.
pub inside-join :
    (a s t x : ℕ) → inside (block a (s + t)) x ≡ inside (block a s) x + inside (block (a + s) t) x
inside-join a s t x = ground arith

owned-give_one :
    (o c : Block) (m : Nodes) (x : ℕ) → owned (give_one o c m).blocks x ≡ inside o x + inside c x
unfolding give_one
owned-give_one o c m x =
    ground (arith, inside-join o.addr o.size c.size x, inside-join c.addr c.size o.size x)

owned-join_next :
    (o : Block) (r : List Block) (m : Nodes) (x : ℕ)
    → inside (join_next o r m).0 x + owned (join_next o r m).1 x ≡ inside o x + owned r x
unfolding join_next
owned-join_next o [] m x = refl
owned-join_next o (n ∷ r) m x = ground (arith, inside-join o.addr o.size n.size x)

owned-join_prev :
    (c o : Block) (r : List Block) (m : Nodes) (x : ℕ)
    → owned (join_prev c o r m).blocks x ≡ inside c x + (inside o x + owned r x)
unfolding join_prev
owned-join_prev c o r m x = ground (arith, inside-join c.addr c.size o.size x)

owned-give_behind :
    (o c : Block) (r : List Block) (m : Nodes) (x : ℕ)
    → owned (give_behind o c r m).blocks x ≡ inside o x + (inside c x + owned r x)
unfolding give_behind
owned-give_behind o c [] m x = omega (arith, owned-join_prev c o [] m x)
owned-give_behind o c (n ∷ r) m x = elim (Bool-cases (ltb o.addr n.addr)) [
  | inl low ↦ rw low (
      omega (
        arith,
        owned-join_next o (n ∷ r) m x,
        owned-join_prev c (join_next o (n ∷ r) m).0 (join_next o (n ∷ r) m).1
            (join_next o (n ∷ r) m).2 x,
      ))
  | inr high ↦ rw high (omega (arith, owned-give_behind o n r m x))
]

pub owned-give :
    (o : Block) (bs : List Block) (m : Nodes) (x : ℕ)
    → owned (give o bs m).blocks x ≡ inside o x + owned bs x
unfolding give
owned-give o [] m x = refl
owned-give o (c ∷ []) m x = omega (arith, owned-give_one o c m x)
owned-give o (c ∷ n ∷ r) m x = owned-give_behind o c (n ∷ r) m x

-- An object that `kfree` accepts: a live node with some size stands in front of it.
abbrev pub IsLive : Free → ℕ → Type 0
IsLive f obj =
    (obj ≢ 0)
    × ((f.nodes (obj - node_size)).magic ≡ ksmn_magic)
    × ((f.nodes (obj - node_size)).blk_num ≢ 0)

-- Its block, as the node in front of it says.
abbrev pub object : ℕ → Free → Block
object obj f = block (obj - node_size) (f.nodes (obj - node_size)).blk_num

-- `kfree` of a live object makes free exactly the bytes of its block, once more each, and leaves
-- every other byte as free as it was, on every path of insertion and merging.
pub kfree-owned :
    (obj : ℕ) (f : Free) (x : ℕ)
    → IsLive f obj
    → owned (kfree obj f).blocks x ≡ inside (object obj f) x + owned f.blocks x
unfolding kfree
kfree-owned obj f x h = ground (arith, h, owned-give (object obj f) f.blocks f.nodes x)

-- A null pointer, and an object whose node has another magic number or no size, change nothing.
pub kfree-refuses :
    (obj : ℕ) (f : Free)
    → (obj ≡ 0)
      ⊎ ((f.nodes (obj - node_size)).magic ≢ ksmn_magic)
      ⊎ ((f.nodes (obj - node_size)).blk_num ≡ 0)
    → kfree obj f ≡ f
unfolding kfree
kfree-refuses obj f h = ground arith
