-- ===== src/Kmem/Marks.antt =====
-- The nodes of the free blocks of kernel/lib/phymem.c: each large one says its size.
use hsunix.Base.{
  ◌==◌, ℕ, ◌+◌, ◌≡◌, List, [], ◌∷◌, arith, some, ◌≤◌, Option, Bool-cases, leb, inl, none, ltb, refl,
  inr, ◌<◌,
}
use hsunix.Kmem.{
  give_one, give_behind, join_next, join_prev, ksmn_magic, Block, Nodes, Free, give, take_first,
  node_size, pass,
}

-- The node at a place says that a block of so many bytes stands there.
abbrev pub IsMarked : Nodes → Block → Type 0
IsMarked m b = ((m b.addr).magic ≡ ksmn_magic) × ((m b.addr).blk_num ≡ b.size)

-- So says the node of each free block that has n bytes at least.
abbrev pub AllMarked : ℕ → List Block → Nodes → Type 0
AllMarked n [] m = Unit
AllMarked n (b ∷ bs) m = (n ≤ b.size → IsMarked m b) × AllMarked n bs m

abbrev pub AllSmall : ℕ → List Block → Type 0
AllSmall n [] = Unit
AllSmall n (b ∷ bs) = (b.size < n) × AllSmall n bs

AllSmall-AllMarked : (n : ℕ) (bs : List Block) (m : Nodes) → AllSmall n bs → AllMarked n bs m
AllSmall-AllMarked n [] m h = tt
AllSmall-AllMarked n (b ∷ bs) m h =
    ((λ l. absurd (omega (arith, l, h.0))), AllSmall-AllMarked n bs m h.1)

pub AllMarked-weaken : (n : ℕ) (bs : List Block) (m : Nodes) → AllMarked 0 bs m → AllMarked n bs m
AllMarked-weaken n [] m h = tt
AllMarked-weaken n (b ∷ bs) m h = ((λ l. h.0 (omega arith)), AllMarked-weaken n bs m h.1)

passed_none : (b : Block) (o : Option (Block × Free)) → pass b o ≡ none → o ≡ none
passed_none b none e = refl
passed_none b (some (t, f)) e = cc

-- Where nothing is taken every block is too small.
pub take_first-AllSmall :
    (n : ℕ) (bs : List Block) (m : Nodes) → take_first n bs m ≡ none → AllSmall n bs
unfolding take_first
take_first-AllSmall n [] m e = tt
take_first-AllSmall n (b ∷ bs) m e = elim (Bool-cases (leb n b.size)) [
  | inl fits ↦ elim (Bool-cases (ltb b.size (n + node_size + 1))) [
    | inl whole ↦ absurd (ground (arith, e, fits, whole))
    | inr cut ↦ absurd (ground (arith, e, fits, cut))
  ]
  | inr small ↦ (
    ground (arith, small),
    take_first-AllSmall n bs m (passed_none b (take_first n bs m) (rw small at e)),
  )
]

join_next-IsMarked :
    (n : ℕ) (o : Block) (r : List Block) (m : Nodes)
    → AllSmall n r
    → IsMarked m o
    → IsMarked (join_next o r m).2 (join_next o r m).0 × AllSmall n (join_next o r m).1
unfolding join_next
join_next-IsMarked n o [] m h k = (k, tt)
join_next-IsMarked n o (d ∷ r) m h k = elim (Bool-cases (o.addr + o.size == d.addr)) [
  | inl touch ↦ rw (touch, join_next) (ground arith, h.1)
  | inr apart ↦ rw (apart, join_next) (k, h)
]

join_prev-AllMarked :
    (n : ℕ) (c o : Block) (r : List Block) (m : Nodes)
    → c.size < n
    → AllSmall n r
    → IsMarked m o
    → AllMarked n (join_prev c o r m).blocks (join_prev c o r m).nodes
unfolding join_prev
join_prev-AllMarked n c o r m l h k = elim (Bool-cases (c.addr + c.size == o.addr)) [
  | inl touch ↦ rw (touch, join_prev) ((λ u. ground arith), AllSmall-AllMarked n r _ h)
  | inr apart ↦
      rw (apart, join_prev)
        ((λ u. absurd (omega (arith, u, l))), ((λ u. k), AllSmall-AllMarked n r m h))
]

give_behind-AllMarked :
    (n : ℕ) (o c : Block) (r : List Block) (m : Nodes)
    → c.size < n
    → AllSmall n r
    → IsMarked m o
    → AllMarked n (give_behind o c r m).blocks (give_behind o c r m).nodes
unfolding give_behind
give_behind-AllMarked n o c [] m l h k = join_prev-AllMarked n c o [] m l h k
give_behind-AllMarked n o c (d ∷ r) m l h k = elim (Bool-cases (ltb o.addr d.addr)) [
  | inl low ↦
      let (marked, rest) = join_next-IsMarked n o (d ∷ r) m h k in
      rw low (join_prev-AllMarked n c _ _ _ l rest marked)
  | inr high ↦
      rw high ((λ u. absurd (omega (arith, u, l))), give_behind-AllMarked n o d r m h.0 h.1 k)
]

give_one-AllMarked :
    (n : ℕ) (o c : Block) (m : Nodes)
    → c.size < n
    → IsMarked m o
    → AllMarked n (give_one o c m).blocks (give_one o c m).nodes
unfolding give_one
give_one-AllMarked n o c m l k = ground arith

-- A marked block that is given to blocks that are too small: only what it is merged into may be large.
pub give-AllMarked :
    (n : ℕ) (o : Block) (bs : List Block) (m : Nodes)
    → AllSmall n bs
    → IsMarked m o
    → AllMarked n (give o bs m).blocks (give o bs m).nodes
unfolding give
give-AllMarked n o [] m h k = ((λ u. k), tt)
give-AllMarked n o (c ∷ []) m h k = give_one-AllMarked n o c m h.0 k
give-AllMarked n o (c ∷ d ∷ r) m h k = give_behind-AllMarked n o c (d ∷ r) m h.0 h.1 k
