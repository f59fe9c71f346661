-- ===== src/Kmem.antt =====
-- kernel/lib/phymem.c: the free pages, and the small blocks that `kalloc` cuts from pages and `kfree`
-- puts back. Addresses are numbers, 0 the null pointer. The circular list of free blocks is a list;
-- its header stands in the kernel image, below every page, and is next to none.
pub mod Bytes
pub mod Give
pub mod Marks
pub mod Take
pub mod Order
pub mod Serve
pub mod Pages
mod Tests
use hsunix.Base.{
  ℕ, zero, suc, ◌+◌, ◌-◌, ◌%◌, ◌*◌, ◌/◌, List, [], ◌∷◌, Option, none, some, Bool, true, false, ltb,
  leb, ◌==◌, ◌||◌, ◌&&◌, not, if◌then◌else◌,
}

-- A free block: its node's address, and `blkNum`, its bytes with the node.
pub record Block : Type 0 where
  pub addr : ℕ
  pub size : ℕ

abbrev pub block : ℕ → ℕ → Block
block a s = record { addr = a; size = s }

-- `magic` and `blkNum` of the node at an address, for nodes that were handed out or are free.
pub record Node : Type 0 where
  pub magic : ℕ
  pub blk_num : ℕ

abbrev pub ksmn_magic : ℕ
ksmn_magic = 0x5aa5

-- `sizeof(ksm_node)`, `PGSIZE`, and `PHYSTOP`.
abbrev pub node_size : ℕ
node_size = 24

abbrev pub pg_size : ℕ
pg_size = 4096

abbrev pub Nodes : Type 0
Nodes = ℕ → Node

abbrev pub mark : ℕ → ℕ → Nodes → Nodes
mark a s m b = if a == b then record { magic = ksmn_magic; blk_num = s } else m b

abbrev pub wipe : ℕ → Nodes → Nodes
wipe a m b = if a == b then record { magic = 0; blk_num = 0 } else m b

-- The free blocks with the nodes in memory.
pub record Free : Type 0 where
  pub blocks : List Block
  pub nodes : Nodes

abbrev pub free_of : List Block → Nodes → Free
free_of bs m = record { blocks = bs; nodes = m }

-- "处理空闲管理链中只有一个内存块的情况": one free block c, or none.
pub give_one : Block → Block → Nodes → Free
give_one o c m =
    if ltb o.addr c.addr
    then if o.addr + o.size == c.addr
      then free_of (block o.addr (o.size + c.size) ∷ [])
          (mark o.addr (o.size + c.size) (wipe c.addr m))
      else free_of (o ∷ c ∷ []) m
    else if c.addr + c.size == o.addr
    then free_of (block c.addr (c.size + o.size) ∷ [])
        (mark c.addr (c.size + o.size) (wipe o.addr m))
    else free_of (c ∷ o ∷ []) m

-- "确认将 obj 放在 curHear 节点之前": o takes in the block behind it, if they touch.
pub join_next : Block → List Block → Nodes → Block × List Block × Nodes
join_next o [] m = (o, [], m)
join_next o (n ∷ r) m =
    if o.addr + o.size == n.addr
    then (block o.addr (o.size + n.size), r, mark o.addr (o.size + n.size) (wipe n.addr m))
    else (o, n ∷ r, m)

-- "确认将 obj 放在 curHear 节点之后": c takes in o, if they touch.
pub join_prev : Block → Block → List Block → Nodes → Free
join_prev c o r m =
    if c.addr + c.size == o.addr
    then free_of (block c.addr (c.size + o.size) ∷ r)
        (mark c.addr (c.size + o.size) (wipe o.addr m))
    else free_of (c ∷ o ∷ r) m

abbrev pub behind : Block → Free → Free
behind c f = record f { blocks = c ∷ f.blocks }

-- The walk to the place of o, from the first block on, and the insertion behind it.
pub give_behind : Block → Block → List Block → Nodes → Free
unfolding join_next join_prev
give_behind o c [] m = join_prev c o [] m
give_behind o c (n ∷ r) m =
    let here : Free = (let (o', r', m') = join_next o (n ∷ r) m in join_prev c o' r' m') in
    let rest : Free = behind c (give_behind o n r m) in if ltb o.addr n.addr then here else rest

pub give : Block → List Block → Nodes → Free
unfolding give_one give_behind
give o [] m = free_of (o ∷ []) m
give o (c ∷ []) m = give_one o c m
give o (c ∷ n ∷ r) m = give_behind o c (n ∷ r) m

-- `kfree`: a null pointer and an object without a live node change nothing. (The bytes of the object
-- are overwritten; nothing reads them.)
pub kfree : ℕ → Free → Free
unfolding give
kfree obj f =
    let o : ℕ = obj - node_size in
    if obj == 0 || not ((f.nodes o).magic == ksmn_magic) || (f.nodes o).blk_num == 0
    then f
    else give (block o (f.nodes o).blk_num) f.blocks f.nodes

-- The search goes on behind a block that is too small.
abbrev pub pass : Block → Option (Block × Free) → Option (Block × Free)
pass b none = none
pass b (some (t, f)) = some (t, behind b f)

-- The free block that serves a request of `objsize` bytes: the first that is large enough, whole if
-- not even a node and a byte would be left, else its front. The result is the block handed out.
pub take_first : ℕ → List Block → Nodes → Option (Block × Free)
take_first objsize [] m = none
take_first objsize (b ∷ bs) m =
    let rest : Option (Block × Free) = pass b (take_first objsize bs m) in
    if leb objsize b.size
    then if ltb b.size (objsize + node_size + 1)
      then some (b, free_of bs m)
      else some (
        block b.addr objsize,
        free_of (block (b.addr + objsize) (b.size - objsize) ∷ bs)
            (mark b.addr objsize (mark (b.addr + objsize) (b.size - objsize) m)),
      )
    else rest

-- The memory: free pages, last freed first, and free blocks. The numbers of both that the list
-- headers keep are the lengths of the lists.
pub record Kmem : Type 0 where
  pub pages : List ℕ
  pub free : Free

abbrev pub length_blocks : List Block → ℕ
length_blocks [] = 0
length_blocks (b ∷ bs) = suc (length_blocks bs)

-- How a call of `kalloc` ends: with an address or null, in the `ErrPrint` loop for want of a page,
-- or by taking the header of the list for a block.
pub data Outcome : Type 0 where
  given : ℕ → Kmem → Outcome
  no_page : Outcome
  header_taken : Outcome

-- The search, from the header on. At the end of the list the header itself is tried: its `blkNum`
-- is the number of free blocks. Then a page is freed as a block and the search starts again.
pub search_blocks : ℕ → List ℕ → Free → Outcome
unfolding take_first
search_blocks objsize [] f = elim (take_first objsize f.blocks f.nodes) [
  | some (t, f') ↦ given (t.addr + node_size) (record { pages = []; free = f' })
  | none ↦ if leb objsize (length_blocks f.blocks) then header_taken else no_page
]
search_blocks objsize (pa ∷ ps) f = elim (take_first objsize f.blocks f.nodes) [
  | some (t, f') ↦ given (t.addr + node_size) (record { pages = pa ∷ ps; free = f' })
  | none ↦ elim (leb objsize (length_blocks f.blocks)) [
    | true ↦ header_taken
    | false ↦
        search_blocks objsize ps
          (kfree (pa + node_size) (record f { nodes = mark pa pg_size f.nodes }))
  ]
]

-- `kalloc`
pub kalloc : ℕ → Kmem → Outcome
unfolding search_blocks
kalloc size k =
    if size == 0 || leb pg_size size
    then given 0 k
    else search_blocks (size + node_size) k.pages k.free
