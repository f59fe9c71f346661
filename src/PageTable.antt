-- ===== src/PageTable.antt =====
-- kernel/arch/vm.c: three-level page tables. Entries and table addresses are 64-bit words; the
-- addresses that the code writes into entries are those of pages, so no shift loses a bit. `ptes`
-- reads the memory by the address of an entry and `bytes` by that of a byte: a page is used as a
-- table or for data, and either is zeroed when it is taken. `none` is a call that does not come back:
-- `ErrPrint`, or a read through the null pointer.
pub mod Space
pub mod Grow
pub mod Find
pub mod Write
pub mod Insert
pub mod Map
pub mod Ranges
pub mod Copy
mod Tests
use hsunix.Base.{
  ℕ, zero, suc, ◌+◌, ◌-◌, ◌*◌, ◌/◌, ◌%◌, List, [], ◌∷◌, Option, none, some, Bool, true, false, ltb,
  leb, ◌==◌, ◌||◌, ◌&&◌, not, if◌then◌else◌,
}
use hsunix.Base.Int.{ℤ, pos, negsuc}
use hsunix.Kmem.{pg_size}
use hsunix.Cstr.{Memory, kmemset, kmemmove}
use hsunix.Kmem.Pages.{alloc_page, free_page, pg_round_up}

-- `MAXVA`
abbrev pub max_va : ℕ
max_va = 0x4000000000

-- `PA2PTE`, `PTE2PA`, and the bits `PTE_V` and `PTE_U` of an entry.
abbrev pub pa2pte : ℕ → ℕ
pa2pte pa = pa / 4096 * 1024

abbrev pub pte2pa : ℕ → ℕ
pte2pa e = e / 1024 * 4096

abbrev pub is_valid : ℕ → Bool
is_valid e = e % 2 == 1

abbrev pub is_user : ℕ → Bool
is_user e = e / 16 % 2 == 1

-- `PTE_FLAGS`
abbrev pub pte_flags : ℕ → ℕ
pte_flags e = e % 1024

-- `PA2PTE(pa) | flag | PTE_V`, for flags of ten bits.
abbrev pub entry : ℕ → ℕ → ℕ
entry pa flag = pa2pte pa + (flag + (1 - flag % 2))

-- `PX(level, va)`
abbrev pub px2 : ℕ → ℕ
px2 va = va / 0x40000000 % 512

abbrev pub px1 : ℕ → ℕ
px1 va = va / 0x200000 % 512

abbrev pub px0 : ℕ → ℕ
px0 va = va / 0x1000 % 512

-- `&pgtab[i]`
abbrev pub slot : ℕ → ℕ → ℕ
slot pgtab i = pgtab + 8 * i

pub record Vm : Type 0 where
  pub ptes : ℕ → ℕ
  pub bytes : Memory
  pub pages : List ℕ

abbrev pub put_pte : ℕ → ℕ → (ℕ → ℕ) → ℕ → ℕ
put_pte at e m a = if a == at then e else m a

-- `kmemset(pgtab, 0, PGSIZE)` as the entries of the page see it.
abbrev pub zero_page : ℕ → (ℕ → ℕ) → ℕ → ℕ
zero_page p m a = if leb p a && ltb a (p + pg_size) then 0 else m a

-- One round of the loop of `_mmu`: the table of the next level, or the return of 0.
pub descend : Bool → ℕ → Vm → Option ℕ × Vm
descend alloc at v =
    if is_valid (v.ptes at)
    then (some (pte2pa (v.ptes at)), v)
    else if not alloc
    then (none, v)
    else elim v.pages [
      | [] ↦ (none, v)
      | p ∷ ps ↦
          (some p, record v { ptes = put_pte at (pa2pte p + 1) (zero_page p v.ptes); pages = ps })
    ]

-- `_mmu` below `MAXVA`: the address of the last entry, or null.
pub find_pte : Bool → ℕ → ℕ → Vm → Option ℕ × Vm
find_pte alloc pgtab va v =
    let top = descend alloc (slot pgtab (px2 va)) v in
    elim (top.0) [
      | none ↦ top
      | some t ↦
          let mid = descend alloc (slot t (px1 va)) top.1 in
          elim (mid.0) [ none ↦ mid | some u ↦ (some (slot u (px0 va)), mid.1) ]
    ]

-- `_mmu`
pub mmu : Bool → ℕ → ℕ → Vm → Option (Option ℕ × Vm)
unfolding find_pte
mmu alloc pgtab va v = if leb max_va va then none else some (find_pte alloc pgtab va v)

-- One page of `mappages`: -1, 0, or no return if the entry is in use.
pub map_page : ℕ → ℕ → ℕ → ℕ → Vm → Option (ℤ × Vm)
unfolding mmu
map_page pgtab va pa flag v = elim (mmu true pgtab va v) [
  | none ↦ none
  | some (none, v₁) ↦ some (negsuc 0, v₁)
  | some (some at, v₁) ↦
      if is_valid (v₁.ptes at)
      then none
      else some (pos 0, record v₁ { ptes = put_pte at (entry pa flag) v₁.ptes })
]

-- `PGROUNDDOWN`
abbrev pub pg_round_down : ℕ → ℕ
pg_round_down a = a / pg_size * pg_size

-- The loop of `mappages`, for as many pages as there are.
pub map_pages : ℕ → ℕ → ℕ → ℕ → ℕ → Vm → Option (ℤ × Vm)
map_pages zero pgtab start pa flag v = some (pos 0, v)
map_pages (suc n) pgtab start pa flag v = elim (map_page pgtab start pa flag v) [
  | none ↦ none
  | some (negsuc e, v₁) ↦ some (negsuc e, v₁)
  | some (pos r, v₁) ↦ map_pages n pgtab (start + pg_size) (pa + pg_size) flag v₁
]

-- `mappages`: the pages from the first to the last byte of the range.
pub mappages : ℕ → ℕ → ℕ → ℕ → ℕ → Vm → Option (ℤ × Vm)
mappages pgtab va pa size flag v =
    if size == 0
    then none
    else map_pages ((pg_round_down (va + size - 1) - pg_round_down va) / pg_size + 1) pgtab
        (pg_round_down va) pa flag v
