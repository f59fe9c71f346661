-- ===== src/PageTable/Ranges.antt =====
-- kernel/arch/vm.c: single entries, and the ranges of a user's address space. `end` is the end of the
-- kernel image, a symbol of the linker. `none` is a call that does not come back.
pub mod Peek
pub mod Unmap
pub mod Restore
pub mod Pages
pub mod Extend
pub mod Alloc
use hsunix.Base.{
  ℕ, zero, suc, ◌+◌, ◌-◌, ◌/◌, ◌%◌, List, [], ◌∷◌, Option, none, some, Bool, true, false, ltb, leb,
  ◌==◌, not, ◌&&◌, if◌then◌else◌,
}
use hsunix.Base.Int.{ℤ, pos, negsuc}
use hsunix.Base.Maybe.{◌>>=◌}
use hsunix.Kmem.{pg_size}
use hsunix.Cstr.{kmemset}
use hsunix.Kmem.Pages.{free_page, pg_round_up}
use hsunix.PageTable.{
  Vm, max_va, pte2pa, is_valid, is_user, put_pte, zero_page, slot, mmu, mappages,
}
use Prim.Native.Nat.{bit_and, bit_or}

-- `kvm_setflag`
pub kvm_setflag : ℕ → ℕ → ℕ → Vm → Option (ℤ × Vm)
kvm_setflag pgtab va flag v = elim (mmu false pgtab va v) [
  | none ↦ none
  | some (none, v₁) ↦ some (negsuc 0, v₁)
  | some (some at, v₁) ↦
      some (pos 0, record v₁ { ptes = put_pte at (bit_or (v₁.ptes at) flag) v₁.ptes })
]

-- `kvm_clrflag`
pub kvm_clrflag : ℕ → ℕ → ℕ → Vm → Option (ℤ × Vm)
kvm_clrflag pgtab va flag v = elim (mmu false pgtab va v) [
  | none ↦ none
  | some (none, v₁) ↦ some (negsuc 0, v₁)
  | some (some at, v₁) ↦
      some (pos 0, record v₁ { ptes = put_pte at (v₁.ptes at - bit_and (v₁.ptes at) flag) v₁.ptes })
]

-- `kvm_pageaddr`: where the address has no last table, the entry is read through a null pointer.
pub kvm_pageaddr : ℕ → ℕ → Vm → Option ℕ
kvm_pageaddr pgtab va v = if ltb max_va va then some 0 else elim (mmu false pgtab va v) [
  | none ↦ none
  | some (none, v₁) ↦ none
  | some (some at, v₁) ↦
      if not (is_valid (v₁.ptes at))
      then some 0
      else if not (is_user (v₁.ptes at))
      then some 0
      else some (pte2pa (v₁.ptes at))
]

-- `kvm_phyaddr`: the low twelve bits of a page's address are clear, and `|` adds those of `vAddr`.
pub kvm_phyaddr : ℕ → ℕ → Vm → Option ℕ
unfolding kvm_pageaddr
kvm_phyaddr pgtab va v = kvm_pageaddr pgtab va v >>= λ pa. some (pa + va % 4096)

-- `kvm_map`
pub kvm_map : ℕ → ℕ → ℕ → ℕ → ℕ → Vm → Option (ℤ × Vm)
unfolding mappages
kvm_map pgtab va pa sz flag v = mappages pgtab va pa sz flag v

-- The state after the entry is cleared, its page given back where that is asked for.
abbrev pub clear_pte : ℕ → ℕ → Bool → Vm → Vm
clear_pte end at free v = record v {
  ptes = put_pte at 0 v.ptes;
  pages = if free then free_page end (pte2pa (v.ptes at)) v.pages else v.pages;
}

-- The loop of `uvm_unmap`, for as many pages as there are.
pub unmap_pages : ℕ → ℕ → ℕ → ℕ → Bool → Vm → Option Vm
unmap_pages zero end pgtab start free v = some v
unmap_pages (suc n) end pgtab start free v = elim (mmu false pgtab start v) [
  | none ↦ none
  | some (none, v₁) ↦ some v₁
  | some (some at, v₁) ↦ elim (is_valid (v₁.ptes at)) [
    | false ↦ some v₁
    | true ↦ unmap_pages n end pgtab (start + pg_size) free (clear_pte end at free v₁)
  ]
]

-- `uvm_unmap`
pub uvm_unmap : ℕ → ℕ → ℕ → ℕ → Bool → Vm → Option Vm
uvm_unmap end pgtab va npages free v =
    if not (va % pg_size == 0)
    then some v
    else if leb npages 0
    then some v
    else unmap_pages npages end pgtab va free v

-- `uvm_create`: the page of a new table, or null.
pub uvm_create : Vm → ℕ × Vm
uvm_create v = elim v.pages [
  | [] ↦ (0, v)
  | p ∷ ps ↦ (p, record v { ptes = zero_page p v.ptes; pages = ps })
]

-- A valid entry with none of the bits `PTE_R`, `PTE_W`, `PTE_X` leads to a table.
abbrev pub is_table : ℕ → Bool
is_table e = is_valid e && (e / 2 % 8 == 0)

-- The loop of `freepages` from entry i on, `inner` for its call of itself.
pub free_entries : (ℕ → Vm → Option Vm) → ℕ → ℕ → ℕ → ℕ → Vm → Option Vm
free_entries inner zero i end pgtab v = some (record v { pages = free_page end pgtab v.pages })
free_entries inner (suc n) i end pgtab v =
    let e : ℕ = v.ptes (slot pgtab i) in
    elim (is_table e) [
      | true ↦ elim (inner (pte2pa e) v) [
        | none ↦ none
        | some v₁ ↦
            free_entries inner n (i + 1) end pgtab
              (record v₁ { ptes = put_pte (slot pgtab i) 0 v₁.ptes })
      ]
      | false ↦ elim (is_valid e) [
        | true ↦ some v
        | false ↦ free_entries inner n (i + 1) end pgtab v
      ]
    ]

-- `freepages`, for tables of at most so many levels.
pub freepages : ℕ → ℕ → ℕ → Vm → Option Vm
unfolding free_entries
freepages zero end pgtab v = none
freepages (suc d) end pgtab v = free_entries (freepages d end) 512 0 end pgtab v

-- `uvm_destroy`
pub uvm_destroy : ℕ → ℕ → ℕ → Vm → Option Vm
uvm_destroy end pgtab size v =
    let cleared = uvm_unmap end pgtab 0 (pg_round_up size / pg_size) true v in
    (if not (size == 0) then cleared else some v) >>= freepages 3 end pgtab

abbrev pub is_success : ℤ → Bool
is_success (pos zero) = true
is_success (pos (suc n)) = false
is_success (negsuc n) = false

-- The state after a page was taken for data and zeroed.
abbrev pub take_zeroed : ℕ → List ℕ → Vm → Vm
take_zeroed p ps v = record v { bytes = kmemset v.bytes p 0 pg_size; pages = ps }

-- The loop of `uvm_alloc`: done, or `goto error_map` at an address.
pub alloc_pages : ℕ → ℕ → ℕ → ℕ → ℕ → Vm → Option (Option ℕ × Vm)
unfolding mappages
alloc_pages zero end pgtab addr flag v = some (none, v)
alloc_pages (suc n) end pgtab addr flag v = elim v.pages [
  | [] ↦ some (some addr, v)
  | mem ∷ ps ↦ elim (mappages pgtab addr mem pg_size flag (take_zeroed mem ps v)) [
    | none ↦ none
    | some (r, v₁) ↦ elim (is_success r) [
      | true ↦ alloc_pages n end pgtab (addr + pg_size) flag v₁
      | false ↦ some (some addr, record v₁ { pages = free_page end mem v₁.pages })
    ]
  ]
]

-- `uvm_alloc`
pub uvm_alloc : ℕ → ℕ → ℕ → ℕ → ℕ → Vm → Option (ℕ × Vm)
uvm_alloc end pgtab start_addr end_addr flag v =
    let a : ℕ = pg_round_up start_addr in
    if ltb end_addr start_addr
    then some (0, v)
    else elim (alloc_pages ((end_addr + 4095 - a) / pg_size) end pgtab a flag v) [
      | none ↦ none
      | some (none, v₁) ↦ some (end_addr, v₁)
      | some (some addr, v₁) ↦
          uvm_unmap end pgtab a ((addr - a) / pg_size) true v₁ >>= λ v₂. some (0, v₂)
    ]

-- `uvm_free`
pub uvm_free : ℕ → ℕ → ℕ → ℕ → Vm → Option (ℕ × Vm)
uvm_free end pgtab oldsz newsz v =
    let npages : ℕ = (pg_round_up newsz - pg_round_up oldsz) / pg_size in
    if leb newsz oldsz
    then some (0, v)
    else if ltb (pg_round_up oldsz) (pg_round_up newsz)
    then (uvm_unmap end pgtab oldsz npages true v >>= λ v₁. some (newsz, v₁))
    else some (newsz, v)
