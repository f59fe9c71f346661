-- ===== src/PageTable/Copy.antt =====
-- kernel/arch/vm.c: copies between address spaces and the kernel, and the kernel's own table. `none`
-- is a call that does not come back.
pub mod In
pub mod Out
pub mod Whole
use hsunix.Base.{
  ℕ, zero, suc, ◌+◌, ◌-◌, ◌/◌, ◌%◌, [], ◌∷◌, Option, none, some, Bool, false, not, min,
  if◌then◌else◌,
}
use hsunix.Base.Int.{ℤ, pos, negsuc}
use hsunix.Base.Maybe.{◌>>=◌}
use hsunix.Kmem.{pg_size}
use hsunix.Cstr.{kmemmove}
use hsunix.Kmem.Pages.{phys_stop, free_page}
use hsunix.PageTable.{Vm, max_va, pte2pa, pte_flags, is_valid, mmu, mappages, pg_round_down}
use hsunix.PageTable.Ranges.{kvm_pageaddr, uvm_create, uvm_alloc, uvm_free, is_success}

-- How the loop of `uvm_copy` ends: behind the last page, with -1, or by `goto error_cpy` at an
-- address.
pub data CopyEnd : Type 0 where
  finished : CopyEnd
  refused : CopyEnd
  undone : ℕ → CopyEnd

-- `kmemmove` of a page.
abbrev pub move_page : ℕ → ℕ → Vm → Vm
move_page d s v = record v { bytes = kmemmove v.bytes d s pg_size }

-- One round of the loop with `alloc`: none to go on.
pub copy_to_new : ℕ → ℕ → ℕ → ℕ → Vm → Option (Option CopyEnd × Vm)
copy_to_new end dest i s_pte v = elim v.pages [
  | [] ↦ some (some (undone i), v)
  | d_pa ∷ ps ↦
      elim (mappages dest i d_pa pg_size (pte_flags s_pte)
        (move_page d_pa (pte2pa s_pte) (record v { pages = ps }))) [
          | none ↦ none
          | some (r, v₁) ↦
              if is_success r
              then some (none, v₁)
              else some (some (undone i), record v₁ { pages = free_page end d_pa v₁.pages })
        ]
]

-- One round without `alloc`.
pub copy_to_old : ℕ → ℕ → ℕ → Vm → Option (Option CopyEnd × Vm)
copy_to_old dest i s_pte v = elim (mmu false dest i v) [
  | none ↦ none
  | some (none, v₁) ↦ some (some (undone i), v₁)
  | some (some at, v₁) ↦
      if not (is_valid (v₁.ptes at))
      then some (some (undone i), v₁)
      else elim (mappages dest i (pte2pa (v₁.ptes at)) pg_size (pte_flags s_pte)
          (move_page (pte2pa (v₁.ptes at)) (pte2pa s_pte) v₁)) [
            | none ↦ none
            | some (r, v₂) ↦ if is_success r then some (none, v₂) else some (some refused, v₂)
          ]
]

-- One round of the loop.
pub copy_page : ℕ → ℕ → ℕ → ℕ → Bool → Vm → Option (Option CopyEnd × Vm)
copy_page end dest src i alloc v = elim (mmu false src i v) [
  | none ↦ none
  | some (none, v₁) ↦ some (some refused, v₁)
  | some (some at, v₁) ↦
      if not (is_valid (v₁.ptes at))
      then some (some refused, v₁)
      else if alloc
      then copy_to_new end dest i (v₁.ptes at) v₁
      else copy_to_old dest i (v₁.ptes at) v₁
]

-- The loop of `uvm_copy`, for as many pages as there are.
pub copy_pages : ℕ → ℕ → ℕ → ℕ → ℕ → Bool → Vm → Option (CopyEnd × Vm)
copy_pages zero end dest src i alloc v = some (finished, v)
copy_pages (suc n) end dest src i alloc v = elim (copy_page end dest src i alloc v) [
  | none ↦ none
  | some (some e, v₁) ↦ some (e, v₁)
  | some (none, v₁) ↦ copy_pages n end dest src (i + pg_size) alloc v₁
]

-- `uvm_copy`
pub uvm_copy : ℕ → ℕ → ℕ → ℕ → Bool → Vm → Option (ℤ × Vm)
uvm_copy end dest src sz alloc v =
    elim (copy_pages ((sz + 4095) / pg_size) end dest src 0 alloc v) [
      | none ↦ none
      | some (finished, v₁) ↦ some (pos 0, v₁)
      | some (refused, v₁) ↦ some (negsuc 0, v₁)
      | some (undone i, v₁) ↦ elim (uvm_free end dest 0 i v₁) [
        | none ↦ none
        | some (r, v₂) ↦ some (negsuc 0, v₂)
      ]
    ]

-- The bytes of a round of a copy from or to an address: to the end of its page, `len` at most.
abbrev pub chunk : ℕ → ℕ → ℕ
chunk va len = min (pg_size - (va - pg_round_down va)) len

-- `uvm_copyout`, on fuel: each round moves a byte at least.
pub copy_out : ℕ → ℕ → ℕ → ℕ → ℕ → Vm → Option (ℤ × Vm)
copy_out zero pgtab dst_va src len v = none
copy_out (suc f) pgtab dst_va src zero v = some (pos 0, v)
copy_out (suc f) pgtab dst_va src (suc l) v = elim (kvm_pageaddr pgtab (pg_round_down dst_va) v) [
  | none ↦ none
  | some zero ↦ some (negsuc 0, v)
  | some (suc p) ↦
      let off : ℕ = dst_va - pg_round_down dst_va in
      let n : ℕ = chunk dst_va (suc l) in
      copy_out f pgtab ((dst_va + (pg_round_down dst_va + pg_size)) % 0x10000000000000000) (src + n)
        (suc l - n) (record v { bytes = kmemmove v.bytes (suc p + off) src n })
]

pub uvm_copyout : ℕ → ℕ → ℕ → ℕ → Vm → Option (ℤ × Vm)
unfolding copy_out
uvm_copyout pgtab dst_va src len v = copy_out (suc len) pgtab dst_va src len v

-- `uvm_copyin`, on fuel; `ret` counts what was copied, fewer than 2 ^ 31 bytes.
pub copy_in : ℕ → ℕ → ℕ → ℕ → ℕ → ℕ → Vm → Option (ℤ × Vm)
copy_in zero pgtab dst src_va len ret v = none
copy_in (suc f) pgtab dst src_va zero ret v = some (pos ret, v)
copy_in (suc f) pgtab dst src_va (suc l) ret v =
    elim (kvm_pageaddr pgtab (pg_round_down src_va) v) [
      | none ↦ none
      | some zero ↦ some (negsuc 0, v)
      | some (suc p) ↦
          let off : ℕ = src_va - pg_round_down src_va in
          let n : ℕ = chunk src_va (suc l) in
          copy_in f pgtab (dst + n) (pg_round_down src_va + pg_size) (suc l - n) (ret + n)
            (record v { bytes = kmemmove v.bytes dst (suc p + off) n })
    ]

pub uvm_copyin : ℕ → ℕ → ℕ → ℕ → Vm → Option (ℤ × Vm)
unfolding copy_in
uvm_copyin pgtab dst src_va len v = copy_in (suc len) pgtab dst src_va len 0 v

-- `UART0`, `VIRTIO0`, `PLIC`, `KERNBASE`, `TRAMPOLINE` and `TRAPFRAME`.
abbrev pub uart0 : ℕ
uart0 = 0x10000000

abbrev pub virtio0 : ℕ
virtio0 = 0x10001000

abbrev pub plic : ℕ
plic = 0x0c000000

abbrev pub kern_base : ℕ
kern_base = 0x80000000

abbrev pub trampoline_va : ℕ
trampoline_va = max_va - pg_size

abbrev pub trapframe : ℕ
trapframe = trampoline_va - pg_size

-- `PTE_R`, `PTE_W` and `PTE_X`.
abbrev pub pte_r : ℕ
pte_r = 2

abbrev pub pte_w : ℕ
pte_w = 4

abbrev pub pte_x : ℕ
pte_x = 8

-- A call of `mappages` whose result is not looked at.
abbrev pub map_unchecked : ℕ → ℕ → ℕ → ℕ → ℕ → Vm → Option Vm
map_unchecked pgtab va pa size flag v = mappages pgtab va pa size flag v >>= λ r. some r.1

-- `init_kvm`, up to the switch to the table: the table and the state. `etext` and `trampoline` are
-- symbols of the linker.
pub init_kvm : ℕ → ℕ → ℕ → Vm → Option (ℕ × Vm)
init_kvm end etext trampoline v = do
  let k : ℕ = (uvm_create v).0
  v₁ ← map_unchecked k uart0 uart0 pg_size (pte_r + pte_w) (uvm_create v).1
  v₂ ← map_unchecked k virtio0 virtio0 pg_size (pte_r + pte_w) v₁
  v₃ ← map_unchecked k plic plic 0x400000 (pte_r + pte_w) v₂
  v₄ ← map_unchecked k kern_base kern_base (etext - kern_base) (pte_r + pte_x) v₃
  v₅ ← map_unchecked k etext etext (phys_stop - etext) (pte_r + pte_w) v₄
  v₆ ← map_unchecked k trampoline_va trampoline pg_size (pte_r + pte_x) v₅
  r ← uvm_alloc end k trapframe (trapframe + pg_size) (pte_r + pte_w) v₆
  some (k, r.1)
