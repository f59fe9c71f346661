-- ===== src/PageTable/Tests.antt =====
-- Runs of the page tables, and the properties at concrete states.
use hsunix.Base.{
  ℕ, ◌+◌, ◌*◌, ◌≡◌, arith, [], ◌∷◌, none, some, if◌then◌else◌, ◌==◌, refl, suc, zero, inl, ◌%◌,
}
use hsunix.Base.Int.{pos}
use hsunix.PageTable.{Vm, entry, pa2pte, mmu, find_pte, descend, map_page, map_pages, mappages}
use hsunix.PageTable.Space.{Place, unused, top, lookup, below, read_pte, mid, low}
use hsunix.PageTable.Map.{mappages_lem, page_count}
use hsunix.PageTable.Insert.{HasTree, MapEnd}
use hsunix.PageTable.Ranges.Unmap.{tables}
use hsunix.PageTable.Ranges.Alloc.{uvm_alloc_lem, Allocated}
use hsunix.PageTable.Copy.In.{Reachable, uvm_copyin_lem, picked}
use hsunix.Cstr.{Memory}
use hsunix.PageTable.Ranges.{uvm_alloc}
use hsunix.PageTable.Copy.{uvm_copyin}

-- An empty table at the first page, and three pages to take.
abbrev fresh : Vm
fresh = record { ptes = λ a. 0; bytes = λ a. a; pages = 8192 ∷ 12288 ∷ 16384 ∷ [] }

abbrev only_root : ℕ → Place
only_root t = if t == 4096 then top else unused

fresh-tree : HasTree 4096 fresh
fresh-tree = (
  only_root,
  record {
    at_root = refl;
    whole = λ t h. ground arith;
    from_top = λ i a h. absurd (cc);
    from_mid = λ t j i a b h. absurd (cc);
    spare = λ p h. ground arith;
    once = (refl, (refl, (refl, tt)));
  },
)

mappages_lem_example :
    MapEnd 4096 (page_count 0 4096) 0 0x80000000 2 fresh (mappages 4096 0 0x80000000 4096 2 fresh)
mappages_lem_example =
    mappages_lem 4096 0 0x80000000 4096 2 fresh fresh-tree (omega arith) (omega arith)

uvm_alloc_lem_example :
    Allocated 4096 4096 8192 22 fresh (uvm_alloc 0x80000000 4096 100 8192 22 fresh)
uvm_alloc_lem_example =
    uvm_alloc_lem 0x80000000 4096 100 8192 22 fresh fresh-tree (omega arith) (omega arith)

-- The state after a page was mapped at address 0.
abbrev mapped : Vm
unfolding mappages map_pages map_page mmu find_pte descend
mapped = elim (mappages 4096 0 0x80000000 4096 2 fresh) [ none ↦ fresh | some (r, v) ↦ v ]

mapped-run : mappages 4096 0 0x80000000 4096 2 fresh ≡ some (pos 0, mapped)
unfolding mappages map_pages map_page mmu find_pte descend
mapped-run = refl

-- Two pages of the user at address 0, and one of the kernel at the fourth page.
abbrev walked : ℕ → ℕ
walked a =
    if a == 4096
    then pa2pte 8192 + 1
    else if a == 8192
    then pa2pte 12288 + 1
    else if a == 12288
    then entry 16384 18
    else if a == 12296
    then entry 20480 18
    else if a == 12312
    then entry 24576 2
    else 0

abbrev user : Vm
user = record { ptes = walked; bytes = λ a. a % 256; pages = [] }

abbrev user_page : ℕ → ℕ
user_page n = 16384 + n * 4096

reachable : Reachable 4096 user user_page 4094 3 0x9000000 3
unfolding lookup below read_pte
reachable zero h = (entry 16384 18, refl, refl, refl, omega arith, inl (omega arith))
reachable (suc zero) h = (entry 16384 18, refl, refl, refl, omega arith, inl (omega arith))
reachable (suc (suc zero)) h = (entry 20480 18, refl, refl, refl, omega arith, inl (omega arith))
reachable (suc (suc (suc k))) h = absurd (omega (arith, h))

first_entry : lookup 4096 user 4100 ≡ some (entry 20480 18)
unfolding lookup below read_pte
first_entry = refl

stray_entry : lookup 4096 user 12292 ≡ some (entry 24576 2)
unfolding lookup below read_pte
stray_entry = refl

user_tables : ℕ → Place
user_tables t =
    if t == 4096 then top else if t == 8192 then mid 0 else if t == 12288 then low 0 else unused

user-tree : HasTree 4096 (tables user)
unfolding user_tables
user-tree = (
  user_tables,
  record {
    at_root = refl;
    whole = λ t h. ground arith;
    from_top = λ i a h. ground arith;
    from_mid = λ t j i a b h. ground arith;
    spare = λ p h. absurd (cc);
    once = tt;
  },
)

uvm_copyin_lem_example :
    (m : Memory) × (uvm_copyin 4096 0x9000000 4094 3 user ≡ some (pos 3, record user { bytes = m }))
    × ((a : ℕ) → m a ≡ picked user_page user.bytes 0x9000000 4094 3 a)
uvm_copyin_lem_example =
    uvm_copyin_lem user_page 4096 0x9000000 4094 3 user (omega arith) (omega arith) reachable
