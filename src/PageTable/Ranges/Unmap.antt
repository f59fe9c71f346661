-- ===== src/PageTable/Ranges/Unmap.antt =====
-- `uvm_unmap` of kernel/arch/vm.c as a removal from the address space.
use hsunix.Base.{
  ℕ, zero, suc, ◌+◌, ◌*◌, ◌/◌, ◌%◌, ◌≡◌, ◌≢◌, ◌<◌, ◌≤◌, ◌⊎◌, arith, [], none, some, true, false,
  Bool, leb, ltb, ◌&&◌, ◌==◌, if◌then◌else◌, Bool-cases, inl, inr, refl, ◌∙◌,
}
use hsunix.Kmem.{pg_size}
use hsunix.PageTable.{Vm, is_valid, slot, px0, max_va, mmu}
use hsunix.PageTable.Space.{read_pte, lookup, lookup-ptes}
use hsunix.PageTable.Find.{Walk, lookup-Walk}
use hsunix.PageTable.Write.{write-lookup, write-IsTree}
use hsunix.PageTable.Insert.{HasTree}
use hsunix.PageTable.Ranges.{clear_pte, unmap_pages, uvm_unmap}
use hsunix.PageTable.Ranges.Peek.{no_table, at_entry, peek_lem}

-- The state with its tables alone.
abbrev pub tables : Vm → Vm
tables v = record v { pages = [] }

pub tables-tree : (root : ℕ) (v : Vm) → HasTree root v → HasTree root (tables v)
tables-tree root v (g, tree) = (
  g,
  record {
    at_root = tree.at_root;
    whole = tree.whole;
    from_top = tree.from_top;
    from_mid = tree.from_mid;
    spare = λ p h. absurd (cc);
    once = tt;
  },
)

-- The address space v' is v without the first k of the pages from `start` on, which were all mapped;
-- all n of them, or those before the first that was not mapped.
abbrev pub Removed : ℕ → ℕ → ℕ → Vm → Vm → Type 0
Removed root n start v v' =
    (k : ℕ) × (k ≤ n)
    × ((k ≡ n) ⊎ (lookup root v (start + k * 4096) ≡ none))
    × ((i : ℕ) → i < k → lookup root v (start + i * 4096) ≢ none)
    × HasTree root (tables v')
    × ((va : ℕ)
        → va < max_va
        → lookup root v' va ≡ (
            if leb (start / 4096) (va / 4096) && ltb (va / 4096) (start / 4096 + k)
            then none
            else lookup root v va))

-- One page.
module _ (end root start : ℕ) (free : Bool) (v : Vm) (tree : HasTree root (tables v))
    (small : start < max_va) (u : ℕ) (walk : Walk root start u v) where
  abbrev cleared : Vm
  cleared = clear_pte end (slot u (px0 start)) free v

  bare : Walk root start u (tables v)
  unfolding read_pte
  bare = walk

  cleared-lookup :
      (va : ℕ)
      → va < max_va
      → lookup root cleared va ≡ (if va / 4096 == start / 4096 then none else lookup root v va)
  cleared-lookup va b = ground (
    arith,
    write-lookup tree.1 start u bare 0 cleared (λ a. refl) va small b,
    lookup-ptes root va v (tables v) (λ a. refl),
  )

  cleared-tree : HasTree root (tables cleared)
  cleared-tree = (
    tree.0,
    write-IsTree tree.1 start u bare 0 (tables cleared) (λ a. refl) (λ p h. absurd (cc)) tt,
  )

  cleared-later :
      (k : ℕ)
      → start % 4096 ≡ 0
      → start + suc k * 4096 < max_va
      → lookup root cleared (start + pg_size + k * 4096) ≡ lookup root v (start + suc k * 4096)
  cleared-later k h b =
      let to : start + pg_size + k * 4096 ≡ start + suc k * 4096 = omega arith in
      let past : (start + suc k * 4096) / 4096 ≢ start / 4096 = omega (arith, h) in
      rw to (ground (arith, cleared-lookup (start + suc k * 4096) b, past))

  Removed-next :
      (n : ℕ) (v' : Vm)
      → start % 4096 ≡ 0
      → start + suc n * 4096 ≤ max_va
      → lookup root v start ≢ none
      → Removed root n (start + pg_size) cleared v'
      → Removed root (suc n) start v v'
  Removed-next n v' h b used (k, l, last, all, tree', same) = (
    suc k,
    omega (arith, l),
    ending,
    every,
    tree',
    λ va small'. ground (arith, same va small', cleared-lookup va small', h),
  )
    where
      ending : (suc k ≡ suc n) ⊎ (lookup root v (start + suc k * 4096) ≡ none)
      ending = elim (Bool-cases (k == n)) [
        | inl e ↦ inl (ground (arith, e))
        | inr e ↦
            let below : k < n = ground (arith, e, l) in
            let next = cleared-later k h (omega (arith, b, below)) in
            inr (ground (arith, last, next, below))
      ]

      every : (i : ℕ) → i < suc k → lookup root v (start + i * 4096) ≢ none
      every zero m = ground (arith, used)
      every (suc i) m =
          λ e. all i (omega (arith, m)) (cleared-later i h (omega (arith, b, l, m)) ∙ e)

  unmap-valid :
      (n : ℕ)
      → mmu false root start v ≡ some (some (slot u (px0 start)), v)
      → is_valid (v.ptes (slot u (px0 start))) ≡ true
      → unmap_pages (suc n) end root start free v
        ≡ unmap_pages n end root (start + pg_size) free cleared
  unfolding unmap_pages
  unmap-valid n d h = rw (d, unmap_pages) (rw h refl)

  unmap-empty :
      (n : ℕ)
      → mmu false root start v ≡ some (some (slot u (px0 start)), v)
      → is_valid (v.ptes (slot u (px0 start))) ≡ false
      → unmap_pages (suc n) end root start free v ≡ some v
  unfolding unmap_pages
  unmap-empty n d h = rw (d, unmap_pages) (rw h refl)

  used-walk :
      (is_valid (v.ptes (slot u (px0 start))) ≡ true → lookup root v start ≢ none)
      × (is_valid (v.ptes (slot u (px0 start))) ≡ false → lookup root v start ≡ none)
  unfolding read_pte
  used-walk = (
    ground (arith, lookup-Walk root start u v walk),
    ground (arith, lookup-Walk root start u v walk),
  )

unmap-no_table :
    (n end root start : ℕ) (free : Bool) (v : Vm)
    → mmu false root start v ≡ some (none, v)
    → unmap_pages (suc n) end root start free v ≡ some v
unfolding unmap_pages
unmap-no_table n end root start free v d = rw (d, unmap_pages) refl

-- Nothing is removed where the first page is not mapped.
Removed-none :
    (root n start : ℕ) (v : Vm)
    → HasTree root (tables v)
    → (n ≡ 0) ⊎ (lookup root v start ≡ none)
    → Removed root n start v v
Removed-none root n start v tree e = (
  0,
  omega arith,
  ground (arith, e),
  λ i l. absurd (omega (arith, l)),
  tree,
  λ va l. ground arith,
)

unmap_pages_lem :
    (n end root start : ℕ) (free : Bool) (v : Vm)
    → HasTree root (tables v)
    → start % 4096 ≡ 0
    → start + n * 4096 ≤ max_va
    → (v' : Vm) × (unmap_pages n end root start free v ≡ some v') × Removed root n start v v'
unfolding unmap_pages
unmap_pages_lem zero end root start free v tree h b =
    (v, refl, Removed-none root 0 start v tree (inl refl))
unmap_pages_lem (suc n) end root start free v tree h b =
    elim (peek_lem root start v (omega (arith, b))) [
      | no_table d e ↦ (
        v,
        unmap-no_table n end root start free v d,
        Removed-none root (suc n) start v tree (inr e),
      )
      | at_entry u d w ↦ elim (Bool-cases (is_valid (v.ptes (slot u (px0 start))))) [
        | inr empty ↦ (
          v,
          unmap-empty end root start free v tree (omega (arith, b)) u w n d empty,
          Removed-none root (suc n) start v tree
              (inr ((used-walk end root start free v tree (omega (arith, b)) u w).1 empty)),
        )
        | inl valid ↦
            let used = (used-walk end root start free v tree (omega (arith, b)) u w).0 valid in
            let one = cleared end root start free v tree (omega (arith, b)) u w in
            let next = cleared-tree end root start free v tree (omega (arith, b)) u w in
            let (v', run, gone) =
              unmap_pages_lem n end root (start + pg_size) free one next (omega (arith, h))
                (omega (arith, b)) in
            (
              v',
              unmap-valid end root start free v tree (omega (arith, b)) u w n d valid ∙ run,
              Removed-next end root start free v tree (omega (arith, b)) u w n v' h b used gone,
            )
      ]
    ]

-- `uvm_unmap` of whole pages below `MAXVA` comes back with the mapped pages at the front of the range
-- out of the address space, all of the range or up to the first page that was not mapped; every other
-- address keeps its entry, and no table goes.
pub uvm_unmap_lem :
    (end root start n : ℕ) (free : Bool) (v : Vm)
    → HasTree root (tables v)
    → start % 4096 ≡ 0
    → start + n * 4096 ≤ max_va
    → (v' : Vm) × (uvm_unmap end root start n free v ≡ some v') × Removed root n start v v'
unfolding uvm_unmap
uvm_unmap_lem end root start zero free v tree h b =
    (v, ground (arith, h), Removed-none root 0 start v tree (inl refl))
uvm_unmap_lem end root start (suc n) free v tree h b =
    let (v', run, gone) = unmap_pages_lem (suc n) end root start free v tree h b in
    (v', ground (arith, run, h), gone)
