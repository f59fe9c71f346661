-- ===== src/PageTable/Ranges/Alloc.antt =====
-- `uvm_alloc` of kernel/arch/vm.c: all of a range or nothing of it.
use hsunix.Base.{
  true, false, ℕ, suc, ◌+◌, ◌-◌, ◌*◌, ◌/◌, ◌%◌, ◌≡◌, ◌≢◌, ◌<◌, ◌≤◌, arith, List, ◌∷◌, Option, none,
  some, false, leb, ltb, ◌&&◌, Bool-cases, inl, inr, ◌∙◌, refl, List-cases, zero, [], ◌⊎◌,
}
use hsunix.Kmem.{pg_size}
use hsunix.PageTable.{Vm, max_va, ℤ, mappages, free_page}
use hsunix.PageTable.Space.{lookup, lookup-ptes, has, Distinct}
use hsunix.PageTable.Ranges.Pages.{
  Within, Within-trans, Within-tail, Within-free_page, mappages-Within,
}
use hsunix.PageTable.Map.{page_count, mappages_lem}
use hsunix.PageTable.Insert.{HasTree, MapEnd}
use hsunix.PageTable.Ranges.{take_zeroed, alloc_pages, is_success, uvm_alloc}
use hsunix.PageTable.Ranges.Unmap.{tables-tree, Removed, uvm_unmap_lem}
use hsunix.Base.Int.{ℤ, negsuc, pos}
use hsunix.Kmem.Pages.{free_page, pg_round_up}
use hsunix.PageTable.Ranges.Extend.{Extended, AllocEnd, Extended-none, end-next, taken-tree}

-- One page of `mappages`.
pub one_page :
    (root start p flag : ℕ) (w : Vm)
    → HasTree root w
    → start % 4096 ≡ 0
    → start + 4096 ≤ max_va
    → MapEnd root 1 start p flag w (mappages root start p pg_size flag w)
one_page root start p flag w tree h b =
    let count : page_count start pg_size ≡ 1 = omega (arith, h) in
    let from : start / 4096 * 4096 ≡ start = omega (arith, h) in
    rw (count, from) at (mappages_lem root start p pg_size flag w tree (omega arith) b)

module _ (end root n start p flag : ℕ) (ps : List ℕ) (v : Vm) (left : v.pages ≡ p ∷ ps)
    (tree : HasTree root v) (whole : start % 4096 ≡ 0) (fits : start + suc n * 4096 ≤ max_va) where
  alloc-fault :
      mappages root start p pg_size flag (take_zeroed p ps v) ≡ none
      → alloc_pages (suc n) end root start flag v ≡ none
  unfolding alloc_pages
  alloc-fault d = rw (left, alloc_pages) (rw d refl)

  alloc-next :
      (r : ℤ) (v₁ : Vm)
      → mappages root start p pg_size flag (take_zeroed p ps v) ≡ some (r, v₁)
      → alloc_pages (suc n) end root start flag v ≡ elim (is_success r) [
        | true ↦ alloc_pages n end root (start + pg_size) flag v₁
        | false ↦ some (some start, record v₁ { pages = free_page end p v₁.pages })
      ]
  unfolding alloc_pages
  alloc-next r v₁ d = rw (left, alloc_pages) (rw d refl)

  same_space : (va : ℕ) → lookup root (take_zeroed p ps v) va ≡ lookup root v va
  same_space va = lookup-ptes root va v (take_zeroed p ps v) (λ a. refl)

  alone : has p ps ≡ false
  alone = let once : Distinct (p ∷ ps) = rw left at tree.1.once in once.0

  fewer :
      (r : ℤ) (v₁ : Vm)
      → mappages root start p pg_size flag (take_zeroed p ps v) ≡ some (r, v₁)
      → Within v₁.pages ps
  fewer r v₁ d = mappages-Within root start p pg_size flag (take_zeroed p ps v) v₁ r d

  after_map :
      ((v₁ : Vm)
        → HasTree root v₁
        → AllocEnd root n
            (start + pg_size)
            flag
            v₁
            (alloc_pages n end root (start + pg_size) flag v₁))
      → (r : Option (ℤ × Vm)) → mappages root start p pg_size flag (take_zeroed p ps v) ≡ r
      → MapEnd root 1 start p flag (take_zeroed p ps v) r
      → AllocEnd root (suc n) start flag v (alloc_pages (suc n) end root start flag v)
  after_map ih none d (k, l, used) =
      rw (alloc-fault d)
        (0, omega arith, λ e. used (same_space (start + k * 4096) ∙ ground (arith, e, l)))
  after_map ih (some (negsuc r, v₁)) d (z, (k, l, (tree₁, same))) =
      rw (alloc-next (negsuc r) v₁ d) (
        0,
        omega arith,
        omega arith,
        tables-tree root v₁ tree₁,
        Within-free_page end p v₁.pages v.pages (ground (arith, left)) (
            Within-trans v₁.pages ps v.pages (fewer (negsuc r) v₁ d)
              (Within-tail p ps v.pages left)),
        Extended-none root start flag v (record v₁ { pages = free_page end p v₁.pages })
            (λ va b. ground (
              arith,
              same va b,
              l,
              same_space va,
              lookup-ptes root va v₁ (record v₁ { pages = free_page end p v₁.pages }) (λ a. refl),
            )),
      )
  after_map ih (some (pos zero, v₁)) d (z, put, vacant) = rw (alloc-next (pos zero) v₁ d) (
      end-next root n start p flag ps v (take_zeroed p ps v) v₁ left alone (fewer (pos 0) v₁ d)
        whole fits (λ a. refl) put (ground (arith, vacant 0))
        (alloc_pages n end root (start + pg_size) flag v₁) (ih v₁ put.0))
  after_map ih (some (pos (suc r), v₁)) d (z, put, vacant) = absurd (omega (arith, z))

alloc-dry :
    (n end root start flag : ℕ) (v : Vm)
    → v.pages ≡ []
    → alloc_pages (suc n) end root start flag v ≡ some (some start, v)
unfolding alloc_pages
alloc-dry n end root start flag v e = ground (arith, e)

alloc_pages_lem :
    (n end root start flag : ℕ) (v : Vm)
    → HasTree root v
    → start % 4096 ≡ 0
    → start + n * 4096 ≤ max_va
    → AllocEnd root n start flag v (alloc_pages n end root start flag v)
unfolding alloc_pages
alloc_pages_lem zero end root start flag v tree h b =
    (tables-tree root v tree, (λ q a. a), Extended-none root start flag v v (λ va l. refl))
alloc_pages_lem (suc n) end root start flag v tree h b = elim (List-cases v.pages) [
  | inl empty ↦ rw (alloc-dry n end root start flag v empty) (
    0,
    omega arith,
    omega arith,
    tables-tree root v tree,
    (λ q a. a),
    Extended-none root start flag v v (λ va l. refl),
  )
  | inr (p, ps, left) ↦
      after_map end root n start p flag ps v left tree h b
        (λ v₁ t.
          alloc_pages_lem n end root (start + pg_size) flag v₁ t (omega (arith, h))
            (omega (arith, b)))
        (mappages root start p pg_size flag (take_zeroed p ps v)) refl
        (one_page root start p flag (take_zeroed p ps v) (taken-tree root p ps v left tree) h
          (omega (arith, b)))
]

-- What is left when the pages that a call mapped are unmapped again.
undone :
    (root k start flag : ℕ) (v v₁ v' : Vm)
    → start % 4096 ≡ 0
    → start + k * 4096 ≤ max_va
    → Extended root k start flag v v₁
    → Removed root k start v₁ v'
    → (va : ℕ) → va < max_va
    → lookup root v' va ≡ lookup root v va
undone root k start flag v v₁ v' h b (frame, taken, more) (j, l, last, all, tree, same) va small =
    let all_gone : j ≡ k = elim last [
      | inl e ↦ e
      | inr e ↦ elim (Bool-cases (ltb j k)) [
        | inl m ↦
            let page : (start + j * 4096) / 4096 ≡ start / 4096 + j = omega arith in
            let low : j < k = ground (arith, m) in
            let (free, there) =
              (more (start + j * 4096) (omega (arith, low, b))).0
                (omega arith, omega (arith, low, h)) in
            absurd (ground (arith, e, there))
        | inr m ↦ ground (arith, m, l)
      ]
    ] in
    elim (Bool-cases (leb (start / 4096) (va / 4096) && ltb (va / 4096) (start / 4096 + k))) [
      | inl inside ↦
          let free = ((more va small).0 (ground (arith, inside), ground (arith, inside))).0 in
          ground (arith, same va small, all_gone, inside, free)
      | inr outside ↦
          let kept = (more va small).1 outside in
          ground (arith, same va small, all_gone, outside, kept)
    ]

-- How a call of `uvm_alloc` ends.
abbrev pub Allocated : ℕ → ℕ → ℕ → ℕ → Vm → Option (ℕ × Vm) → Type 0
Allocated root start end_addr flag v none =
    (va : ℕ) × (start ≤ va) × (va < end_addr) × (lookup root v va ≢ none)
Allocated root start end_addr flag v (some (r, v')) =
    ((r ≡ end_addr) × Extended root ((end_addr + 4095 - start) / 4096) start flag v v')
    ⊎ ((r ≡ 0) × ((va : ℕ) → va < max_va → lookup root v' va ≡ lookup root v va))

module _ (end root start_addr end_addr flag : ℕ) (v : Vm) (fine : start_addr ≤ end_addr)
    (fits : pg_round_up end_addr ≤ max_va) where
  abbrev first : ℕ
  first = pg_round_up start_addr

  abbrev count : ℕ
  count = (end_addr + 4095 - first) / 4096

  count-fits : first + count * 4096 ≤ max_va
  count-fits = omega (arith, fine, fits)

  finish :
      (r : Option (Option ℕ × Vm))
      → alloc_pages count end root first flag v ≡ r
      → AllocEnd root count first flag v r
      → Allocated root first end_addr flag v (uvm_alloc end root start_addr end_addr flag v)
  unfolding uvm_alloc
  finish none d (k, l, used) =
      let run : uvm_alloc end root start_addr end_addr flag v ≡ none = ground (arith, d, fine) in
      rw run (first + k * 4096, omega arith, omega (arith, l), used)
  finish (some (none, v₁)) d (tree, fewer, more) =
      let run : uvm_alloc end root start_addr end_addr flag v ≡ some (end_addr, v₁) =
        ground (arith, d, fine) in
      rw run (inl (refl, more))
  finish (some (some addr, v₁)) d (k, l, at, tree, fewer, more) =
      let (v', back, gone) =
        uvm_unmap_lem end root first k true v₁ tree (omega arith) (omega (arith, l, count-fits)) in
      let pages : (addr - first) / 4096 ≡ k = omega (arith, at) in
      let run : uvm_alloc end root start_addr end_addr flag v ≡ some (0, v') =
        ground (arith, d, fine, pages, back) in
      rw run (
        inr (
          refl,
          undone root k first flag v v₁ v' (omega arith) (omega (arith, l, count-fits)) more gone,
        ))

-- For a range below `MAXVA`, `uvm_alloc` maps each of its pages, none of which was mapped, with the
-- flags to a physical page of its own: these were free pages, all different, and are free no longer;
-- and it leaves every other address alone. Or it returns 0 and leaves all addresses as they were, even
-- where some pages were already mapped when it failed. It does not come back only where a page of the
-- range was mapped before.
pub uvm_alloc_lem :
    (end root start_addr end_addr flag : ℕ) (v : Vm)
    → HasTree root v
    → start_addr ≤ end_addr
    → pg_round_up end_addr ≤ max_va
    → Allocated root
        (pg_round_up start_addr)
        end_addr
        flag
        v
        (uvm_alloc end root start_addr end_addr flag v)
uvm_alloc_lem end root start_addr end_addr flag v tree fine fits =
    finish end root start_addr end_addr flag v fine fits
      (alloc_pages (count end root start_addr end_addr flag v fine fits) end root
        (pg_round_up start_addr) flag v)
      refl
      (alloc_pages_lem (count end root start_addr end_addr flag v fine fits) end root
        (pg_round_up start_addr) flag v tree (omega arith)
        (count-fits end root start_addr end_addr flag v fine fits))
