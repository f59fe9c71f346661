-- ===== src/PageTable/Copy/Whole.antt =====
-- `uvm_copy` of kernel/arch/vm.c.
use hsunix.Base.{
  ℕ, suc, ◌+◌, ◌/◌, ◌%◌, ◌≡◌, ◌≢◌, ◌≤◌, arith, Option, none, some, true, false, ap, ◌∙◌, refl,
  Bool-cases, inl, inr, ◌⊎◌, sym, suc-cases, Option-cases,
}
use hsunix.Base.Int.{ℤ, pos, negsuc}
use hsunix.Kmem.{pg_size}
use hsunix.PageTable.{Vm, is_valid, pte2pa, pte_flags, max_va, slot, px0, mmu, mappages}
use hsunix.PageTable.Space.{lookup, lookup-ptes, read_pte}
use hsunix.PageTable.Find.{lookup-Walk, Walk}
use hsunix.PageTable.Insert.{HasTree, MapEnd, HasTree-bytes}
use hsunix.PageTable.Ranges.Peek.{no_table, at_entry, peek_lem}
use hsunix.PageTable.Copy.{
  CopyEnd, finished, refused, undone, move_page, copy_to_old, copy_page, copy_pages, uvm_copy,
  uvm_free,
}
use hsunix.PageTable.Ranges.Alloc.{one_page}
use hsunix.PageTable.Ranges.{uvm_free}

-- A round after which the loop does not go on.
abbrev pub Ends : Option (Option CopyEnd × Vm) → Type 0
Ends r = (r ≡ none) ⊎ ((e : CopyEnd) × (v : Vm) × (r ≡ some (some e, v)) × (e ≢ finished))

-- A page that is mapped is not mapped again.
mapped_twice :
    (root i pa flag : ℕ) (v : Vm)
    → HasTree root v
    → i + 4096 ≤ max_va
    → i % 4096 ≡ 0
    → lookup root v i ≢ none
    → (mappages root i pa pg_size flag v ≡ none)
      ⊎ ((v' : Vm) × (mappages root i pa pg_size flag v ≡ some (negsuc 0, v')))
mapped_twice root i pa flag v tree b h used =
    by_end (mappages root i pa pg_size flag v) (one_page root i pa flag v tree h b)
  where
    by_end :
        (r : Option (ℤ × Vm))
        → MapEnd root 1 i pa flag v r
        → (r ≡ none) ⊎ ((v' : Vm) × (r ≡ some (negsuc 0, v')))
    by_end none m = inl refl
    by_end (some (negsuc r, v')) (z, m) = inr (v', ground (arith, z))
    by_end (some (pos r, v')) (z, m, vacant) = absurd (used (ground (arith, vacant 0)))

module _ (dest i s_pte : ℕ) (v : Vm) (tree : HasTree dest v) (b : i + 4096 ≤ max_va)
    (h : i % 4096 ≡ 0) where
  module _ (u : ℕ) (d : mmu false dest i v ≡ some (some (slot u (px0 i)), v))
      (valid : is_valid (v.ptes (slot u (px0 i))) ≡ true) where
    abbrev moved : Vm
    moved = move_page (pte2pa (v.ptes (slot u (px0 i)))) (pte2pa s_pte) v

    old-fault :
        mappages dest i (pte2pa (v.ptes (slot u (px0 i)))) pg_size (pte_flags s_pte) moved ≡ none
        → copy_to_old dest i s_pte v ≡ none
    unfolding copy_to_old
    old-fault m = rw (d, copy_to_old) (rw valid (rw m refl))

    old-fail :
        (v' : Vm)
        → mappages dest i (pte2pa (v.ptes (slot u (px0 i)))) pg_size (pte_flags s_pte) moved
          ≡ some (negsuc 0, v')
        → copy_to_old dest i s_pte v ≡ some (some refused, v')
    unfolding copy_to_old
    old-fail v' m = rw (d, copy_to_old) (rw valid (rw m refl))

    old-Ends : lookup dest v i ≢ none → Ends (copy_to_old dest i s_pte v)
    old-Ends used =
        let pa = pte2pa (v.ptes (slot u (px0 i))) in
        let still : lookup dest moved i ≢ none =
          λ e. used (sym (lookup-ptes dest i v moved (λ a. refl)) ∙ e) in
        elim (mapped_twice dest i pa (pte_flags s_pte) moved (HasTree-bytes dest v moved.bytes tree)
          b h still) [
            | inl m ↦ inl (old-fault m)
            | inr (v', m) ↦ inr (refused, v', old-fail v' m, λ q. absurd (cc))
          ]

  old-empty :
      (u : ℕ)
      → mmu false dest i v ≡ some (some (slot u (px0 i)), v)
      → is_valid (v.ptes (slot u (px0 i))) ≡ false
      → copy_to_old dest i s_pte v ≡ some (some (undone i), v)
  unfolding copy_to_old
  old-empty u d e = rw (d, copy_to_old) (rw e refl)

  old-no_table :
      mmu false dest i v ≡ some (none, v) → copy_to_old dest i s_pte v ≡ some (some (undone i), v)
  unfolding copy_to_old
  old-no_table d = rw (d, copy_to_old) refl

  mapped :
      (u : ℕ) → Walk dest i u v → is_valid (v.ptes (slot u (px0 i))) ≡ true → lookup dest v i ≢ none
  unfolding read_pte
  mapped u w e = ground (arith, lookup-Walk dest i u v w, e)

  copy_to_old-Ends : Ends (copy_to_old dest i s_pte v)
  copy_to_old-Ends = elim (peek_lem dest i v (omega (arith, b))) [
    | no_table d e ↦ inr (undone i, v, old-no_table d, λ q. absurd (cc))
    | at_entry u d w ↦ elim (Bool-cases (is_valid (v.ptes (slot u (px0 i))))) [
      | inr empty ↦ inr (undone i, v, old-empty u d empty, λ q. absurd (cc))
      | inl valid ↦ old-Ends u d valid (mapped u w valid)
    ]
  ]

module _ (end dest src i : ℕ) (v : Vm) where
  no_source :
      mmu false src i v ≡ some (none, v) → copy_page end dest src i false v ≡ some (some refused, v)
  unfolding copy_page
  no_source d = rw (d, copy_page) refl

  empty_source :
      (at : ℕ)
      → mmu false src i v ≡ some (some at, v)
      → is_valid (v.ptes at) ≡ false
      → copy_page end dest src i false v ≡ some (some refused, v)
  unfolding copy_page
  empty_source at d e = rw (d, copy_page) (rw e refl)

  source :
      (at : ℕ)
      → mmu false src i v ≡ some (some at, v)
      → is_valid (v.ptes at) ≡ true
      → copy_page end dest src i false v ≡ copy_to_old dest i (v.ptes at) v
  unfolding copy_page
  source at d e = rw (d, copy_page) (rw e refl)

  copy_page-Ends :
      HasTree dest v → i + 4096 ≤ max_va → i % 4096 ≡ 0 → Ends (copy_page end dest src i false v)
  copy_page-Ends tree b h = elim (peek_lem src i v (omega (arith, b))) [
    | no_table d e ↦ inr (refused, v, no_source d, λ q. absurd (cc))
    | at_entry u d w ↦ elim (Bool-cases (is_valid (v.ptes (slot u (px0 i))))) [
      | inr empty ↦ inr (refused, v, empty_source (slot u (px0 i)) d empty, λ q. absurd (cc))
      | inl valid ↦
          rw (source (slot u (px0 i)) d valid)
            (copy_to_old-Ends dest i (v.ptes (slot u (px0 i))) v tree b h)
    ]
  ]

-- The loop ends as its first round does.
copy_pages-Ends :
    (n end dest src : ℕ) (v v' : Vm)
    → Ends (copy_page end dest src 0 false v)
    → copy_pages (suc n) end dest src 0 false v ≢ some (finished, v')
unfolding copy_pages
copy_pages-Ends n end dest src v v' (inl e) q = ground (arith, e, q)
copy_pages-Ends n end dest src v v' (inr (c, w, e, f)) q = ground (arith, e, q, f)

zero_finished :
    (end dest src sz r : ℕ) (v v' : Vm) (o : Option (CopyEnd × Vm))
    → copy_pages ((sz + 4095) / 4096) end dest src 0 false v ≡ o
    → uvm_copy end dest src sz false v ≡ some (pos r, v')
    → o ≡ some (finished, v')
unfolding uvm_copy
zero_finished end dest src sz r v v' none d q = ground (arith, d, q)
zero_finished end dest src sz r v v' (some (finished, w)) d q = ground (arith, d, q)
zero_finished end dest src sz r v v' (some (refused, w)) d q = ground (arith, d, q)
zero_finished end dest src sz r v v' (some (undone i, w)) d q =
    ground (arith, d, q, Option-cases (uvm_free end dest 0 i w))

-- Without `alloc`, `uvm_copy` of a byte or more never returns 0: a page of the destination that is
-- mapped is mapped again, which `mappages` does not come back from, and one that is not is an error.
pub uvm_copy-old :
    (end dest src sz r : ℕ) (v v' : Vm)
    → HasTree dest v
    → sz ≢ 0
    → uvm_copy end dest src sz false v ≢ some (pos r, v')
uvm_copy-old end dest src sz r v v' tree z q =
    let (n, e) = suc-cases ((sz + 4095) / 4096) (omega (arith, z)) in
    let ends = copy_page-Ends end dest src 0 v tree (omega arith) (omega arith) in
    copy_pages-Ends n end dest src v v' ends (
      ap (λ m. copy_pages m end dest src 0 false v) (sym e)
      ∙ zero_finished end dest src sz r v v'
          (copy_pages ((sz + 4095) / 4096) end dest src 0 false v) refl q)
