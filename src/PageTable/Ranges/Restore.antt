-- ===== src/PageTable/Ranges/Restore.antt =====
-- `uvm_unmap` of kernel/arch/vm.c after `mappages`.
use hsunix.Base.{
  ℕ, ◌+◌, ◌-◌, ◌*◌, ◌/◌, ◌%◌, ◌≡◌, ◌≢◌, ◌<◌, ◌≤◌, arith, none, some, Bool, ltb, Bool-cases, inl,
  inr, sym, ◌∙◌,
}
use hsunix.PageTable.{Vm, max_va, mappages, pos}
use hsunix.PageTable.Space.{lookup}
use hsunix.PageTable.Map.{page_count, mappages_lem}
use hsunix.PageTable.Insert.{HasTree, Inserted}
use hsunix.PageTable.Ranges.{uvm_unmap}
use hsunix.PageTable.Ranges.Peek.{lookup-page}
use hsunix.Base.Int.{pos}
use hsunix.PageTable.Ranges.Unmap.{Removed, uvm_unmap_lem, tables-tree}

module _ (root n start pa flag : ℕ) (v v₁ v' : Vm) (whole : start % 4096 ≡ 0)
    (fits : start + n * 4096 ≤ max_va) (put : Inserted root n start pa flag v v₁)
    (vacant : (k : ℕ) → k < n → lookup root v (start + k * 4096) ≡ none) where
  -- A page of the range is mapped, and was not.
  put-some : (k : ℕ) → k < n → lookup root v₁ (start + k * 4096) ≢ none
  put-some k l =
      let page : (start + k * 4096) / 4096 ≡ start / 4096 + k = omega arith in
      ground (arith, put.1 (start + k * 4096) (omega (arith, l, fits)), page, l)

  was-none :
      (a : ℕ) → start / 4096 ≤ a / 4096 → a / 4096 < start / 4096 + n → lookup root v a ≡ none
  was-none a h k =
      let page : a / 4096 * 4096 ≡ start + (a / 4096 - start / 4096) * 4096 =
        omega (arith, h, whole) in
      let there : lookup root v (a / 4096 * 4096) ≡ none =
        rw page (vacant (a / 4096 - start / 4096) (omega (arith, h, k))) in
      sym (lookup-page root a v) ∙ there

  undone : Removed root n start v₁ v' → (a : ℕ) → a < max_va → lookup root v' a ≡ lookup root v a
  undone (k, l, last, all, tree, same) a small =
      let all_gone : k ≡ n = elim last [
        | inl e ↦ e
        | inr e ↦ elim (Bool-cases (ltb k n)) [
          | inl m ↦ absurd (put-some k (ground (arith, m)) e)
          | inr m ↦ ground (arith, m, l)
        ]
      ] in
      ground (arith, same a small, put.1 a small, was-none a, all_gone)

-- What `mappages` mapped `uvm_unmap` takes out again, and the address space is as it was before, with
-- or without the pages given back.
pub uvm_unmap-mappages :
    (end root va pa size flag : ℕ) (free : Bool) (v v₁ : Vm)
    → HasTree root v
    → size ≢ 0
    → va + size ≤ max_va
    → mappages root va pa size flag v ≡ some (pos 0, v₁)
    → (v' : Vm) × (uvm_unmap end root (va / 4096 * 4096) (page_count va size) free v₁ ≡ some v')
      × ((a : ℕ) → a < max_va → lookup root v' a ≡ lookup root v a)
uvm_unmap-mappages end root va pa size flag free v v₁ tree z b run =
    let (r, (tree₁, mapped), vacant) = rw run at (mappages_lem root va pa size flag v tree z b) in
    let (v', done, gone) =
      uvm_unmap_lem end root (va / 4096 * 4096) (page_count va size) free v₁
        (tables-tree root v₁ tree₁) (omega arith) (omega (arith, z, b)) in
    (
      v',
      done,
      undone root (page_count va size) (va / 4096 * 4096) pa flag v v₁ v' (omega arith)
          (omega (arith, z, b)) (tree₁, mapped) vacant gone,
    )
