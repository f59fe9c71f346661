-- ===== src/PageTable/Map.antt =====
-- `mappages` of kernel/arch/vm.c as an insertion into the address space: ranges.
use hsunix.Base.{
  ℕ, zero, suc, ◌+◌, ◌-◌, ◌*◌, ◌/◌, ◌%◌, ◌≡◌, ◌≢◌, ◌<◌, ◌≤◌, arith, Option, none, some, false, ◌==◌,
  refl, ap, sym, ◌∙◌,
}
use hsunix.Base.Int.{ℤ, pos, negsuc}
use hsunix.Kmem.{pg_size}
use hsunix.PageTable.{Vm, max_va, map_page, map_pages, mappages, pg_round_down}
use hsunix.PageTable.Space.{lookup}
use hsunix.PageTable.Insert.{HasTree, Inserted, MapEnd, map_page_lem}

Inserted-next :
    (root n start pa flag : ℕ) (v v₁ v' : Vm)
    → Inserted root 1 start pa flag v v₁
    → Inserted root n (start + pg_size) (pa + pg_size) flag v₁ v'
    → Inserted root (suc n) start pa flag v v'
Inserted-next root n start pa flag v v₁ v' a b =
    (b.0, λ va small. ground (arith, a.1 va small, b.1 va small, pages va))
  where
    pages :
        (va : ℕ)
        → start / 4096 + 1 ≤ va / 4096
        → (pa + pg_size) + (va / 4096 - (start + pg_size) / 4096) * 4096
          ≡ pa + (va / 4096 - start / 4096) * 4096
    pages va h = omega (arith, h)

later :
    (root start k pa flag : ℕ) (v v₁ : Vm)
    → Inserted root 1 start pa flag v v₁
    → start % 4096 ≡ 0
    → start + suc k * 4096 < max_va
    → lookup root v₁ (start + pg_size + k * 4096) ≡ lookup root v (start + suc k * 4096)
later root start k pa flag v v₁ a h b =
    let to : start + pg_size + k * 4096 ≡ start + suc k * 4096 = omega arith in
    let past : (start + suc k * 4096) / 4096 ≢ start / 4096 = omega (arith, h) in
    rw to (ground (arith, a.1 (start + suc k * 4096) b, past))

module _ (n root start pa flag : ℕ) (v : Vm) (whole : start % 4096 ≡ 0)
    (small : start + suc n * 4096 ≤ max_va) where
  map_pages-next :
      (r : ℕ) (v₁ : Vm)
      → map_page root start pa flag v ≡ some (pos r, v₁)
      → map_pages (suc n) root start pa flag v
        ≡ map_pages n root (start + pg_size) (pa + pg_size) flag v₁
  unfolding map_pages
  map_pages-next r v₁ d = rw (d, map_pages) refl

  -- The first page and the rest.
  first_then :
      (v₁ : Vm) (r : Option (ℤ × Vm))
      → Inserted root 1 start pa flag v v₁
      → lookup root v start ≡ none
      → MapEnd root n (start + pg_size) (pa + pg_size) flag v₁ r
      → MapEnd root (suc n) start pa flag v r
  first_then v₁ none a o (k, l, m) = (
    suc k,
    omega (arith, l),
    λ e. m (later root start k pa flag v v₁ a whole (omega (arith, l, small)) ∙ e),
  )
  first_then v₁ (some (pos r, v')) a o (z, i, m) =
      (z, Inserted-next root n start pa flag v v₁ v' a i, vacant)
    where
      vacant : (k : ℕ) → k < suc n → lookup root v (start + k * 4096) ≡ none
      vacant zero l = ground (arith, o)
      vacant (suc k) l =
          sym (later root start k pa flag v v₁ a whole (omega (arith, l, small)))
          ∙ m k (omega (arith, l))
  first_then v₁ (some (negsuc r, v')) a o (z, (k, l, i)) =
      (z, (suc k, omega (arith, l), Inserted-next root k start pa flag v v₁ v' a i))

  from_page :
      ((v₁ : Vm)
        → HasTree root v₁
        → MapEnd root n
            (start + pg_size)
            (pa + pg_size)
            flag
            v₁
            (map_pages n root (start + pg_size) (pa + pg_size) flag v₁))
      → (r : Option (ℤ × Vm)) → map_page root start pa flag v ≡ r
      → MapEnd root 1 start pa flag v r
      → MapEnd root (suc n) start pa flag v (map_pages (suc n) root start pa flag v)
  unfolding map_pages
  from_page ih none d (k, l, used) =
      rw (d, map_pages) (0, omega arith, λ e. used (ground (arith, l, e)))
  from_page ih (some (negsuc r, v₁)) d (z, (k, l, i)) =
      rw (d, map_pages) (z, (k, omega (arith, l), i))
  from_page ih (some (pos r, v₁)) d (z, i, vacant) = rw (map_pages-next r v₁ d) (
      first_then v₁ (map_pages n root (start + pg_size) (pa + pg_size) flag v₁) i
        (ground (arith, vacant 0)) (ih v₁ i.0))

map_pages_lem :
    (n root start pa flag : ℕ) (v : Vm)
    → HasTree root v
    → start % 4096 ≡ 0
    → start + n * 4096 ≤ max_va
    → MapEnd root n start pa flag v (map_pages n root start pa flag v)
unfolding map_pages
map_pages_lem zero root start pa flag v tree h b =
    (refl, (tree, λ va l. ground arith), λ k l. absurd (omega (arith, l)))
map_pages_lem (suc n) root start pa flag v tree h b =
    from_page n root start pa flag v h b
      (λ v₁ t.
        map_pages_lem n root (start + pg_size) (pa + pg_size) flag v₁ t (omega (arith, h))
          (omega (arith, b)))
      (map_page root start pa flag v) refl (map_page_lem tree.1 start pa flag (omega (arith, b)) h)

-- The pages that `mappages` maps for a range of addresses.
abbrev pub page_count : ℕ → ℕ → ℕ
page_count va size = (va + size - 1) / 4096 - va / 4096 + 1

-- For a range of a byte or more below `MAXVA`, `mappages` ends in one of three ways. It returns 0, and
-- each page of the range, none of which was mapped, has the entry of the physical page at the same
-- distance with the flags of the call, and every other address keeps its entry. It returns -1, and
-- this holds of the pages before one of the range, with nothing else changed. Or it does not come
-- back, and a page of the range was mapped before. Where it returns the tables are a tree still.
pub mappages_lem :
    (root va pa size flag : ℕ) (v : Vm)
    → HasTree root v
    → size ≢ 0
    → va + size ≤ max_va
    → MapEnd root
        (page_count va size)
        (va / 4096 * 4096)
        pa
        flag
        v
        (mappages root va pa size flag v)
unfolding mappages
mappages_lem root va pa size flag v tree h b =
    let count : (pg_round_down (va + size - 1) - pg_round_down va) / pg_size + 1
        ≡ page_count va size =
      omega (arith, h) in
    let nonzero : (size == 0) ≡ false = ground (arith, h) in
    let run : mappages root va pa size flag v
        ≡ map_pages (page_count va size) root (va / 4096 * 4096) pa flag v =
      rw (nonzero, mappages) (ap (λ c. map_pages c root (va / 4096 * 4096) pa flag v) count) in
    rw run (
      map_pages_lem (page_count va size) root (va / 4096 * 4096) pa flag v tree (omega arith)
        (omega (arith, h, b)))
