-- ===== src/PageTable/Insert.antt =====
-- `mappages` of kernel/arch/vm.c as an insertion into the address space: one page.
use hsunix.Base.{
  ℕ, ◌+◌, ◌-◌, ◌*◌, ◌/◌, ◌%◌, ◌≡◌, ◌≢◌, ◌<◌, arith, Option, none, some, true, false, leb, ltb, ◌&&◌,
  if◌then◌else◌, Bool-cases, inl, inr, refl, ap, sym, ◌∙◌,
}
use hsunix.Base.Int.{ℤ, pos, negsuc}
use hsunix.Cstr.{Memory}
use hsunix.PageTable.{Vm, is_valid, slot, px0, put_pte, max_va, entry, find_pte, mmu, map_page}
use hsunix.PageTable.Space.{read_pte, lookup, Place, IsTree}
use hsunix.PageTable.Find.{Grown, Walk, find_pte_lem, lookup-Walk}
use hsunix.PageTable.Write.{seen, write-lookup, write-IsTree}

-- The state holds the tree of some placing of the tables.
abbrev pub HasTree : ℕ → Vm → Type 0
HasTree root v = (g : ℕ → Place) × IsTree g root v

-- The bytes of pages are no part of the tree.
pub HasTree-bytes :
    (root : ℕ) (v : Vm) (m : Memory) → HasTree root v → HasTree root (record v { bytes = m })
HasTree-bytes root v m (g, tree) = (
  g,
  record {
    at_root = tree.at_root;
    whole = tree.whole;
    from_top = tree.from_top;
    from_mid = tree.from_mid;
    spare = tree.spare;
    once = tree.once;
  },
)

-- The address space v' is v with n pages from `start` on mapped to those from `pa` on.
abbrev pub Inserted : ℕ → ℕ → ℕ → ℕ → ℕ → Vm → Vm → Type 0
Inserted root n start pa flag v v' =
    HasTree root v'
    × ((va : ℕ)
        → va < max_va
        → lookup root v' va ≡ (
            if leb (start / 4096) (va / 4096) && ltb (va / 4096) (start / 4096 + n)
            then some (entry (pa + (va / 4096 - start / 4096) * 4096) flag)
            else lookup root v va))

-- How a call ends that maps n pages: it does not return if one of them is mapped, it fails with
-- some of them mapped, or it has mapped them all, of which none was.
abbrev pub MapEnd : ℕ → ℕ → ℕ → ℕ → ℕ → Vm → Option (ℤ × Vm) → Type 0
MapEnd root n start pa flag v none = (k : ℕ) × (k < n) × (lookup root v (start + k * 4096) ≢ none)
MapEnd root n start pa flag v (some (pos r, v')) =
    (r ≡ 0)
    × Inserted root n start pa flag v v'
    × ((k : ℕ) → k < n → lookup root v (start + k * 4096) ≡ none)
MapEnd root n start pa flag v (some (negsuc r, v')) =
    (r ≡ 0) × ((k : ℕ) × (k < n) × Inserted root k start pa flag v v')

entry-valid : (pa flag : ℕ) → seen (entry pa flag) ≡ some (entry pa flag)
entry-valid pa flag = ground arith

-- The entry that a walk ends at is written.
module _ {g : ℕ → Place} {root : ℕ} {v : Vm} (tree : IsTree g root v) (va pa flag : ℕ)
    (small : va < max_va) (whole : va % 4096 ≡ 0) where
  mmu-find : mmu true root va v ≡ some (find_pte true root va v)
  unfolding mmu
  mmu-find = ground arith

  map_page-none :
      (v₁ : Vm)
      → find_pte true root va v ≡ (none, v₁)
      → map_page root va pa flag v ≡ some (negsuc 0, v₁)
  unfolding map_page
  map_page-none v₁ d = rw (mmu-find, map_page) (rw d refl)

  map_page-used :
      (at : ℕ) (v₁ : Vm)
      → find_pte true root va v ≡ (some at, v₁)
      → is_valid (v₁.ptes at) ≡ true
      → map_page root va pa flag v ≡ none
  unfolding map_page
  map_page-used at v₁ d h = rw (mmu-find, map_page) (rw d (rw h refl))

  map_page-some :
      (at : ℕ) (v₁ : Vm)
      → find_pte true root va v ≡ (some at, v₁)
      → is_valid (v₁.ptes at) ≡ false
      → map_page root va pa flag v
        ≡ some (pos 0, record v₁ { ptes = put_pte at (entry pa flag) v₁.ptes })
  unfolding map_page
  map_page-some at v₁ d h = rw (mmu-find, map_page) (rw d (rw h refl))

  entered :
      (g₁ : ℕ → Place) (u : ℕ) (v₁ : Vm)
      → Grown g g₁ root v v₁
      → Walk root va u v₁
      → Inserted root 1 va pa flag v
          (record v₁ { ptes = put_pte (slot u (px0 va)) (entry pa flag) v₁.ptes })
  entered g₁ u v₁ grew walk =
      let w : Vm = record v₁ { ptes = put_pte (slot u (px0 va)) (entry pa flag) v₁.ptes } in
      (
        (
          g₁,
          write-IsTree grew.tree va u walk (entry pa flag) w (λ a. refl) grew.tree.spare
              grew.tree.once,
        ),
        λ va' b. ground (
          arith,
          write-lookup grew.tree va u walk (entry pa flag) w (λ a. refl) va' small b,
          grew.same va',
          entry-valid pa flag,
        ),
      )

  vacant_or_not :
      (at : ℕ) (v₁ : Vm)
      → lookup root v va ≡ read_pte at v₁
      → (is_valid (v₁.ptes at) ≡ true → lookup root v (va + 0 * 4096) ≢ none)
        × (is_valid (v₁.ptes at) ≡ false → lookup root v (va + 0 * 4096) ≡ none)
  unfolding read_pte
  vacant_or_not at v₁ e = (ground (arith, e), ground (arith, e))

  pub map_page_lem : MapEnd root 1 va pa flag v (map_page root va pa flag v)
  map_page_lem = from_find (find_pte true root va v) refl
    where
      from_find :
          (r : Option ℕ × Vm)
          → find_pte true root va v ≡ r
          → MapEnd root 1 va pa flag v (map_page root va pa flag v)
      from_find (none, v₁) d =
          let (g₁, grew, leads) = find_pte_lem tree va in
          let same = rw d at grew in
          rw (map_page-none v₁ d)
            (refl, (0, omega arith, ((g₁, same.tree), λ va' b. ground (arith, same.same va'))))
      from_find (some at, v₁) d =
          let (g₁, grew, leads) = find_pte_lem tree va in
          let same = rw d at grew in
          let (u, here, walk) = rw d at (leads at (ap (λ p. p.0) d)) in
          let found = vacant_or_not at v₁ (
            sym (same.same va)
            ∙ lookup-Walk root va u v₁ walk
            ∙ ap (λ a. read_pte a v₁) (sym here)) in
          elim (Bool-cases (is_valid (v₁.ptes at))) [
            | inl used ↦ rw (map_page-used at v₁ d used) (0, omega arith, found.0 used)
            | inr vacant ↦ rw (map_page-some at v₁ d vacant) (
                rw here (refl, entered g₁ u v₁ same walk, λ k h. ground (arith, h, found.1 vacant)))
          ]
