-- ===== src/PageTable/Ranges/Pages.antt =====
-- The free pages of kernel/arch/vm.c while pages are mapped: none is added.
use mathlib.Core.Path.{subst}
use hsunix.Base.{
  ℕ, zero, suc, ◌+◌, ◌≡◌, List, ◌∷◌, Option, none, some, Bool, true, false, arith, refl, ◌==◌,
  Bool-cases, List-cases, Option-cases, inl, inr, leb,
}
use hsunix.Base.Int.{ℤ, pos, negsuc}
use hsunix.Kmem.{pg_size}
use hsunix.Kmem.Pages.{free_page}
use hsunix.PageTable.{
  Vm, is_valid, slot, px2, px1, max_va, descend, find_pte, mmu, map_page, map_pages, mappages, ℤ,
  pos,
}
use hsunix.PageTable.Space.{has}

-- What is not in the list m is not in l.
abbrev pub Within : List ℕ → List ℕ → Type 0
Within l m = (q : ℕ) → has q m ≡ false → has q l ≡ false

abbrev KeptAll : Vm → Option (ℤ × Vm) → Type 0
KeptAll v none = Unit
KeptAll v (some (r, v')) = Within v'.pages v.pages

pub Within-tail : (p : ℕ) (ps l : List ℕ) → l ≡ p ∷ ps → Within ps l
Within-tail p ps l e q h = ground (arith, e, h)

pub Within-trans : (k l m : List ℕ) → Within k l → Within l m → Within k m
Within-trans k l m h g q a = h q (g q a)

pub Within-free_page :
    (end p : ℕ) (l m : List ℕ) → has p m ≡ true → Within l m → Within (free_page end p l) m
unfolding free_page
Within-free_page end p l m h g q a = ground (arith, h, a, g q a)

descend-Within : (alloc : Bool) (at : ℕ) (v : Vm) → Within (descend alloc at v).1.pages v.pages
unfolding descend
descend-Within false at v q h = ground (arith, h)
descend-Within true at v q h = elim (Bool-cases (is_valid (v.ptes at))) [
  | inl valid ↦ rw (valid, descend) h
  | inr empty ↦ elim (List-cases v.pages) [
    | inl dry ↦ rw (empty, descend) (rw dry h)
    | inr (p, ps, left) ↦ rw (empty, descend) (rw left (ground (arith, left, h)))
  ]
]

find_pte-Within : (pgtab va : ℕ) (v : Vm) → Within (find_pte true pgtab va v).1.pages v.pages
unfolding find_pte
find_pte-Within pgtab va v =
    let top = descend true (slot pgtab (px2 va)) v in
    let first = descend-Within true (slot pgtab (px2 va)) v in
    elim (Option-cases top.0) [
      | inl none_left ↦ rw (none_left, find_pte) first
      | inr (t, found) ↦
          let second = descend-Within true (slot t (px1 va)) top.1 in
          let mid = descend true (slot t (px1 va)) top.1 in
          elim (Option-cases mid.0) [
            | inl none_left ↦
                rw (found, find_pte)
                  (rw none_left (Within-trans mid.1.pages top.1.pages v.pages second first))
            | inr (u, there) ↦
                rw (found, find_pte)
                  (rw there (Within-trans mid.1.pages top.1.pages v.pages second first))
          ]
    ]

map_page-KeptAll :
    (pgtab va pa flag : ℕ) (v : Vm) (r : Option ℕ × Vm)
    → find_pte true pgtab va v ≡ r
    → Within r.1.pages v.pages
    → KeptAll v (map_page pgtab va pa flag v)
unfolding map_page mmu
map_page-KeptAll pgtab va pa flag v (none, v₁) e h = elim (Bool-cases (leb max_va va)) [
  | inl far ↦ rw (far, map_page) tt
  | inr near ↦ rw (near, map_page) (rw e h)
]
map_page-KeptAll pgtab va pa flag v (some at, v₁) e h = elim (Bool-cases (leb max_va va)) [
  | inl far ↦ rw (far, map_page) tt
  | inr near ↦ elim (Bool-cases (is_valid (v₁.ptes at))) [
    | inl used ↦ rw (near, map_page) (rw e (rw used tt))
    | inr vacant ↦ rw (near, map_page) (rw e (rw vacant h))
  ]
]

KeptAll-trans :
    (v v₁ : Vm) (o : Option (ℤ × Vm)) → Within v₁.pages v.pages → KeptAll v₁ o → KeptAll v o
KeptAll-trans v v₁ none h k = tt
KeptAll-trans v v₁ (some (r, v')) h k = Within-trans v'.pages v₁.pages v.pages k h

module _ (n pgtab start pa flag : ℕ) (v : Vm) where
  after_page :
      ((v₁ : Vm) → KeptAll v₁ (map_pages n pgtab (start + pg_size) (pa + pg_size) flag v₁))
      → (o : Option (ℤ × Vm)) → map_page pgtab start pa flag v ≡ o
      → KeptAll v o
      → KeptAll v (map_pages (suc n) pgtab start pa flag v)
  unfolding map_pages
  after_page ih none e h = rw (e, map_pages) tt
  after_page ih (some (negsuc d, v₁)) e h = rw (e, map_pages) h
  after_page ih (some (pos d, v₁)) e h =
      rw (e, map_pages)
        (KeptAll-trans v v₁ (map_pages n pgtab (start + pg_size) (pa + pg_size) flag v₁) h (ih v₁))

map_pages-KeptAll :
    (n pgtab start pa flag : ℕ) (v : Vm) → KeptAll v (map_pages n pgtab start pa flag v)
unfolding map_pages
map_pages-KeptAll zero pgtab start pa flag v = λ q h. h
map_pages-KeptAll (suc n) pgtab start pa flag v =
    after_page n pgtab start pa flag v
      (λ v₁. map_pages-KeptAll n pgtab (start + pg_size) (pa + pg_size) flag v₁)
      (map_page pgtab start pa flag v) refl
      (map_page-KeptAll pgtab start pa flag v (find_pte true pgtab start v) refl
        (find_pte-Within pgtab start v))

mappages-KeptAll :
    (pgtab va pa size flag : ℕ) (v : Vm) → KeptAll v (mappages pgtab va pa size flag v)
unfolding mappages
mappages-KeptAll pgtab va pa size flag v = elim (Bool-cases (size == 0)) [
  | inl nothing ↦ rw (nothing, mappages) tt
  | inr bytes ↦ rw (bytes, mappages) (map_pages-KeptAll _ pgtab _ pa flag v)
]

-- A call of `mappages` that comes back only takes pages, for tables.
pub mappages-Within :
    (pgtab va pa size flag : ℕ) (v v' : Vm) (r : ℤ)
    → mappages pgtab va pa size flag v ≡ some (r, v')
    → Within v'.pages v.pages
mappages-Within pgtab va pa size flag v v' r e =
    subst (KeptAll v) e (mappages-KeptAll pgtab va pa size flag v)
