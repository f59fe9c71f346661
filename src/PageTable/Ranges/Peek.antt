-- ===== src/PageTable/Ranges/Peek.antt =====
-- `_mmu` of kernel/arch/vm.c where it may not take a page, and the addresses that `kvm_pageaddr`
-- reads with it.
use hsunix.Base.{
  ℕ, ◌≡◌, ◌<◌, arith, Option, none, some, false, Option-cases, inl, inr, refl, if◌then◌else◌, ◌/◌,
  ◌⊎◌, ◌*◌,
}
use hsunix.PageTable.{Vm, pte2pa, slot, px2, px1, px0, max_va, descend, find_pte, mmu, is_user}
use hsunix.PageTable.Space.{read_pte, lookup, read_pte-some}
use hsunix.PageTable.Find.{Walk, lookup-Walk}
use hsunix.PageTable.Ranges.{kvm_pageaddr}

descend-valid :
    (at e : ℕ) (v : Vm) → read_pte at v ≡ some e → descend false at v ≡ (some (pte2pa e), v)
unfolding descend
descend-valid at e v h = ground (arith, read_pte-some at e v h)

descend-void : (at : ℕ) (v : Vm) → read_pte at v ≡ none → descend false at v ≡ (none, v)
unfolding descend read_pte
descend-void at v h = ground (arith, h)

-- Where the walk of the address ends, if it does.
pub data Peek (root va : ℕ) (v : Vm) : Option (Option ℕ × Vm) → Type 0 where
  no_table :
      {r : Option (Option ℕ × Vm)} → r ≡ some (none, v) → lookup root v va ≡ none → Peek root va v r
  at_entry :
      {r : Option (Option ℕ × Vm)} (u : ℕ)
      → r ≡ some (some (slot u (px0 va)), v)
      → Walk root va u v
      → Peek root va v r

-- Without leave to take a page, `_mmu` changes nothing and ends at the entry of the walk.
pub peek_lem : (root va : ℕ) (v : Vm) → va < max_va → Peek root va v (mmu false root va v)
unfolding mmu find_pte lookup
peek_lem root va v b = elim (Option-cases (read_pte (slot root (px2 va)) v)) [
  | inl a ↦
      let d = descend-void (slot root (px2 va)) v a in
      no_table (ground (arith, d)) (ground (arith, a))
  | inr (e, a) ↦ elim (Option-cases (read_pte (slot (pte2pa e) (px1 va)) v)) [
    | inl c ↦
        let d = descend-valid (slot root (px2 va)) e v a in
        let d' = descend-void (slot (pte2pa e) (px1 va)) v c in
        no_table (ground (arith, d, d')) (ground (arith, a, c))
    | inr (f, c) ↦
        let d = descend-valid (slot root (px2 va)) e v a in
        let d' = descend-valid (slot (pte2pa e) (px1 va)) f v c in
        at_entry (pte2pa f) (ground (arith, d, d')) (e, f, a, c, refl)
  ]
]

module _ (root va : ℕ) (v : Vm) (small : va < max_va) where
  kvm_pageaddr-no_table : mmu false root va v ≡ some (none, v) → kvm_pageaddr root va v ≡ none
  unfolding kvm_pageaddr
  kvm_pageaddr-no_table d = ground (arith, d)

  kvm_pageaddr-at :
      (at : ℕ)
      → mmu false root va v ≡ some (some at, v)
      → kvm_pageaddr root va v
        ≡ some (elim (read_pte at v) [ none ↦ 0 | some e ↦ if is_user e then pte2pa e else 0 ])
  unfolding kvm_pageaddr read_pte
  kvm_pageaddr-at at d = ground (arith, d)

  -- What `kvm_pageaddr` says of an address below `MAXVA`: of one with an entry, the page if the user
  -- may reach it and else 0; of one without, 0, or, where even its table is missing, it does not come
  -- back.
  pub kvm_pageaddr_lem :
      ((e : ℕ)
        → lookup root v va ≡ some e
        → kvm_pageaddr root va v ≡ some (if is_user e then pte2pa e else 0))
      × (lookup root v va ≡ none
          → (kvm_pageaddr root va v ≡ none) ⊎ (kvm_pageaddr root va v ≡ some 0))
  kvm_pageaddr_lem = elim (peek_lem root va v small) [
    | no_table d n ↦ (λ e h. absurd (ground (arith, h, n)), λ h. inl (kvm_pageaddr-no_table d))
    | at_entry u d w ↦
        let r = kvm_pageaddr-at (slot u (px0 va)) d in
        let l = lookup-Walk root va u v w in
        (λ e h. ground (arith, r, l, h), λ h. inr (ground (arith, r, l, h)))
  ]

-- One page has one entry.
pub lookup-page : (root va : ℕ) (v : Vm) → lookup root v (va / 4096 * 4096) ≡ lookup root v va
unfolding lookup
lookup-page root va v =
    let a : px2 (va / 4096 * 4096) ≡ px2 va = omega arith in
    let b : px1 (va / 4096 * 4096) ≡ px1 va = omega arith in
    let c : px0 (va / 4096 * 4096) ≡ px0 va = omega arith in rw (a, b, c) refl
