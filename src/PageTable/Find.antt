-- ===== src/PageTable/Find.antt =====
-- `_mmu` of kernel/arch/vm.c: it ends at the entry of the address and changes no address.
use hsunix.Base.{
  ap, ℕ, ◌+◌, ◌*◌, ◌≡◌, ◌≢◌, ◌<◌, arith, List, ◌∷◌, Option, none, some, true, false, refl, sym,
  Bool-cases, inl, ◌∙◌, inr, List-cases,
}
use mathlib.Core.Option
use hsunix.PageTable.{Vm, pte2pa, pa2pte, is_valid, slot, px2, px1, px0, descend, find_pte}
use hsunix.PageTable.Space.{read_pte, lookup, Place, unused, top, mid, low, IsTree, px-split}
use hsunix.PageTable.Grow.{grow, lookup-grow, grow-IsTree, grow-read, settle, p_spare, link}

-- The tables grew: what was a table is one, entries stay, and no address changed.
pub record Grown (g g' : ℕ → Place) (root : ℕ) (v v' : Vm) : Type 0 where
  pub tree : IsTree g' root v'
  pub keeps : (q : ℕ) → g q ≢ unused → g' q ≡ g q
  pub stays :
      (u j e : ℕ)
      → g u ≢ unused
      → j < 512
      → read_pte (slot u j) v ≡ some e
      → read_pte (slot u j) v' ≡ some e
  pub same : (va : ℕ) → lookup root v' va ≡ lookup root v va

Grown-refl : {g : ℕ → Place} {root : ℕ} {v : Vm} → IsTree g root v → Grown g g root v v
Grown-refl t = record { tree = t; keeps = λ q a. refl; stays = λ u j e a x h. h; same = λ va. refl }

Grown-trans :
    {g g' g'' : ℕ → Place} {root : ℕ} {v v' v'' : Vm}
    → Grown g g' root v v'
    → Grown g' g'' root v' v''
    → Grown g g'' root v v''
Grown-trans a b = record {
  tree = b.tree;
  keeps = λ q x. b.keeps q (λ z. x (sym (a.keeps q x) ∙ z)) ∙ a.keeps q x;
  stays = λ u j e x y h. b.stays u j e (λ z. x (sym (a.keeps u x) ∙ z)) y (a.stays u j e x y h);
  same = λ va. b.same va ∙ a.same va;
}

-- Where a round of `_mmu` at entry i of table t ends: at a table in its place behind that entry, or
-- nowhere.
abbrev pub Descended : (ℕ → Place) → ℕ → ℕ → ℕ → Place → Vm → Option ℕ × Vm → Type 0
Descended g root t i at v r =
    (g' : ℕ → Place) × Grown g g' root v r.1
    × ((u : ℕ)
        → r.0 ≡ some u
        → (g' u ≡ at) × ((e : ℕ) × (read_pte (slot t i) r.1 ≡ some e) × (pte2pa e ≡ u)))

unread : (at : ℕ) (v : Vm) → is_valid (v.ptes at) ≡ false → read_pte at v ≡ none
unfolding read_pte
unread at v h = rw h

module _ {g : ℕ → Place} {root : ℕ} {v : Vm} (tree : IsTree g root v) where
  -- The round that takes a page.
  grown :
      (t i p : ℕ) (ps : List ℕ) (used : g t ≢ unused) (small : i < 512) (left : v.pages ≡ p ∷ ps)
      (free : is_valid (v.ptes (slot t i)) ≡ false)
      → ((k : ℕ) → g t ≢ low k)
      → (at : Place) → at ≢ unused
      → (t ≡ root → at ≡ mid i)
      → ((k : ℕ) → g t ≡ mid k → at ≡ low (k * 512 + i))
      → Descended g root t i at v (some p, grow t i p ps v)
  grown t i p ps used small left free upper at n r m =
      let spare = p_spare tree t i p ps used small left free in
      let read = grow-read tree t i p ps used small left free in
      (
        settle tree t i p ps used small left free at,
        record {
          tree = grow-IsTree tree t i p ps used small left free at n r m;
          keeps = λ q a. unfold settle in ground (arith, spare.0);
          stays = λ u j e a x h. ground (arith, read u j a x, unread (slot t i) v free, h);
          same = lookup-grow tree t i p ps used small left free upper;
        },
        λ u h. (
          unfold settle in ground (arith, h),
          (pa2pte p + 1, ground (arith, read t i used small), ground (arith, h, link p spare.1)),
        ),
      )

  descend_lem :
      (t i : ℕ) (at : Place)
      → g t ≢ unused
      → i < 512
      → ((k : ℕ) → g t ≢ low k)
      → at ≢ unused
      → (t ≡ root → at ≡ mid i)
      → ((k : ℕ) → g t ≡ mid k → at ≡ low (k * 512 + i))
      → (is_valid (v.ptes (slot t i)) ≡ true → g (pte2pa (v.ptes (slot t i))) ≡ at)
      → Descended g root t i at v (descend true (slot t i) v)
  unfolding descend
  descend_lem t i at used small upper n r m leads =
      elim (Bool-cases (is_valid (v.ptes (slot t i)))) [
        | inl valid ↦
            let e = v.ptes (slot t i) in
            let there : read_pte (slot t i) v ≡ some e = unfold read_pte in rw valid in
            rw (valid, descend)
              (
                g,
                Grown-refl tree,
                λ u h. (ground (arith, leads valid, h), (e, there, ground (arith, h))),
              )
        | inr free ↦ elim (List-cases v.pages) [
          | inl none_left ↦
              let stopped : descend true (slot t i) v ≡ (none, v) =
                ground (arith, free, none_left) in
              rw stopped (g, Grown-refl tree, λ u h. absurd (cc))
          | inr (p, ps, left) ↦
              let stepped : descend true (slot t i) v ≡ (some p, grow t i p ps v) =
                rw (free, left, descend) refl in
              rw stepped (grown t i p ps used small left free upper at n r m)
        ]
      ]

-- The walk of an address to the table of its last entry.
abbrev pub Walk : ℕ → ℕ → ℕ → Vm → Type 0
Walk root va u v =
    (e f : ℕ) × (read_pte (slot root (px2 va)) v ≡ some e)
    × (read_pte (slot (pte2pa e) (px1 va)) v ≡ some f)
    × (pte2pa f ≡ u)

pub lookup-Walk :
    (root va u : ℕ) (v : Vm) → Walk root va u v → lookup root v va ≡ read_pte (slot u (px0 va)) v
unfolding lookup
lookup-Walk root va u v walk = let (e, f, r, s, q) = walk in ground (arith, r, s, q)

-- Whatever `_mmu` returns, the tables grew at most; an entry that it returns ends the walk of the
-- address.
abbrev pub Found : (ℕ → Place) → ℕ → ℕ → Vm → Option ℕ × Vm → Type 0
Found g root va v r =
    (g' : ℕ → Place) × Grown g g' root v r.1
    × ((at : ℕ) → r.0 ≡ some at → (u : ℕ) × (at ≡ slot u (px0 va)) × Walk root va u r.1)

module _ {g : ℕ → Place} {root : ℕ} {v : Vm} (tree : IsTree g root v) (va : ℕ) where
  from_root : Descended g root root (px2 va) (mid (px2 va)) v (descend true (slot root (px2 va)) v)
  from_root =
      let r : g root ≡ top = tree.at_root in
      descend_lem tree root (px2 va) (mid (px2 va)) (ground (arith, r)) (px-split va).0
        (λ k. ground (arith, r)) (ground arith) (λ e. refl) (λ k h. absurd (ground (arith, r, h)))
        (tree.from_top (px2 va) (px-split va).0)

  from_middle :
      (t : ℕ)
      → g t ≡ mid (px2 va)
      → Descended g root t
          (px1 va)
          (low (px2 va * 512 + px1 va))
          v
          (descend true (slot t (px1 va)) v)
  from_middle t h =
      descend_lem tree t (px1 va) (low (px2 va * 512 + px1 va)) (ground (arith, h)) (px-split va).1
        (λ k. ground (arith, h)) (ground arith) (λ e. absurd (ground (arith, e, h, tree.at_root)))
        (λ k q. ground (arith, q, h)) (tree.from_mid t (px2 va) (px1 va) h (px-split va).1)

-- `_mmu` by its two rounds.
find_pte-none :
    (root va : ℕ) (v v₁ : Vm)
    → descend true (slot root (px2 va)) v ≡ (none, v₁)
    → find_pte true root va v ≡ (none, v₁)
unfolding find_pte
find_pte-none root va v v₁ d = rw (d, find_pte) d

find_pte-second :
    (root va t : ℕ) (v v₁ v₂ : Vm) (o : Option ℕ)
    → descend true (slot root (px2 va)) v ≡ (some t, v₁)
    → descend true (slot t (px1 va)) v₁ ≡ (o, v₂)
    → find_pte true root va v ≡ (Option.map (λ u. slot u (px0 va)) o, v₂)
unfolding find_pte
find_pte-second root va t v v₁ v₂ none d d₂ = rw (d, find_pte) (rw (d, d₂, find_pte) (rw d d₂))
find_pte-second root va t v v₁ v₂ (some u) d d₂ =
    rw (d, find_pte) (rw (d, d₂, find_pte) (rw (d, d₂) refl))

module _ {g : ℕ → Place} {root : ℕ} {v : Vm} (tree : IsTree g root v) (va : ℕ) where
  second_level :
      (t : ℕ) (v₁ : Vm) (g₁ : ℕ → Place) (e : ℕ)
      → descend true (slot root (px2 va)) v ≡ (some t, v₁)
      → Grown g g₁ root v v₁
      → g₁ t ≡ mid (px2 va)
      → read_pte (slot root (px2 va)) v₁ ≡ some e
      → pte2pa e ≡ t
      → (o : Option ℕ) (v₂ : Vm) → descend true (slot t (px1 va)) v₁ ≡ (o, v₂)
      → Found g root va v (find_pte true root va v)
  second_level t v₁ g₁ e d grew h r q none v₂ d₂ =
      let (g₂, grew₂, leads) = from_middle grew.tree va t h in
      rw (find_pte-second root va t v v₁ v₂ none d d₂)
        (g₂, rw d₂ at (Grown-trans grew grew₂), λ at z. absurd (cc))
  second_level t v₁ g₁ e d grew h r q (some u) v₂ d₂ =
      let (g₂, grew₂, leads) = from_middle grew.tree va t h in
      let used : g₁ root ≢ unused = ground (arith, grew.tree.at_root) in
      let still : read_pte (slot root (px2 va)) v₂ ≡ some e =
        rw d₂ at (grew₂.stays root (px2 va) e used (px-split va).0 r) in
      let (place, (f, behind, there)) = rw d₂ at (leads u (ap (λ p. p.0) d₂)) in
      rw (find_pte-second root va t v v₁ v₂ (some u) d d₂) (
        g₂,
        rw d₂ at (Grown-trans grew grew₂),
        λ at z. (u, ground (arith, z), (e, f, still, ground (arith, q, behind), there)),
      )

  pub find_pte_lem : Found g root va v (find_pte true root va v)
  find_pte_lem = from_first (descend true (slot root (px2 va)) v) refl
    where
      from_first :
          (r : Option ℕ × Vm)
          → descend true (slot root (px2 va)) v ≡ r
          → Found g root va v (find_pte true root va v)
      from_first (none, v₁) d =
          let (g₁, grew, leads) = from_root tree va in
          rw (find_pte-none root va v v₁ d) (g₁, rw d at grew, λ at z. absurd (cc))
      from_first (some t, v₁) d =
          let (g₁, grew, leads) = from_root tree va in
          let (place, (e, behind, there)) = rw d at (leads t (ap (λ p. p.0) d)) in
          second_level t v₁ g₁ e d (rw d at grew) place behind there
            (descend true (slot t (px1 va)) v₁).0 (descend true (slot t (px1 va)) v₁).1 refl
