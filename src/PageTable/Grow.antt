-- ===== src/PageTable/Grow.antt =====
-- A table more in the tree of kernel/arch/vm.c: `_mmu` takes a page, zeroes it and links it.
use hsunix.Base.{
  ℕ, ◌+◌, ◌*◌, ◌%◌, ◌≡◌, ◌≢◌, ◌<◌, arith, List, ◌∷◌, none, some, true, false, ◌==◌, ◌&&◌,
  if◌then◌else◌, Bool-cases, inl, inr, Option-cases, ap, sym, ◌∙◌,
}
use hsunix.PageTable.{Vm, pte2pa, pa2pte, is_valid, slot, px2, px1, px0, put_pte, zero_page}
use hsunix.PageTable.Space.{
  read_pte, lookup, Place, unused, mid, low, IsTree, lookup_cong, px-split, mid_table, low_table,
  put_pte-read, put_pte-fresh,
}

-- The state after page p became the table behind entry i of table t.
abbrev pub grow : ℕ → ℕ → ℕ → List ℕ → Vm → Vm
grow t i p ps v = record v {
  ptes = put_pte (slot t i) (pa2pte p + 1) (zero_page p v.ptes);
  pages = ps;
}

-- The entry that links a page.
pub link : (p : ℕ) → p % 4096 ≡ 0 → (is_valid (pa2pte p + 1) ≡ true) × (pte2pa (pa2pte p + 1) ≡ p)
link p h = (ground arith, omega (arith, h))

module _ {g : ℕ → Place} {root : ℕ} {v : Vm} (tree : IsTree g root v) where
  module _ (t i p : ℕ) (ps : List ℕ) (used : g t ≢ unused) (small : i < 512)
      (some_left : v.pages ≡ p ∷ ps) (empty : is_valid (v.ptes (slot t i)) ≡ false) where
    pub p_spare : (g p ≡ unused) × (p % 4096 ≡ 0)
    p_spare = tree.spare p (ground (arith, some_left))

    pub grow-read :
        (u j : ℕ)
        → g u ≢ unused
        → j < 512
        → read_pte (slot u j) (grow t i p ps v)
          ≡ (if u == t && j == i then some (pa2pte p + 1) else read_pte (slot u j) v)
    unfolding read_pte
    grow-read u j a x = ground (
      arith,
      put_pte-read tree t u p i j (pa2pte p + 1) used a p_spare.0 p_spare.1 small x,
      link p p_spare.1,
    )

    pub grow-fresh : (j : ℕ) → j < 512 → read_pte (slot p j) (grow t i p ps v) ≡ none
    unfolding read_pte
    grow-fresh j x =
        ground (arith, put_pte-fresh tree t p i j (pa2pte p + 1) used p_spare.0 p_spare.1 small x)

    was_empty : read_pte (slot t i) v ≡ none
    unfolding read_pte
    was_empty = rw empty

    root_used : g root ≢ unused
    root_used = ground (arith, tree.at_root)

    -- The walk of an address through the upper entry that was linked.
    through_top :
        (va : ℕ) → root ≡ t → px2 va ≡ i → lookup root (grow t i p ps v) va ≡ lookup root v va
    unfolding lookup
    through_top va a b = ground (
      arith,
      grow-read root (px2 va) root_used (px-split va).0,
      grow-fresh (px1 va) (px-split va).1,
      was_empty,
      link p p_spare.1,
      a,
      b,
    )

    -- The walk through the middle entry that was linked.
    through_mid :
        (va e : ℕ)
        → ((root == t) && (px2 va == i)) ≡ false
        → read_pte (slot root (px2 va)) v ≡ some e
        → pte2pa e ≡ t
        → px1 va ≡ i
        → lookup root (grow t i p ps v) va ≡ lookup root v va
    unfolding lookup
    through_mid va e n h a b = ground (
      arith,
      grow-read root (px2 va) root_used (px-split va).0,
      grow-read t (px1 va) used (px-split va).1,
      grow-fresh (px0 va) (px-split va).2,
      was_empty,
      link p p_spare.1,
      n,
      h,
      a,
      b,
    )

    -- A walk that does not meet the new link.
    past :
        (va : ℕ)
        → ((k : ℕ) → g t ≢ low k)
        → ((root == t) && (px2 va == i)) ≡ false
        → ((e : ℕ)
            → read_pte (slot root (px2 va)) v ≡ some e
            → ((pte2pa e == t) && (px1 va == i)) ≡ false)
        → lookup root (grow t i p ps v) va ≡ lookup root v va
    past va upper there off =
        lookup_cong root va v (grow t i p ps v)
          (ground (arith, grow-read root (px2 va) root_used (px-split va).0, there))
          (λ e h.
            let met : g (pte2pa e) ≢ unused = ground (arith, mid_table tree va e h) in
            ground (arith, grow-read (pte2pa e) (px1 va) met (px-split va).1, off e h))
          (λ e f h k.
            let last : g (pte2pa f) ≡ low (px2 va * 512 + px1 va) = low_table tree va e f h k in
            let met : g (pte2pa f) ≢ unused = ground (arith, last) in
            let apart : pte2pa f ≢ t = λ q. upper (px2 va * 512 + px1 va) (ap g (sym q) ∙ last) in
            ground (arith, grow-read (pte2pa f) (px0 va) met (px-split va).2, apart))

    -- No walk meets the new link but those of its range, which stay without an entry.
    pub lookup-grow :
        ((k : ℕ) → g t ≢ low k) → (va : ℕ) → lookup root (grow t i p ps v) va ≡ lookup root v va
    lookup-grow upper va = elim (Bool-cases ((root == t) && (px2 va == i))) [
      | inl here ↦ through_top va (ground (arith, here)) (ground (arith, here))
      | inr there ↦ elim (Option-cases (read_pte (slot root (px2 va)) v)) [
        | inl nothing ↦ past va upper there (λ e h. ground (arith, nothing, h))
        | inr (e, h) ↦ elim (Bool-cases ((pte2pa e == t) && (px1 va == i))) [
          | inl here ↦ through_mid va e there h (ground (arith, here)) (ground (arith, here))
          | inr off ↦ past va upper there (λ e' h'. ground (arith, h, h', off))
        ]
      ]
    ]

    -- The new table's place.
    unfoldable pub settle : Place → ℕ → Place
    settle at q = if q == p then at else g q

    grown :
        (u j : ℕ)
        → g u ≢ unused
        → j < 512
        → (grow t i p ps v).ptes (slot u j)
          ≡ (if u == t && j == i then pa2pte p + 1 else v.ptes (slot u j))
    grown u j a x = put_pte-read tree t u p i j (pa2pte p + 1) used a p_spare.0 p_spare.1 small x

    grown_fresh : (j : ℕ) → j < 512 → (grow t i p ps v).ptes (slot p j) ≡ 0
    grown_fresh j x = put_pte-fresh tree t p i j (pa2pte p + 1) used p_spare.0 p_spare.1 small x

    -- The tree with the new table in its place.
    pub grow-IsTree :
        (at : Place)
        → at ≢ unused
        → (t ≡ root → at ≡ mid i)
        → ((k : ℕ) → g t ≡ mid k → at ≡ low (k * 512 + i))
        → IsTree (settle at) root (grow t i p ps v)
    unfolding settle
    grow-IsTree at n r m = record {
      at_root = ground (arith, tree.at_root, p_spare.0);
      whole = λ q a. ground (arith, tree.whole q, p_spare.1);
      from_top = λ j x y.
          ground
            (arith, grown root j root_used x, link p p_spare.1, tree.from_top j x, p_spare.0, r);
      from_mid = λ q k j a x y. elim (Bool-cases (q == p)) [
        | inl new ↦ absurd (ground (arith, new, y, grown_fresh j x))
        | inr old ↦
            let was : g q ≡ mid k = ground (arith, a, old) in
            ground (
              arith,
              grown q j (ground (arith, was)) x,
              link p p_spare.1,
              tree.from_mid q k j was x,
              p_spare.0,
              m k,
              y,
              was,
            )
      ];
      spare = λ q h.
          let apart : q ≢ p = ground (arith, h, tree.once, some_left) in
          ground (arith, apart, tree.spare q, some_left);
      once = ground (arith, tree.once, some_left);
    }
