-- ===== src/PageTable/Write.antt =====
-- A write to the last entry of an address in the tables of kernel/arch/vm.c.
use hsunix.Base.{
  ℕ, ◌+◌, ◌*◌, ◌/◌, ◌≡◌, ◌≢◌, ◌<◌, arith, Option, none, some, true, false, ◌==◌, ◌&&◌,
  if◌then◌else◌, Bool-cases, inl, inr, ◌%◌, refl,
}
use hsunix.PageTable.{Vm, pte2pa, is_valid, slot, px2, px1, px0, put_pte, max_va}
use hsunix.PageTable.Space.{
  read_pte, lookup, Place, unused, mid, low, IsTree, has, Distinct, lookup_cong, px-split,
  mid_table, low_table, slot-eq,
}
use hsunix.PageTable.Find.{Walk}

-- An entry, as a reader sees it.
abbrev pub seen : ℕ → Option ℕ
seen e = if is_valid e then some e else none

module _ {g : ℕ → Place} {root : ℕ} {v : Vm} (tree : IsTree g root v) (va u : ℕ)
    (walk : Walk root va u v) where
  pub leaf_table : g u ≡ low (px2 va * 512 + px1 va)
  leaf_table = let (e, f, r, s, q) = walk in ground (arith, low_table tree va e f r s, q)

  module _ (e : ℕ) (w : Vm)
      (wrote : (a : ℕ) → w.ptes a ≡ put_pte (slot u (px0 va)) e v.ptes a) where
    pub read-written :
        (t i : ℕ)
        → g t ≢ unused
        → i < 512
        → read_pte (slot t i) w ≡ (if t == u && i == px0 va then seen e else read_pte (slot t i) v)
    unfolding read_pte
    read-written t i a x =
        let met : g u ≢ unused = ground (arith, leaf_table) in
        ground (
          arith,
          slot-eq t u i (px0 va) (tree.whole t a) (tree.whole u met) x (px-split va).2,
          wrote (slot t i),
        )

    written : (t i : ℕ) → g t ≢ unused → i < 512 → t ≢ u → w.ptes (slot t i) ≡ v.ptes (slot t i)
    written t i a x n =
        let met : g u ≢ unused = ground (arith, leaf_table) in
        ground (
          arith,
          slot-eq t u i (px0 va) (tree.whole t a) (tree.whole u met) x (px-split va).2,
          wrote (slot t i),
        )

    root_used : g root ≢ unused
    root_used = ground (arith, tree.at_root)

    -- The upper tables stand as they stood.
    top_same : (va' : ℕ) → read_pte (slot root (px2 va')) w ≡ read_pte (slot root (px2 va')) v
    top_same va' =
        ground
          (arith, read-written root (px2 va') root_used (px-split va').0, tree.at_root, leaf_table)

    mid_same :
        (va' a : ℕ)
        → read_pte (slot root (px2 va')) v ≡ some a
        → read_pte (slot (pte2pa a) (px1 va')) w ≡ read_pte (slot (pte2pa a) (px1 va')) v
    mid_same va' a h =
        let place : g (pte2pa a) ≡ mid (px2 va') = mid_table tree va' a h in
        ground (
          arith,
          read-written (pte2pa a) (px1 va') (ground (arith, place)) (px-split va').1,
          place,
          leaf_table,
        )

    lookup-here :
        (va' : ℕ)
        → px2 va' ≡ px2 va
        → px1 va' ≡ px1 va
        → px0 va' ≡ px0 va
        → lookup root w va' ≡ seen e
    unfolding lookup
    lookup-here va' a b c =
        let (x, y, r, s, q) = walk in
        ground (
          arith,
          a,
          b,
          c,
          r,
          s,
          q,
          top_same va,
          mid_same va x r,
          read-written u (px0 va) (ground (arith, leaf_table)) (px-split va).2,
        )

    -- Pages of one last table differ in the last index.
    other_entry :
        (va' t : ℕ)
        → g t ≡ low (px2 va' * 512 + px1 va')
        → (va' / 4096 == va / 4096) ≡ false
        → va < max_va
        → va' < max_va
        → ((t == u) && (px0 va' == px0 va)) ≡ false
    other_entry va' t place n b b' = elim (Bool-cases (t == u)) [
      | inr other ↦ rw other refl
      | inl same ↦
          let one : px2 va' * 512 + px1 va' ≡ px2 va * 512 + px1 va =
            ground (arith, place, leaf_table, same) in
          let apart : va' / 4096 ≢ va / 4096 = ground (arith, n) in
          let last : px0 va' ≢ px0 va = λ l. apart (omega (arith, one, l, b, b')) in
          ground (arith, last)
    ]

    lookup-there :
        (va' : ℕ)
        → (va' / 4096 == va / 4096) ≡ false
        → va < max_va
        → va' < max_va
        → lookup root w va' ≡ lookup root v va'
    lookup-there va' n b b' = lookup_cong root va' v w (top_same va') (mid_same va') (λ a f h k.
        let place : g (pte2pa f) ≡ low (px2 va' * 512 + px1 va') = low_table tree va' a f h k in
        let apart : ((pte2pa f == u) && (px0 va' == px0 va)) ≡ false =
          other_entry va' (pte2pa f) place n b b' in
        ground (
          arith,
          read-written (pte2pa f) (px0 va') (ground (arith, place)) (px-split va').2,
          apart,
        ))

    -- Only the addresses of the page see it.
    pub write-lookup :
        (va' : ℕ)
        → va < max_va
        → va' < max_va
        → lookup root w va' ≡ (if va' / 4096 == va / 4096 then seen e else lookup root v va')
    write-lookup va' b b' = elim (Bool-cases (va' / 4096 == va / 4096)) [
      | inl here ↦
          let p : va' / 4096 ≡ va / 4096 = ground (arith, here) in
          rw here (lookup-here va' (omega (arith, p)) (omega (arith, p)) (omega (arith, p)))
      | inr there ↦ rw there (lookup-there va' there b b')
    ]

    pub write-IsTree :
        ((p : ℕ) → has p w.pages ≡ true → (g p ≡ unused) × (p % 4096 ≡ 0))
        → Distinct w.pages
        → IsTree g root w
    write-IsTree sp on = record {
      at_root = tree.at_root;
      whole = tree.whole;
      from_top = λ i x y. ground (
        arith,
        written root i (ground (arith, tree.at_root)) x (ground (arith, tree.at_root, leaf_table)),
        tree.from_top i x,
        y,
      );
      from_mid = λ t j i a x y. ground (
        arith,
        written t i (ground (arith, a)) x (ground (arith, a, leaf_table)),
        tree.from_mid t j i a x,
        y,
      );
      spare = sp;
      once = on;
    }
