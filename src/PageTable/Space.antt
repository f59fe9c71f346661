-- ===== src/PageTable/Space.antt =====
-- The address space that the tables of kernel/arch/vm.c stand for.
use hsunix.Base.{
  ℕ, ◌+◌, ◌*◌, ◌%◌, ◌≡◌, ◌≢◌, ◌<◌, arith, List, [], ◌∷◌, Option, none, some, Bool, true, false, ltb,
  leb, ◌==◌, ◌||◌, ◌&&◌, if◌then◌else◌, ◌/◌, Option-cases, inl, inr, ap, ◌∙◌, sym, refl,
}
use hsunix.Kmem.{pg_size}
use hsunix.PageTable.{Vm, pte2pa, is_valid, slot, px2, px1, px0, put_pte, zero_page}

-- The valid entry that the tables hold for an address, if they do.
unfoldable pub read_pte : ℕ → Vm → Option ℕ
read_pte at v = if is_valid (v.ptes at) then some (v.ptes at) else none

unfoldable pub below : Option ℕ → ℕ → Vm → Option ℕ
unfolding read_pte
below none i v = none
below (some e) i v = read_pte (slot (pte2pa e) i) v

unfoldable pub lookup : ℕ → Vm → ℕ → Option ℕ
unfolding below
lookup pgtab v va = below (below (read_pte (slot pgtab (px2 va)) v) (px1 va) v) (px0 va) v

-- What a page is used for: nothing that the tables know, or the table of a range of addresses.
pub data Place : Type 0 where
  unused top : Place
  mid : ℕ → Place
  low : ℕ → Place

abbrev pub has : ℕ → List ℕ → Bool
has p [] = false
has p (q ∷ ps) = (q == p) || has p ps

abbrev pub Distinct : List ℕ → Type 0
Distinct [] = Unit
Distinct (p ∷ ps) = (has p ps ≡ false) × Distinct ps

-- Each valid entry of an upper table leads to the table of its own range; tables and free pages
-- are whole pages, and a free page is no table.
pub record IsTree (g : ℕ → Place) (root : ℕ) (v : Vm) : Type 0 where
  pub at_root : g root ≡ top
  pub whole : (t : ℕ) → g t ≢ unused → t % 4096 ≡ 0
  pub from_top :
      (i : ℕ)
      → i < 512
      → is_valid (v.ptes (slot root i)) ≡ true
      → g (pte2pa (v.ptes (slot root i))) ≡ mid i
  pub from_mid :
      (t j i : ℕ)
      → g t ≡ mid j
      → i < 512
      → is_valid (v.ptes (slot t i)) ≡ true
      → g (pte2pa (v.ptes (slot t i))) ≡ low (j * 512 + i)
  pub spare : (p : ℕ) → has p v.pages ≡ true → (g p ≡ unused) × (p % 4096 ≡ 0)
  pub once : Distinct v.pages

-- A slot of one table is no slot of another.
pub slot-eq :
    (t u i j : ℕ)
    → t % 4096 ≡ 0
    → u % 4096 ≡ 0
    → i < 512
    → j < 512
    → slot t i ≡ slot u j
    → (t ≡ u) × (i ≡ j)
slot-eq t u i j a b c d e = omega (arith, a, b, c, d, e)

slot-outside :
    (t p i : ℕ)
    → t % 4096 ≡ 0
    → p % 4096 ≡ 0
    → i < 512
    → t ≢ p
    → (leb p (slot t i) && ltb (slot t i) (p + pg_size)) ≡ false
slot-outside t p i a b c n = ground arith

slot-inside : (p i : ℕ) → i < 512 → (leb p (slot p i) && ltb (slot p i) (p + pg_size)) ≡ true
slot-inside p i c = ground arith

-- Where two states agree along the walk of an address they agree on the address.
pub lookup_cong :
    (root va : ℕ) (v w : Vm)
    → read_pte (slot root (px2 va)) w ≡ read_pte (slot root (px2 va)) v
    → ((e : ℕ)
        → read_pte (slot root (px2 va)) v ≡ some e
        → read_pte (slot (pte2pa e) (px1 va)) w ≡ read_pte (slot (pte2pa e) (px1 va)) v)
    → ((e f : ℕ)
        → read_pte (slot root (px2 va)) v ≡ some e
        → read_pte (slot (pte2pa e) (px1 va)) v ≡ some f
        → read_pte (slot (pte2pa f) (px0 va)) w ≡ read_pte (slot (pte2pa f) (px0 va)) v)
    → lookup root w va ≡ lookup root v va
unfolding lookup
lookup_cong root va v w h k l = elim (Option-cases (read_pte (slot root (px2 va)) v)) [
  | inl a ↦ ground (arith, h, a)
  | inr (e, a) ↦ elim (Option-cases (read_pte (slot (pte2pa e) (px1 va)) v)) [
    | inl b ↦ ground (arith, h, a, b, k e)
    | inr (f, b) ↦ ground (arith, h, a, b, k e, l e f)
  ]
]

pub read_pte-ptes : (at : ℕ) (v w : Vm) → w.ptes at ≡ v.ptes at → read_pte at w ≡ read_pte at v
unfolding read_pte
read_pte-ptes at v w h = rw h refl

-- What else than entries changes is nothing to the address space.
pub lookup-ptes :
    (root va : ℕ) (v w : Vm) → ((a : ℕ) → w.ptes a ≡ v.ptes a) → lookup root w va ≡ lookup root v va
lookup-ptes root va v w h =
    lookup_cong root va v w (read_pte-ptes (slot root (px2 va)) v w (h (slot root (px2 va))))
      (λ e _. read_pte-ptes (slot (pte2pa e) (px1 va)) v w (h (slot (pte2pa e) (px1 va))))
      (λ e f _ _. read_pte-ptes (slot (pte2pa f) (px0 va)) v w (h (slot (pte2pa f) (px0 va))))

-- An entry that is read is valid and stands where it is read.
pub read_pte-some :
    (at e : ℕ) (v : Vm) → read_pte at v ≡ some e → (v.ptes at ≡ e) × (is_valid e ≡ true)
unfolding read_pte
read_pte-some at e v h = ground arith

-- The address, as the indices of its walk read it.
pub px-split :
    (va : ℕ)
    → (px2 va < 512)
      × (px1 va < 512)
      × (px0 va < 512)
      × ((px2 va * 512 + px1 va) * 512 + px0 va ≡ va / 4096 % 0x8000000)
px-split va = (omega arith, omega arith, omega arith, omega arith)

module _ {g : ℕ → Place} {root : ℕ} {v : Vm} (tree : IsTree g root v) where
  -- The tables on the walk of an address are those of its ranges.
  pub mid_table :
      (va e : ℕ) → read_pte (slot root (px2 va)) v ≡ some e → g (pte2pa e) ≡ mid (px2 va)
  mid_table va e h =
      ground
        (arith, read_pte-some (slot root (px2 va)) e v h, tree.from_top (px2 va) (px-split va).0)

  pub low_table :
      (va e f : ℕ)
      → read_pte (slot root (px2 va)) v ≡ some e
      → read_pte (slot (pte2pa e) (px1 va)) v ≡ some f
      → g (pte2pa f) ≡ low (px2 va * 512 + px1 va)
  low_table va e f h k = ground (
    arith,
    mid_table va e h,
    read_pte-some (slot (pte2pa e) (px1 va)) f v k,
    tree.from_mid (pte2pa e) (px2 va) (px1 va),
    (px-split va).1,
  )

  -- A write to one entry, and the zeroing of a page that is no table, as the entries of tables see
  -- them.
  pub put_pte-read :
      (t u p i j e : ℕ)
      → g t ≢ unused
      → g u ≢ unused
      → g p ≡ unused
      → p % 4096 ≡ 0
      → i < 512
      → j < 512
      → put_pte (slot t i) e (zero_page p v.ptes) (slot u j)
        ≡ (if u == t && j == i then e else v.ptes (slot u j))
  put_pte-read t u p i j e a b c d x y =
      let apart : u ≢ p = λ q. b (ap g q ∙ c) in
      ground (
        arith,
        slot-eq u t j i (tree.whole u b) (tree.whole t a) y x,
        slot-outside u p j (tree.whole u b) d y apart,
      )

  pub put_pte-fresh :
      (t p i j e : ℕ)
      → g t ≢ unused
      → g p ≡ unused
      → p % 4096 ≡ 0
      → i < 512
      → j < 512
      → put_pte (slot t i) e (zero_page p v.ptes) (slot p j) ≡ 0
  put_pte-fresh t p i j e a c d x y =
      let apart : p ≢ t = λ q. a (ap g (sym q) ∙ c) in
      ground (arith, slot-eq p t j i d (tree.whole t a) y x, slot-inside p j y)
