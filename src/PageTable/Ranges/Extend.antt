-- ===== src/PageTable/Ranges/Extend.antt =====
-- The loop of `uvm_alloc` of kernel/arch/vm.c: an address space with pages more.
use hsunix.Base.{
  false, ℕ, suc, ◌+◌, ◌-◌, ◌*◌, ◌/◌, ◌%◌, ◌≡◌, ◌≢◌, ◌<◌, ◌≤◌, arith, List, ◌∷◌, Option, none, some,
  false, leb, ltb, ◌&&◌, ◌==◌, Bool-cases, inl, inr, ap, sym, ◌∙◌, true, if◌then◌else◌,
}
use hsunix.Kmem.{pg_size}
use hsunix.PageTable.{Vm, max_va, entry}
use hsunix.PageTable.Space.{lookup, lookup-ptes, has}
use hsunix.PageTable.Ranges.Pages.{Within}
use hsunix.PageTable.Insert.{HasTree, Inserted}
use hsunix.PageTable.Ranges.{take_zeroed}
use hsunix.PageTable.Ranges.Unmap.{tables}
use hsunix.PageTable.Ranges.Peek.{lookup-page}

-- Page i of n from `start` on is mapped to `frame i` in the address space v', and had no entry in v; every
-- other address has in v' the entry that it has in v.
abbrev pub IsMapped : (ℕ → ℕ) → ℕ → ℕ → ℕ → ℕ → Vm → Vm → Type 0
IsMapped frame root n start flag v v' =
    (va : ℕ)
    → va < max_va
    → ((start / 4096 ≤ va / 4096) × (va / 4096 < start / 4096 + n)
        → (lookup root v va ≡ none)
          × (lookup root v' va ≡ some (entry (frame (va / 4096 - start / 4096)) flag)))
      × ((leb (start / 4096) (va / 4096) && ltb (va / 4096) (start / 4096 + n)) ≡ false
          → lookup root v' va ≡ lookup root v va)

-- The frames are n different pages that were free in v and are not in v'.
abbrev pub AreTaken : (ℕ → ℕ) → ℕ → Vm → Vm → Type 0
AreTaken frame n v v' =
    ((i : ℕ) → i < n → (has (frame i) v.pages ≡ true) × (has (frame i) v'.pages ≡ false))
    × ((i j : ℕ) → i < n → j < n → frame i ≡ frame j → i ≡ j)

-- The address space v' is v with n pages from `start` on mapped, each to a free page of its own, where v
-- had none.
abbrev pub Extended : ℕ → ℕ → ℕ → ℕ → Vm → Vm → Type 0
Extended root n start flag v v' =
    (frame : ℕ → ℕ) × AreTaken frame n v v' × IsMapped frame root n start flag v v'

-- How the loop ends: at a page that is mapped already it does not return; else it has mapped the
-- pages, all of them or those before the one where it failed, and no page is free that was not.
abbrev pub AllocEnd : ℕ → ℕ → ℕ → ℕ → Vm → Option (Option ℕ × Vm) → Type 0
AllocEnd root n start flag v none = (k : ℕ) × (k < n) × (lookup root v (start + k * 4096) ≢ none)
AllocEnd root n start flag v (some (none, v')) =
    HasTree root (tables v') × Within v'.pages v.pages × Extended root n start flag v v'
AllocEnd root n start flag v (some (some addr, v')) =
    (k : ℕ) × (k < n)
    × (addr ≡ start + k * 4096)
    × HasTree root (tables v')
    × Within v'.pages v.pages
    × Extended root k start flag v v'

-- A page taken from the free ones.
pub taken-tree :
    (root p : ℕ) (ps : List ℕ) (v : Vm)
    → v.pages ≡ p ∷ ps
    → HasTree root v
    → HasTree root (take_zeroed p ps v)
taken-tree root p ps v e (g, tree) = (
  g,
  record {
    at_root = tree.at_root;
    whole = tree.whole;
    from_top = tree.from_top;
    from_mid = tree.from_mid;
    spare = λ q h. tree.spare q (ground (arith, h, e));
    once = ground (arith, tree.once, e);
  },
)

pub Extended-none :
    (root start flag : ℕ) (v v' : Vm)
    → ((va : ℕ) → va < max_va → lookup root v' va ≡ lookup root v va)
    → Extended root 0 start flag v v'
Extended-none root start flag v v' h = (
  λ i. 0,
  ((λ i l. absurd (omega (arith, l))), (λ i j l. absurd (omega (arith, l)))),
  λ va b. (λ r. absurd (omega (arith, r.0, r.1)), λ r. h va b),
)

module _ (root n start p flag : ℕ) (ps : List ℕ) (v w v₁ : Vm) (left : v.pages ≡ p ∷ ps)
    (alone : has p ps ≡ false) (fewer : Within v₁.pages ps) (whole : start % 4096 ≡ 0)
    (fits : start + suc n * 4096 ≤ max_va) (same : (a : ℕ) → w.ptes a ≡ v.ptes a)
    (put : Inserted root 1 start p flag w v₁) (vacant : lookup root w start ≡ none) where
  page_first :
      (va : ℕ)
      → va < max_va
      → va / 4096 ≡ start / 4096
      → (lookup root v va ≡ none) × (lookup root v₁ va ≡ some (entry p flag))
  page_first va b e =
      let page : va / 4096 * 4096 ≡ start = omega (arith, e, whole) in
      let free : lookup root w va ≡ none =
        sym (lookup-page root va w) ∙ ap (lookup root w) page ∙ vacant in
      let to : p + (va / 4096 - start / 4096) * 4096 ≡ p = omega (arith, e) in
      (
        sym (lookup-ptes root va v w same) ∙ free,
        ground (arith, put.1 va b, e, ap (λ q. entry q flag) to),
      )

  page_other :
      (va : ℕ) → va < max_va → va / 4096 ≢ start / 4096 → lookup root v₁ va ≡ lookup root v va
  page_other va b e = ground (arith, put.1 va b, e, lookup-ptes root va v w same)

  -- The frames of the first page and of those behind it.
  abbrev with_first : (ℕ → ℕ) → ℕ → ℕ
  with_first frame i = if i == 0 then p else frame (i - 1)

  first_other :
      (frame : ℕ → ℕ) (k : ℕ) (v' : Vm) → AreTaken frame k v₁ v' → (i : ℕ) → i < k → p ≢ frame i
  first_other frame k v' (taken, once) i l e =
      let (free, gone) = taken i l in
      let not_free : has p v₁.pages ≡ false = fewer p alone in
      absurd (ground (arith, free, not_free, e))

  AreTaken-next :
      (frame : ℕ → ℕ) (k : ℕ) (v' : Vm)
      → Within v'.pages v₁.pages
      → AreTaken frame k v₁ v'
      → AreTaken (with_first frame) (suc k) v v'
  AreTaken-next frame k v' rest (taken, once) = (
    λ i l. elim (Bool-cases (i == 0)) [
      | inl first ↦ rw first (ground (arith, left), rest p (fewer p alone))
      | inr later ↦
          let (free, gone) = taken (i - 1) (ground (arith, later, l)) in
          rw later (was_free (frame (i - 1)) free, gone)
    ],
    λ i j l m e. elim (Bool-cases (i == 0)) [
      | inl first ↦ elim (Bool-cases (j == 0)) [
        | inl both ↦ ground (arith, first, both)
        | inr later ↦ absurd (
            first_other frame k v' (taken, once) (j - 1) (ground (arith, later, m))
              (rw (first, later) at e))
      ]
      | inr later ↦ elim (Bool-cases (j == 0)) [
        | inl first ↦ absurd (
            first_other frame k v' (taken, once) (i - 1) (ground (arith, later, l))
              (sym (rw (later, first) at e)))
        | inr both ↦
            let same : i - 1 ≡ j - 1 =
              once (i - 1) (j - 1) (ground (arith, later, l)) (ground (arith, both, m))
                (rw (later, both) at e) in
            ground (arith, same, later, both)
      ]
    ],
  )
    where
      was_free : (q : ℕ) → has q v₁.pages ≡ true → has q v.pages ≡ true
      was_free q h = elim (Bool-cases (has q ps)) [
        | inl there ↦ ground (arith, left, there)
        | inr gone ↦ let lost = fewer q gone in absurd (ground (arith, lost, h))
      ]

  IsMapped-next :
      (frame : ℕ → ℕ) (k : ℕ) (v' : Vm)
      → IsMapped frame root k (start + pg_size) flag v₁ v'
      → IsMapped (with_first frame) root (suc k) start flag v v'
  IsMapped-next frame k v' rest va b = elim (Bool-cases (va / 4096 == start / 4096)) [
    | inl e ↦
        let page : va / 4096 ≡ start / 4096 = ground (arith, e) in
        let zeroth : (va / 4096 - start / 4096 == 0) ≡ true = ground (arith, page) in
        let first = page_first va b page in
        let kept = (rest va b).1 (ground (arith, page)) in
        (λ r. (first.0, rw zeroth (kept ∙ first.1)), λ r. absurd (ground (arith, page, r)))
    | inr e ↦
        let other : va / 4096 ≢ start / 4096 = ground (arith, e) in
        let same₁ = page_other va b other in
        (
          λ r.
              let (free, there) = (rest va b).0 (omega (arith, r.0, other), omega (arith, r.1)) in
              let later : (va / 4096 - start / 4096 == 0) ≡ false = ground (arith, r.0, other) in
              let place : va / 4096 - (start + pg_size) / 4096 ≡ va / 4096 - start / 4096 - 1 =
                omega (arith, r.0, other) in
              (sym same₁ ∙ free, rw later (rw place at there)),
          λ r. (rest va b).1 (ground (arith, r, other)) ∙ same₁,
        )
  ]

  Extended-next :
      (k : ℕ) (v' : Vm)
      → Within v'.pages v₁.pages
      → Extended root k (start + pg_size) flag v₁ v'
      → Extended root (suc k) start flag v v'
  Extended-next k v' rest (frame, taken, mapped) =
      (with_first frame, AreTaken-next frame k v' rest taken, IsMapped-next frame k v' mapped)

  Within-all : (l : List ℕ) → Within l v₁.pages → Within l v.pages
  Within-all l h q a = h q (fewer q (ground (arith, left, a)))

  vacant-next :
      (k : ℕ)
      → start + suc k * 4096 < max_va
      → lookup root v₁ (start + pg_size + k * 4096) ≡ lookup root v (start + suc k * 4096)
  vacant-next k h =
      let to : start + pg_size + k * 4096 ≡ start + suc k * 4096 = omega arith in
      rw to (page_other (start + suc k * 4096) h (omega (arith, whole)))

  pub end-next :
      (r : Option (Option ℕ × Vm))
      → AllocEnd root n (start + pg_size) flag v₁ r
      → AllocEnd root (suc n) start flag v r
  end-next none (k, l, used) =
      (suc k, omega (arith, l), λ e. used (vacant-next k (omega (arith, l, fits)) ∙ e))
  end-next (some (none, v')) (tree, rest, more) =
      (tree, Within-all v'.pages rest, Extended-next n v' rest more)
  end-next (some (some addr, v')) (k, l, at, tree, rest, more) = (
    suc k,
    omega (arith, l),
    omega (arith, at),
    tree,
    Within-all v'.pages rest,
    Extended-next k v' rest more,
  )
