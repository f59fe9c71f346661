-- ===== src/RamFs/Keep.antt =====
-- Walks of kernel/fs/ram_fs/fs_ramfs.c in memory that has got new nodes.
use hsunix.Base.{
  ℕ, Option, List, ◌≡◌, none, some, [], ◌∷◌, ◌++◌, Option-cases, refl, suc, inl, inr, zero, ◌∙◌,
  sym, ap, true, arith,
}
use hsunix.RamFs.{find_child, RamNode, matched}
use hsunix.Base.Int.{ℤ, pos, negsuc}
use hsunix.Cstr.Terminated.{Lacks, cstr}
use hsunix.Cstr.{kstrcmp}
use hsunix.Cstr.Text.{kstrcmp-eq_iff}
use hsunix.RamFs.Walk.{follow-nil, follow-found, follow-dir, follow}
use hsunix.PathName.First.{names}

same_text : (c : List ℕ) → Lacks 0 c → kstrcmp (cstr c []) (cstr c []) ≡ some (pos 0)
same_text c h = (kstrcmp-eq_iff c c [] [] h h).1.1 refl

matched_mono :
    (r : Option ℤ) (a : ℕ) (x y : Option (Option ℕ)) (o : Option ℕ)
    → (x ≡ some o → y ≡ some o)
    → matched r a x ≡ some o
    → matched r a y ≡ some o
matched_mono none a x y o f h = cc
matched_mono (some (pos zero)) a x y o f h = h
matched_mono (some (pos (suc d))) a x y o f h = f h
matched_mono (some (negsuc d)) a x y o f h = f h

find_child-step :
    (ns : ℕ → Option RamNode) (a : ℕ) (more name : List ℕ) (n : RamNode)
    → ns a ≡ some n
    → find_child (a ∷ more) name ns
      ≡ matched (kstrcmp (cstr n.name []) (cstr name [])) a (find_child more name ns)
unfolding find_child
find_child-step ns a more name n there = rw (there, find_child) refl

find_child-gone :
    (ns : ℕ → Option RamNode) (a : ℕ) (more name : List ℕ)
    → ns a ≡ none
    → find_child (a ∷ more) name ns ≡ none
unfolding find_child
find_child-gone ns a more name gone = rw (gone, find_child) refl

-- One memory keeps the nodes of another: their names and kinds stay, and the children are the same but
-- for new ones at the end.
abbrev pub Keeps : (ℕ → Option RamNode) → (ℕ → Option RamNode) → Type 0
Keeps ns ms =
    (b : ℕ) (n : RamNode)
    → ns b ≡ some n
    → (m : RamNode) × (extra : List ℕ) × (ms b ≡ some m)
      × (m.name ≡ n.name)
      × (m.is_dir ≡ n.is_dir)
      × (m.sub ≡ n.sub ++ extra)

module _ (ns ms : ℕ → Option RamNode) (kept : Keeps ns ms) where
  -- A search that ends in the old memory ends alike in the new one.
  pub find_child-kept :
      (sub name : List ℕ) (o : Option ℕ)
      → find_child sub name ns ≡ some o
      → find_child sub name ms ≡ some o
  find_child-kept [] name o h = unfold find_child in h
  find_child-kept (a ∷ more) name o h = elim (Option-cases (ns a)) [
    | inl gone ↦ let e = find_child-gone ns a more name gone in cc
    | inr (n, there) ↦
        let (m, extra, e, same, dir, sub) = kept a n there in
        find_child-step ms a more name m e
        ∙ matched_mono (kstrcmp (cstr m.name []) (cstr name [])) a (find_child more name ns)
            (find_child more name ms) o (find_child-kept more name o)
            (ap (λ t. matched (kstrcmp (cstr t []) (cstr name [])) a (find_child more name ns)) same
              ∙ sym (find_child-step ns a more name n there)
              ∙ h)
  ]

  find_child-extra :
      (sub extra name : List ℕ) (b : ℕ)
      → find_child sub name ms ≡ some (some b)
      → find_child (sub ++ extra) name ms ≡ some (some b)
  find_child-extra [] extra name b h =
      let e : find_child [] name ms ≡ some none = unfold find_child in refl in cc
  find_child-extra (a ∷ more) extra name b h = elim (Option-cases (ms a)) [
    | inl gone ↦ let e = find_child-gone ms a more name gone in cc
    | inr (m, e) ↦
        find_child-step ms a (more ++ extra) name m e
        ∙ matched_mono (kstrcmp (cstr m.name []) (cstr name [])) a (find_child more name ms)
            (find_child (more ++ extra) name ms) (some b) (find_child-extra more extra name b)
            (sym (find_child-step ms a more name m e) ∙ h)
  ]

  pub follow-kept :
      (names : List (List ℕ)) (a p : ℕ)
      → follow ns a names ≡ some (some p)
      → follow ms a names ≡ some (some p)
  follow-kept [] a p h = follow-nil ms a ∙ sym (follow-nil ns a) ∙ h
  follow-kept (c ∷ names) a p h =
      let (n, b, there, dir, found, rest) = follow-found ns a p c names h in
      let (m, extra, e, same, kind, sub) = kept a n there in
      let again : find_child m.sub c ms ≡ some (some b) =
        ap (λ t. find_child t c ms) sub
        ∙ find_child-extra n.sub extra c b (find_child-kept n.sub c (some b) found) in
      follow-dir ms a c names m (some (some b)) e (kind ∙ dir) again ∙ follow-kept names b p rest

pub follow-append :
    (ns : ℕ → Option RamNode) (names : List (List ℕ)) (c : List ℕ) (a p b : ℕ) (n : RamNode)
    → follow ns a names ≡ some (some p)
    → ns p ≡ some n
    → n.is_dir ≡ true
    → find_child n.sub c ns ≡ some (some b)
    → follow ns a (names ++ (c ∷ [])) ≡ some (some b)
follow-append ns [] c a p b n h there dir found =
    let same : a ≡ p = ground (arith, follow-nil ns a) in
    follow-dir ns a c [] n (some (some b)) (ap ns same ∙ there) dir found ∙ follow-nil ns b
follow-append ns (d ∷ names) c a p b n h there dir found =
    let (m, x, at, is_dir, step, rest) = follow-found ns a p d names h in
    follow-dir ns a d (names ++ (c ∷ [])) m (some (some x)) at is_dir step
    ∙ follow-append ns names c x p b n rest there dir found

matched_passes :
    (r : Option ℤ) (a : ℕ) (x y : Option (Option ℕ))
    → matched r a x ≡ some none
    → (x ≡ some none) × (matched r a y ≡ y)
matched_passes none a x y h = cc
matched_passes (some (pos zero)) a x y h = cc
matched_passes (some (pos (suc d))) a x y h = (h, refl)
matched_passes (some (negsuc d)) a x y h = (h, refl)

-- A search that finds nothing goes on with what is put behind.
pub find_child-append :
    (ns : ℕ → Option RamNode) (sub extra c : List ℕ)
    → find_child sub c ns ≡ some none
    → find_child (sub ++ extra) c ns ≡ find_child extra c ns
find_child-append ns [] extra c h = refl
find_child-append ns (a ∷ more) extra c h = elim (Option-cases (ns a)) [
  | inl gone ↦ let e = find_child-gone ns a more c gone in cc
  | inr (n, there) ↦
      let (rest, passes) =
        matched_passes (kstrcmp (cstr n.name []) (cstr c [])) a (find_child more c ns)
          (find_child (more ++ extra) c ns) (sym (find_child-step ns a more c n there) ∙ h) in
      find_child-step ns a (more ++ extra) c n there
      ∙ passes
      ∙ find_child-append ns more extra c rest
]

pub find_child_self :
    (ns : ℕ → Option RamNode) (c : List ℕ) (a : ℕ) (n : RamNode)
    → Lacks 0 c
    → ns a ≡ some n
    → n.name ≡ c
    → find_child (a ∷ []) c ns ≡ some (some a)
find_child_self ns c a n lacks there name =
    find_child-step ns a [] c n there
    ∙ ap (λ t. matched (kstrcmp (cstr t []) (cstr c [])) a (find_child [] c ns)) name
    ∙ ap (λ r. matched r a (find_child [] c ns)) (same_text c lacks)
