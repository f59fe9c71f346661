-- ===== src/RamFs/Names.antt =====
-- `_path_getnode` of kernel/fs/ram_fs/fs_ramfs.c against a walk along names that compares texts.
use hsunix.Base.{
  ℕ, suc, zero, List, [], ◌∷◌, Option, some, none, Bool, true, false, ◌≡◌, ◌==◌, ◌&&◌, arith, refl,
  if◌then◌else◌, Bool-cases, inl, inr, ◌∙◌, ap, Option-cases, sym, ◌↔◌,
}
use hsunix.Base.Int.{ℤ, pos, negsuc}
use hsunix.Cstr.{kstrcmp}
use hsunix.Cstr.Terminated.{Lacks, cstr}
use hsunix.Cstr.Text.{kstrcmp-eq_iff}
use hsunix.RamFs.{RamNode, Ramfs, find_child, matched, path_getnode}
use hsunix.RamFs.Walk.{
  follow, follow-gone, follow-file, follow-dir, follow-nil, AreShort, path_getnode-follow,
}
use hsunix.PathName.First.{AreNames, joined, names}

-- Are two texts the same?
abbrev pub eq_text : List ℕ → List ℕ → Bool
eq_text [] [] = true
eq_text [] (d ∷ t) = false
eq_text (c ∷ s) [] = false
eq_text (c ∷ s) (d ∷ t) = c == d && eq_text s t

-- The first node of a list whose name is the text, or null.
pub first_named : List ℕ → List ℕ → (ℕ → Option RamNode) → Option (Option ℕ)
first_named [] text ns = some none
first_named (a ∷ more) text ns = elim (ns a) [
  | none ↦ none
  | some n ↦ if eq_text n.name text then some (some a) else first_named more text ns
]

-- From a node along texts: the node at their end, or null where one of them is the name of no node in
-- the directory, or stands behind a file; `none` where a node is not in memory.
pub walk_names : (ℕ → Option RamNode) → ℕ → List (List ℕ) → Option (Option ℕ)
walk_names ns a [] = some (some a)
walk_names ns a (text ∷ rest) = elim (ns a) [
  | none ↦ none
  | some n ↦ elim n.is_dir [
    | false ↦ some none
    | true ↦ elim (first_named n.sub text ns) [
      | none ↦ none
      | some none ↦ some none
      | some (some b) ↦ walk_names ns b rest
    ]
  ]
]

-- The name of every node is a text, without the byte 0.
abbrev pub AreTexts : (ℕ → Option RamNode) → Type 0
AreTexts ns = (a : ℕ) (n : RamNode) → ns a ≡ some n → Lacks 0 n.name

eq_text_iff : (s t : List ℕ) → (eq_text s t ≡ true) ↔ (s ≡ t)
eq_text_iff [] [] = ground arith
eq_text_iff [] (d ∷ t) = ground arith
eq_text_iff (c ∷ s) [] = ground arith
eq_text_iff (c ∷ s) (d ∷ t) = ground (arith, eq_text_iff s t)

matched-equal :
    (o : Option ℤ) (a : ℕ) (rest : Option (Option ℕ))
    → o ≡ some (pos 0)
    → matched o a rest ≡ some (some a)
matched-equal o a rest e = rw e refl

matched-different :
    (o : Option ℤ) (a : ℕ) (rest : Option (Option ℕ))
    → (o ≡ none → ⊥)
    → (o ≡ some (pos 0) → ⊥)
    → matched o a rest ≡ rest
matched-different none a rest h k = absurd (h refl)
matched-different (some (pos zero)) a rest h k = absurd (k refl)
matched-different (some (pos (suc d))) a rest h k = refl
matched-different (some (negsuc d)) a rest h k = refl

matched-eq_text :
    (s t : List ℕ) (a : ℕ) (rest : Option (Option ℕ))
    → Lacks 0 s
    → Lacks 0 t
    → matched (kstrcmp (cstr s []) (cstr t [])) a rest
      ≡ (if eq_text s t then some (some a) else rest)
matched-eq_text s t a rest h k =
    let (ends, same) = kstrcmp-eq_iff s t [] [] h k in
    elim (Bool-cases (eq_text s t)) [
      | inl e ↦
          rw e (
            matched-equal (kstrcmp (cstr s []) (cstr t [])) a rest (same.1 ((eq_text_iff s t).0 e)))
      | inr e ↦ rw e (
          matched-different (kstrcmp (cstr s []) (cstr t [])) a rest ends
            (λ z. let r = (eq_text_iff s t).1 (same.0 z) in cc))
    ]

module _ (ns : ℕ → Option RamNode) (texts : AreTexts ns) where
  find_child-first_named :
      (sub text : List ℕ) → Lacks 0 text → find_child sub text ns ≡ first_named sub text ns
  unfolding find_child first_named
  find_child-first_named [] text h = refl
  find_child-first_named (a ∷ more) text h = elim (Option-cases (ns a)) [
    | inl gone ↦ rw (gone, find_child, first_named) refl
    | inr (n, there) ↦
        rw (there, find_child, first_named)
          (ap (matched (kstrcmp (cstr n.name []) (cstr text [])) a)
              (find_child-first_named more text h)
            ∙ matched-eq_text n.name text a (first_named more text ns) (texts a n there) h)
  ]

  walk_names-gone :
      (a : ℕ) (text : List ℕ) (rest : List (List ℕ))
      → ns a ≡ none
      → walk_names ns a (text ∷ rest) ≡ none
  unfolding walk_names
  walk_names-gone a text rest gone = rw (gone, walk_names) refl

  walk_names-file :
      (a : ℕ) (text : List ℕ) (rest : List (List ℕ)) (n : RamNode)
      → ns a ≡ some n
      → n.is_dir ≡ false
      → walk_names ns a (text ∷ rest) ≡ some none
  unfolding walk_names
  walk_names-file a text rest n there file = rw (there, walk_names) (rw file refl)

  walk_names-dir :
      (a : ℕ) (text : List ℕ) (rest : List (List ℕ)) (n : RamNode) (o : Option (Option ℕ))
      → ns a ≡ some n
      → n.is_dir ≡ true
      → first_named n.sub text ns ≡ o
      → walk_names ns a (text ∷ rest)
        ≡ elim o [ none ↦ none | some none ↦ some none | some (some b) ↦ walk_names ns b rest ]
  unfolding walk_names
  walk_names-dir a text rest n o there dir found = rw (there, walk_names) (rw dir (rw found refl))

  same_next :
      (rest : List (List ℕ)) (o : Option (Option ℕ))
      → ((b : ℕ) → follow ns b rest ≡ walk_names ns b rest)
      → ◌≡◌ {A = Option (Option ℕ)}
          (elim o [ none ↦ none | some none ↦ some none | some (some b) ↦ follow ns b rest ])
          (elim o [ none ↦ none | some none ↦ some none | some (some b) ↦ walk_names ns b rest ])
  same_next rest none next = refl
  same_next rest (some none) next = refl
  same_next rest (some (some b)) next = next b

  walk_names-nil : (a : ℕ) → walk_names ns a [] ≡ some (some a)
  unfolding walk_names
  walk_names-nil a = refl

  follow-walk_names :
      (cs : List (ℕ × List ℕ)) (a : ℕ)
      → AreNames cs
      → follow ns a (names cs) ≡ walk_names ns a (names cs)
  follow-walk_names [] a h = follow-nil ns a ∙ sym (walk_names-nil a)
  follow-walk_names ((k, c) ∷ cs) a h = elim (Option-cases (ns a)) [
    | inl gone ↦ follow-gone ns a c (names cs) gone ∙ sym (walk_names-gone a c (names cs) gone)
    | inr (n, there) ↦ elim (Bool-cases n.is_dir) [
      | inr file ↦
          follow-file ns a c (names cs) n there file
          ∙ sym (walk_names-file a c (names cs) n there file)
      | inl dir ↦
          let o = first_named n.sub c ns in
          follow-dir ns a c (names cs) n o there dir (find_child-first_named n.sub c h.0.no_zero)
          ∙ same_next (names cs) o (λ b. follow-walk_names cs b h.1)
          ∙ sym (walk_names-dir a c (names cs) n o there dir refl)
    ]
  ]

-- `_path_getnode` of an absolute path of names, of which each fits the buffer, walks from the root
-- along the names, each the first node in the list of a directory whose name is the same text: it is
-- the node at the end, or null where a name is missing or stands behind a file. The names of all nodes
-- are texts without the byte 0. The runs of slashes between names do not matter.
pub path_getnode-walk_names :
    (fs : Ramfs) (cs : List (ℕ × List ℕ)) (r : List ℕ)
    → AreTexts fs.nodes
    → AreNames cs
    → AreShort cs
    → path_getnode fs (joined cs (0 ∷ r)) ≡ walk_names fs.nodes 0 (names cs)
path_getnode-walk_names fs cs r texts h s =
    path_getnode-follow fs cs r h s ∙ follow-walk_names fs.nodes texts cs 0 h
