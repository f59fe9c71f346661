-- ===== src/RamFs/Walk.antt =====
-- `_path_getnode` of kernel/fs/ram_fs/fs_ramfs.c against a walk along a list of names.
use hsunix.Base.{
  ℕ, Option, List, some, ◌∷◌, length, ◌<◌, [], ◌≡◌, arith, suc, zero, none, replicate, ◌≤◌, false,
  length-append, ltb, true, ◌++◌, refl, Option-cases, inl, inr, Bool-cases, ◌∙◌, sym,
}
use hsunix.RamFs.{RamNode, enter, walk_path, find_child, path_getnode, Ramfs}
use hsunix.PathName.First.{AreNames, joined, names, Ends, path_getfirst-name, Ends-joined}
use hsunix.PathName.Scan.{IsName, skip_slashes-run}
use hsunix.PathName.{slash, skip_slashes}

-- From a node along names: the node at their end, or null where one of them is not in a directory.
unfoldable pub follow : (ℕ → Option RamNode) → ℕ → List (List ℕ) → Option (Option ℕ)
follow ns a [] = some (some a)
follow ns a (name ∷ rest) = elim (ns a) [
  | none ↦ none
  | some n ↦ elim n.is_dir [
    | false ↦ some none
    | true ↦ elim (find_child n.sub name ns) [
      | none ↦ none
      | some none ↦ some none
      | some (some b) ↦ follow ns b rest
    ]
  ]
]

-- Every name fits the buffer of the code.
abbrev pub AreShort : List (ℕ × List ℕ) → Type 0
AreShort [] = Unit
AreShort ((k, c) ∷ cs) = (length c < 32) × AreShort cs

module _ (ns : ℕ → Option RamNode) where
  enter-name :
      (f : ℕ) (n : RamNode) (c rest : List ℕ) (o : Option (Option ℕ))
      → find_child n.sub c ns ≡ o
      → IsName c
      → length c < 32
      → enter (walk_path f ns) n c rest ns
        ≡ elim o [ none ↦ none | some none ↦ some none | some (some b) ↦ walk_path f ns b rest ]
  unfolding enter
  enter-name f n [] rest o e h l = absurd (h.nonempty refl)
  enter-name f n (x ∷ c) rest o e h l =
      let fits : ltb (length (x ∷ c)) 32 ≡ true = ground (arith, l) in rw (fits, enter) (rw e refl)

  pub follow-gone :
      (a : ℕ) (c : List ℕ) (ds : List (List ℕ)) → ns a ≡ none → follow ns a (c ∷ ds) ≡ none
  unfolding follow
  follow-gone a c ds e = rw (e, follow) refl

  pub follow-file :
      (a : ℕ) (c : List ℕ) (ds : List (List ℕ)) (n : RamNode)
      → ns a ≡ some n
      → n.is_dir ≡ false
      → follow ns a (c ∷ ds) ≡ some none
  unfolding follow
  follow-file a c ds n there file = rw (there, follow) (rw file refl)

  pub follow-dir :
      (a : ℕ) (c : List ℕ) (ds : List (List ℕ)) (n : RamNode) (o : Option (Option ℕ))
      → ns a ≡ some n
      → n.is_dir ≡ true
      → find_child n.sub c ns ≡ o
      → follow ns a (c ∷ ds)
        ≡ elim o [ none ↦ none | some none ↦ some none | some (some b) ↦ follow ns b ds ]
  unfolding follow
  follow-dir a c ds n o there dir found = rw (there, follow) (rw dir (rw found refl))

  pub follow-nil : (a : ℕ) → follow ns a [] ≡ some (some a)
  unfolding follow
  follow-nil a = refl

  dir-found :
      (p : ℕ) (ds : List (List ℕ)) (o : Option (Option ℕ))
      → ◌≡◌ {A = Option (Option ℕ)}
          (elim o [ none ↦ none | some none ↦ some none | some (some b) ↦ follow ns b ds ])
          (some (some p))
      → (b : ℕ) × (o ≡ some (some b)) × (follow ns b ds ≡ some (some p))
  dir-found p ds none h = cc
  dir-found p ds (some none) h = cc
  dir-found p ds (some (some b)) h = (b, refl, h)

  -- A walk that ends at a node goes through a directory that has the first name.
  pub follow-found :
      (a p : ℕ) (c : List ℕ) (ds : List (List ℕ))
      → follow ns a (c ∷ ds) ≡ some (some p)
      → (n : RamNode) × (b : ℕ) × (ns a ≡ some n)
        × (n.is_dir ≡ true)
        × (find_child n.sub c ns ≡ some (some b))
        × (follow ns b ds ≡ some (some p))
  follow-found a p c ds h = elim (Option-cases (ns a)) [
    | inl gone ↦ let e = follow-gone a c ds gone in cc
    | inr (n, there) ↦ elim (Bool-cases n.is_dir) [
      | inr file ↦ let e = follow-file a c ds n there file in cc
      | inl dir ↦
          let (b, found, rest) =
            dir-found p ds (find_child n.sub c ns)
              (sym (follow-dir a c ds n (find_child n.sub c ns) there dir refl) ∙ h) in
          (n, b, there, dir, found, rest)
    ]
  ]

  -- A round of the code's walk and a step along the names.
  round-dir :
      (f a : ℕ) (k : ℕ) (c t : List ℕ) (n : RamNode) (o : Option (Option ℕ))
      → IsName c
      → length c < 32
      → Ends t
      → ns a ≡ some n
      → n.is_dir ≡ true
      → find_child n.sub c ns ≡ o
      → walk_path (suc f) ns a (slash ∷ (replicate k slash ++ (c ++ t)))
        ≡ elim o [ none ↦ none | some none ↦ some none | some (some b) ↦ walk_path f ns b t ]
  unfolding walk_path
  round-dir f a k c t n o h l e there dir found =
      rw (there, walk_path)
        (rw dir (rw (path_getfirst-name k c t h e) (enter-name f n c t o found h l)))

  round-follow :
      (f a : ℕ) (t : List ℕ) (ds : List (List ℕ)) (o : Option (Option ℕ))
      → ((b : ℕ) → walk_path f ns b t ≡ follow ns b ds)
      → ◌≡◌ {A = Option (Option ℕ)}
          (elim o [ none ↦ none | some none ↦ some none | some (some b) ↦ walk_path f ns b t ])
          (elim o [ none ↦ none | some none ↦ some none | some (some b) ↦ follow ns b ds ])
  round-follow f a t ds none next = refl
  round-follow f a t ds (some none) next = refl
  round-follow f a t ds (some (some b)) next = next b

  round-file :
      (f a : ℕ) (p : List ℕ) (n : RamNode)
      → ns a ≡ some n
      → n.is_dir ≡ false
      → walk_path (suc f) ns a (slash ∷ p) ≡ some none
  unfolding walk_path
  round-file f a p n there file = rw (there, walk_path) (rw file refl)

  round-gone : (f a : ℕ) (p : List ℕ) → ns a ≡ none → walk_path (suc f) ns a (slash ∷ p) ≡ none
  unfolding walk_path
  round-gone f a p e = rw (e, walk_path) refl

  pub walk_path-follow :
      (cs : List (ℕ × List ℕ)) (r : List ℕ) (f a : ℕ)
      → AreNames cs
      → AreShort cs
      → length cs < f
      → walk_path f ns a (joined cs (0 ∷ r)) ≡ follow ns a (names cs)
  walk_path-follow cs r zero a h s l = absurd (omega (arith, l))
  walk_path-follow [] r (suc f) a h s l = end
    where
      end : walk_path (suc f) ns a (0 ∷ r) ≡ follow ns a []
      end = unfold walk_path in unfold follow in refl
  walk_path-follow ((k, c) ∷ cs) r (suc f) a h s l =
      let t = joined cs (0 ∷ r) in
      let p = replicate k slash ++ (c ++ t) in
      let next = λ (b : ℕ). walk_path-follow cs r f b h.1 s.1 (omega (arith, l)) in
      elim (Option-cases (ns a)) [
        | inl gone ↦ round-gone f a p gone ∙ sym (follow-gone a c (names cs) gone)
        | inr (n, there) ↦ elim (Bool-cases n.is_dir) [
          | inl dir ↦
              let o = find_child n.sub c ns in
              round-dir f a k c t n o h.0 s.0 (Ends-joined cs 0 r) there dir refl
              ∙ round-follow f a t (names cs) o next
              ∙ sym (follow-dir a c (names cs) n o there dir refl)
          | inr file ↦ round-file f a p n there file ∙ sym (follow-file a c (names cs) n there file)
        ]
      ]

length-joined : (cs : List (ℕ × List ℕ)) (t : List ℕ) → length cs ≤ length (joined cs t)
length-joined [] t = omega arith
length-joined ((k, c) ∷ cs) t = omega (
  arith,
  length-joined cs t,
  length-append (replicate k slash) (c ++ joined cs t),
  length-append c (joined cs t),
)

-- `_path_getnode` of an absolute path of names, of which each fits the buffer, walks from the root
-- along the names, each the first child of a directory that has it: it is the node at the end, or null
-- where a name is missing or stands behind a file. The runs of slashes between names do not matter.
pub path_getnode-follow :
    (fs : Ramfs) (cs : List (ℕ × List ℕ)) (r : List ℕ)
    → AreNames cs
    → AreShort cs
    → path_getnode fs (joined cs (0 ∷ r)) ≡ follow fs.nodes 0 (names cs)
unfolding path_getnode follow
path_getnode-follow fs [] r h s = rw (skip_slashes-run 0 (0 ∷ r) (ground arith), path_getnode) refl
path_getnode-follow fs ((k, []) ∷ cs) r h s = absurd (h.0.nonempty refl)
path_getnode-follow fs ((k, zero ∷ c) ∷ cs) r h s = absurd (h.0.no_zero.0 refl)
path_getnode-follow fs ((k, suc x ∷ c) ∷ cs) r h s =
    let t = joined cs (0 ∷ r) in
    let skip : skip_slashes (joined ((k, suc x ∷ c) ∷ cs) (0 ∷ r)) ≡ some (suc x ∷ (c ++ t)) =
      skip_slashes-run (suc k) (suc x ∷ (c ++ t)) h.0.no_slash.0 in
    rw (skip, path_getnode)
      (walk_path-follow fs.nodes ((k, suc x ∷ c) ∷ cs) r
        (suc (length (joined ((k, suc x ∷ c) ∷ cs) (0 ∷ r)))) 0 h s
        (omega (arith, length-joined ((k, suc x ∷ c) ∷ cs) (0 ∷ r))))

pub path_getnode-root : (fs : Ramfs) → path_getnode fs (slash ∷ 0 ∷ []) ≡ some (some 0)
unfolding path_getnode
path_getnode-root fs = rw (skip_slashes-run 1 (0 ∷ []) (ground arith), path_getnode) refl
