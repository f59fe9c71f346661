-- ===== src/RamFs/Paths.antt =====
-- The last name of a path and what stands before it, for kernel/fs/ram_fs/fs_ramfs.c.
use hsunix.Base.{
  ℕ, List, ◌≡◌, some, [], ◌∷◌, ◌++◌, refl, suc, zero, ◌∙◌, sym, ap, arith, replicate, length,
  append_assoc, ◌<◌,
}
use hsunix.RamFs.{Ramfs, path_getnode}
use hsunix.Cstr.Terminated.{Lacks, cstr}
use hsunix.RamFs.Walk.{follow-nil, follow, AreShort, path_getnode-follow, path_getnode-root}
use hsunix.PathName.First.{AreNames, names, joined}
use hsunix.PathName.Scan.{IsName}
use hsunix.PathName.{slash, path_getlast}
use hsunix.PathName.Last.{parent_of, path_getlast-split}

joined-append : (cs : List (ℕ × List ℕ)) (t : List ℕ) → joined cs t ≡ joined cs [] ++ t
joined-append [] t = refl
joined-append ((k, c) ∷ cs) t =
    ap (λ u. slash ∷ u)
      (ap (λ u. replicate k slash ++ (c ++ u)) (joined-append cs t)
        ∙ ap (λ u. replicate k slash ++ u) (sym (append_assoc c (joined cs []) t))
        ∙ sym (append_assoc (replicate k slash) (c ++ joined cs []) t))

pub joined-last :
    (cs : List (ℕ × List ℕ)) (c t : List ℕ)
    → joined (cs ++ ((0, c) ∷ [])) t ≡ joined cs (slash ∷ (c ++ t))
joined-last [] c t = refl
joined-last ((k, d) ∷ cs) c t =
    ap (λ u. slash ∷ (replicate k slash ++ (d ++ u))) (joined-last cs c t)

pub names-last :
    (cs : List (ℕ × List ℕ)) (c : List ℕ) → names (cs ++ ((0, c) ∷ [])) ≡ names cs ++ (c ∷ [])
names-last [] c = refl
names-last ((k, d) ∷ cs) c = ap (λ u. d ∷ u) (names-last cs c)

pub AreNames-last :
    (cs : List (ℕ × List ℕ)) (c : List ℕ) → AreNames cs → IsName c → AreNames (cs ++ ((0, c) ∷ []))
AreNames-last [] c h k = (k, tt)
AreNames-last ((k, d) ∷ cs) c h l = (h.0, AreNames-last cs c h.1 l)

pub AreShort-last :
    (cs : List (ℕ × List ℕ)) (c : List ℕ)
    → AreShort cs
    → length c < 32
    → AreShort (cs ++ ((0, c) ∷ []))
AreShort-last [] c h k = (k, tt)
AreShort-last ((k, d) ∷ cs) c h l = (h.0, AreShort-last cs c h.1 l)

Lacks-append : (s t : List ℕ) → Lacks 0 s → Lacks 0 t → Lacks 0 (s ++ t)
Lacks-append [] t h k = k
Lacks-append (x ∷ s) t h k = (h.0, Lacks-append s t h.1 k)

Lacks-slashes : (k : ℕ) (t : List ℕ) → Lacks 0 t → Lacks 0 (replicate k slash ++ t)
Lacks-slashes zero t h = h
Lacks-slashes (suc k) t h = (omega arith, Lacks-slashes k t h)

Lacks-joined :
    (cs : List (ℕ × List ℕ)) (t : List ℕ) → AreNames cs → Lacks 0 t → Lacks 0 (joined cs t)
Lacks-joined [] t h k = k
Lacks-joined ((k, c) ∷ cs) t h l = (
  omega arith,
  Lacks-slashes k (c ++ joined cs t)
      (Lacks-append c (joined cs t) h.0.no_zero (Lacks-joined cs t h.1 l)),
)

-- The parent text of a path is walked along all names but the last.
pub getlast-joined :
    (cs : List (ℕ × List ℕ)) (c r : List ℕ)
    → AreNames cs
    → IsName c
    → path_getlast (joined (cs ++ ((0, c) ∷ [])) (0 ∷ r)) ≡ some (parent_of (joined cs []), c)
getlast-joined cs c r h k =
    let shape : joined (cs ++ ((0, c) ∷ [])) (0 ∷ r) ≡ cstr (joined cs [] ++ (slash ∷ c)) r =
      joined-last cs c (0 ∷ r)
      ∙ joined-append cs (slash ∷ (c ++ (0 ∷ r)))
      ∙ sym (append_assoc (joined cs []) (slash ∷ c) (0 ∷ r)) in
    ap path_getlast shape
    ∙ (path_getlast-split (joined cs []) c r
        (Lacks-append (joined cs []) (slash ∷ c) (Lacks-joined cs [] h tt) (omega arith, k.no_zero))
        k.no_slash).0

pub getnode-parent :
    (fs : Ramfs) (cs : List (ℕ × List ℕ))
    → AreNames cs
    → AreShort cs
    → path_getnode fs (cstr (parent_of (joined cs [])) []) ≡ follow fs.nodes 0 (names cs)
getnode-parent fs [] h s = path_getnode-root fs ∙ sym (follow-nil fs.nodes 0)
getnode-parent fs ((k, c) ∷ cs) h s =
    ap (path_getnode fs) (sym (joined-append ((k, c) ∷ cs) (0 ∷ [])))
    ∙ path_getnode-follow fs ((k, c) ∷ cs) [] h s
