-- ===== src/PathName/First.antt =====
-- Taking a path name apart from the front: `path_getfirst`, called again on what it leaves, as the
-- lookups of the file systems do.
use hsunix.Base.{
  ℕ, zero, suc, ◌≡◌, List, Option, ◌∷◌, replicate, length, ◌⊎◌, ◌<◌, [], none, ◌++◌, some, inr, inl,
  arith, refl, ◌∙◌, ap,
}
use hsunix.PathName.{slash, path_getfirst, copy_name, skip_slashes}
use hsunix.PathName.Scan.{IsName, Begins, skip_slashes-run, copy_name-name}
use mathlib.Core.Option

-- The names that repeated calls give, up to the first empty one, on fuel.
unfoldable pub all_names : ℕ → List ℕ → Option (List (List ℕ))
all_names zero path = none
all_names (suc f) path = elim (path_getfirst path) [
  | none ↦ none
  | some (c, rest) ↦ elim c [
    | [] ↦ some []
    | x ∷ c' ↦ Option.map (λ cs. (x ∷ c') ∷ cs) (all_names f rest)
  ]
]

-- Names, each behind a slash and k more.
abbrev pub joined : List (ℕ × List ℕ) → List ℕ → List ℕ
joined [] tail = tail
joined ((k, c) ∷ cs) tail = slash ∷ (replicate k slash ++ (c ++ joined cs tail))

abbrev pub names : List (ℕ × List ℕ) → List (List ℕ)
names [] = []
names ((k, c) ∷ cs) = c ∷ names cs

abbrev pub AreNames : List (ℕ × List ℕ) → Type 0
AreNames [] = Unit
AreNames ((k, c) ∷ cs) = IsName c × AreNames cs

-- What ends a name: a slash or the terminator.
abbrev pub Ends : List ℕ → Type 0
Ends [] = ⊥
Ends (e ∷ t) = (e ≡ slash) ⊎ (e ≡ 0)

pub Begins-name : (c t : List ℕ) → IsName c → Begins (c ++ t)
Begins-name [] t h = absurd (h.nonempty refl)
Begins-name (x ∷ c) t h = h.no_slash.0

pub path_getfirst-name :
    (k : ℕ) (c t : List ℕ)
    → IsName c
    → Ends t
    → path_getfirst (slash ∷ (replicate k slash ++ (c ++ t))) ≡ some (c, t)
unfolding path_getfirst skip_slashes
path_getfirst-name k c [] h e = absurd e
path_getfirst-name k c (x ∷ t) h e = ground (
  arith,
  skip_slashes-run k (c ++ (x ∷ t)) (Begins-name c (x ∷ t) h),
  copy_name-name c t x h.no_slash h.no_zero e,
)

path_getfirst-end :
    (k : ℕ) (r : List ℕ) → path_getfirst (replicate k slash ++ (0 ∷ r)) ≡ some ([], 0 ∷ r)
unfolding path_getfirst copy_name
path_getfirst-end k r = rw (skip_slashes-run k (0 ∷ r) (ground arith), path_getfirst)

pub Ends-joined :
    (cs : List (ℕ × List ℕ)) (j : ℕ) (r : List ℕ) → Ends (joined cs (replicate j slash ++ (0 ∷ r)))
Ends-joined [] zero r = inr refl
Ends-joined [] (suc j) r = inl refl
Ends-joined ((k, c) ∷ cs) j r = inl refl

all_names-cons :
    (f : ℕ) (path rest c : List ℕ) (x : ℕ)
    → path_getfirst path ≡ some (x ∷ c, rest)
    → all_names (suc f) path ≡ Option.map (λ cs. (x ∷ c) ∷ cs) (all_names f rest)
unfolding all_names
all_names-cons f path rest c x e = rw (e, all_names)

-- On an absolute path of names, with runs of slashes between and after them, repeated calls of
-- `path_getfirst` give exactly the names, in order, and then an empty one; one call for each name
-- and one more are enough.
pub path_getfirst-names :
    (cs : List (ℕ × List ℕ)) (j : ℕ) (r : List ℕ) (f : ℕ)
    → AreNames cs
    → length cs < f
    → all_names f (joined cs (replicate j slash ++ (0 ∷ r))) ≡ some (names cs)
unfolding all_names
path_getfirst-names cs j r zero h l = absurd (omega arith)
path_getfirst-names [] j r (suc f) h l = rw (path_getfirst-end j r, all_names)
path_getfirst-names ((k, []) ∷ cs) j r (suc f) h l = absurd (h.0.nonempty refl)
path_getfirst-names ((k, x ∷ c) ∷ cs) j r (suc f) h l =
    let rest = joined cs (replicate j slash ++ (0 ∷ r)) in
    all_names-cons f (slash ∷ (replicate k slash ++ ((x ∷ c) ++ rest))) rest c x
      (path_getfirst-name k (x ∷ c) rest h.0 (Ends-joined cs j r))
    ∙ ap (Option.map (λ ns. (x ∷ c) ∷ ns)) (path_getfirst-names cs j r f h.1 (omega arith))
