-- ===== src/PathName/Walk.antt =====
-- The directories that a path name enters, one component after the other, and how the output of
-- `path_formater` (kernel/fs/virtual_fs/fs_path.c) stands for them.
use hsunix.Base.{
  ℕ, ◌≡◌, ◌≢◌, refl, sym, ◌∙◌, List, [], ◌∷◌, ◌++◌, Option, none, some, arith, replicate,
  append_assoc, append-nil,
}
use hsunix.Cstr.Terminated.{Lacks}
use mathlib.Core.List.{reverse, reverse-cons}
use hsunix.PathName.{slash, dot, push_all, drop_name, trim}
use hsunix.PathName.Scan.{IsName}

-- What stands between two slashes.
pub data Comp : Type 0 where
  current : Comp
  parent : Comp
  name : List ℕ → Comp

abbrev pub spelled : Comp → List ℕ
spelled current = dot ∷ []
spelled parent = dot ∷ dot ∷ []
spelled (name c) = c

abbrev pub IsComp : Comp → Type 0
IsComp current = Unit
IsComp parent = Unit
IsComp (name c) = IsName c × (c ≢ dot ∷ []) × (c ≢ dot ∷ dot ∷ [])

-- The directories entered, innermost first; there is no way up from the root.
unfoldable pub walk : List (List ℕ) → List Comp → Option (List (List ℕ))
walk st [] = some st
walk st (current ∷ cs) = walk st cs
walk [] (parent ∷ cs) = none
walk (d ∷ st) (parent ∷ cs) = walk st cs
walk st (name c ∷ cs) = walk (c ∷ st) cs

-- "/a/b/" and "/a/b"; the root is "/" both times.
unfoldable pub directory : List (List ℕ) → List ℕ
directory [] = slash ∷ []
directory (c ∷ st) = directory st ++ (c ++ (slash ∷ []))

unfoldable pub shown : List (List ℕ) → List ℕ
unfolding directory
shown [] = slash ∷ []
shown (c ∷ st) = directory st ++ c

-- Components, each with the slashes behind it beyond the first, and then `tail`.
abbrev pub spell : List (Comp × ℕ) → List ℕ → List ℕ
spell [] tail = tail
spell ((c, k) ∷ cs) tail = spelled c ++ (slash ∷ (replicate k slash ++ spell cs tail))

abbrev pub comps : List (Comp × ℕ) → List Comp
comps [] = []
comps ((c, k) ∷ cs) = c ∷ comps cs

abbrev pub AllComps : List (Comp × ℕ) → Type 0
AllComps [] = Unit
AllComps ((c, k) ∷ cs) = IsComp c × AllComps cs

abbrev pub AllNames : List (List ℕ) → Type 0
AllNames [] = Unit
AllNames (c ∷ st) = IsName c × AllNames st

-- What the code has written for a stack of directories, in reverse.
unfoldable pub out_of : List (List ℕ) → List ℕ
unfolding push_all
out_of [] = slash ∷ []
out_of (c ∷ st) = slash ∷ push_all c (out_of st)

pub drop_name-push_all :
    (c out : List ℕ) → Lacks slash c → drop_name (push_all c out) ≡ drop_name out
unfolding drop_name push_all
drop_name-push_all [] out h = refl
drop_name-push_all (x ∷ c) out h = ground (arith, drop_name-push_all c (x ∷ out))

pub drop_name-out_of : (st : List (List ℕ)) → drop_name (out_of st) ≡ out_of st
unfolding out_of drop_name
drop_name-out_of [] = refl
drop_name-out_of (c ∷ st) = refl

pub push_all-ne_nil : (c out : List ℕ) → out ≢ [] → push_all c out ≢ []
unfolding push_all
push_all-ne_nil [] out h = h
push_all-ne_nil (x ∷ c) out h = push_all-ne_nil c (x ∷ out) (λ e. cc)

pub out_of-ne_nil : (st : List (List ℕ)) → out_of st ≢ []
unfolding out_of
out_of-ne_nil [] e = cc
out_of-ne_nil (c ∷ st) e = cc

pub trim-push_all :
    (c out : List ℕ) → Lacks slash c → trim out ≡ out → trim (push_all c out) ≡ push_all c out
unfolding trim push_all
trim-push_all [] out h e = e
trim-push_all (x ∷ c) out h e = trim-push_all c (x ∷ out) h.1 (fresh out)
  where
    fresh : (o : List ℕ) → trim (x ∷ o) ≡ x ∷ o
    fresh [] = refl
    fresh (y ∷ o) = ground arith

pub trim-name : (c out : List ℕ) → IsName c → trim (push_all c out) ≡ push_all c out
unfolding trim push_all
trim-name [] out h = absurd (h.nonempty refl)
trim-name (x ∷ c) out h = trim-push_all c (x ∷ out) h.no_slash.1 (fresh out)
  where
    fresh : (o : List ℕ) → trim (x ∷ o) ≡ x ∷ o
    fresh [] = refl
    fresh (y ∷ o) = ground (arith, h.no_slash)

pub trim-slash : (o : List ℕ) → o ≢ [] → trim (slash ∷ o) ≡ o
unfolding trim
trim-slash [] h = absurd (h refl)
trim-slash (y ∷ o) h = refl

pub reverse-push_all : (c out : List ℕ) → reverse (push_all c out) ≡ reverse out ++ c
unfolding push_all
reverse-push_all [] out = sym (append-nil (reverse out))
reverse-push_all (x ∷ c) out = reverse-push_all c (x ∷ out) ∙ rw (reverse-cons x out, append_assoc)

pub reverse-out_of : (st : List (List ℕ)) → reverse (out_of st) ≡ directory st
unfolding out_of directory
reverse-out_of [] = refl
reverse-out_of (c ∷ st) = rw (
  reverse-cons slash (push_all c (out_of st)),
  reverse-push_all c (out_of st),
  reverse-out_of st,
  append_assoc,
)
